-- ===== src/Sign/Window.antt =====
-- internal/sign/sign.go, Verify: which commands an agent accepts, and for how long.
use defendsec.Prelude.{◌≡◌, Bool, true, false, none, arith, ◌↔◌}
use defendsec.Prelude.Int.{ℤ, pos, ltb_ℤ, ◌+ℤ◌, ◌-ℤ◌, ◌≤ℤ◌, +ℤ_parts, -ℤ_parts}
use defendsec.Prelude.Text.{Bytes, is_empty}
use defendsec.Sign.{Envelope, canonical_command, verify_command}

-- A time that is set is above 0.
abbrev pub IsGiven : ℤ → Type 0
IsGiven t = ltb_ℤ (pos 0) t ≡ true

-- The command has not expired, and was issued at most 60 seconds ahead and 300 seconds ago.
abbrev pub InWindow : Envelope → ℤ → Type 0
InWindow e now =
    (IsGiven e.expires_unix → now ≤ℤ e.expires_unix)
    × (IsGiven e.issued_unix → (e.issued_unix ≤ℤ now +ℤ pos 60) × (now -ℤ e.issued_unix ≤ℤ pos 300))

not_below : (a b : ℤ) → (ltb_ℤ a b ≡ false) ↔ (b ≤ℤ a)
not_below a b = ground arith

-- Verify accepts a command exactly if it carries a signature, which holds for the command's signed
-- form, and the time is in its window: not past its expiry, and from 60 seconds before to 300 seconds
-- after it was issued, as far as these times are set.
pub verify_command_iff :
    (check : Bytes → Bytes → Bytes → Bool) (key : Bytes) (e : Envelope) (sig : Bytes) (now : ℤ)
    → (verify_command check key e sig now ≡ none)
      ↔ ((is_empty sig ≡ false) × (check key (canonical_command e) sig ≡ true) × InWindow e now)
unfolding verify_command
verify_command_iff check key e sig now = ground (
  arith,
  not_below e.expires_unix now,
  not_below (now +ℤ pos 60) e.issued_unix,
  not_below (pos 300) (now -ℤ e.issued_unix),
)

-- A command whose time of issue is set can be replayed for 360 seconds at most: of two times at which
-- it is accepted none is more than that behind the other.
pub replay_window :
    (check : Bytes → Bytes → Bytes → Bool) (key : Bytes) (e : Envelope) (sig : Bytes)
    (now later : ℤ)
    → IsGiven e.issued_unix
    → verify_command check key e sig now ≡ none
    → verify_command check key e sig later ≡ none
    → later ≤ℤ now +ℤ pos 360
replay_window check key e sig now later set first second =
    let (_, _, (_, from)) = (verify_command_iff check key e sig now).0 first in
    let (_, _, (_, until)) = (verify_command_iff check key e sig later).0 second in
    omega (
      arith,
      (from set).0,
      (until set).1,
      +ℤ_parts now (pos 60),
      -ℤ_parts later e.issued_unix,
      +ℤ_parts now (pos 360),
    )
