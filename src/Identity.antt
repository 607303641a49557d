-- ===== src/Identity.antt =====
-- internal/identity/totp.go and session.go: one-time passwords, and the state and the names of
-- accounts. HMAC-SHA1 and the decoding of base32 are parameters. Times and counters are integers: they
-- are far inside 64 bits. Randomness, password hashes and the enrollment address are not modelled.
pub mod Code
pub mod Totp
mod Tests
use defendsec.Prelude.{
  ℕ, zero, suc, ◌+◌, ◌-◌, ◌*◌, ◌/◌, ◌%◌, ◌^◌, Bool, true, false, not, ◌&&◌, ◌||◌, Option, none,
  some, List, [], ◌∷◌, ◌++◌, length, get_or, leb, ltb, ◌==◌, if◌then◌else◌,
}
use defendsec.Prelude.Int.{ℤ, pos, negsuc, sub_ℕ, ltb_ℤ, ◌+ℤ◌}
use defendsec.Prelude.Text.{Bytes, codes, is_empty, eq_bytes, is_digit, trim_space, to_lower}

-- TOTPCounter: the division of Go goes towards 0.
unfoldable pub totp_counter : ℤ → ℤ
totp_counter (pos n) = pos (n / 30)
totp_counter (negsuc n) = sub_ℕ 0 ((n + 1) / 30)

-- strings.ToUpper
abbrev pub upper_byte : ℕ → ℕ
upper_byte c = if leb b'a' c && leb c b'z' then c - 32 else c

unfoldable pub to_upper : Bytes → Bytes
to_upper [] = []
to_upper (c ∷ s) = upper_byte c ∷ to_upper s

-- The pattern of an int64 as a uint64, and its bytes from the highest one on.
abbrev pub as_uint64 : ℤ → ℕ
as_uint64 (pos n) = n % 2 ^ 64
as_uint64 (negsuc n) = (2 ^ 64 - 1) - n % 2 ^ 64

unfoldable pub big_endian : ℕ → ℕ → Bytes
big_endian zero n = []
big_endian (suc k) n = big_endian k (n / 256) ++ n % 256 ∷ []

-- The last `k` decimal digits of a number.
unfoldable pub digits_of : ℕ → ℕ → Bytes
digits_of zero n = []
digits_of (suc k) n = digits_of k (n / 10) ++ (48 + n % 10) ∷ []

-- Dynamic truncation: 31 bits from an offset that the last byte gives.
unfoldable pub truncate : Bytes → ℕ
truncate sum =
    let offset = get_or sum (length sum - 1) 0 % 16 in
    (get_or sum offset 0 * 2 ^ 24
      + get_or sum (offset + 1) 0 * 2 ^ 16
      + get_or sum (offset + 2) 0 * 2 ^ 8
      + get_or sum (offset + 3) 0)
    % 2 ^ 31

unfoldable pub all_digits_in : Bytes → Bool
all_digits_in [] = true
all_digits_in (c ∷ s) = is_digit c && all_digits_in s

pub record TotpResult : Type 0 where
  pub valid : Bool
  pub counter : ℤ

abbrev pub refused : TotpResult
refused = record { valid = false; counter = pos 0 }

-- `decode` is base32, `hmac key message` the 20 bytes of HMAC-SHA1.
module _ (decode : Bytes → Option Bytes) (hmac : Bytes → Bytes → Bytes) where
  -- The code for a key.
  unfoldable pub code_for : Bytes → ℤ → Bytes
  unfolding digits_of truncate big_endian
  code_for key counter =
      digits_of 6 (truncate (hmac key (big_endian 8 (as_uint64 counter))) % 10 ^ 6)

  -- totpCode; `none` is an error.
  unfoldable pub totp_code : Bytes → ℤ → Option Bytes
  unfolding to_upper trim_space is_empty code_for
  totp_code secret counter = elim (decode (to_upper (trim_space secret))) [
    | none ↦ none
    | some key ↦ if is_empty key then none else some (code_for key counter)
  ]

  -- A round of the loop: `rest` is what the later ones return.
  abbrev pub try_code : Bytes → Option Bytes → ℤ → TotpResult → TotpResult
  try_code code none counter rest = refused
  try_code code (some want) counter rest =
      if eq_bytes code want then record { valid = true; counter = counter } else rest

  unfoldable pub try_counters : Bytes → Bytes → ℤ → List ℤ → TotpResult
  unfolding totp_code eq_bytes
  try_counters secret code last_used [] = refused
  try_counters secret code last_used (c ∷ counters) =
      let rest = try_counters secret code last_used counters in
      if not (ltb_ℤ last_used c) then rest else try_code code (totp_code secret c) c rest

  -- VerifyTOTP: the newest step first.
  unfoldable pub verify_totp : Bytes → Bytes → ℤ → ℤ → TotpResult
  unfolding trim_space is_empty all_digits_in totp_counter ◌+ℤ◌ try_counters
  verify_totp secret raw_code now last_used =
      let code = trim_space raw_code in
      let current = totp_counter now in
      if is_empty secret || not (length code == 6)
      then refused
      else (if not (all_digits_in code)
          then refused
          else try_counters secret code last_used
              ((current +ℤ pos 1) ∷ (current +ℤ pos 0) ∷ (current +ℤ negsuc 0) ∷ []))

-- ValidRole
unfoldable pub valid_role : Bytes → Bool
unfolding eq_bytes
valid_role role = eq_bytes role (codes "admin") || eq_bytes role (codes "viewer")

-- NormalizeUsername
unfoldable pub normalize_username : Bytes → Bytes
unfolding to_lower trim_space
normalize_username name = to_lower (trim_space name)

abbrev pub is_name_byte : ℕ → Bool
is_name_byte c =
    leb b'a' c && leb c b'z' || is_digit c || (c == b'.' || c == b'-' || (c == b'_' || c == b'@'))

unfoldable pub all_name_bytes : Bytes → Bool
all_name_bytes [] = true
all_name_bytes (c ∷ s) = is_name_byte c && all_name_bytes s

pub data UsernameError : Type 0 where
  wrong_length wrong_byte : UsernameError

-- ValidUsername; `none` is no error.
unfoldable pub valid_username : Bytes → Option UsernameError
unfolding all_name_bytes
valid_username name =
    if ltb (length name) 2 || ltb 64 (length name)
    then some wrong_length
    else (if all_name_bytes name then none else some wrong_byte)
