-- ===== src/Vuln/Dpkg.antt =====
-- internal/vuln/dpkg.go: Debian version comparison. A string and an index into it are the bytes
-- from that index on, so that reading past the end is reading from the empty list.
pub mod Key
pub mod Digits
pub mod Order
pub mod Parts
pub mod Preorder
use defendsec.Prelude.{
  ℕ, zero, suc, ◌+◌, Bool, not, ◌&&◌, ◌||◌, Option, none, some, List, [], ◌∷◌, length, ◌==◌, leb,
  ltb, if◌then◌else◌,
}
use defendsec.Prelude.Int.{ℤ, pos, negsuc, sub_ℕ, ◌-ℤ◌, eq_ℤ}
use defendsec.Prelude.Text.{Bytes, is_digit, is_empty, trim_space, split_first, split_last, atoi}

-- isASCIILetter
abbrev pub is_letter : ℕ → Bool
is_letter c = leb b'a' c && leb c b'z' || leb b'A' c && leb c b'Z'

unfoldable pub normalize_sign : ℤ → ℤ
normalize_sign (pos zero) = pos 0
normalize_sign (pos (suc n)) = pos 1
normalize_sign (negsuc n) = negsuc 0

unfoldable pub dpkg_order : ℕ → ℤ
dpkg_order c =
    if is_digit c
    then pos 0
    else (if is_letter c
        then pos c
        else (if c == b'~' then negsuc 0 else (if c == 0 then pos 0 else pos (c + 256))))

-- byteAt(s, i)
abbrev pub byte_at : Bytes → ℕ
byte_at [] = 0
byte_at (c ∷ s) = c

-- Neither the terminator nor a digit.
abbrev pub is_run : ℕ → Bool
is_run c = not (c == 0) && not (is_digit c)

-- What a loop leaves: a result to return, or the positions that it has reached.
pub data Scan : Type 0 where
  decided : ℤ → Scan
  reached : Bytes → Bytes → Scan

abbrev pub run_round : ℕ → ℕ → Scan → Scan → Scan
run_round x y rest stop =
    if is_run x || is_run y
    then (if eq_ℤ (dpkg_order x) (dpkg_order y)
        then rest
        else decided (dpkg_order x -ℤ dpkg_order y))
    else stop

-- The loop over the leading runs of non-digits.
unfoldable pub compare_run : Bytes → Bytes → Scan
unfolding dpkg_order ◌-ℤ◌
compare_run [] [] = reached [] []
compare_run [] (y ∷ b) = run_round 0 y (compare_run [] b) (reached [] (y ∷ b))
compare_run (x ∷ a) [] = run_round x 0 (compare_run a []) (reached (x ∷ a) [])
compare_run (x ∷ a) (y ∷ b) = run_round x y (compare_run a b) (reached (x ∷ a) (y ∷ b))

unfoldable pub skip_zeros : Bytes → Bytes
skip_zeros [] = []
skip_zeros (c ∷ s) = if c == b'0' then skip_zeros s else c ∷ s

-- What follows the loop over the digits.
abbrev pub digits_end : ℤ → Bytes → Bytes → Scan
digits_end first_diff a b =
    if is_digit (byte_at a)
    then decided (pos 1)
    else (if is_digit (byte_at b)
        then decided (negsuc 0)
        else (if eq_ℤ first_diff (pos 0) then reached a b else decided first_diff))

-- The loop over the digits, and what follows it.
unfoldable pub compare_digits : ℤ → Bytes → Bytes → Scan
compare_digits first_diff (x ∷ a) (y ∷ b) =
    let rest = compare_digits (if eq_ℤ first_diff (pos 0) then sub_ℕ x y else first_diff) a b in
    if is_digit x && is_digit y then rest else digits_end first_diff (x ∷ a) (y ∷ b)
compare_digits first_diff a b = digits_end first_diff a b

abbrev pub after_scan : Scan → (Bytes → Bytes → Scan) → Scan
after_scan (decided d) next = decided d
after_scan (reached a b) next = next a b

-- One round of the outer loop.
unfoldable pub round : Bytes → Bytes → Scan
unfolding compare_run skip_zeros compare_digits
round a b =
    after_scan (compare_run a b) (λ a' b'. compare_digits (pos 0) (skip_zeros a') (skip_zeros b'))

-- The outer loop, with fuel; `none` when the fuel runs out.
unfoldable pub cmp_loop : ℕ → Bytes → Bytes → Option ℤ
unfolding round is_empty
cmp_loop zero a b = none
cmp_loop (suc f) a b =
    let again : Option ℤ = elim (round a b) [
      | decided d ↦ some d
      | reached a' b' ↦ cmp_loop f a' b'
    ] in
    if is_empty a && is_empty b then some (pos 0) else again

-- dpkgVerRevCmp: `none` when the loop does not end.
unfoldable pub dpkg_ver_rev_cmp : Bytes → Bytes → Option ℤ
unfolding cmp_loop
dpkg_ver_rev_cmp a b = cmp_loop (length a + length b + 1) a b

pub record DpkgVersion : Type 0 where
  pub epoch : ℕ
  pub upstream : Bytes
  pub revision : Bytes

unfoldable pub has_revision : DpkgVersion → Bool
unfolding is_empty
has_revision v = not (is_empty v.revision)

-- A prefix of digits before a colon that stands behind it: the epoch and the rest.
abbrev pub with_epoch : Bytes → Option (Bytes × Bytes) → ℕ × Bytes
with_epoch s none = (0, s)
with_epoch s (some (before, rest)) =
    if is_empty before
    then (0, s)
    else elim (atoi before) [ none ↦ (0, s) | some (pos n) ↦ (n, rest) | some (negsuc n) ↦ (0, s) ]

abbrev pub with_revision : ℕ × Bytes → Option (Bytes × Bytes) → DpkgVersion
with_revision (epoch, s) none = record { epoch = epoch; upstream = s; revision = [] }
with_revision (epoch, s) (some (before, rest)) = record {
  epoch = epoch;
  upstream = before;
  revision = rest;
}

unfoldable pub parse_dpkg : Bytes → DpkgVersion
unfolding trim_space split_first split_last atoi is_empty
parse_dpkg raw =
    let s = trim_space raw in
    let (epoch, rest) = with_epoch s (split_first b':' s) in
    with_revision (epoch, rest) (split_last b'-' rest)

abbrev pub then_revision : Option ℤ → Option ℤ → Option ℤ
then_revision none r = none
then_revision (some c) r =
    if eq_ℤ c (pos 0)
    then elim r [ none ↦ none | some d ↦ some (normalize_sign d) ]
    else some (normalize_sign c)

unfoldable pub compare_dpkg : Bytes → Bytes → Option ℤ
compare_dpkg a b =
    let va = parse_dpkg a in
    let vb = parse_dpkg b in
    if va.epoch == vb.epoch
    then then_revision (dpkg_ver_rev_cmp va.upstream vb.upstream)
        (dpkg_ver_rev_cmp va.revision vb.revision)
    else (if ltb va.epoch vb.epoch then some (negsuc 0) else some (pos 1))
