-- ===== src/Vuln/Rpm.antt =====
-- internal/vuln/rpm.go: RPM version comparison. A string and an index into it are the bytes from
-- that index on.
pub mod Key
pub mod Order
pub mod Preorder
use defendsec.Prelude.{
  ℕ, zero, suc, ◌+◌, Bool, not, ◌&&◌, ◌||◌, Option, none, some, List, [], ◌∷◌, length, ◌==◌, ltb,
  if◌then◌else◌, Ordering,
}
use defendsec.Prelude.Int.{ℤ, pos, negsuc, eq_ℤ}
use defendsec.Prelude.Cmp.{lex}
use defendsec.Prelude.Text.{Bytes, is_digit, is_empty, eq_bytes, trim_space, split_first, atoi}
use defendsec.Vuln.Dpkg.{Scan, decided, reached, is_letter, byte_at, with_epoch}

-- isRPMAlnum
abbrev pub is_alnum : ℕ → Bool
is_alnum c = is_digit c || is_letter c

unfoldable pub skip_separators : Bytes → Bytes
skip_separators [] = []
skip_separators (c ∷ s) =
    if not (is_alnum c) && not (c == b'~') && not (c == b'^') then skip_separators s else c ∷ s

-- The bytes that the scan of a segment takes, and those that it leaves.
unfoldable pub segment : Bool → Bytes → Bytes
segment num [] = []
segment num (c ∷ s) =
    let rest = segment num s in if (if num then is_digit c else is_letter c) then c ∷ rest else []

unfoldable pub after_segment : Bool → Bytes → Bytes
after_segment num [] = []
after_segment num (c ∷ s) =
    let rest = after_segment num s in
    if (if num then is_digit c else is_letter c) then rest else c ∷ s

-- strings.TrimLeft(s, "0")
unfoldable pub trim_zeros : Bytes → Bytes
trim_zeros [] = []
trim_zeros (c ∷ s) = if c == b'0' then trim_zeros s else c ∷ s

-- The switch behind the loop.
abbrev pub ending : Bytes → Bytes → ℤ
ending [] [] = pos 0
ending [] (y ∷ b) = negsuc 0
ending (x ∷ a) b = pos 1

-- strings.Compare of two segments; the loop goes on where they are equal.
abbrev pub compare_text : Bytes → Bytes → Scan → Scan
compare_text a b go_on = elim (lex a b) [
  | Ordering.lt ↦ decided (negsuc 0)
  | Ordering.eq ↦ go_on
  | Ordering.gt ↦ decided (pos 1)
]

abbrev pub compare_numbers : Bytes → Bytes → Scan → Scan
compare_numbers a b go_on =
    if length a == length b
    then compare_text a b go_on
    else (if ltb (length b) (length a) then decided (pos 1) else decided (negsuc 0))

-- Both sides have a segment or the second has one of the other type.
unfoldable pub compare_segments : Bytes → Bytes → Scan
unfolding segment after_segment trim_zeros is_empty
compare_segments a b =
    let num = is_digit (byte_at a) in
    let go_on = reached (after_segment num a) (after_segment num b) in
    if is_empty (segment num b)
    then (if num then decided (pos 1) else decided (negsuc 0))
    else (if num
        then compare_numbers (trim_zeros (segment num a)) (trim_zeros (segment num b)) go_on
        else compare_text (segment num a) (segment num b) go_on)

abbrev pub tail : Bytes → Bytes
tail [] = []
tail (c ∷ s) = s

-- The body of the loop behind the separators. A byte that is not there is 0, which is no marker.
unfoldable pub round_from : Bytes → Bytes → Scan
unfolding compare_segments is_empty
round_from a b =
    if byte_at a == b'~' || byte_at b == b'~'
    then (if not (byte_at a == b'~')
        then decided (pos 1)
        else (if not (byte_at b == b'~') then decided (negsuc 0) else reached (tail a) (tail b)))
    else (if byte_at a == b'^' || byte_at b == b'^'
        then (if is_empty a
            then decided (negsuc 0)
            else (if is_empty b
                then decided (pos 1)
                else (if not (byte_at a == b'^')
                    then decided (pos 1)
                    else (if not (byte_at b == b'^')
                        then decided (negsuc 0)
                        else reached (tail a) (tail b)))))
        else (if is_empty a || is_empty b then decided (ending a b) else compare_segments a b))

unfoldable pub cmp_loop : ℕ → Bytes → Bytes → Option ℤ
unfolding round_from skip_separators is_empty
cmp_loop zero a b = none
cmp_loop (suc f) a b =
    let again : Option ℤ = elim (round_from (skip_separators a) (skip_separators b)) [
      | decided d ↦ some d
      | reached a' b' ↦ cmp_loop f a' b'
    ] in
    if is_empty a && is_empty b then some (ending a b) else again

-- rpmVerCmp: `none` when the fuel runs out, which never happens (Order.rpm_ver_cmp-key).
unfoldable pub rpm_ver_cmp : Bytes → Bytes → Option ℤ
unfolding cmp_loop eq_bytes
rpm_ver_cmp a b = if eq_bytes a b then some (pos 0) else cmp_loop (length a + length b + 1) a b

pub record RpmVersion : Type 0 where
  pub epoch : ℕ
  pub version : Bytes
  pub release : Bytes

unfoldable pub has_release : RpmVersion → Bool
unfolding is_empty
has_release v = not (is_empty v.release)

abbrev pub with_release : ℕ × Bytes → Option (Bytes × Bytes) → RpmVersion
with_release (epoch, s) none = record { epoch = epoch; version = s; release = [] }
with_release (epoch, s) (some (before, rest)) = record {
  epoch = epoch;
  version = before;
  release = rest;
}

unfoldable pub parse_rpm : Bytes → RpmVersion
unfolding trim_space split_first atoi is_empty
parse_rpm raw =
    let s = trim_space raw in
    let (epoch, rest) = with_epoch s (split_first b':' s) in
    with_release (epoch, rest) (split_first b'-' rest)

abbrev pub then_release : Option ℤ → Option ℤ → Option ℤ
then_release none r = none
then_release (some c) r = if eq_ℤ c (pos 0) then r else some c

unfoldable pub compare_rpm : Bytes → Bytes → Option ℤ
compare_rpm a b =
    let va = parse_rpm a in
    let vb = parse_rpm b in
    if va.epoch == vb.epoch
    then then_release (rpm_ver_cmp va.version vb.version) (rpm_ver_cmp va.release vb.release)
    else (if ltb va.epoch vb.epoch then some (negsuc 0) else some (pos 1))
