-- ===== src/Prelude/Decimal.antt =====
-- Decimal texts, and texts that are cut at a byte or by their length.
use Prim.Native.Nat.{ℕ, zero, suc, ◌+◌, ◌*◌, ◌-◌, ◌/◌, ◌%◌, ◌<◌}
use mathlib.Core.Path.{◌≡◌, refl, ap, ◌∙◌}
use mathlib.Core.Logic.{◌≢◌, inl, inr}
use mathlib.Core.Option.{Option, none, some}
use mathlib.Core.List.{[], ◌∷◌, ◌++◌}
use native.Mathlib.Omega.{arith}
use defendsec.Prelude.Lists.{length}
use defendsec.Prelude.Tests.{ltb, Bool-cases}
use defendsec.Prelude.Text.{Bytes, digits_value, decimal_from, decimal}

abbrev times_ten : ℕ → Option ℕ → Option ℕ
times_ten d none = none
times_ten d (some v) = some (v * 10 + d)

digits_value-append :
    (acc d : ℕ) (xs : Bytes)
    → d < 10
    → digits_value acc (xs ++ (48 + d) ∷ []) ≡ times_ten d (digits_value acc xs)
unfolding digits_value
digits_value-append acc d [] h = ground arith
digits_value-append acc d (x ∷ xs) h =
    ground (arith, digits_value-append (acc * 10 + (x - 48)) d xs h)

digits_value-decimal_from : (f n : ℕ) → n < f → digits_value 0 (decimal_from f n) ≡ some n
unfolding decimal_from digits_value
digits_value-decimal_from zero n h = elim h [ ]
digits_value-decimal_from (suc f) n h = elim (Bool-cases (ltb n 10)) [
  | inl p ↦ rw p (ground arith)
  | inr p ↦ rw p (
      digits_value-append 0 (n % 10) (decimal_from f (n / 10)) (omega arith)
      ∙ ap (times_ten (n % 10)) (digits_value-decimal_from f (n / 10) (ground arith))
      ∙ ap some (omega arith))
]

pub decimal-injective : (m n : ℕ) → decimal m ≡ decimal n → m ≡ n
unfolding decimal
decimal-injective m n e =
    let p = digits_value-decimal_from (suc m) m (omega arith) in
    let q = digits_value-decimal_from (suc n) n (omega arith) in
    let r : digits_value 0 (decimal_from (suc m) m) ≡ digits_value 0 (decimal_from (suc n) n) =
      ap (digits_value 0) e in
    cc (p, q, r)

-- The byte is not in the text.
abbrev pub Without : ℕ → Bytes → Type 0
Without sep [] = Unit
Without sep (x ∷ xs) = (x ≢ sep) × Without sep xs

abbrev pub NoDigit : ℕ → Type 0
NoDigit sep = (d : ℕ) → d < 10 → 48 + d ≢ sep

Without-snoc :
    (sep : ℕ) (xs : Bytes) (x : ℕ) → Without sep xs → x ≢ sep → Without sep (xs ++ x ∷ [])
Without-snoc sep [] x h k = (k, tt)
Without-snoc sep (y ∷ xs) x h k = (h.0, Without-snoc sep xs x h.1 k)

decimal_from-Without : (sep f n : ℕ) → NoDigit sep → Without sep (decimal_from f n)
unfolding decimal_from
decimal_from-Without sep zero n d = tt
decimal_from-Without sep (suc f) n d = elim (Bool-cases (ltb n 10)) [
  | inl p ↦ rw p (d n (ground arith), tt)
  | inr p ↦ rw p (
      Without-snoc sep (decimal_from f (n / 10)) (48 + n % 10)
        (decimal_from-Without sep f (n / 10) d) (d (n % 10) (omega arith)))
]

pub decimal-Without : (sep n : ℕ) → NoDigit sep → Without sep (decimal n)
unfolding decimal
decimal-Without sep n d = decimal_from-Without sep (suc n) n d

-- What stands before the first such byte, and after it, is determined.
pub cut_split :
    (sep : ℕ) (xs ys r t : Bytes)
    → Without sep xs
    → Without sep ys
    → xs ++ sep ∷ r ≡ ys ++ sep ∷ t
    → (xs ≡ ys) × (r ≡ t)
cut_split sep [] [] r t h k e = ground arith
cut_split sep [] (y ∷ ys) r t h k e = ground arith
cut_split sep (x ∷ xs) [] r t h k e = ground arith
cut_split sep (x ∷ xs) (y ∷ ys) r t h k e = ground (arith, cut_split sep xs ys r t h.1 k.1)

-- Two texts of one length with something after them are determined.
pub length_split :
    (xs ys r t : Bytes) → length xs ≡ length ys → xs ++ r ≡ ys ++ t → (xs ≡ ys) × (r ≡ t)
length_split [] [] r t l e = (refl, e)
length_split [] (y ∷ ys) r t l e = absurd (omega arith)
length_split (x ∷ xs) [] r t l e = absurd (omega arith)
length_split (x ∷ xs) (y ∷ ys) r t l e = ground (arith, length_split xs ys r t (omega arith))
