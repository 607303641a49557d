-- ===== src/Vuln/Dpkg/Key.antt =====
-- internal/vuln/dpkg.go: the key of a version component, by which the loops order it. One round of
-- the key is the weights of a run of non-digits, the weight of its end, the number of digits
-- without leading zeros, and the digits.
use defendsec.Prelude.{
  ℕ, zero, suc, ◌+◌, ◌≡◌, refl, sym, Bool, true, false, List, [], ◌∷◌, ◌++◌, length, ◌==◌, ◌≢◌,
  Bool-cases, inl, inr, arith, if◌then◌else◌, compare, Ordering,
}
use defendsec.Prelude.Int.{ℤ, pos_part, neg_part, sign, eq_ℤ, ◌-ℤ◌}
use defendsec.Prelude.Cmp.{or_else, is_eq, lex}
use defendsec.Prelude.Text.{Bytes, is_digit}
use defendsec.Vuln.Dpkg.{
  is_letter, is_run, dpkg_order, Scan, decided, reached, run_round, compare_run, skip_zeros,
}

-- The tilde before the end of a run, then the letters, then everything else.
unfoldable pub weight : ℕ → ℕ
weight c =
    if is_run c then (if is_letter c then c + 1 else (if c == b'~' then 0 else c + 257)) else 1

weight-dpkg_order : (c : ℕ) → pos_part (dpkg_order c) + 1 ≡ weight c + neg_part (dpkg_order c)
unfolding weight dpkg_order
weight-dpkg_order c = ground arith

sign-order : (x y : ℕ) → sign (dpkg_order x -ℤ dpkg_order y) ≡ compare (weight x) (weight y)
unfolding ◌-ℤ◌
sign-order x y = ground (arith, weight-dpkg_order x, weight-dpkg_order y)

unfoldable pub run_key : Bytes → List ℕ → List ℕ
unfolding weight
run_key [] rest = weight 0 ∷ rest
run_key (c ∷ s) rest = weight c ∷ (if is_run c then run_key s rest else rest)

unfoldable pub after_run : Bytes → Bytes
after_run [] = []
after_run (c ∷ s) = if is_run c then after_run s else c ∷ s

unfoldable pub digits : Bytes → Bytes
digits [] = []
digits (c ∷ s) = if is_digit c then c ∷ digits s else []

unfoldable pub after_digits : Bytes → Bytes
after_digits [] = []
after_digits (c ∷ s) = if is_digit c then after_digits s else c ∷ s

-- The number that a run of digits stands for: the longer is the greater.
unfoldable pub number_key : Bytes → List ℕ → List ℕ
unfolding digits
number_key s rest = length (digits s) ∷ (digits s ++ rest)

unfoldable pub key : ℕ → Bytes → List ℕ
unfolding run_key after_run number_key after_digits skip_zeros
key zero s = []
key (suc n) s =
    run_key s (let d = skip_zeros (after_run s) in number_key d (key n (after_digits d)))

-- A scan agrees with the keys of the two sides, where they go on as `ra` and `rb`.
abbrev pub Agrees : Scan → Bytes → Bytes → (List ℕ → List ℕ → Ordering) → Type 0
Agrees (decided d) a' b' cmp = (ra rb : List ℕ) → cmp ra rb ≡ sign d
Agrees (reached a b) a' b' cmp = (a ≡ a') × (b ≡ b') × ((ra rb : List ℕ) → cmp ra rb ≡ lex ra rb)

-- Two bytes have the same order exactly if they have the same weight.
eq-order : (x y : ℕ) → eq_ℤ (dpkg_order x) (dpkg_order y) ≡ (weight x == weight y)
eq-order x y = ground (arith, weight-dpkg_order x, weight-dpkg_order y)

weight_end : (c : ℕ) → is_run c ≡ false → weight c ≡ 1
unfolding weight
weight_end c h = rw h

weight_run : (c : ℕ) → is_run c ≡ true → weight c ≢ 1
unfolding weight
weight_run c h = ground arith

abbrev one_key : Bool → ℕ → (List ℕ → List ℕ) → List ℕ → List ℕ
one_key run w key rest = w ∷ (if run then key rest else rest)

stopped :
    (o : Ordering) (stop : Scan) (a b : Bytes)
    → o ≡ Ordering.eq
    → Agrees stop a b lex
    → Agrees stop a b (λ ra rb. or_else o (lex ra rb))
stopped o stop a b h end = rw h end

compare-weight_end :
    (x y : ℕ) → is_run x ≡ false → is_run y ≡ false → compare (weight x) (weight y) ≡ Ordering.eq
compare-weight_end x y p q = rw (weight_end x p, weight_end y q)

module _ (rest : Scan) (a b : Bytes) (cmp : List ℕ → List ℕ → Ordering) where
  weighed :
      (o : Ordering) (z : ℤ)
      → sign z ≡ o
      → Agrees rest a b cmp
      → Agrees (if is_eq o then rest else decided z) a b (λ ra rb. or_else o (cmp ra rb))
  weighed Ordering.eq z h go_on = go_on
  weighed Ordering.lt z h go_on = λ ra rb. sym h
  weighed Ordering.gt z h go_on = λ ra rb. sym h

  outweighed :
      (o : Ordering) (z : ℤ)
      → sign z ≡ o
      → o ≢ Ordering.eq
      → Agrees (if is_eq o then rest else decided z) a b (λ ra rb. or_else o (cmp ra rb))
  outweighed Ordering.eq z h ne = absurd (ne refl)
  outweighed Ordering.lt z h ne = λ ra rb. sym h
  outweighed Ordering.gt z h ne = λ ra rb. sym h

compare_ne : (x y : ℕ) → x ≢ y → compare x y ≢ Ordering.eq
compare_ne x y h = λ e. ground arith

-- One round of the loop, for any continuation that agrees.
module _ (x y : ℕ) (rest stop : Scan) (ka kb : List ℕ → List ℕ) (a b sa sb : Bytes)
    (go_on : Agrees rest a b (λ ra rb. lex (ka ra) (kb rb))) (end : Agrees stop sa sb lex) where
  run_round-Agrees :
      Agrees
        (run_round x y rest stop)
        (if is_run x then a else sa)
        (if is_run y then b else sb)
        (λ ra rb. lex (one_key (is_run x) (weight x) ka ra) (one_key (is_run y) (weight y) kb rb))
  run_round-Agrees = elim (Bool-cases (is_run x)) [
    | inl p ↦ elim (Bool-cases (is_run y)) [
      | inl q ↦
          rw (p, q, eq-order x y)
            (weighed rest a b (λ ra rb. lex (ka ra) (kb rb)) (compare (weight x) (weight y)) _
              (sign-order x y) go_on)
      | inr q ↦
          rw (p, q, eq-order x y)
            (outweighed rest a sb (λ ra rb. lex (ka ra) rb) (compare (weight x) (weight y)) _
              (sign-order x y) (compare_ne _ _ (rw (weight_end y q) (weight_run x p))))
    ]
    | inr p ↦ elim (Bool-cases (is_run y)) [
      | inl q ↦
          rw (p, q, eq-order x y)
            (outweighed rest sa b (λ ra rb. lex ra (kb rb)) (compare (weight x) (weight y)) _
              (sign-order x y) (compare_ne _ _ (rw (weight_end x p) (λ e. weight_run y q (sym e)))))
      | inr q ↦
          rw (p, q)
            (stopped (compare (weight x) (weight y)) stop sa sb (compare-weight_end x y p q) end)
    ]
  ]

pub compare_run-Agrees :
    (a b : Bytes)
    → Agrees
        (compare_run a b)
        (after_run a)
        (after_run b)
        (λ ra rb. lex (run_key a ra) (run_key b rb))
unfolding compare_run after_run run_key
compare_run-Agrees [] [] = (refl, refl, λ ra rb. refl)
compare_run-Agrees [] (y ∷ b) =
    run_round-Agrees 0 y _ _ (run_key []) (run_key b) _ _ _ _ (compare_run-Agrees [] b)
      (refl, refl, λ ra rb. refl)
compare_run-Agrees (x ∷ a) [] =
    run_round-Agrees x 0 _ _ (run_key a) (run_key []) _ _ _ _ (compare_run-Agrees a [])
      (refl, refl, λ ra rb. refl)
compare_run-Agrees (x ∷ a) (y ∷ b) =
    run_round-Agrees x y _ _ (run_key a) (run_key b) _ _ _ _ (compare_run-Agrees a b)
      (refl, refl, λ ra rb. refl)
