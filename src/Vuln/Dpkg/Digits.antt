-- ===== src/Vuln/Dpkg/Digits.antt =====
-- internal/vuln/dpkg.go: the digit runs are ordered by their numbers, and one round of the outer
-- loop by one round of the key.
use defendsec.Prelude.{
  ℕ, zero, suc, ◌≡◌, refl, sym, ◌∙◌, ap, List, [], ◌∷◌, ◌++◌, length, arith, if◌then◌else◌, compare,
  Ordering, Bool-cases, inl, inr,
}
use defendsec.Prelude.Int.{ℤ, pos, sign, eq_ℤ, sub_ℕ, sign-sub}
use defendsec.Prelude.Cmp.{or_else, is_eq, lex}
use defendsec.Prelude.Text.{Bytes, is_digit}
use defendsec.Vuln.Dpkg.{
  Scan, decided, reached, after_scan, compare_run, skip_zeros, compare_digits, round,
}
use defendsec.Vuln.Dpkg.Key.{
  Agrees, after_run, run_key, compare_run-Agrees, digits, after_digits, number_key,
}

-- The order of two digit runs where `first_diff` was found before them.
abbrev number_cmp : ℤ → Bytes → Bytes → List ℕ → List ℕ → Ordering
number_cmp first_diff da db ra rb =
    or_else (compare (length da) (length db))
      (or_else (sign first_diff) (lex (da ++ ra) (db ++ rb)))

compare-suc : (m n : ℕ) → compare (suc m) (suc n) ≡ compare m n
compare-suc m n = ground arith

compare-zero : (n : ℕ) → (compare zero (suc n) ≡ Ordering.lt) × (compare (suc n) zero ≡ Ordering.gt)
compare-zero n = ground arith

eq_zero-sign : (z : ℤ) → eq_ℤ z (pos 0) ≡ is_eq (sign z)
eq_zero-sign z = ground arith

sign_next :
    (z : ℤ) (x y : ℕ) (o : Ordering)
    → or_else (sign (if eq_ℤ z (pos 0) then sub_ℕ x y else z)) o
      ≡ or_else (sign z) (or_else (compare x y) o)
sign_next z x y o = ground (arith, sign-sub x y)

-- Both runs are over.
both_over :
    (z : ℤ) (a b : Bytes)
    → Agrees (if eq_ℤ z (pos 0) then reached a b else decided z) a b (number_cmp z [] [])
both_over z a b = rw (eq_zero-sign z) (by_sign (sign z) refl)
  where
    by_sign :
        (o : Ordering)
        → sign z ≡ o
        → Agrees (if is_eq o then reached a b else decided z) a b (λ ra rb. or_else o (lex ra rb))
    by_sign Ordering.eq e = (refl, refl, λ ra rb. refl)
    by_sign Ordering.lt e = λ ra rb. sym e
    by_sign Ordering.gt e = λ ra rb. sym e

Agrees-subst :
    (r : Scan) (a b : Bytes) (f g : List ℕ → List ℕ → Ordering)
    → ((ra rb : List ℕ) → f ra rb ≡ g ra rb)
    → Agrees r a b f
    → Agrees r a b g
Agrees-subst (decided d) a b f g e h = λ ra rb. sym (e ra rb) ∙ h ra rb
Agrees-subst (reached a' b') a b f g e h = (h.0, h.1, λ ra rb. sym (e ra rb) ∙ h.2 ra rb)

both_digits :
    (z : ℤ) (x y : ℕ) (da db : Bytes) (ra rb : List ℕ)
    → number_cmp (if eq_ℤ z (pos 0) then sub_ℕ x y else z) da db ra rb
      ≡ number_cmp z (x ∷ da) (y ∷ db) ra rb
both_digits z x y da db ra rb =
    rw (compare-suc (length da) (length db)) (ap (or_else _) (sign_next z x y _))

compare_digits-Agrees :
    (first_diff : ℤ) (a b : Bytes)
    → Agrees
        (compare_digits first_diff a b)
        (after_digits a)
        (after_digits b)
        (number_cmp first_diff (digits a) (digits b))
unfolding compare_digits digits after_digits
compare_digits-Agrees z [] [] = both_over z [] []
compare_digits-Agrees z [] (y ∷ b) = elim (Bool-cases (is_digit y)) [
  | inl q ↦ rw q (λ ra rb. rw (compare-zero (length (digits b))).0)
  | inr q ↦ rw q (both_over z [] (y ∷ b))
]
compare_digits-Agrees z (x ∷ a) [] = elim (Bool-cases (is_digit x)) [
  | inl q ↦ rw q (λ ra rb. rw (compare-zero (length (digits a))).1)
  | inr q ↦ rw q (both_over z (x ∷ a) [])
]
compare_digits-Agrees z (x ∷ a) (y ∷ b) = elim (Bool-cases (is_digit x)) [
  | inl p ↦ elim (Bool-cases (is_digit y)) [
    | inl q ↦
        rw (p, q)
          (Agrees-subst _ _ _ _ _ (both_digits z x y (digits a) (digits b))
            (compare_digits-Agrees (if eq_ℤ z (pos 0) then sub_ℕ x y else z) a b))
    | inr q ↦ rw (p, q) (λ ra rb. rw (compare-zero (length (digits a))).1)
  ]
  | inr p ↦ elim (Bool-cases (is_digit y)) [
    | inl q ↦ rw (p, q) (λ ra rb. rw (compare-zero (length (digits b))).0)
    | inr q ↦ rw (p, q) (both_over z (x ∷ a) (y ∷ b))
  ]
]

-- Where the digits of a side start.
abbrev pub at_digits : Bytes → Bytes
at_digits s = skip_zeros (after_run s)

abbrev pub round_key : Bytes → List ℕ → List ℕ
round_key s rest = run_key s (number_key (at_digits s) rest)

then_digits-Agrees :
    (r : Scan) (a b : Bytes)
    → Agrees r (after_run a) (after_run b) (λ ra rb. lex (run_key a ra) (run_key b rb))
    → Agrees
        (after_scan r (λ a' b'. compare_digits (pos 0) (skip_zeros a') (skip_zeros b')))
        (after_digits (at_digits a))
        (after_digits (at_digits b))
        (λ ra rb. lex (round_key a ra) (round_key b rb))
unfolding number_key
then_digits-Agrees (decided d) a b h = λ ra rb. h _ _
then_digits-Agrees (reached a' b') a b (ea, eb, h) =
    rw (ea, eb)
      (Agrees-subst (compare_digits (pos 0) (at_digits a) (at_digits b)) _ _
        (number_cmp (pos 0) (digits (at_digits a)) (digits (at_digits b)))
        (λ ra rb. lex (round_key a ra) (round_key b rb)) (λ ra rb. sym (h _ _))
        (compare_digits-Agrees (pos 0) (at_digits a) (at_digits b)))

-- One round of the outer loop is one round of the key.
pub round-Agrees :
    (a b : Bytes)
    → Agrees
        (round a b)
        (after_digits (at_digits a))
        (after_digits (at_digits b))
        (λ ra rb. lex (round_key a ra) (round_key b rb))
unfolding round
round-Agrees a b = then_digits-Agrees (compare_run a b) a b (compare_run-Agrees a b)
