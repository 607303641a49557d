-- ===== src/Forward/Missing.antt =====
-- internal/forward/forward.go: a list without some of the elements of another, for what a full queue
-- loses.
use defendsec.Prelude.{
  ℕ, suc, ◌+◌, ◌≡◌, refl, sym, ap, List, [], ◌∷◌, ◌++◌, length, arith, ◌⊎◌, inl, inr,
}
use mathlib.Core.Path.{subst}

-- `xs` is `ys` without `n` of its elements, in the same order.
abbrev pub Missing {ℓ} : {A : Type ℓ} → List A → List A → ℕ → Type ℓ
Missing {A} xs [] n = (xs ≡ []) × (n ≡ 0)
Missing {A} xs (y ∷ ys) n =
    ((xs' : List A) × (xs ≡ y ∷ xs') × Missing xs' ys n) ⊎ ((m : ℕ) × (n ≡ suc m) × Missing xs ys m)

module _ {ℓ} {A : Type ℓ} where
  pub Missing-snoc :
      (xs ys : List A) (n : ℕ) (a : A) → Missing xs ys n → Missing (xs ++ a ∷ []) (ys ++ a ∷ []) n
  Missing-snoc xs [] n a (e, z) = inl ([], ap (λ l. l ++ a ∷ []) e, (refl, z))
  Missing-snoc xs (y ∷ ys) n a (inl (xs', e, h)) =
      inl (xs' ++ a ∷ [], ap (λ l. l ++ a ∷ []) e, Missing-snoc xs' ys n a h)
  Missing-snoc xs (y ∷ ys) n a (inr (m, e, h)) = inr (m, e, Missing-snoc xs ys m a h)

  head_tail : (x y : A) (xs ys : List A) → x ∷ xs ≡ y ∷ ys → (x ≡ y) × (xs ≡ ys)
  head_tail x y xs ys e = (cc, cc)

  pub Missing-remove :
      (front : List A) (a : A) (back ys : List A) (n : ℕ)
      → Missing (front ++ a ∷ back) ys n
      → Missing (front ++ back) ys (suc n)
  Missing-remove [] a back [] n (e, z) = cc
  Missing-remove (x ∷ front) a back [] n (e, z) = cc
  Missing-remove front a back (y ∷ ys) n (inr (m, e, h)) =
      inr (suc m, ap suc e, Missing-remove front a back ys m h)
  Missing-remove [] a back (y ∷ ys) n (inl (xs', e, h)) =
      inr (n, refl, subst (λ l. Missing l ys n) (sym (head_tail a y back xs' e).1) h)
  Missing-remove (x ∷ front) a back (y ∷ ys) n (inl (xs', e, h)) =
      let (same, rest) = head_tail x y (front ++ a ∷ back) xs' e in
      inl (
        front ++ back,
        ap (λ z. z ∷ (front ++ back)) same,
        Missing-remove front a back ys n (subst (λ l. Missing l ys n) (sym rest) h),
      )

  pub length-Missing : (xs ys : List A) (n : ℕ) → Missing xs ys n → length ys ≡ length xs + n
  length-Missing xs [] n (e, z) = rw (e, z) refl
  length-Missing xs (y ∷ ys) n (inl (xs', e, h)) = rw e (omega (arith, length-Missing xs' ys n h))
  length-Missing xs (y ∷ ys) n (inr (m, e, h)) = rw e (omega (arith, length-Missing xs ys m h))
