-- ===== src/Prelude/Sort.antt =====
-- Membership, insertion sort by a comparison, and sets as lists of their entries.
use Prim.Native.Nat.{suc, ◌+◌, Ordering}
use mathlib.Core.Path.{◌≡◌, refl}
use mathlib.Core.Logic.{◌⊎◌, inl, inr, ◌↔◌}
use mathlib.Core.Bool.{Bool, true, false}
use mathlib.Core.List.{List, [], ◌∷◌}
use native.Mathlib.Omega.{arith}
use defendsec.Prelude.Lists.{length}
use defendsec.Prelude.Tests.{if◌then◌else◌}
use defendsec.Prelude.Text.{Bytes, eq_bytes, eq_bytes_iff}

abbrev pub Among : {A : Type 0} → A → List A → Type 0
Among a [] = ⊥
Among a (b ∷ bs) = (a ≡ b) ⊎ Among a bs

abbrev pub is_later : Ordering → Bool
is_later Ordering.gt = true
is_later _ = false

module _ {A : Type 0} (cmp : A → A → Ordering) where
  unfoldable pub insert_by : A → List A → List A
  insert_by a [] = a ∷ []
  insert_by a (b ∷ bs) =
      let rest = insert_by a bs in if is_later (cmp a b) then b ∷ rest else a ∷ b ∷ bs

  unfoldable pub sort_by : List A → List A
  sort_by [] = []
  sort_by (a ∷ bs) = insert_by a (sort_by bs)

-- The entries of a set of texts, with one more.
unfoldable pub add_name : Bytes → List Bytes → List Bytes
unfolding eq_bytes
add_name n [] = n ∷ []
add_name n (x ∷ xs) = let rest = add_name n xs in if eq_bytes x n then x ∷ xs else x ∷ rest

module _ {A : Type 0} (cmp : A → A → Ordering) where
  length-insert_by : (a : A) (bs : List A) → length (insert_by cmp a bs) ≡ length bs + 1
  unfolding insert_by
  length-insert_by a [] = refl
  length-insert_by a (b ∷ bs) = by_test (length-insert_by a bs) (is_later (cmp a b))
    where
      by_test :
          length (insert_by cmp a bs) ≡ length bs + 1
          → (t : Bool)
          → length (if t then b ∷ insert_by cmp a bs else a ∷ b ∷ bs) ≡ suc (length bs) + 1
      by_test ih true = omega (arith, ih)
      by_test ih false = omega arith

  pub length-sort_by : (bs : List A) → length (sort_by cmp bs) ≡ length bs
  unfolding sort_by
  length-sort_by [] = refl
  length-sort_by (a ∷ bs) = omega (arith, length-insert_by a (sort_by cmp bs), length-sort_by bs)

  Among-insert_by : (a b : A) (bs : List A) → Among a (insert_by cmp b bs) ↔ ((a ≡ b) ⊎ Among a bs)
  unfolding insert_by
  Among-insert_by a b [] = (λ i. i, λ i. i)
  Among-insert_by a b (x ∷ bs) = by_test (Among-insert_by a b bs) (is_later (cmp b x))
    where
      by_test :
          (Among a (insert_by cmp b bs) ↔ ((a ≡ b) ⊎ Among a bs))
          → (t : Bool)
          → Among a (if t then x ∷ insert_by cmp b bs else b ∷ x ∷ bs)
            ↔ ((a ≡ b) ⊎ ((a ≡ x) ⊎ Among a bs))
      by_test ih true = (
        λ i. elim i [
          | inl e ↦ inr (inl e)
          | inr j ↦ elim (ih.0 j) [ inl e ↦ inl e | inr k ↦ inr (inr k) ]
        ],
        λ i. elim i [
          | inl e ↦ inr (ih.1 (inl e))
          | inr j ↦ elim j [ inl e ↦ inl e | inr k ↦ inr (ih.1 (inr k)) ]
        ],
      )
      by_test ih false = (λ i. i, λ i. i)

  -- Sorting keeps the entries.
  pub Among-sort_by : (a : A) (bs : List A) → Among a (sort_by cmp bs) ↔ Among a bs
  unfolding sort_by
  Among-sort_by a [] = (λ i. i, λ i. i)
  Among-sort_by a (b ∷ bs) =
      let (to, from) = Among-insert_by a b (sort_by cmp bs) in
      let (ih_to, ih_from) = Among-sort_by a bs in
      (
        λ i. elim (to i) [ inl e ↦ inl e | inr j ↦ inr (ih_to j) ],
        λ i. from (elim i [ inl e ↦ inl e | inr j ↦ inr (ih_from j) ]),
      )

pub Among-add_name :
    (a n : Bytes) (xs : List Bytes) → Among a (add_name n xs) ↔ ((a ≡ n) ⊎ Among a xs)
unfolding add_name
Among-add_name a n [] = (λ i. i, λ i. i)
Among-add_name a n (x ∷ xs) = by_test (Among-add_name a n xs) (eq_bytes x n) refl
  where
    by_test :
        (Among a (add_name n xs) ↔ ((a ≡ n) ⊎ Among a xs))
        → (t : Bool) → eq_bytes x n ≡ t
        → Among a (if t then x ∷ xs else x ∷ add_name n xs) ↔ ((a ≡ n) ⊎ ((a ≡ x) ⊎ Among a xs))
    by_test ih true e =
        let q = (eq_bytes_iff x n).0 e in
        (λ i. inr i, λ i. elim i [ inl f ↦ inl (rw q f) | inr j ↦ j ])
    by_test ih false e = (
      λ i. elim i [
        | inl f ↦ inr (inl f)
        | inr j ↦ elim (ih.0 j) [ inl f ↦ inl f | inr k ↦ inr (inr k) ]
      ],
      λ i. elim i [
        | inl f ↦ inr (ih.1 (inl f))
        | inr j ↦ elim j [ inl f ↦ inl f | inr k ↦ inr (ih.1 (inr k)) ]
      ],
    )
