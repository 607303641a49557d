-- ===== src/Lifecycle/Cycles.antt =====
-- internal/lifecycle/assess.go: cmpCycle is a total preorder.
use defendsec.Prelude.{◌+◌, ◌≡◌, refl, sym, ◌∙◌, ap, List, [], ◌∷◌, compare, Ordering, arith}
use mathlib.Core.Path.{ap₂}
use defendsec.Prelude.Int.{ℤ, pos, pos_part, neg_part, sign}
use defendsec.Prelude.Cmp.{or_else, IsCmp, Composes, Composes-or_else, flip, flip-or_else}
use defendsec.Prelude.Text.{Bytes}
use defendsec.Lifecycle.{number_of, cmp_number, cmp_parts, cmp_cycle, split_at}

abbrev cmp_ℤ : ℤ → ℤ → Ordering
cmp_ℤ x y = compare (pos_part x + neg_part y) (pos_part y + neg_part x)

cmp_ℤ-IsCmp : IsCmp cmp_ℤ
cmp_ℤ-IsCmp = record {
  refl_cmp = λ a. ground arith;
  swap_cmp = λ a b. ground arith;
  trans_cmp = λ a b c. ground arith;
}

sign-cmp_number : (x y r : ℤ) → sign (cmp_number x y r) ≡ or_else (cmp_ℤ x y) (sign r)
sign-cmp_number x y r = ground arith

-- The parts in order, where a missing one is 0.
parts_cmp : List Bytes → List Bytes → Ordering
parts_cmp [] [] = Ordering.eq
parts_cmp [] (q ∷ qs) = or_else (cmp_ℤ (pos 0) (number_of q)) (parts_cmp [] qs)
parts_cmp (p ∷ ps) [] = or_else (cmp_ℤ (number_of p) (pos 0)) (parts_cmp ps [])
parts_cmp (p ∷ ps) (q ∷ qs) = or_else (cmp_ℤ (number_of p) (number_of q)) (parts_cmp ps qs)

sign-cmp_parts : (ps qs : List Bytes) → sign (cmp_parts ps qs) ≡ parts_cmp ps qs
unfolding cmp_parts parts_cmp
sign-cmp_parts [] [] = refl
sign-cmp_parts [] (q ∷ qs) =
    sign-cmp_number (pos 0) (number_of q) _ ∙ ap (or_else _) (sign-cmp_parts [] qs)
sign-cmp_parts (p ∷ ps) [] =
    sign-cmp_number (number_of p) (pos 0) _ ∙ ap (or_else _) (sign-cmp_parts ps [])
sign-cmp_parts (p ∷ ps) (q ∷ qs) =
    sign-cmp_number (number_of p) (number_of q) _ ∙ ap (or_else _) (sign-cmp_parts ps qs)

parts_cmp_refl : (ps : List Bytes) → parts_cmp ps ps ≡ Ordering.eq
unfolding parts_cmp
parts_cmp_refl [] = refl
parts_cmp_refl (p ∷ ps) = ap₂ or_else (cmp_ℤ-IsCmp.refl_cmp (number_of p)) (parts_cmp_refl ps)

parts_cmp_swap : (ps qs : List Bytes) → parts_cmp qs ps ≡ flip (parts_cmp ps qs)
unfolding parts_cmp
parts_cmp_swap [] [] = refl
parts_cmp_swap [] (q ∷ qs) =
    ap₂ or_else (cmp_ℤ-IsCmp.swap_cmp (pos 0) (number_of q)) (parts_cmp_swap [] qs)
    ∙ sym (flip-or_else _ _)
parts_cmp_swap (p ∷ ps) [] =
    ap₂ or_else (cmp_ℤ-IsCmp.swap_cmp (number_of p) (pos 0)) (parts_cmp_swap ps [])
    ∙ sym (flip-or_else _ _)
parts_cmp_swap (p ∷ ps) (q ∷ qs) =
    ap₂ or_else (cmp_ℤ-IsCmp.swap_cmp (number_of p) (number_of q)) (parts_cmp_swap ps qs)
    ∙ sym (flip-or_else _ _)

one_part :
    (x y z : ℤ) (a b c : Ordering)
    → Composes a b c
    → Composes (or_else (cmp_ℤ x y) a) (or_else (cmp_ℤ y z) b) (or_else (cmp_ℤ x z) c)
one_part x y z a b c h =
    Composes-or_else (cmp_ℤ x y) (cmp_ℤ y z) (cmp_ℤ x z) a b c (cmp_ℤ-IsCmp.trans_cmp x y z) h

parts_cmp_trans :
    (ps qs rs : List Bytes) → Composes (parts_cmp ps qs) (parts_cmp qs rs) (parts_cmp ps rs)
unfolding parts_cmp
parts_cmp_trans [] [] rs = refl
parts_cmp_trans [] (q ∷ qs) [] =
    one_part (pos 0) (number_of q) (pos 0) _ _ _ (parts_cmp_trans [] qs [])
parts_cmp_trans [] (q ∷ qs) (r ∷ rs) =
    one_part (pos 0) (number_of q) (number_of r) _ _ _ (parts_cmp_trans [] qs rs)
parts_cmp_trans (p ∷ ps) [] [] =
    one_part (number_of p) (pos 0) (pos 0) _ _ _ (parts_cmp_trans ps [] [])
parts_cmp_trans (p ∷ ps) [] (r ∷ rs) =
    one_part (number_of p) (pos 0) (number_of r) _ _ _ (parts_cmp_trans ps [] rs)
parts_cmp_trans (p ∷ ps) (q ∷ qs) [] =
    one_part (number_of p) (number_of q) (pos 0) _ _ _ (parts_cmp_trans ps qs [])
parts_cmp_trans (p ∷ ps) (q ∷ qs) (r ∷ rs) =
    one_part (number_of p) (number_of q) (number_of r) _ _ _ (parts_cmp_trans ps qs rs)

-- The order of cycles.
abbrev pub cycle_cmp : Bytes → Bytes → Ordering
cycle_cmp a b = sign (cmp_cycle a b)

-- cmpCycle is a total preorder: a cycle equals itself, exchanging two cycles reverses the result, and
-- the results for three compose.
pub cmp_cycle-IsCmp : IsCmp (λ a b. sign (cmp_cycle a b))
unfolding cmp_cycle
cmp_cycle-IsCmp = record {
  refl_cmp = λ a. sign-cmp_parts _ _ ∙ parts_cmp_refl (split_at b'.' a);
  swap_cmp = λ a b.
      sign-cmp_parts _ _
      ∙ parts_cmp_swap (split_at b'.' a) (split_at b'.' b)
      ∙ ap flip (sym (sign-cmp_parts (split_at b'.' a) (split_at b'.' b)));
  trans_cmp = λ a b c.
      rw
        (
          sign-cmp_parts (split_at b'.' a) (split_at b'.' b),
          sign-cmp_parts (split_at b'.' b) (split_at b'.' c),
          sign-cmp_parts (split_at b'.' a) (split_at b'.' c),
        )
        (parts_cmp_trans (split_at b'.' a) (split_at b'.' b) (split_at b'.' c));
}
