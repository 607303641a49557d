-- ===== src/Prelude/Cmp.antt =====
-- Three-way comparisons and their laws: what makes a comparison a total preorder, the lexicographic
-- combination of two, the order of options with the missing value last, and the order of lists.
use Prim.Native.Nat.{ℕ, compare, Ordering}
use mathlib.Core.Path.{◌≡◌, refl, sym, ap, ap₂, ◌∙◌}
use mathlib.Core.Bool.{Bool, true, false}
use mathlib.Core.List.{List, [], ◌∷◌}
use mathlib.Core.Option.{Option, none, some}
use native.Mathlib.Omega.{arith}

abbrev pub flip : Ordering → Ordering
flip Ordering.lt = Ordering.gt
flip Ordering.eq = Ordering.eq
flip Ordering.gt = Ordering.lt

abbrev pub is_eq : Ordering → Bool
is_eq o = elim o [ Ordering.eq ↦ true | _ ↦ false ]

-- The first result, unless it is `eq`.
abbrev pub or_else : Ordering → Ordering → Ordering
or_else Ordering.lt o = Ordering.lt
or_else Ordering.eq o = o
or_else Ordering.gt o = Ordering.gt

-- `after o p` is the order of a and c where `o` is that of a and b, `p` that of b and c, if these
-- decide it; `holds` is true of every result where they do not.
abbrev pub Composes : Ordering → Ordering → Ordering → Type 0
Composes Ordering.eq p r = r ≡ p
Composes o Ordering.eq r = r ≡ o
Composes Ordering.lt Ordering.lt r = r ≡ Ordering.lt
Composes Ordering.gt Ordering.gt r = r ≡ Ordering.gt
Composes _ _ r = Unit

-- The laws of a total preorder.
pub record IsCmp {ℓ} {A : Type ℓ} (cmp : A → A → Ordering) : Type ℓ where
  pub refl_cmp : (a : A) → cmp a a ≡ Ordering.eq
  pub swap_cmp : (a b : A) → cmp b a ≡ flip (cmp a b)
  pub trans_cmp : (a b c : A) → Composes (cmp a b) (cmp b c) (cmp a c)

pub Composes-or_else :
    (a b c x y z : Ordering)
    → Composes a b c
    → Composes x y z
    → Composes (or_else a x) (or_else b y) (or_else c z)
Composes-or_else a b c x y z h k = ground arith

Composes-flip : (a b c : Ordering) → Composes a b c → Composes (flip a) (flip b) (flip c)
Composes-flip a b c h = ground arith

pub flip-or_else : (a b : Ordering) → flip (or_else a b) ≡ or_else (flip a) (flip b)
flip-or_else a b = ground arith

pub compare-IsCmp : IsCmp compare
compare-IsCmp = record {
  refl_cmp = λ a. ground arith;
  swap_cmp = λ a b. ground arith;
  trans_cmp = λ a b c. ground arith;
}

module _ {ℓ} {A : Type ℓ} where
  abbrev pub cmp_on {κ} : {B : Type κ} → (A → B) → (B → B → Ordering) → A → A → Ordering
  cmp_on f cmp a b = cmp (f a) (f b)

  abbrev pub cmp_then : (A → A → Ordering) → (A → A → Ordering) → A → A → Ordering
  cmp_then first second a b = or_else (first a b) (second a b)

  abbrev pub cmp_desc : (A → A → Ordering) → A → A → Ordering
  cmp_desc cmp a b = flip (cmp a b)

  -- A missing value goes last.
  abbrev pub cmp_option : (A → A → Ordering) → Option A → Option A → Ordering
  cmp_option cmp none none = Ordering.eq
  cmp_option cmp none (some b) = Ordering.gt
  cmp_option cmp (some a) none = Ordering.lt
  cmp_option cmp (some a) (some b) = cmp a b

  -- Element by element, a proper prefix first.
  abbrev pub cmp_list : (A → A → Ordering) → List A → List A → Ordering
  cmp_list cmp [] [] = Ordering.eq
  cmp_list cmp [] (y ∷ ys) = Ordering.lt
  cmp_list cmp (x ∷ xs) [] = Ordering.gt
  cmp_list cmp (x ∷ xs) (y ∷ ys) = or_else (cmp x y) (cmp_list cmp xs ys)

module _ {ℓ} {A : Type ℓ} {cmp : A → A → Ordering} (o : IsCmp cmp) where
  pub cmp_on-IsCmp {κ} : {B : Type κ} (f : B → A) → IsCmp (cmp_on f cmp)
  cmp_on-IsCmp f = record {
    refl_cmp = λ a. o.refl_cmp (f a);
    swap_cmp = λ a b. o.swap_cmp (f a) (f b);
    trans_cmp = λ a b c. o.trans_cmp (f a) (f b) (f c);
  }

  pub cmp_desc-IsCmp : IsCmp (cmp_desc cmp)
  cmp_desc-IsCmp = record {
    refl_cmp = λ a. ap flip (o.refl_cmp a);
    swap_cmp = λ a b. ap flip (o.swap_cmp a b);
    trans_cmp = λ a b c. Composes-flip _ _ _ (o.trans_cmp a b c);
  }

  pub cmp_then-IsCmp : {second : A → A → Ordering} → IsCmp second → IsCmp (cmp_then cmp second)
  cmp_then-IsCmp p = record {
    refl_cmp = λ a. ap₂ or_else (o.refl_cmp a) (p.refl_cmp a);
    swap_cmp = λ a b. ap₂ or_else (o.swap_cmp a b) (p.swap_cmp a b) ∙ sym (flip-or_else _ _);
    trans_cmp = λ a b c. Composes-or_else _ _ _ _ _ _ (o.trans_cmp a b c) (p.trans_cmp a b c);
  }

  cmp_option_refl : (a : Option A) → cmp_option cmp a a ≡ Ordering.eq
  cmp_option_refl none = refl
  cmp_option_refl (some a) = o.refl_cmp a

  cmp_option-swap : (a b : Option A) → cmp_option cmp b a ≡ flip (cmp_option cmp a b)
  cmp_option-swap none none = refl
  cmp_option-swap none (some b) = refl
  cmp_option-swap (some a) none = refl
  cmp_option-swap (some a) (some b) = o.swap_cmp a b

  cmp_option_trans :
      (a b c : Option A) → Composes (cmp_option cmp a b) (cmp_option cmp b c) (cmp_option cmp a c)
  cmp_option_trans (some a) (some b) (some c) = o.trans_cmp a b c
  cmp_option_trans (some a) (some b) none = ground (arith, o.refl_cmp a)
  cmp_option_trans a b c = ground arith

  pub cmp_option-IsCmp : IsCmp (cmp_option cmp)
  cmp_option-IsCmp = record {
    refl_cmp = cmp_option_refl;
    swap_cmp = cmp_option-swap;
    trans_cmp = cmp_option_trans;
  }

  cmp_list_refl : (xs : List A) → cmp_list cmp xs xs ≡ Ordering.eq
  cmp_list_refl [] = refl
  cmp_list_refl (x ∷ xs) = ap₂ or_else (o.refl_cmp x) (cmp_list_refl xs)

  cmp_list-swap : (xs ys : List A) → cmp_list cmp ys xs ≡ flip (cmp_list cmp xs ys)
  cmp_list-swap [] [] = refl
  cmp_list-swap [] (y ∷ ys) = refl
  cmp_list-swap (x ∷ xs) [] = refl
  cmp_list-swap (x ∷ xs) (y ∷ ys) =
      ap₂ or_else (o.swap_cmp x y) (cmp_list-swap xs ys) ∙ sym (flip-or_else _ _)

  cmp_list_trans :
      (xs ys zs : List A) → Composes (cmp_list cmp xs ys) (cmp_list cmp ys zs) (cmp_list cmp xs zs)
  cmp_list_trans (x ∷ xs) (y ∷ ys) (z ∷ zs) =
      Composes-or_else _ _ _ _ _ _ (o.trans_cmp x y z) (cmp_list_trans xs ys zs)
  cmp_list_trans xs ys zs = ground arith

  pub cmp_list-IsCmp : IsCmp (cmp_list cmp)
  cmp_list-IsCmp = record {
    refl_cmp = cmp_list_refl;
    swap_cmp = cmp_list-swap;
    trans_cmp = cmp_list_trans;
  }

-- Byte strings in Go's order.
abbrev pub lex : List ℕ → List ℕ → Ordering
lex = cmp_list compare

pub lex-IsCmp : IsCmp lex
lex-IsCmp = cmp_list-IsCmp compare-IsCmp

pub lex-eq : (a b : List ℕ) → lex a b ≡ Ordering.eq → a ≡ b
lex-eq [] [] h = refl
lex-eq [] (y ∷ b) h = cc
lex-eq (x ∷ a) [] h = cc
lex-eq (x ∷ a) (y ∷ b) h = ground (arith, lex-eq a b)
