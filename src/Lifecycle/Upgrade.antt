-- ===== src/Lifecycle/Upgrade.antt =====
-- internal/lifecycle/assess.go: the candidates of upgradePath, sorted.
pub mod Choice
use defendsec.Prelude.{
  ℕ, ◌≡◌, refl, sym, ◌∙◌, ap, ◌≢◌, Bool, true, false, not, Option, none, some, List, [], ◌∷◌,
  Ordering, arith, if◌then◌else◌, ◌⊎◌, inl, inr, Bool-cases,
}
use defendsec.Prelude.Int.{ℤ, pos, ltb_ℤ, sign}
use defendsec.Prelude.Cmp.{Composes, flip}
use defendsec.Prelude.Text.{Bytes}
use defendsec.Lifecycle.{
  Release, is_newer, newer, insert, sort, pick, is_supported, stage_of, UpgradePath, upgrade_path,
  cmp_cycle,
}
use defendsec.Lifecycle.Cycles.{cycle_cmp, cmp_cycle-IsCmp}

abbrev pub In : Release → List Release → Type 0
In r [] = ⊥
In r (s ∷ rs) = (r ≡ s) ⊎ In r rs

pub newer-In :
    (cycle day : Bytes) (r : Release) (rels : List Release)
    → In r (newer cycle day rels)
    → In r rels × (is_newer cycle day r ≡ true)
unfolding newer
newer-In cycle day r [] i = absurd i
newer-In cycle day r (s ∷ rels) i =
    by_test (newer-In cycle day r rels) (is_newer cycle day s) refl i
  where
    by_test :
        (In r (newer cycle day rels) → In r rels × (is_newer cycle day r ≡ true))
        → (t : Bool) → is_newer cycle day s ≡ t
        → In r (if t then s ∷ newer cycle day rels else newer cycle day rels)
        → In r (s ∷ rels) × (is_newer cycle day r ≡ true)
    by_test ih true e (inl same) = (inl same, ap (is_newer cycle day) same ∙ e)
    by_test ih true e (inr later) = let (j, n) = ih later in (inr j, n)
    by_test ih false e i = let (j, n) = ih i in (inr j, n)

pub In-newer :
    (cycle day : Bytes) (r : Release) (rels : List Release)
    → In r rels
    → is_newer cycle day r ≡ true
    → In r (newer cycle day rels)
unfolding newer
In-newer cycle day r [] i n = absurd i
In-newer cycle day r (s ∷ rels) (inl e) n =
    let here : is_newer cycle day s ≡ true = ap (is_newer cycle day) (sym e) ∙ n in rw here (inl e)
In-newer cycle day r (s ∷ rels) (inr i) n =
    by_test (In-newer cycle day r rels i n) (is_newer cycle day s)
  where
    by_test :
        (In r (newer cycle day rels))
        → (t : Bool) → In r (if t then s ∷ newer cycle day rels else newer cycle day rels)
    by_test ih true = inr (ih)
    by_test ih false = ih

insert-In : (r s : Release) (rs : List Release) → In r (insert s rs) → (r ≡ s) ⊎ In r rs
unfolding insert
insert-In r s [] i = i
insert-In r s (x ∷ rs) i = by_test (insert-In r s rs) (ltb_ℤ (cmp_cycle x.cycle s.cycle) (pos 0)) i
  where
    by_test :
        (In r (insert s rs) → (r ≡ s) ⊎ In r rs)
        → (t : Bool) → In r (if t then x ∷ insert s rs else s ∷ x ∷ rs)
        → (r ≡ s) ⊎ In r (x ∷ rs)
    by_test ih true (inl e) = inr (inl e)
    by_test ih true (inr i) = elim (ih i) [ inl e ↦ inl e | inr j ↦ inr (inr j) ]
    by_test ih false i = i

In-insert : (r s : Release) (rs : List Release) → (r ≡ s) ⊎ In r rs → In r (insert s rs)
unfolding insert
In-insert r s [] i = i
In-insert r s (x ∷ rs) i = by_test (In-insert r s rs) (ltb_ℤ (cmp_cycle x.cycle s.cycle) (pos 0)) i
  where
    by_test :
        ((r ≡ s) ⊎ In r rs → In r (insert s rs))
        → (t : Bool) → (r ≡ s) ⊎ In r (x ∷ rs)
        → In r (if t then x ∷ insert s rs else s ∷ x ∷ rs)
    by_test ih true (inl e) = inr (ih (inl e))
    by_test ih true (inr (inl e)) = inl e
    by_test ih true (inr (inr j)) = inr (ih (inr j))
    by_test ih false i = i

pub sort-In : (r : Release) (rs : List Release) → In r (sort rs) → In r rs
unfolding sort
sort-In r [] i = i
sort-In r (s ∷ rs) i = elim (insert-In r s (sort rs) i) [
  | inl e ↦ inl e
  | inr j ↦ inr (sort-In r rs j)
]

pub In-sort : (r : Release) (rs : List Release) → In r rs → In r (sort rs)
unfolding sort
In-sort r [] i = i
In-sort r (s ∷ rs) (inl e) = In-insert r s (sort rs) (inl e)
In-sort r (s ∷ rs) (inr i) = In-insert r s (sort rs) (inr (In-sort r rs i))

-- No cycle of the list is before that of `r`.
abbrev pub Least : Release → List Release → Type 0
Least r rs = (s : Release) → In s rs → cycle_cmp r.cycle s.cycle ≢ Ordering.gt

abbrev pub Sorted : List Release → Type 0
Sorted [] = Unit
Sorted (r ∷ rs) = Least r rs × Sorted rs

not-gt_trans :
    (a b c : Release)
    → cycle_cmp a.cycle b.cycle ≢ Ordering.gt
    → cycle_cmp b.cycle c.cycle ≢ Ordering.gt
    → cycle_cmp a.cycle c.cycle ≢ Ordering.gt
not-gt_trans a b c h k = ground (arith, cmp_cycle-IsCmp.trans_cmp a.cycle b.cycle c.cycle)

tested_lt :
    (a b : Release)
    → ltb_ℤ (cmp_cycle a.cycle b.cycle) (pos 0) ≡ true
    → cycle_cmp a.cycle b.cycle ≢ Ordering.gt
tested_lt a b h = ground arith

tested_not_lt :
    (a b : Release)
    → ltb_ℤ (cmp_cycle a.cycle b.cycle) (pos 0) ≡ false
    → cycle_cmp b.cycle a.cycle ≢ Ordering.gt
tested_not_lt a b h = ground (arith, cmp_cycle-IsCmp.swap_cmp a.cycle b.cycle)

insert-Sorted : (r : Release) (rs : List Release) → Sorted rs → Sorted (insert r rs)
unfolding insert
insert-Sorted r [] h = (λ s i. absurd i, tt)
insert-Sorted r (x ∷ rs) h =
    by_test (insert-Sorted r rs h.1) (ltb_ℤ (cmp_cycle x.cycle r.cycle) (pos 0)) refl
  where
    by_test :
        (Sorted (insert r rs))
        → (t : Bool) → ltb_ℤ (cmp_cycle x.cycle r.cycle) (pos 0) ≡ t
        → Sorted (if t then x ∷ insert r rs else r ∷ x ∷ rs)
    by_test ih true e = (
      λ s i. elim (insert-In s r rs i) [ inl same ↦ rw same (tested_lt x r e) | inr j ↦ h.0 s j ],
      ih,
    )
    by_test ih false e = (
      λ s i. elim i [
        | inl same ↦ rw same (tested_not_lt x r e)
        | inr j ↦ not-gt_trans r x s (tested_not_lt x r e) (h.0 s j)
      ],
      h,
    )

pub sort-Sorted : (rs : List Release) → Sorted (sort rs)
unfolding sort
sort-Sorted [] = tt
sort-Sorted (r ∷ rs) = insert-Sorted r (sort rs) (sort-Sorted rs)
