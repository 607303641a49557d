-- ===== src/Vuln/Match/Attach/Kept.antt =====
-- internal/vuln/match.go, Match: what attaching keeps, the package, and that one with a group counts as
-- mapped.
use defendsec.Prelude.{
  ℕ, ◌≡◌, refl, Bool, true, false, not, Option, none, some, List, [], ◌∷◌, if◌then◌else◌, get_elem?,
  ◌⊎◌, inl, inr, map, ap, sym, ◌∙◌,
}
use defendsec.Prelude.Sort.{Among}
use defendsec.Prelude.Text.{is_empty}
use defendsec.Vuln.Match.{Package, Candidate, range_applies_to}
use defendsec.Vuln.Match.Attach.{
  Work, new_work, is_nameless, works_of, by_source, by_name, is_seen, add_to_group, add_range,
  attach, attach_all,
}

abbrev pub IsKept : Package → Work → Type 0
IsKept p w = (w.pkg ≡ p) × ((w.by_adv ≡ []) ⊎ (w.mapped ≡ true))

abbrev KeepsPair : Package → List ℕ × Work → Type 0
KeepsPair p s = IsKept p s.1

add_range-IsKept : (p : Package) (c : Candidate) (w : Work) → IsKept p w → IsKept p (add_range c w)
unfolding add_range
add_range-IsKept p c w k = by_test (range_applies_to c w.pkg)
  where
    by_test :
        (t : Bool)
        → IsKept p (if t then record w { mapped = true; by_adv = add_to_group c w.by_adv } else w)
    by_test true = (k.0, inr refl)
    by_test false = k

attach-IsKept :
    (p : Package) (cands : List Candidate) (idx : List ℕ) (s : List ℕ × Work)
    → IsKept p s.1
    → IsKept p (attach cands idx s).1
unfolding attach
attach-IsKept p cands [] s k = k
attach-IsKept p cands (i ∷ idx) (seen, w) k =
    by_range (λ s l. attach-IsKept p cands idx s l) (get_elem? cands i) (is_seen i seen)
  where
    by_range :
        ((s : List ℕ × Work) → IsKept p s.1 → IsKept p (attach cands idx s).1)
        → (o : Option Candidate) (t : Bool)
        → KeepsPair p (elim o [
          | none ↦ attach cands idx (i ∷ seen, w)
          | some c ↦ attach cands idx (if t then (seen, w) else (i ∷ seen, add_range c w))
        ])
    by_range ih none t = ih (i ∷ seen, w) k
    by_range ih (some c) true = ih (seen, w) k
    by_range ih (some c) false = ih (i ∷ seen, add_range c w) (add_range-IsKept p c w k)

pub attach_all-IsKept :
    (p : Package) (cands : List Candidate) → IsKept p (attach_all cands (new_work p))
unfolding attach_all new_work
attach_all-IsKept p cands = by_bare (is_empty p.source_package)
  where
    start : Work
    start = new_work p

    by_bare :
        (t : Bool)
        → (let first =
              if not t
              then attach cands (by_source cands p.source_package) ([], start)
              else ([], start) in
            let second = attach cands (by_name cands p.name) first in
            let third = if t then attach cands (by_source cands p.name) second else second in
            IsKept p third.1)
    by_bare true =
        attach-IsKept p cands (by_source cands p.name) _
          (attach-IsKept p cands (by_name cands p.name) ([], start) (refl, inl refl))
    by_bare false =
        attach-IsKept p cands (by_name cands p.name) _
          (attach-IsKept p cands (by_source cands p.source_package) ([], start) (refl, inl refl))

pub works_of-Among :
    (p : Package) (packages : List Package)
    → Among p packages
    → is_nameless p ≡ false
    → Among (new_work p) (works_of packages)
unfolding works_of
works_of-Among p [] i h = absurd i
works_of-Among p (q ∷ packages) i h =
    by_test (λ j. works_of-Among p packages j h) (is_nameless q) refl i
  where
    by_test :
        (Among p packages → Among (new_work p) (works_of packages))
        → (t : Bool) → is_nameless q ≡ t
        → (p ≡ q) ⊎ Among p packages
        → Among (new_work p) (if t then works_of packages else new_work q ∷ works_of packages)
    by_test ih true e (inl f) =
        let clash : true ≡ false = sym e ∙ (ap is_nameless (sym f) ∙ h) in absurd (apart clash)
      where
        apart : true ≡ false → ⊥
        apart x = cc
    by_test ih true e (inr j) = ih j
    by_test ih false e (inl f) = inl (ap new_work f)
    by_test ih false e (inr j) = inr (ih j)

pub Among-map :
    {A B : Type 0} (f : A → B) (a : A) (xs : List A) → Among a xs → Among (f a) (map f xs)
Among-map f a [] i = i
Among-map f a (x ∷ xs) (inl e) = inl (ap f e)
Among-map f a (x ∷ xs) (inr i) = inr (Among-map f a xs i)
