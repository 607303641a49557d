-- ===== src/Vuln/Match/Attach.antt =====
-- internal/vuln/match.go, Match: the ranges that the store returned are attached to the packages that
-- they apply to, in groups of one advisory. The maps bySource and byName are functions from a key to
-- the indices under it; the map of the groups, with the list of its keys, is the list of its entries.
pub mod Attached
pub mod Groups
mod Indices
pub mod Kept
use defendsec.Prelude.{
  ℕ, suc, Bool, true, false, not, ◌&&◌, ◌||◌, Option, none, some, List, [], ◌∷◌, ◌++◌, ◌==◌,
  if◌then◌else◌, get_elem?,
}
use defendsec.Prelude.Text.{Bytes, is_empty, eq_bytes, trim_space}
use defendsec.Vuln.Match.{Package, Candidate, family_of, range_applies_to}

-- The state of one package while matching.
pub record Work : Type 0 where
  pub pkg : Package
  pub family : Bytes
  pub mapped : Bool
  pub by_adv : List (Bytes × List Candidate)

unfoldable pub new_work : Package → Work
new_work p = record {
  pkg = p;
  family = family_of p.name p.source_package;
  mapped = false;
  by_adv = [];
}

abbrev pub is_nameless : Package → Bool
is_nameless p = is_empty (trim_space p.name) || is_empty (trim_space p.version)

-- A package without a name or a version is passed over.
unfoldable pub works_of : List Package → List Work
unfolding trim_space is_empty
works_of [] = []
works_of (p ∷ packages) =
    let rest = works_of packages in if is_nameless p then rest else new_work p ∷ rest

-- The indices of the ranges that pass the test, from index `i` on.
unfoldable pub indices_where : (Candidate → Bool) → ℕ → List Candidate → List ℕ
indices_where test i [] = []
indices_where test i (c ∷ cands) =
    let rest = indices_where test (suc i) cands in if test c then i ∷ rest else rest

abbrev pub is_under_source : Bytes → Candidate → Bool
is_under_source key c = not (is_empty c.source_package) && eq_bytes c.source_package key

abbrev pub is_under_name : Bytes → Candidate → Bool
is_under_name key c =
    (is_empty c.source_package || not (is_empty c.package_name)) && eq_bytes c.package_name key

-- bySource[key] and byName[key]
unfoldable pub by_source : List Candidate → Bytes → List ℕ
unfolding eq_bytes is_empty indices_where
by_source cands key = indices_where (is_under_source key) 0 cands

unfoldable pub by_name : List Candidate → Bytes → List ℕ
unfolding eq_bytes is_empty indices_where
by_name cands key = indices_where (is_under_name key) 0 cands

unfoldable pub is_seen : ℕ → List ℕ → Bool
is_seen i [] = false
is_seen i (j ∷ seen) = i == j || is_seen i seen

-- The range at the end of the group of its advisory, which is made where there is none.
unfoldable pub add_to_group :
    Candidate → List (Bytes × List Candidate) → List (Bytes × List Candidate)
unfolding eq_bytes
add_to_group c [] = (c.advisory_id, c ∷ []) ∷ []
add_to_group c ((a, group) ∷ groups) =
    let rest = add_to_group c groups in
    if eq_bytes a c.advisory_id then (a, group ++ c ∷ []) ∷ groups else (a, group) ∷ rest

unfoldable pub add_range : Candidate → Work → Work
unfolding range_applies_to
add_range c w =
    if range_applies_to c w.pkg
    then record w { mapped = true; by_adv = add_to_group c w.by_adv }
    else w

-- attach: the second part is the package, the first the indices that were seen.
unfoldable pub attach : List Candidate → List ℕ → List ℕ × Work → List ℕ × Work
unfolding is_seen add_range
attach cands [] s = s
attach cands (i ∷ idx) (seen, w) = elim (get_elem? cands i) [
  | none ↦ attach cands idx (i ∷ seen, w)
  | some c ↦ attach cands idx (if is_seen i seen then (seen, w) else (i ∷ seen, add_range c w))
]

-- What is attached to one package: by its source, by its name, and without a source by its name as
-- one.
unfoldable pub attach_all : List Candidate → Work → Work
unfolding attach by_source by_name is_empty
attach_all cands w =
    let bare = is_empty w.pkg.source_package in
    let first =
      if not bare then attach cands (by_source cands w.pkg.source_package) ([], w) else ([], w) in
    let second = attach cands (by_name cands w.pkg.name) first in
    let third = if bare then attach cands (by_source cands w.pkg.name) second else second in third.1
