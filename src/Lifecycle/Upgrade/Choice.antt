-- ===== src/Lifecycle/Upgrade/Choice.antt =====
-- internal/lifecycle/assess.go: upgradePath chooses the smallest upgrade.
use defendsec.Prelude.{
  ◌≡◌, refl, sym, ◌≢◌, ◌↔◌, ◌⊎◌, Bool, true, false, none, some, List, [], ◌∷◌, Ordering, arith,
  if◌then◌else◌, inl, inr,
}
use mathlib.Core.Path.{subst}
use defendsec.Prelude.Text.{Bytes}
use defendsec.Lifecycle.{
  Release, is_newer, newer, sort, pick, is_supported, supported, stage_eol, stage_of, numeric_cycle,
  UpgradePath, upgrade_path,
}
use defendsec.Lifecycle.Cycles.{cycle_cmp, cmp_cycle-IsCmp}
use defendsec.Lifecycle.Upgrade.{
  In, newer-In, In-newer, sort-In, In-sort, Least, Sorted, sort-Sorted,
}

cycle_cmp_self : (r : Release) → cycle_cmp r.cycle r.cycle ≢ Ordering.gt
cycle_cmp_self r e = ground (arith, cmp_cycle-IsCmp.refl_cmp r.cycle)

first-Least : (s : Release) (rs : List Release) → Sorted (s ∷ rs) → Least s (s ∷ rs)
first-Least s rs h r (inl e) = rw e (cycle_cmp_self s)
first-Least s rs h r (inr i) = h.0 r i

-- A later cycle, of numbers, whose security support is not over on the day.
abbrev pub IsUpgrade : Bytes → Bytes → Release → Type 0
IsUpgrade cycle day r =
    (cycle_cmp r.cycle cycle ≡ Ordering.gt)
    × (numeric_cycle r.cycle ≡ true)
    × (stage_of r day ≢ stage_eol)

is_newer_iff :
    (cycle day : Bytes) (r : Release) → (is_newer cycle day r ≡ true) ↔ IsUpgrade cycle day r
unfolding is_newer
is_newer_iff cycle day r = ground arith

abbrev pub path_of : Release → Release → UpgradePath
path_of f t = record { to = t.cycle; until = t.eol_from; fixed = f.cycle }

module _ (rels : List Release) (cycle day : Bytes) where
  -- A release of the list to upgrade to.
  abbrev pub IsChoice : Release → Type 0
  IsChoice r = In r rels × IsUpgrade cycle day r

  In-candidates : (r : Release) → In r (sort (newer cycle day rels)) ↔ IsChoice r
  In-candidates r = (
    λ i.
        let (at, new) = newer-In cycle day r rels (sort-In r (newer cycle day rels) i) in
        (at, (is_newer_iff cycle day r).0 new),
    λ (at, up).
        In-sort r (newer cycle day rels)
          (In-newer cycle day r rels at ((is_newer_iff cycle day r).1 up)),
  )

  -- The release that `pick` finds among sorted ones: the least one with active support left, or the
  -- one given if there is none.
  abbrev Picked : Release → List Release → Release → Type 0
  Picked d rs t =
      (In t rs
        × (stage_of t day ≡ supported)
        × ((r : Release)
            → In r rs
            → stage_of r day ≡ supported
            → cycle_cmp t.cycle r.cycle ≢ Ordering.gt))
      ⊎ ((t ≡ d) × ((r : Release) → In r rs → stage_of r day ≢ supported))

  is_supported_iff :
      (r : Release) → (is_supported (stage_of r day) ≡ true) ↔ (stage_of r day ≡ supported)
  is_supported_iff r = ground arith

  pick-Picked : (d : Release) (rs : List Release) → Sorted rs → Picked d rs (pick day d rs)
  unfolding pick
  pick-Picked d [] h = inr (refl, λ r i. absurd i)
  pick-Picked d (s ∷ rs) h = by_test (is_supported (stage_of s day)) refl (pick-Picked d rs h.1)
    where
      by_test :
          (b : Bool)
          → is_supported (stage_of s day) ≡ b
          → Picked d rs (pick day d rs)
          → Picked d (s ∷ rs) (if b then s else pick day d rs)
      by_test true live ih =
          inl (inl refl, (is_supported_iff s).0 live, λ r i e. first-Least s rs h r i)
      by_test false over (inl (i, ok, least)) = inl (
        inr i,
        ok,
        λ r j e. elim j [ inl same ↦ absurd (ground (arith, same, over, e)) | inr k ↦ least r k e ],
      )
      by_test false over (inr (e, none_live)) = inr (
        e,
        λ r j q. elim j [
          | inl same ↦ absurd (ground (arith, same, over, q))
          | inr k ↦ none_live r k q
        ],
      )

  -- Of the choices `f` is a least one, and `t` a least one with active support left, or `f` if no
  -- choice has any.
  abbrev pub IsBestUpgrade : Release → Release → Type 0
  IsBestUpgrade f t =
      IsChoice f
      × IsChoice t
      × ((r : Release) → IsChoice r → cycle_cmp f.cycle r.cycle ≢ Ordering.gt)
      × (((stage_of t day ≡ supported)
            × ((r : Release)
                → IsChoice r
                → stage_of r day ≡ supported
                → cycle_cmp t.cycle r.cycle ≢ Ordering.gt))
          ⊎ ((t ≡ f) × ((r : Release) → IsChoice r → stage_of r day ≢ supported)))

  -- If there is a release to upgrade to, of a later cycle and not past its security support, then
  -- upgradePath names two of them: as fixed a least one by cycle, and as the one to upgrade to, with
  -- the end of its security support, a least one with active support left, or else the fixed one.
  pub upgrade_path_least :
      (r : Release)
      → IsChoice r
      → (f : Release) × (t : Release) × (upgrade_path rels cycle day ≡ some (path_of f t))
        × IsBestUpgrade f t
  unfolding upgrade_path
  upgrade_path_least r i =
      by_list (sort (newer cycle day rels)) (sort-Sorted (newer cycle day rels)) In-candidates
        ((In-candidates r).1 i)
    where
      by_list :
          (l : List Release)
          → Sorted l
          → ((s : Release) → In s l ↔ IsChoice s)
          → In r l
          → (f : Release) × (t : Release) × (elim l [
            | [] ↦ none
            | first ∷ rest ↦ let q = pick day first (first ∷ rest) in some (path_of first q)
          ]
              ≡ some (path_of f t))
            × IsBestUpgrade f t
      by_list [] h among j = absurd j
      by_list (s ∷ rs) h among j =
          let first = (among s).0 (inl refl) in
          let least : (x : Release) → IsChoice x → cycle_cmp s.cycle x.cycle ≢ Ordering.gt =
            λ x k. first-Least s rs h x ((among x).1 k) in
          elim (pick-Picked s (s ∷ rs) h) [
            | inl (at, ok, low) ↦ (
              s,
              pick day s (s ∷ rs),
              refl,
              (
                first,
                (among (pick day s (s ∷ rs))).0 at,
                least,
                inl (ok, λ x k e. low x ((among x).1 k) e),
              ),
            )
            | inr (e, none_live) ↦ (
              s,
              pick day s (s ∷ rs),
              refl,
              (
                first,
                subst IsChoice (sym e) first,
                least,
                inr (e, λ x k. none_live x ((among x).1 k)),
              ),
            )
          ]
