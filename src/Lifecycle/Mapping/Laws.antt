-- ===== src/Lifecycle/Mapping/Laws.antt =====
-- internal/lifecycle/mapping.go: what the mapping returns is among the products that the feed keeps,
-- with the release cycles of one version, from the most specific one on.
use defendsec.Prelude.{
  ℕ, ◌≡◌, ◌≢◌, ◌↔◌, ◌⊎◌, ◌∙◌, refl, sym, arith, ap, true, false, Option, none, some, List, [], ◌∷◌,
  inl, inr, Bool-cases, Option-cases,
}
use defendsec.Prelude.Cmp.{lex}
use defendsec.Prelude.Sort.{Among, sort_by, Among-sort_by, Among-add_name}
use defendsec.Prelude.Text.{Bytes, is_empty}
use defendsec.Lifecycle.Mapping.{
  Match, CycleFrom, from_name, from_version, upstream_version, Rule, rules, product_set, products,
  manager_key, is_of_manager, cycle_candidates, base_of, by_base, map_by, map_package,
}

module _ (find : Bytes → Bytes → Option (List Bytes)) where
  -- The text that a rule takes its cycles from, and how many of its parts at most: a text of the groups
  -- of its pattern, or the upstream version of the package.
  abbrev pub IsBase : CycleFrom → List Bytes → Bytes → Bytes × ℕ → Type 0
  IsBase (from_name f) groups version base = base ≡ (f groups, 0)
  IsBase (from_version max_parts) groups version base =
      base ≡ (upstream_version find version, max_parts)

  -- The rule speaks of the manager, its pattern matches the name, and it gives the product and the
  -- cycles, of which there is one.
  abbrev pub Gives : Bytes → Bytes → Bytes → Rule → Match → Type 0
  Gives key name version r m =
      (is_of_manager key r ≡ true)
      × ((groups : List Bytes) × (base : Bytes × ℕ) × (find r.name name ≡ some groups)
          × IsBase r.cycle_from groups version base
          × (is_empty base.0 ≡ false)
          × (cycle_candidates base.0 base.1 ≢ [])
          × (m ≡ record { product = r.product; cycles = cycle_candidates base.0 base.1 }))

  -- The first rule of the list that gives something gives this.
  unfoldable pub Comes : Bytes → Bytes → Bytes → List Rule → Match → Type 0
  Comes key name version [] m = ⊥
  Comes key name version (r ∷ rs) m =
      Gives key name version r m
      ⊎ (((other : Match) → Gives key name version r other → ⊥) × Comes key name version rs m)

  base_of_iff :
      (from : CycleFrom) (groups : List Bytes) (version : Bytes) (base : Bytes × ℕ)
      → IsBase from groups version base ↔ (base ≡ base_of find from groups version)
  base_of_iff (from_name f) groups version base = (λ e. e, λ e. e)
  base_of_iff (from_version max_parts) groups version base = (λ e. e, λ e. e)

  abbrev or_rest : Option Match → Option Match → Option Match
  or_rest none rest = rest
  or_rest (some m) rest = some m

  by_base-rest :
      (r : Rule) (base : Bytes × ℕ) (rest : Option Match)
      → by_base find r base rest ≡ or_rest (by_base find r base none) rest
  by_base-rest r base rest = ground arith

  -- A round gives what the rule gives on its own, or else the rest.
  map_by-cons :
      (r : Rule) (rs : List Rule) (key name version : Bytes)
      → map_by find (r ∷ rs) key name version
        ≡ or_rest (map_by find (r ∷ []) key name version) (map_by find rs key name version)
  unfolding map_by
  map_by-cons r rs key name version = elim (Bool-cases (is_of_manager key r)) [
    | inl own ↦ elim (Option-cases (find r.name name)) [
      | inl e ↦ rw (own, e) refl
      | inr (groups, e) ↦
          rw (own, e)
            (by_base-rest r (base_of find r.cycle_from groups version)
              (map_by find rs key name version))
    ]
    | inr other ↦ rw other refl
  ]

  by_base_iff :
      (r : Rule) (base : Bytes × ℕ) (m : Match)
      → (by_base find r base none ≡ some m) ↔ (
          (is_empty base.0 ≡ false)
          × (cycle_candidates base.0 base.1 ≢ [])
          × (m ≡ record { product = r.product; cycles = cycle_candidates base.0 base.1 }))
  by_base_iff r base m = ground arith

  one_rule_iff :
      (r : Rule) (key name version : Bytes) (m : Match)
      → (map_by find (r ∷ []) key name version ≡ some m) ↔ Gives key name version r m
  unfolding map_by
  one_rule_iff r key name version m = elim (Bool-cases (is_of_manager key r)) [
    | inl own ↦ elim (Option-cases (find r.name name)) [
      | inl e ↦ (
        λ h. absurd (ground (arith, own, e, h)),
        λ (_, (groups, base, f, _, _, _, _)). absurd (ground (arith, e, f)),
      )
      | inr (groups, e) ↦
          let base = base_of find r.cycle_from groups version in
          let is_base = base_of_iff r.cycle_from groups version in
          let given = by_base_iff r base m in
          (
            λ h.
                let (full, some_cycle, q) = given.0 (ground (arith, own, e, h)) in
                (own, (groups, base, e, (is_base base).1 refl, full, some_cycle, q)),
            λ (_, (others, from, f, i, full, some_cycle, q)).
                let same : groups ≡ others = cc in
                let of_groups = (base_of_iff r.cycle_from others version from).0 i in
                let result = (by_base_iff r from m).1 (full, some_cycle, q) in
                ground (arith, own, e, same, of_groups, result),
          )
    ]
    | inr other ↦
        (λ h. absurd (ground (arith, other, h)), λ (own, _). absurd (ground (arith, other, own)))
  ]

  map_by-Comes :
      (rs : List Rule) (key name version : Bytes) (m : Match)
      → map_by find rs key name version ≡ some m
      → Comes key name version rs m
  unfolding Comes map_by
  map_by-Comes [] key name version m h = ground (arith, h)
  map_by-Comes (r ∷ rs) key name version m h =
      by_one (map_by-Comes rs key name version m) (map_by find (r ∷ []) key name version) refl
        (sym (map_by-cons r rs key name version) ∙ h)
    where
      by_one :
          (map_by find rs key name version ≡ some m → Comes key name version rs m)
          → (o : Option Match) → map_by find (r ∷ []) key name version ≡ o
          → or_rest o (map_by find rs key name version) ≡ some m
          → Comes key name version (r ∷ rs) m
      by_one ih none e g =
          inr (λ other q. ground (arith, e, (one_rule_iff r key name version other).1 q), ih g)
      by_one ih (some own) e g = inl ((one_rule_iff r key name version m).0 (e ∙ g))

  Comes-Among :
      (rs : List Rule) (key name version : Bytes) (m : Match)
      → Comes key name version rs m
      → (r : Rule) × Among r rs × (m.product ≡ r.product)
  unfolding Comes
  Comes-Among [] key name version m c = absurd c
  Comes-Among (r ∷ rs) key name version m (inl (own, (groups, base, f, i, e, n, same))) =
      (r, inl refl, ap (λ (x : Match). x.product) same)
  Comes-Among (r ∷ rs) key name version m (inr (nothing, c)) =
      let (s, i, same) = Comes-Among rs key name version m c in (s, inr i, same)

Among-product_set : (r : Rule) (rs : List Rule) → Among r rs → Among r.product (product_set rs)
unfolding product_set
Among-product_set r [] i = absurd i
Among-product_set r (s ∷ rs) (inl e) =
    (Among-add_name r.product s.product (product_set rs)).1 (inl (ap (λ (x : Rule). x.product) e))
Among-product_set r (s ∷ rs) (inr i) =
    (Among-add_name r.product s.product (product_set rs)).1 (inr (Among-product_set r rs i))

-- Whatever a package is mapped to is among the products that the feed keeps, and is what the first
-- rule of the table gives that gives something: a rule that speaks of the host's package manager and
-- whose pattern matches the package's name gives its product, with the cycles of the text that the
-- pattern takes from the name, or of the upstream version of the package, if there is any.
pub map_package-products :
    (find : Bytes → Bytes → Option (List Bytes)) (manager name version : Bytes) (m : Match)
    → map_package find manager name version ≡ some m
    → Among m.product products × Comes find (manager_key manager) name version rules m
unfolding map_package products
map_package-products find manager name version m h =
    let first = map_by-Comes find rules (manager_key manager) name version m h in
    let (r, i, same) = Comes-Among find rules (manager_key manager) name version m first in
    let kept : Among r.product (sort_by lex (product_set rules)) =
      (Among-sort_by lex r.product (product_set rules)).1 (Among-product_set r rules i) in
    (rw same kept, first)
