-- ===== src/Lifecycle/Assess/Tally.antt =====
-- internal/lifecycle/assess.go, Assess: what each of the two loops adds to the counts.
use defendsec.Prelude.{
  ℕ, suc, ◌+◌, ◌≤◌, ◌≡◌, refl, sym, ◌∙◌, Bool, true, false, not, ◌&&◌, Option, none, some, List, [],
  ◌∷◌, ◌++◌, if◌then◌else◌, arith, length, Bool-cases, Option-cases, inl, inr,
}
use mathlib.Core.Path.{subst}
use defendsec.Prelude.Text.{Bytes, eq_bytes}
use defendsec.Lifecycle.{Release, Stage, supported, stage_eol, stage_eoas, stage_of, is_supported}
use defendsec.Lifecycle.Mapping.{Match, map_package}
use defendsec.Lifecycle.Origin.{Origin, distro_origin, third_party, unknown_origin, classify_origin}
use defendsec.Lifecycle.Report.{EolFinding}
use defendsec.Lifecycle.Assess.{
  HostPackage, LifecycleHost, LifecycleStats, Mapped, by_origin, is_blank, map_all, releases_of,
  first_release, add_to_release, add_package, release_key, by_stage, by_release, judge_one,
  judge_all, finish_all,
}

abbrev pub one_if : Bool → ℕ
one_if true = 1
one_if false = 0

-- How many of a list pass a test.
unfoldable pub count : {A : Type 0} → (A → Bool) → List A → ℕ
count test [] = 0
count test (a ∷ rest) = one_if (test a) + count test rest

count-append :
    {A : Type 0} (test : A → Bool) (xs : List A) (a : A)
    → count test (xs ++ a ∷ []) ≡ count test xs + one_if (test a)
unfolding count
count-append test [] a = omega arith
count-append test (x ∷ xs) a = omega (arith, count-append test xs a)

abbrev pub is_third : Origin → Bool
is_third third_party = true
is_third _ = false

abbrev pub is_distro : Origin → Bool
is_distro distro_origin = true
is_distro _ = false

abbrev pub is_unknown : Origin → Bool
is_unknown unknown_origin = true
is_unknown _ = false

-- Where a product stands: of no release that is listed, of one with support left, of one past it.
module _ (day : Bytes) (rels : List Release) where
  abbrev pub release_for : Match → Option Release
  release_for m = first_release m.cycles (releases_of rels m.product)

  abbrev pub is_unlisted : Match → Bool
  is_unlisted m = elim (release_for m) [ none ↦ true | some r ↦ false ]

  abbrev pub is_current : Match → Bool
  is_current m = elim (release_for m) [ none ↦ false | some r ↦ is_supported (stage_of r day) ]

  abbrev pub is_past : Match → Bool
  is_past m = elim (release_for m) [ none ↦ false | some r ↦ not (is_supported (stage_of r day)) ]

-- A package that the table maps, with a product and an origin that pass the test.
module _ (find : Bytes → Bytes → Option (List Bytes)) (markers : List ((Bytes → Bool) × Bytes))
    (h : LifecycleHost) where
  abbrev pub origin_of : HostPackage → Origin
  origin_of p = (classify_origin markers h.distro h.manager p.version p.origin).0

  abbrev pub maps_to : (Match → Origin → Bool) → HostPackage → Bool
  maps_to test p =
      if is_blank p then false else elim (map_package find h.manager p.name p.version) [
        | none ↦ false
        | some m ↦ test m (origin_of p)
      ]

  -- What a round adds, for a package that passes the tests which `passes` tells.
  abbrev Adds :
      ((Match → Origin → Bool) → Bool)
      → List Mapped × LifecycleStats
      → List Mapped × LifecycleStats
      → Type 0
  Adds passes (cands, st) (cands', st') =
      (st'.mapped ≡ st.mapped + one_if (passes (λ m o. true)))
      × (st'.distro_origin ≡ st.distro_origin + one_if (passes (λ m o. is_distro o)))
      × (st'.origin_unknown ≡ st.origin_unknown + one_if (passes (λ m o. is_unknown o)))
      × (st'.no_release ≡ st.no_release)
      × (st'.supported ≡ st.supported)
      × (st'.findings ≡ st.findings)
      × ((test : Match → Bool)
          → count (λ (c : Mapped). test c.found) cands'
            ≡ count (λ (c : Mapped). test c.found) cands
              + one_if (passes (λ m o. is_third o && test m)))

  by_origin-Adds :
      (p : HostPackage) (m : Match) (o : Origin × Bytes) (acc : List Mapped × LifecycleStats)
      → Adds (λ test. test m o.0) acc (by_origin p m o acc)
  by_origin-Adds p m (distro_origin, label) acc =
      (refl, refl, omega arith, refl, refl, refl, λ test. omega arith)
  by_origin-Adds p m (unknown_origin, label) acc =
      (refl, omega arith, refl, refl, refl, refl, λ test. omega arith)
  by_origin-Adds p m (third_party, label) (cands, st) =
      let one : Mapped = record { pkg = p; found = m; class = third_party; label = label } in
      (
        refl,
        omega arith,
        omega arith,
        refl,
        refl,
        refl,
        λ test. count-append (λ (c : Mapped). test c.found) cands one,
      )

  -- A round of the first loop.
  abbrev pub step : HostPackage → List Mapped × LifecycleStats → List Mapped × LifecycleStats
  step p acc = if is_blank p then acc else elim (map_package find h.manager p.name p.version) [
    | none ↦ acc
    | some m ↦ by_origin p m (classify_origin markers h.distro h.manager p.version p.origin) acc
  ]

  step-Adds :
      (p : HostPackage) (acc : List Mapped × LifecycleStats)
      → Adds (λ test. maps_to test p) acc (step p acc)
  step-Adds p acc = by_cases (is_blank p) (map_package find h.manager p.name p.version)
    where
      by_cases :
          (b : Bool) (o : Option Match)
          → Adds
              (λ test. if b then false else elim o [ none ↦ false | some m ↦ test m (origin_of p) ])
              acc
              (if b then acc else elim o [
                | none ↦ acc
                | some m ↦
                    by_origin p m
                      (classify_origin markers h.distro h.manager p.version p.origin)
                      acc
              ])
      by_cases true o =
          (omega arith, omega arith, omega arith, refl, refl, refl, λ test. omega arith)
      by_cases false none =
          (omega arith, omega arith, omega arith, refl, refl, refl, λ test. omega arith)
      by_cases false (some m) =
          by_origin-Adds p m (classify_origin markers h.distro h.manager p.version p.origin) acc

  pub map_all-step :
      (p : HostPackage) (packages : List HostPackage) (acc : List Mapped × LifecycleStats)
      → map_all find markers h (p ∷ packages) acc ≡ map_all find markers h packages (step p acc)
  unfolding map_all
  map_all-step p packages acc = elim (Bool-cases (is_blank p)) [
    | inl blank ↦ rw blank refl
    | inr named ↦ elim (Option-cases (map_package find h.manager p.name p.version)) [
      | inl e ↦ rw (named, e) refl
      | inr (m, e) ↦ rw (named, e) refl
    ]
  ]

  -- What the first loop adds to the counts and to the packages to judge.
  abbrev pub Added :
      List HostPackage → List Mapped × LifecycleStats → List Mapped × LifecycleStats → Type 0
  Added packages (cands, st) (cands', st') =
      (st'.mapped ≡ st.mapped + count (maps_to (λ m o. true)) packages)
      × (st'.distro_origin ≡ st.distro_origin + count (maps_to (λ m o. is_distro o)) packages)
      × (st'.origin_unknown ≡ st.origin_unknown + count (maps_to (λ m o. is_unknown o)) packages)
      × (st'.no_release ≡ st.no_release)
      × (st'.supported ≡ st.supported)
      × (st'.findings ≡ st.findings)
      × ((test : Match → Bool)
          → count (λ (c : Mapped). test c.found) cands'
            ≡ count (λ (c : Mapped). test c.found) cands
              + count (maps_to (λ m o. is_third o && test m)) packages)

  pub map_all-Added :
      (packages : List HostPackage) (acc : List Mapped × LifecycleStats)
      → Added packages acc (map_all find markers h packages acc)
  unfolding map_all count
  map_all-Added [] acc =
      (omega arith, omega arith, omega arith, refl, refl, refl, λ test. omega arith)
  map_all-Added (p ∷ packages) acc =
      let (a, b, c, d, e, z, f) = step-Adds p acc in
      let (a', b', c', d', e', z', f') = map_all-Added packages (step p acc) in
      subst (Added (p ∷ packages) acc) (sym (map_all-step p packages acc)) (
        omega (arith, a, a'),
        omega (arith, b, b'),
        omega (arith, c, c'),
        d' ∙ d,
        e' ∙ e,
        z' ∙ z,
        λ test. omega (arith, f test, f' test),
      )

-- What the second loop adds.
abbrev pub Judged :
    Bytes
    → List Release
    → List Mapped
    → List (Bytes × EolFinding) × LifecycleStats
    → List (Bytes × EolFinding) × LifecycleStats
    → Type 0
Judged day rels cands (groups, st) (groups', st') =
    (st'.mapped ≡ st.mapped)
    × (st'.distro_origin ≡ st.distro_origin)
    × (st'.origin_unknown ≡ st.origin_unknown)
    × (st'.no_release ≡ st.no_release + count (λ (c : Mapped). is_unlisted day rels c.found) cands)
    × (st'.supported ≡ st.supported + count (λ (c : Mapped). is_current day rels c.found) cands)
    × (length groups' ≤ length groups + count (λ (c : Mapped). is_past day rels c.found) cands)

length-add_to_release :
    (key : Bytes) (c : Mapped) (rel : Release) (stage : Stage) (groups : List (Bytes × EolFinding))
    → length (add_to_release key c rel stage groups) ≤ length groups + 1
unfolding add_to_release
length-add_to_release key c rel stage [] = omega arith
length-add_to_release key c rel stage ((k, g) ∷ groups) =
    by_test (length-add_to_release key c rel stage groups) (eq_bytes k key)
  where
    by_test :
        length (add_to_release key c rel stage groups) ≤ length groups + 1
        → (t : Bool)
        → length (
            if t
            then (k, add_package c g) ∷ groups
            else (k, g) ∷ add_to_release key c rel stage groups)
          ≤ suc (length groups) + 1
    by_test ih true = omega arith
    by_test ih false = omega (arith, ih)

-- What a round adds for a package that is unlisted, current or past.
abbrev AddsOne :
    Bool
    → Bool
    → Bool
    → List (Bytes × EolFinding) × LifecycleStats
    → List (Bytes × EolFinding) × LifecycleStats
    → Type 0
AddsOne unlisted current past (groups, st) (groups', st') =
    (st'.mapped ≡ st.mapped)
    × (st'.distro_origin ≡ st.distro_origin)
    × (st'.origin_unknown ≡ st.origin_unknown)
    × (st'.no_release ≡ st.no_release + (one_if unlisted + 0))
    × (st'.supported ≡ st.supported + (one_if current + 0))
    × (length groups' ≤ length groups + (one_if past + 0))

judge_one-Judged :
    (day : Bytes) (rels : List Release) (c : Mapped)
    (acc : List (Bytes × EolFinding) × LifecycleStats)
    → Judged day rels (c ∷ []) acc (judge_one day rels c acc)
unfolding count
judge_one-Judged day rels c (groups, st) = by_found (release_for day rels c.found)
  where
    by_stages :
        (r : Release) (s : Stage)
        → AddsOne false
            (is_supported s)
            (not (is_supported s))
            (groups, st)
            (by_stage c r s (groups, st))
    by_stages r supported = (refl, refl, refl, omega arith, omega arith, omega arith)
    by_stages r stage_eol = (
      refl,
      refl,
      refl,
      omega arith,
      omega arith,
      omega (arith, length-add_to_release (release_key r) c r stage_eol groups),
    )
    by_stages r stage_eoas = (
      refl,
      refl,
      refl,
      omega arith,
      omega arith,
      omega (arith, length-add_to_release (release_key r) c r stage_eoas groups),
    )

    by_found :
        (o : Option Release)
        → AddsOne
            (elim o [ none ↦ true | some r ↦ false ])
            (elim o [ none ↦ false | some r ↦ is_supported (stage_of r day) ])
            (elim o [ none ↦ false | some r ↦ not (is_supported (stage_of r day)) ])
            (groups, st)
            (by_release day c o (groups, st))
    by_found none = (refl, refl, refl, omega arith, omega arith, omega arith)
    by_found (some r) = by_stages r (stage_of r day)

pub judge_all-Judged :
    (day : Bytes) (rels : List Release) (cands : List Mapped)
    (acc : List (Bytes × EolFinding) × LifecycleStats)
    → Judged day rels cands acc (judge_all day rels cands acc)
unfolding judge_all count
judge_all-Judged day rels [] acc = (refl, refl, refl, omega arith, omega arith, omega arith)
judge_all-Judged day rels (c ∷ cands) acc =
    let (a, b, d, e, f, g) = judge_one-Judged day rels c acc in
    let (a', b', d', e', f', g') = judge_all-Judged day rels cands (judge_one day rels c acc) in
    (a' ∙ a, b' ∙ b, d' ∙ d, omega (arith, e, e'), omega (arith, f, f'), omega (arith, g, g'))

pub length-finish_all :
    (day : Bytes) (rels : List Release) (groups : List (Bytes × EolFinding))
    → length (finish_all day rels groups) ≡ length groups
unfolding finish_all
length-finish_all day rels [] = refl
length-finish_all day rels ((k, g) ∷ groups) = omega (arith, length-finish_all day rels groups)
