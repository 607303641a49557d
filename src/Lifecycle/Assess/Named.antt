-- ===== src/Lifecycle/Assess/Named.antt =====
-- internal/lifecycle/assess.go, Assess: every package past the support of its release is named.
use defendsec.Prelude.{
  ◌≡◌, refl, sym, ap, ◌∙◌, Bool, true, false, not, ◌&&◌, Option, none, some, List, [], ◌∷◌, ◌++◌,
  if◌then◌else◌, arith, ◌⊎◌, inl, inr,
}
use mathlib.Core.Path.{subst}
use defendsec.Prelude.Cmp.{lex}
use defendsec.Prelude.Sort.{Among, sort_by, Among-sort_by}
use defendsec.Prelude.Text.{Bytes, eq_bytes, eq_bytes_iff}
use defendsec.Lifecycle.{
  Release, Stage, supported, stage_eol, stage_eoas, stage_of, is_supported, UpgradePath,
  upgrade_path,
}
use defendsec.Lifecycle.Mapping.{Match, map_package}
use defendsec.Lifecycle.Origin.{Origin, distro_origin, third_party, unknown_origin, classify_origin}
use defendsec.Lifecycle.Report.{EolFinding}
use defendsec.Lifecycle.Assess.{
  HostPackage, LifecycleHost, LifecycleStats, Mapped, by_origin, is_blank, map_all, releases_of,
  add_to_release, add_package, start_finding, is_before, release_key, by_stage, by_release,
  judge_one, judge_all, dedupe, with_upgrade, finish, finish_all,
}
use defendsec.Lifecycle.Assess.Tally.{
  is_third, is_past, maps_to, release_for, origin_of, step, map_all-step,
}

Among-snoc : {A : Type 0} (a b : A) (xs : List A) → Among a xs ⊎ (a ≡ b) → Among a (xs ++ b ∷ [])
Among-snoc a b [] (inl i) = absurd i
Among-snoc a b [] (inr e) = inl e
Among-snoc a b (x ∷ xs) (inl (inl e)) = inl e
Among-snoc a b (x ∷ xs) (inl (inr i)) = inr (Among-snoc a b xs (inl i))
Among-snoc a b (x ∷ xs) (inr e) = inr (Among-snoc a b xs (inr e))

Among-dedupe : (a : Bytes) (s : List Bytes) → Among a s → Among a (dedupe s)
unfolding dedupe
Among-dedupe a [] i = i
Among-dedupe a (b ∷ []) i = i
Among-dedupe a (b ∷ c ∷ s) i = by_test (Among-dedupe a (c ∷ s)) (eq_bytes b c) refl i
  where
    by_test :
        (Among a (c ∷ s) → Among a (dedupe (c ∷ s)))
        → (t : Bool) → eq_bytes b c ≡ t
        → Among a (b ∷ c ∷ s)
        → Among a (if t then dedupe (c ∷ s) else b ∷ dedupe (c ∷ s))
    by_test ih true e (inl q) = ih (inl (q ∙ (eq_bytes_iff b c).0 e))
    by_test ih true e (inr j) = ih j
    by_test ih false e (inl q) = inl q
    by_test ih false e (inr j) = inr (ih j)

-- A finding of the groups, or of a list, that names the package.
abbrev pub Named : Bytes → List (Bytes × EolFinding) → Type 0
Named n [] = ⊥
Named n ((k, g) ∷ groups) = Among n g.packages ⊎ Named n groups

Among-add_package :
    (n : Bytes) (c : Mapped) (g : EolFinding)
    → Among n g.packages ⊎ (n ≡ c.pkg.name)
    → Among n (add_package c g).packages
unfolding add_package
Among-add_package n c g i = by_test (is_before c.pkg.name g.package_name)
  where
    by_test :
        (t : Bool)
        → Among n
            (if t
              then record g {
                packages = g.packages ++ c.pkg.name ∷ [];
                package_name = c.pkg.name;
                installed = c.pkg.version;
                origin_label = c.label;
                origin_repo = c.pkg.origin_repo;
              }
              else record g { packages = g.packages ++ c.pkg.name ∷ [] }).packages
    by_test true = Among-snoc n c.pkg.name g.packages i
    by_test false = Among-snoc n c.pkg.name g.packages i

Named-add_to_release :
    (n key : Bytes) (c : Mapped) (rel : Release) (stage : Stage)
    (groups : List (Bytes × EolFinding))
    → Named n groups ⊎ (n ≡ c.pkg.name)
    → Named n (add_to_release key c rel stage groups)
unfolding add_to_release
Named-add_to_release n key c rel stage [] (inl i) = absurd i
Named-add_to_release n key c rel stage [] (inr e) =
    inl (Among-add_package n c (start_finding c rel stage) (inr e))
Named-add_to_release n key c rel stage ((k, g) ∷ groups) i =
    by_test (Named-add_to_release n key c rel stage groups) (eq_bytes k key) i
  where
    by_test :
        (Named n groups ⊎ (n ≡ c.pkg.name) → Named n (add_to_release key c rel stage groups))
        → (t : Bool) → Named n ((k, g) ∷ groups) ⊎ (n ≡ c.pkg.name)
        → Named n (
            if t
            then (k, add_package c g) ∷ groups
            else (k, g) ∷ add_to_release key c rel stage groups)
    by_test ih true (inl (inl j)) = inl (Among-add_package n c g (inl j))
    by_test ih true (inl (inr j)) = inr j
    by_test ih true (inr e) = inl (Among-add_package n c g (inr e))
    by_test ih false (inl (inl j)) = inl j
    by_test ih false (inl (inr j)) = inr (ih (inl j))
    by_test ih false (inr e) = inr (ih (inr e))

Named-judge_one :
    (n day : Bytes) (rels : List Release) (c : Mapped)
    (acc : List (Bytes × EolFinding) × LifecycleStats)
    → Named n acc.0 ⊎ ((n ≡ c.pkg.name) × (is_past day rels c.found ≡ true))
    → Named n (judge_one day rels c acc).0
Named-judge_one n day rels c (groups, st) i = by_found (release_for day rels c.found) i
  where
    by_stages :
        (r : Release) (s : Stage)
        → Named n groups ⊎ ((n ≡ c.pkg.name) × (not (is_supported s) ≡ true))
        → Named n (by_stage c r s (groups, st)).0
    by_stages r supported (inl j) = j
    by_stages r supported (inr (e, p)) = absurd (ground (arith, p))
    by_stages r stage_eol (inl j) =
        Named-add_to_release n (release_key r) c r stage_eol groups (inl j)
    by_stages r stage_eol (inr (e, p)) =
        Named-add_to_release n (release_key r) c r stage_eol groups (inr e)
    by_stages r stage_eoas (inl j) =
        Named-add_to_release n (release_key r) c r stage_eoas groups (inl j)
    by_stages r stage_eoas (inr (e, p)) =
        Named-add_to_release n (release_key r) c r stage_eoas groups (inr e)

    by_found :
        (o : Option Release)
        → Named n groups
          ⊎ ((n ≡ c.pkg.name)
              × (elim o [ none ↦ false | some r ↦ not (is_supported (stage_of r day)) ] ≡ true))
        → Named n (by_release day c o (groups, st)).0
    by_found none (inl j) = j
    by_found none (inr (e, p)) = absurd (ground (arith, p))
    by_found (some r) j = by_stages r (stage_of r day) j

pub Named-judge_all :
    (n day : Bytes) (rels : List Release) (cands : List Mapped)
    (acc : List (Bytes × EolFinding) × LifecycleStats)
    → Named n acc.0
      ⊎ ((c : Mapped) × Among c cands × (n ≡ c.pkg.name) × (is_past day rels c.found ≡ true))
    → Named n (judge_all day rels cands acc).0
unfolding judge_all
Named-judge_all n day rels [] acc (inl j) = j
Named-judge_all n day rels [] acc (inr (c, i, e, p)) = absurd i
Named-judge_all n day rels (d ∷ cands) acc (inl j) =
    Named-judge_all n day rels cands (judge_one day rels d acc)
      (inl (Named-judge_one n day rels d acc (inl j)))
Named-judge_all n day rels (d ∷ cands) acc (inr (c, inl same, e, p)) =
    Named-judge_all n day rels cands (judge_one day rels d acc) (
      inl (
        Named-judge_one n day rels d acc (
          inr (
            e ∙ ap (λ (x : Mapped). x.pkg.name) same,
            ap (λ (x : Mapped). is_past day rels x.found) (sym same) ∙ p,
          ))))
Named-judge_all n day rels (d ∷ cands) acc (inr (c, inr i, e, p)) =
    Named-judge_all n day rels cands (judge_one day rels d acc) (inr (c, i, e, p))

finish-packages :
    (day : Bytes) (rels : List Release) (g : EolFinding)
    → (finish day rels g).packages ≡ dedupe (sort_by lex g.packages)
unfolding finish
finish-packages day rels g = by_upgrade (upgrade_path (releases_of rels g.product) g.cycle day)
  where
    by_upgrade :
        (o : Option UpgradePath)
        → (with_upgrade (record g { packages = dedupe (sort_by lex g.packages) }) o).packages
          ≡ dedupe (sort_by lex g.packages)
    by_upgrade none = refl
    by_upgrade (some p) = refl

-- A finding of the list names the package.
abbrev pub IsNamed : Bytes → List EolFinding → Type 0
IsNamed n out = (g : EolFinding) × Among g out × Among n g.packages

pub finish_all-IsNamed :
    (n day : Bytes) (rels : List Release) (groups : List (Bytes × EolFinding))
    → Named n groups
    → IsNamed n (finish_all day rels groups)
unfolding finish_all
finish_all-IsNamed n day rels [] i = absurd i
finish_all-IsNamed n day rels ((k, g) ∷ groups) (inl i) =
    let kept = Among-dedupe n (sort_by lex g.packages) ((Among-sort_by lex n g.packages).1 i) in
    (finish day rels g, inl refl, subst (Among n) (sym (finish-packages day rels g)) kept)
finish_all-IsNamed n day rels ((k, g) ∷ groups) (inr i) =
    let (f, j, there) = finish_all-IsNamed n day rels groups i in (f, inr j, there)

module _ (find : Bytes → Bytes → Option (List Bytes)) (markers : List ((Bytes → Bool) × Bytes))
    (h : LifecycleHost) where
  -- A package to judge with the name, whose product passes the test.
  abbrev pub HasCandidate : Bytes → (Match → Bool) → List Mapped → Type 0
  HasCandidate n test cands =
      (c : Mapped) × Among c cands × (n ≡ c.pkg.name) × (test c.found ≡ true)

  by_origin-HasCandidate :
      (n : Bytes) (test : Match → Bool) (p : HostPackage) (m : Match) (o : Origin × Bytes)
      (acc : List Mapped × LifecycleStats)
      → HasCandidate n test acc.0 ⊎ ((n ≡ p.name) × ((is_third o.0 && test m) ≡ true))
      → HasCandidate n test (by_origin p m o acc).0
  by_origin-HasCandidate n test p m (distro_origin, label) acc (inl c) = c
  by_origin-HasCandidate n test p m (distro_origin, label) acc (inr (e, t)) =
      absurd (ground (arith, t))
  by_origin-HasCandidate n test p m (unknown_origin, label) acc (inl c) = c
  by_origin-HasCandidate n test p m (unknown_origin, label) acc (inr (e, t)) =
      absurd (ground (arith, t))
  by_origin-HasCandidate n test p m (third_party, label) (cands, st) (inl (c, i, e, t)) =
      let one : Mapped = record { pkg = p; found = m; class = third_party; label = label } in
      (c, Among-snoc c one cands (inl i), e, t)
  by_origin-HasCandidate n test p m (third_party, label) (cands, st) (inr (e, t)) =
      let one : Mapped = record { pkg = p; found = m; class = third_party; label = label } in
      (one, Among-snoc one one cands (inr refl), e, t)

  step-HasCandidate :
      (n : Bytes) (test : Match → Bool) (p : HostPackage) (acc : List Mapped × LifecycleStats)
      → HasCandidate n test acc.0
        ⊎ ((n ≡ p.name) × (maps_to find markers h (λ m o. is_third o && test m) p ≡ true))
      → HasCandidate n test (step find markers h p acc).0
  step-HasCandidate n test p acc i =
      by_cases (is_blank p) (map_package find h.manager p.name p.version) i
    where
      by_cases :
          (b : Bool) (o : Option Match)
          → HasCandidate n test acc.0
            ⊎ ((n ≡ p.name)
                × ((if b then false else elim o [
                  | none ↦ false
                  | some m ↦ is_third (origin_of find markers h p) && test m
                ])
                    ≡ true))
          → HasCandidate n test
              (if b then acc else elim o [
                | none ↦ acc
                | some m ↦
                    by_origin p m
                      (classify_origin markers h.distro h.manager p.version p.origin)
                      acc
              ]).0
      by_cases true o (inl c) = c
      by_cases true o (inr (e, t)) = absurd (ground (arith, t))
      by_cases false none (inl c) = c
      by_cases false none (inr (e, t)) = absurd (ground (arith, t))
      by_cases false (some m) j =
          by_origin-HasCandidate n test p m
            (classify_origin markers h.distro h.manager p.version p.origin) acc j

  pub map_all-HasCandidate :
      (n : Bytes) (test : Match → Bool) (packages : List HostPackage)
      (acc : List Mapped × LifecycleStats)
      → HasCandidate n test acc.0
        ⊎ ((p : HostPackage) × Among p packages
            × (n ≡ p.name)
            × (maps_to find markers h (λ m o. is_third o && test m) p ≡ true))
      → HasCandidate n test (map_all find markers h packages acc).0
  unfolding map_all
  map_all-HasCandidate n test [] acc (inl c) = c
  map_all-HasCandidate n test [] acc (inr (p, i, e, t)) = absurd i
  map_all-HasCandidate n test (d ∷ packages) acc i =
      subst (λ (x : List Mapped × LifecycleStats). HasCandidate n test x.0)
        (sym (map_all-step find markers h d packages acc))
        (map_all-HasCandidate n test packages (step find markers h d acc) (by_place i))
    where
      by_place :
          HasCandidate n test acc.0
            ⊎ ((p : HostPackage) × Among p (d ∷ packages)
                × (n ≡ p.name)
                × (maps_to find markers h (λ m o. is_third o && test m) p ≡ true))
          → HasCandidate n test (step find markers h d acc).0
            ⊎ ((p : HostPackage) × Among p packages
                × (n ≡ p.name)
                × (maps_to find markers h (λ m o. is_third o && test m) p ≡ true))
      by_place (inl c) = inl (step-HasCandidate n test d acc (inl c))
      by_place (inr (p, inl same, e, t)) = inl (
          step-HasCandidate n test d acc (
            inr (
              e ∙ ap (λ (x : HostPackage). x.name) same,
              ap (maps_to find markers h (λ m o. is_third o && test m)) (sym same) ∙ t,
            )))
      by_place (inr (p, inr j, e, t)) = inr (p, j, e, t)
