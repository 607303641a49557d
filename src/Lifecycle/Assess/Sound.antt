-- ===== src/Lifecycle/Assess/Sound.antt =====
-- internal/lifecycle/assess.go, Assess: what a finding rests on.
use defendsec.Prelude.{
  ◌≡◌, refl, ◌∙◌, ap, ◌≢◌, Bool, true, false, Option, none, some, List, [], ◌∷◌, ◌++◌, inl, inr,
  if◌then◌else◌, arith, Bool-cases, ◌⊎◌,
}
use defendsec.Prelude.Cmp.{lex}
use defendsec.Prelude.Sort.{Among, sort_by, Among-sort_by}
use defendsec.Prelude.Text.{Bytes, eq_bytes}
use defendsec.Lifecycle.{
  Release, Stage, supported, stage_eol, stage_eoas, stage_of, UpgradePath, upgrade_path,
}
use defendsec.Lifecycle.Mapping.{Match, map_package}
use defendsec.Lifecycle.Origin.{Origin, distro_origin, third_party, unknown_origin, classify_origin}
use defendsec.Lifecycle.Report.{EolFinding, reason_of}
use defendsec.Lifecycle.Assess.{
  HostPackage, LifecycleHost, LifecycleStats, nothing_seen, Mapped, by_origin, is_blank, map_all,
  put_release, releases_from, releases_of, release_at, first_release, start_finding, add_package,
  add_to_release, release_key, by_stage, by_release, judge_one, judge_all, dedupe, with_upgrade,
  finish, finish_all, eol_cmp, report, with_cands, assess_host,
}

-- The releases under a product are some of those that were returned.
put_release-from :
    (r x : Release) (rels : List Release) → Among x (put_release r rels) → (x ≡ r) ⊎ Among x rels
unfolding put_release
put_release-from r x [] i = i
put_release-from r x (s ∷ rels) i = by_test (put_release-from r x rels) (eq_bytes s.cycle r.cycle) i
  where
    by_test :
        (Among x (put_release r rels) → (x ≡ r) ⊎ Among x rels)
        → (t : Bool) → Among x (if t then r ∷ rels else s ∷ put_release r rels)
        → (x ≡ r) ⊎ ((x ≡ s) ⊎ Among x rels)
    by_test ih true (inl e) = inl e
    by_test ih true (inr j) = inr (inr j)
    by_test ih false (inl e) = inr (inl e)
    by_test ih false (inr j) = elim (ih j) [ inl e ↦ inl e | inr k ↦ inr (inr k) ]

releases_from-from :
    (product : Bytes) (acc rels : List Release) (x : Release)
    → Among x (releases_from product acc rels)
    → Among x acc ⊎ Among x rels
unfolding releases_from
releases_from-from product acc [] x i = inl i
releases_from-from product acc (r ∷ rels) x i =
    by_test (λ a j. releases_from-from product a rels x j) (eq_bytes r.product product) i
  where
    by_test :
        ((a : List Release) → Among x (releases_from product a rels) → Among x a ⊎ Among x rels)
        → (t : Bool) → Among x (releases_from product (if t then put_release r acc else acc) rels)
        → Among x acc ⊎ ((x ≡ r) ⊎ Among x rels)
    by_test ih true j = elim (ih (put_release r acc) j) [
      | inl k ↦ elim (put_release-from r x acc k) [ inl e ↦ inr (inl e) | inr l ↦ inl l ]
      | inr k ↦ inr (inr k)
    ]
    by_test ih false j = elim (ih acc j) [ inl k ↦ inl k | inr k ↦ inr (inr k) ]

release_at-Among :
    (cycle : Bytes) (rels : List Release) (r : Release)
    → release_at cycle rels ≡ some r
    → Among r rels
unfolding release_at
release_at-Among cycle [] r h = cc
release_at-Among cycle (s ∷ rels) r h = elim (Bool-cases (eq_bytes s.cycle cycle)) [
  | inl same ↦ inl (ground arith)
  | inr other ↦ inr (release_at-Among cycle rels r (ground arith))
]

first_release-Among :
    (cycles : List Bytes) (rels : List Release) (r : Release)
    → first_release cycles rels ≡ some r
    → Among r rels
unfolding first_release
first_release-Among [] rels r h = cc
first_release-Among (c ∷ cycles) rels r h =
    by_found (first_release-Among cycles rels r) (release_at c rels) refl h
  where
    by_found :
        (first_release cycles rels ≡ some r → Among r rels)
        → (o : Option Release) → release_at c rels ≡ o
        → elim o [ some x ↦ some x | none ↦ first_release cycles rels ] ≡ some r
        → Among r rels
    by_found ih none e g = ih g
    by_found ih (some x) e g = release_at-Among c rels r (e ∙ g)

-- The finding is of a release that the store returned, whose support is over on the day, and of
-- packages that a third party ships.
abbrev pub IsSound : Bytes → List Release → EolFinding → Type 0
IsSound day rels g =
    (g.origin ≡ third_party)
    × (g.stage ≢ supported)
    × ((r : Release) × Among r rels
        × (r.product ≡ g.product)
        × (r.cycle ≡ g.cycle)
        × (stage_of r day ≡ g.stage))

abbrev ThirdParty : List Mapped → Type 0
ThirdParty [] = Unit
ThirdParty (c ∷ cands) = (c.class ≡ third_party) × ThirdParty cands

abbrev AllSound : Bytes → List Release → List (Bytes × EolFinding) → Type 0
AllSound day rels [] = Unit
AllSound day rels ((k, g) ∷ groups) = IsSound day rels g × AllSound day rels groups

ThirdParty-append :
    (cands more : List Mapped) → ThirdParty cands → ThirdParty more → ThirdParty (cands ++ more)
ThirdParty-append [] more h k = k
ThirdParty-append (c ∷ cands) more h k = (h.0, ThirdParty-append cands more h.1 k)

by_origin-ThirdParty :
    (p : HostPackage) (m : Match) (o : Origin × Bytes) (acc : List Mapped × LifecycleStats)
    → ThirdParty acc.0
    → ThirdParty (by_origin p m o acc).0
by_origin-ThirdParty p m (distro_origin, label) acc h = h
by_origin-ThirdParty p m (unknown_origin, label) acc h = h
by_origin-ThirdParty p m (third_party, label) acc h = ThirdParty-append acc.0 _ h (refl, tt)

map_all-ThirdParty :
    (find : Bytes → Bytes → Option (List Bytes)) (markers : List ((Bytes → Bool) × Bytes))
    (h : LifecycleHost) (packages : List HostPackage) (acc : List Mapped × LifecycleStats)
    → ThirdParty acc.0
    → ThirdParty (map_all find markers h packages acc).0
unfolding map_all
map_all-ThirdParty find markers h [] acc t = t
map_all-ThirdParty find markers h (p ∷ packages) acc t =
    by_blank (λ a k. map_all-ThirdParty find markers h packages a k) (is_blank p)
      (map_package find h.manager p.name p.version)
  where
    by_blank :
        ((a : List Mapped × LifecycleStats)
          → ThirdParty a.0
          → ThirdParty (map_all find markers h packages a).0)
        → (b : Bool) (o : Option Match)
        → ThirdParty (
            (if b then map_all find markers h packages acc else elim o [
              | none ↦ map_all find markers h packages acc
              | some m ↦ map_all find markers h packages (
                  by_origin p m (classify_origin markers h.distro h.manager p.version p.origin) acc)
            ]).0)
    by_blank ih true o = ih acc t
    by_blank ih false none = ih acc t
    by_blank ih false (some m) = ih _ (by_origin-ThirdParty p m _ acc t)

add_package-IsSound :
    (day : Bytes) (rels : List Release) (c : Mapped) (g : EolFinding)
    → IsSound day rels g
    → IsSound day rels (add_package c g)
unfolding add_package
add_package-IsSound day rels c g s = ground arith

start_finding-IsSound :
    (day : Bytes) (rels : List Release) (c : Mapped) (rel : Release) (stage : Stage)
    → c.class ≡ third_party
    → Among rel rels
    → stage_of rel day ≡ stage
    → stage ≢ supported
    → IsSound day rels (start_finding c rel stage)
unfolding start_finding
start_finding-IsSound day rels c rel stage t i e n = (t, n, (rel, i, refl, refl, e))

add_to_release-AllSound :
    (day : Bytes) (rels : List Release) (key : Bytes) (c : Mapped) (rel : Release) (stage : Stage)
    (groups : List (Bytes × EolFinding))
    → IsSound day rels (start_finding c rel stage)
    → AllSound day rels groups
    → AllSound day rels (add_to_release key c rel stage groups)
unfolding add_to_release
add_to_release-AllSound day rels key c rel stage [] s h =
    (add_package-IsSound day rels c (start_finding c rel stage) s, tt)
add_to_release-AllSound day rels key c rel stage ((k, g) ∷ groups) s h =
    by_test (add_to_release-AllSound day rels key c rel stage groups s h.1) (eq_bytes k key)
  where
    by_test :
        AllSound day rels (add_to_release key c rel stage groups)
        → (t : Bool)
        → AllSound day rels (
            if t
            then (k, add_package c g) ∷ groups
            else (k, g) ∷ add_to_release key c rel stage groups)
    by_test ih true = (add_package-IsSound day rels c g h.0, h.1)
    by_test ih false = (h.0, ih)

judge_one-AllSound :
    (day : Bytes) (rels : List Release) (c : Mapped)
    (acc : List (Bytes × EolFinding) × LifecycleStats)
    → c.class ≡ third_party
    → AllSound day rels acc.0
    → AllSound day rels (judge_one day rels c acc).0
unfolding releases_of
judge_one-AllSound day rels c (groups, st) t h =
    by_found (first_release c.found.cycles (releases_of rels c.found.product)) refl
  where
    among : (r : Release) → Among r (releases_of rels c.found.product) → Among r rels
    among r i = elim (releases_from-from c.found.product [] rels r i) [
      | inl j ↦ absurd j
      | inr j ↦ j
    ]

    by_stages :
        (r : Release) (s : Stage)
        → Among r rels
        → stage_of r day ≡ s
        → AllSound day rels (by_stage c r s (groups, st)).0
    by_stages r supported i e = h
    by_stages r stage_eol i e =
        add_to_release-AllSound day rels (release_key r) c r stage_eol groups
          (start_finding-IsSound day rels c r stage_eol t i e (λ q. cc)) h
    by_stages r stage_eoas i e =
        add_to_release-AllSound day rels (release_key r) c r stage_eoas groups
          (start_finding-IsSound day rels c r stage_eoas t i e (λ q. cc)) h

    by_found :
        (o : Option Release)
        → first_release c.found.cycles (releases_of rels c.found.product) ≡ o
        → AllSound day rels (by_release day c o (groups, st)).0
    by_found none e = h
    by_found (some r) e =
        by_stages r (stage_of r day)
          (among r (first_release-Among c.found.cycles (releases_of rels c.found.product) r e)) refl

judge_all-AllSound :
    (day : Bytes) (rels : List Release) (cands : List Mapped)
    (acc : List (Bytes × EolFinding) × LifecycleStats)
    → ThirdParty cands
    → AllSound day rels acc.0
    → AllSound day rels (judge_all day rels cands acc).0
unfolding judge_all
judge_all-AllSound day rels [] acc t h = h
judge_all-AllSound day rels (c ∷ cands) acc t h =
    judge_all-AllSound day rels cands (judge_one day rels c acc) t.1
      (judge_one-AllSound day rels c acc t.0 h)

finish-IsSound :
    (day : Bytes) (rels : List Release) (g : EolFinding)
    → IsSound day rels g
    → IsSound day rels (finish day rels g)
unfolding finish
finish-IsSound day rels g s = by_path (upgrade_path (releases_of rels g.product) g.cycle day)
  where
    sorted : EolFinding
    sorted = record g { packages = dedupe (sort_by lex g.packages) }

    by_path :
        (o : Option UpgradePath)
        → IsSound day rels
            (record (with_upgrade sorted o) { reason = reason_of (with_upgrade sorted o) })
    by_path none = s
    by_path (some p) = s

finish_all-IsSound :
    (day : Bytes) (rels : List Release) (groups : List (Bytes × EolFinding)) (g : EolFinding)
    → AllSound day rels groups
    → Among g (finish_all day rels groups)
    → IsSound day rels g
unfolding finish_all
finish_all-IsSound day rels [] g h i = absurd i
finish_all-IsSound day rels ((k, f) ∷ groups) g h (inl e) = rw e (finish-IsSound day rels f h.0)
finish_all-IsSound day rels ((k, f) ∷ groups) g h (inr i) =
    finish_all-IsSound day rels groups g h.1 i

-- Every finding is of a release that the store returned, whose support is over on the day of the run,
-- at the stage that it is judged to have, and of packages that a third party ships.
pub assess_host-IsSound :
    (find : Bytes → Bytes → Option (List Bytes)) (markers : List ((Bytes → Bool) × Bytes))
    (eol_releases : List Bytes → Option (List Release)) (day : Bytes) (h : LifecycleHost)
    (out : List EolFinding) (st : LifecycleStats) (g : EolFinding)
    → assess_host find markers eol_releases day h ≡ some (out, st)
    → Among g out
    → (names : List Bytes) × (rels : List Release) × (eol_releases names ≡ some rels)
      × IsSound day rels g
unfolding assess_host report
assess_host-IsSound find markers eol_releases day h out st g e i =
    by_cands (map_all find markers h h.packages ([], nothing_seen))
      (map_all-ThirdParty find markers h h.packages ([], nothing_seen) tt) e
  where
    Goal : Type 0
    Goal =
        (names : List Bytes) × (rels : List Release) × (eol_releases names ≡ some rels)
        × IsSound day rels g

    by_store :
        (c : Mapped) (cands : List Mapped) (counts : LifecycleStats) (names : List Bytes)
        (o : Option (List Release))
        → ThirdParty (c ∷ cands)
        → eol_releases names ≡ o
        → elim o [ none ↦ none | some rels ↦ some (report day rels (c ∷ cands) counts) ]
          ≡ some (out, st)
        → Goal
    by_store c cands counts names none t q r = cc
    by_store c cands counts names (some rels) t q r =
        let acc = judge_all day rels (c ∷ cands) ([], counts) in
        let same : sort_by eol_cmp (finish_all day rels acc.0) ≡ out =
          ap
            (λ (x : Option (List EolFinding × LifecycleStats)). elim x [ none ↦ [] | some y ↦ y.0 ])
            r in
        let there = (Among-sort_by eol_cmp g (finish_all day rels acc.0)).0 (rw same i) in
        (
          names,
          rels,
          q,
          finish_all-IsSound day rels acc.0 g
              (judge_all-AllSound day rels (c ∷ cands) ([], counts) t tt) there,
        )

    by_cands :
        (m : List Mapped × LifecycleStats)
        → ThirdParty m.0
        → with_cands find markers eol_releases day m ≡ some (out, st)
        → Goal
    by_cands ([], counts) t r =
        let same : [] ≡ out =
          ap
            (λ (x : Option (List EolFinding × LifecycleStats)). elim x [ none ↦ [] | some y ↦ y.0 ])
            r in
        absurd (rw (← same) at i)
    by_cands (c ∷ cands, counts) t r = by_store c cands counts _ _ t refl r
