-- ===== src/Lifecycle/Assess.antt =====
-- internal/lifecycle/assess.go, Assess: the third-party software of a host, judged against the
-- release calendar. The day is the text of the date that the run is made for; a map is a list of its
-- entries. The store is a parameter, with `none` for an error of it; so are the regular expressions,
-- as in Mapping and Origin.
pub mod Sound
pub mod Tally
pub mod Named
pub mod Count
mod Tests
use defendsec.Prelude.{
  ℕ, ◌+◌, Bool, true, false, not, ◌&&◌, ◌||◌, Option, none, some, List, [], ◌∷◌, ◌++◌,
  if◌then◌else◌, Ordering, length, compare,
}
use defendsec.Prelude.Cmp.{lex, or_else}
use defendsec.Prelude.Sort.{sort_by, add_name}
use defendsec.Prelude.Text.{Bytes, eq_bytes, is_empty, trim_space}
use defendsec.Lifecycle.{
  Release, Stage, supported, stage_eol, stage_eoas, stage_of, UpgradePath, upgrade_path,
}
use defendsec.Lifecycle.Mapping.{Match, map_package}
use defendsec.Lifecycle.Origin.{Origin, distro_origin, third_party, unknown_origin, classify_origin}
use defendsec.Lifecycle.Report.{EolFinding, eol_advisory_id, reason_of}

pub record HostPackage : Type 0 where
  pub name : Bytes
  pub version : Bytes
  pub origin : Bytes
  pub origin_repo : Bytes

pub record LifecycleHost : Type 0 where
  pub distro : Bytes
  pub manager : Bytes
  pub packages : List HostPackage

pub record LifecycleStats : Type 0 where
  pub mapped : ℕ
  pub distro_origin : ℕ
  pub origin_unknown : ℕ
  pub no_release : ℕ
  pub supported : ℕ
  pub findings : ℕ

abbrev pub nothing_seen : LifecycleStats
nothing_seen = record {
  mapped = 0;
  distro_origin = 0;
  origin_unknown = 0;
  no_release = 0;
  supported = 0;
  findings = 0;
}

-- A package of a known product that comes from a third party.
pub record Mapped : Type 0 where
  pub pkg : HostPackage
  pub found : Match
  pub class : Origin
  pub label : Bytes

-- The outcome of the first loop: the packages to judge and the counts.
abbrev pub by_origin :
    HostPackage
    → Match
    → Origin × Bytes
    → List Mapped × LifecycleStats
    → List Mapped × LifecycleStats
by_origin p m (distro_origin, label) (cands, st) =
    (cands, record st { mapped = st.mapped + 1; distro_origin = st.distro_origin + 1 })
by_origin p m (unknown_origin, label) (cands, st) =
    (cands, record st { mapped = st.mapped + 1; origin_unknown = st.origin_unknown + 1 })
by_origin p m (third_party, label) (cands, st) = (
  cands ++ record { pkg = p; found = m; class = third_party; label = label } ∷ [],
  record st { mapped = st.mapped + 1 },
)

abbrev pub is_blank : HostPackage → Bool
is_blank p = is_empty (trim_space p.name) || is_empty (trim_space p.version)

module _ (find : Bytes → Bytes → Option (List Bytes))
    (markers : List ((Bytes → Bool) × Bytes)) where
  unfoldable pub map_all :
      LifecycleHost → List HostPackage → List Mapped × LifecycleStats → List Mapped × LifecycleStats
  unfolding trim_space is_empty map_package classify_origin
  map_all h [] acc = acc
  map_all h (p ∷ packages) acc =
      let rest = map_all h packages acc in
      if is_blank p then rest else elim (map_package find h.manager p.name p.version) [
        | none ↦ rest
        | some m ↦
            map_all h packages
              (by_origin p m (classify_origin markers h.distro h.manager p.version p.origin) acc)
      ]

-- The set of the products, and the texts in order.
unfoldable pub product_names : List Mapped → List Bytes
unfolding add_name
product_names [] = []
product_names (c ∷ cands) = add_name c.found.product (product_names cands)

-- byProduct[product]: the entry of a cycle is the last release of it.
unfoldable pub put_release : Release → List Release → List Release
unfolding eq_bytes
put_release r [] = r ∷ []
put_release r (s ∷ rels) =
    let rest = put_release r rels in if eq_bytes s.cycle r.cycle then r ∷ rels else s ∷ rest

unfoldable pub releases_from : Bytes → List Release → List Release → List Release
unfolding put_release eq_bytes
releases_from product acc [] = acc
releases_from product acc (r ∷ rels) =
    releases_from product (if eq_bytes r.product product then put_release r acc else acc) rels

unfoldable pub releases_of : List Release → Bytes → List Release
unfolding releases_from
releases_of rels product = releases_from product [] rels

unfoldable pub release_at : Bytes → List Release → Option Release
unfolding eq_bytes
release_at cycle [] = none
release_at cycle (r ∷ rels) = if eq_bytes r.cycle cycle then some r else release_at cycle rels

-- The release of the first cycle that the feed lists.
unfoldable pub first_release : List Bytes → List Release → Option Release
unfolding release_at
first_release [] rels = none
first_release (c ∷ cycles) rels = elim (release_at c rels) [
  | some r ↦ some r
  | none ↦ first_release cycles rels
]

-- The finding of a release, before a package of it is counted.
unfoldable pub start_finding : Mapped → Release → Stage → EolFinding
unfolding is_empty
start_finding c rel stage = record {
  product = rel.product;
  product_label = if is_empty rel.label then rel.product else rel.label;
  cycle = rel.cycle;
  stage = stage;
  stage_from = elim stage [ stage_eol ↦ rel.eol_from | _ ↦ rel.eoas_from ];
  eol_from = rel.eol_from;
  eoas_from = rel.eoas_from;
  eoes_from = rel.eoes_from;
  package_name = c.pkg.name;
  installed = c.pkg.version;
  packages = [];
  origin = c.class;
  origin_label = c.label;
  origin_repo = c.pkg.origin_repo;
  upgrade_to = [];
  upgrade_to_supported_until = [];
  fixed = [];
  latest = rel.latest;
  link = rel.link;
  snapshot_id = rel.snapshot_id;
  feed_date = rel.feed_date;
  reason = [];
}

abbrev pub is_before : Bytes → Bytes → Bool
is_before a b = elim (lex a b) [ Ordering.lt ↦ true | _ ↦ false ]

-- A package of the release: the first one by name stands for all.
unfoldable pub add_package : Mapped → EolFinding → EolFinding
add_package c g =
    let with_it = record g { packages = g.packages ++ c.pkg.name ∷ [] } in
    if is_before c.pkg.name g.package_name
    then record with_it {
      package_name = c.pkg.name;
      installed = c.pkg.version;
      origin_label = c.label;
      origin_repo = c.pkg.origin_repo;
    }
    else with_it

-- groups[key] and the order of the keys: the key is the product and the cycle, with a NUL byte
-- between them.
unfoldable pub release_key : Release → Bytes
release_key rel = rel.product ++ 0 ∷ rel.cycle

unfoldable pub add_to_release :
    Bytes → Mapped → Release → Stage → List (Bytes × EolFinding) → List (Bytes × EolFinding)
unfolding eq_bytes start_finding add_package
add_to_release key c rel stage [] = (key, add_package c (start_finding c rel stage)) ∷ []
add_to_release key c rel stage ((k, g) ∷ groups) =
    let rest = add_to_release key c rel stage groups in
    if eq_bytes k key then (k, add_package c g) ∷ groups else (k, g) ∷ rest

abbrev pub by_stage :
    Mapped
    → Release
    → Stage
    → List (Bytes × EolFinding) × LifecycleStats
    → List (Bytes × EolFinding) × LifecycleStats
by_stage c rel supported (groups, st) = (groups, record st { supported = st.supported + 1 })
by_stage c rel stage (groups, st) = (add_to_release (release_key rel) c rel stage groups, st)

abbrev pub by_release :
    Bytes
    → Mapped
    → Option Release
    → List (Bytes × EolFinding) × LifecycleStats
    → List (Bytes × EolFinding) × LifecycleStats
by_release day c none (groups, st) = (groups, record st { no_release = st.no_release + 1 })
by_release day c (some rel) acc = by_stage c rel (stage_of rel day) acc

-- A round of the second loop.
abbrev pub judge_one :
    Bytes
    → List Release
    → Mapped
    → List (Bytes × EolFinding) × LifecycleStats
    → List (Bytes × EolFinding) × LifecycleStats
judge_one day rels c acc =
    by_release day c (first_release c.found.cycles (releases_of rels c.found.product)) acc

-- The second loop.
unfoldable pub judge_all :
    Bytes
    → List Release
    → List Mapped
    → List (Bytes × EolFinding) × LifecycleStats
    → List (Bytes × EolFinding) × LifecycleStats
unfolding first_release releases_of stage_of add_to_release release_key
judge_all day rels [] acc = acc
judge_all day rels (c ∷ cands) acc = judge_all day rels cands (judge_one day rels c acc)

unfoldable pub dedupe : List Bytes → List Bytes
unfolding eq_bytes
dedupe [] = []
dedupe (a ∷ []) = a ∷ []
dedupe (a ∷ b ∷ s) = let rest = dedupe (b ∷ s) in if eq_bytes a b then rest else a ∷ rest

abbrev pub with_upgrade : EolFinding → Option UpgradePath → EolFinding
with_upgrade g none = g
with_upgrade g (some p) = record g {
  upgrade_to = p.to;
  upgrade_to_supported_until = p.until;
  fixed = p.fixed;
}

unfoldable pub finish : Bytes → List Release → EolFinding → EolFinding
unfolding dedupe sort_by upgrade_path releases_of reason_of
finish day rels g =
    let sorted = record g { packages = dedupe (sort_by lex g.packages) } in
    let upgraded = with_upgrade sorted (upgrade_path (releases_of rels g.product) g.cycle day) in
    record upgraded { reason = reason_of upgraded }

unfoldable pub finish_all : Bytes → List Release → List (Bytes × EolFinding) → List EolFinding
unfolding finish
finish_all day rels [] = []
finish_all day rels ((k, g) ∷ groups) = finish day rels g ∷ finish_all day rels groups

abbrev pub stage_place : Stage → ℕ
stage_place stage_eol = 0
stage_place _ = 1

-- Past security support before past active support, then by the advisory's id.
abbrev pub eol_cmp : EolFinding → EolFinding → Ordering
eol_cmp a b =
    or_else (compare (stage_place a.stage) (stage_place b.stage))
      (lex (eol_advisory_id a) (eol_advisory_id b))

-- What is done with the releases that the store returns.
unfoldable pub report :
    Bytes → List Release → List Mapped → LifecycleStats → List EolFinding × LifecycleStats
unfolding judge_all finish_all sort_by eol_advisory_id
report day rels cands st =
    let (groups, counted) = judge_all day rels cands ([], st) in
    let out = sort_by eol_cmp (finish_all day rels groups) in
    (out, record counted { findings = length out })

module _ (find : Bytes → Bytes → Option (List Bytes)) (markers : List ((Bytes → Bool) × Bytes))
    (eol_releases : List Bytes → Option (List Release)) where
  abbrev pub with_cands :
      Bytes → List Mapped × LifecycleStats → Option (List EolFinding × LifecycleStats)
  with_cands day ([], st) = some ([], st)
  with_cands day (c ∷ cands, st) = elim (eol_releases (sort_by lex (product_names (c ∷ cands)))) [
    | none ↦ none
    | some rels ↦ some (report day rels (c ∷ cands) st)
  ]

  -- lifecycle.Assess
  unfoldable pub assess_host : Bytes → LifecycleHost → Option (List EolFinding × LifecycleStats)
  unfolding map_all product_names report sort_by
  assess_host day h = with_cands day (map_all find markers h h.packages ([], nothing_seen))
