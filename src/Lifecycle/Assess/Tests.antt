-- ===== src/Lifecycle/Assess/Tests.antt =====
-- internal/lifecycle/assess.go and mapping.go: a host of Debian with a PHP of a third party that is
-- past its end, and one of its own.
use defendsec.Prelude.{◌≡◌, refl, ◌&&◌, Option, none, some, List, [], ◌∷◌, inl, if◌then◌else◌}
use defendsec.Prelude.Sort.{Among, sort_by, insert_by, add_name}
use defendsec.Prelude.Text.{
  Bytes, codes, is_empty, eq_bytes, trim_space, to_lower, split_first, atoi,
}
use defendsec.Lifecycle.{
  Release, stage_eol, split_at, stage_of, upgrade_path, newer, is_newer, cmp_cycle, numeric_cycle,
  sort, pick,
}
use defendsec.Lifecycle.Mapping.{
  Match, rules, products, manager_key, map_package, map_by, is_of_manager, cycle_candidates,
  prefixes, join_dots,
}
use defendsec.Lifecycle.Mapping.Laws.{Comes, map_package-products}
use defendsec.Lifecycle.Origin.{
  third_party, classify_origin, marked_as, known_distro, own_label, labels_of, has_label,
}
use defendsec.Lifecycle.Report.{EolFinding, eol_advisory_id, reason_of}
use defendsec.Lifecycle.Assess.{
  HostPackage, LifecycleHost, LifecycleStats, nothing_seen, Mapped, assess_host, map_all,
  product_names, report, judge_all, finish_all, finish, add_to_release, add_package, start_finding,
  release_key, releases_of, releases_from, put_release, first_release, release_at, dedupe,
}
use defendsec.Lifecycle.Assess.Sound.{IsSound, assess_host-IsSound}
use defendsec.Lifecycle.Tests.{calendar, today, php_8_0}

-- The matches of the two texts that are asked for here.
abbrev found : Bytes → Bytes → Option (List Bytes)
found pattern text =
    if eq_bytes text (codes "php8.0-cli")
      && eq_bytes pattern (codes "^(?:libapache2-mod-|lib)?php(\\d+\\.\\d+)(?:-.+)?$")
    then some (codes "php8.0-cli" ∷ codes "8.0" ∷ [])
    else none

abbrev php_cli : Bytes → HostPackage
php_cli label = record {
  name = codes "php8.0-cli";
  version = codes "8.0.30";
  origin = label;
  origin_repo = codes "packages.sury.org";
}

abbrev host : LifecycleHost
host = record {
  distro = codes "debian";
  manager = codes "dpkg";
  packages = php_cli (codes "deb.sury.org") ∷ php_cli (codes "Debian") ∷ [];
}

abbrev outcome : Option (List EolFinding × LifecycleStats)
outcome = assess_host found [] (λ names. some calendar) today host

abbrev results : List EolFinding × LifecycleStats
results = elim outcome [ none ↦ ([], nothing_seen) | some r ↦ r ]

assessed : outcome ≡ some results
unfolding assess_host map_all map_package map_by manager_key is_of_manager cycle_candidates prefixes
    join_dots split_at trim_space is_empty eq_bytes to_lower classify_origin marked_as known_distro
    own_label labels_of has_label product_names add_name report judge_all finish_all finish
    add_to_release add_package start_finding release_key releases_of releases_from put_release
    first_release release_at dedupe stage_of upgrade_path newer is_newer cmp_cycle numeric_cycle
    sort pick sort_by insert_by eol_advisory_id reason_of atoi split_first
assessed = refl

abbrev or_nothing : List EolFinding → Bytes
or_nothing [] = []
or_nothing (g ∷ gs) = g.product

-- One of the two is judged, the other is the distribution's own.
php_judged :
    (or_nothing results.0 ≡ codes "php")
    × (results.1.mapped ≡ 2)
    × (results.1.distro_origin ≡ 1)
    × (results.1.findings ≡ 1)
unfolding assess_host map_all map_package map_by manager_key is_of_manager cycle_candidates prefixes
    join_dots split_at trim_space is_empty eq_bytes to_lower classify_origin marked_as known_distro
    own_label labels_of has_label product_names add_name report judge_all finish_all finish
    add_to_release add_package start_finding release_key releases_of releases_from put_release
    first_release release_at dedupe stage_of upgrade_path newer is_newer cmp_cycle numeric_cycle
    sort pick sort_by insert_by eol_advisory_id reason_of atoi split_first
php_judged = (refl, refl, refl, refl)

abbrev head_of : List EolFinding → EolFinding → EolFinding
head_of [] g = g
head_of (g ∷ gs) h = g

abbrev some_package : Match → HostPackage → Mapped
some_package m p = record { pkg = p; found = m; class = third_party; label = [] }

abbrev php_match : Match
php_match = record { product = codes "php"; cycles = codes "8.0" ∷ codes "8" ∷ [] }

abbrev filler : EolFinding
unfolding start_finding
filler = start_finding (some_package php_match (php_cli [])) php_8_0 stage_eol

abbrev first : EolFinding
first = head_of results.0 filler

first-Among : Among first results.0
unfolding assess_host map_all map_package map_by manager_key is_of_manager cycle_candidates prefixes
    join_dots split_at trim_space is_empty eq_bytes to_lower classify_origin marked_as known_distro
    own_label labels_of has_label product_names add_name report judge_all finish_all finish
    add_to_release add_package start_finding release_key releases_of releases_from put_release
    first_release release_at dedupe stage_of upgrade_path newer is_newer cmp_cycle numeric_cycle
    sort pick sort_by insert_by eol_advisory_id reason_of atoi split_first
first-Among = inl refl

assess_host-IsSound_example :
    (names : List Bytes) × (rels : List Release) × (◌≡◌ {A = Option (List Release)}
      (some calendar)
      (some rels))
    × IsSound today rels first
assess_host-IsSound_example =
    assess_host-IsSound found [] (λ names. some calendar) today host results.0 results.1 first
      assessed first-Among

mapped : map_package found (codes "dpkg") (codes "php8.0-cli") (codes "8.0.30") ≡ some php_match
unfolding map_package map_by manager_key is_of_manager cycle_candidates prefixes join_dots split_at
    is_empty eq_bytes
mapped = refl

map_package-products_example :
    Among (codes "php") products
    × Comes found (manager_key (codes "dpkg")) (codes "php8.0-cli") (codes "8.0.30") rules php_match
map_package-products_example =
    map_package-products found (codes "dpkg") (codes "php8.0-cli") (codes "8.0.30") php_match mapped
