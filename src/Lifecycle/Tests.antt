-- ===== src/Lifecycle/Tests.antt =====
-- internal/lifecycle/assess.go: PHP 8.0 on a day on which 8.2 gets security fixes only.
use defendsec.Prelude.{◌↔◌, Bool, ◌≡◌, refl, true, false, none, some, List, [], ◌∷◌, inl, arith}
use defendsec.Prelude.Int.{negsuc}
use defendsec.Prelude.Text.{contains, trim_space, is_empty, Bytes, codes}
use defendsec.Lifecycle.{
  Release, upgrade_path, is_newer, stage_of, stage_eol, cmp_cycle, numeric_cycle, newer, sort, pick,
}
use defendsec.Lifecycle.Origin.{
  third_party, distro_origin, classify_origin, is_bare, own_label, known_distro, marked_as,
  classify_origin-own,
}
use defendsec.Lifecycle.Upgrade.Choice.{path_of, IsChoice, IsBestUpgrade, upgrade_path_least}

abbrev php : Bytes → Bytes → Bytes → Release
php cycle eoas eol = record {
  product = codes "php";
  label = codes "PHP";
  cycle = cycle;
  release_date = [];
  eoas_from = eoas;
  eol_from = eol;
  eoes_from = [];
  is_eol = false;
  is_lts = false;
  latest = [];
  link = [];
  snapshot_id = none;
  feed_date = none;
}

abbrev pub php_8_0 : Release
php_8_0 = php (codes "8.0") (codes "2022-11-26") (codes "2023-11-26")

abbrev php_8_2 : Release
php_8_2 = php (codes "8.2") (codes "2024-12-31") (codes "2026-12-31")

abbrev php_8_4 : Release
php_8_4 = php (codes "8.4") (codes "2026-12-31") (codes "2028-12-31")

abbrev pub calendar : List Release
calendar = php_8_4 ∷ php_8_0 ∷ php_8_2 ∷ []

abbrev pub today : Bytes
today = codes "2025-06-01"

php_8_0-stage_of : stage_of php_8_0 today ≡ stage_eol
unfolding stage_of
php_8_0-stage_of = refl

cycles_numeric : cmp_cycle (codes "9.6") (codes "10") ≡ negsuc 0
unfolding cmp_cycle
cycles_numeric = refl

upgrade :
    upgrade_path calendar (codes "8.0") today
    ≡ some (record { to = codes "8.4"; until = codes "2028-12-31"; fixed = codes "8.2" })
unfolding upgrade_path newer is_newer cmp_cycle numeric_cycle stage_of sort pick
upgrade = refl

php_8_4-IsChoice : IsChoice calendar (codes "8.0") today php_8_4
unfolding cmp_cycle numeric_cycle stage_of
php_8_4-IsChoice = (inl refl, (refl, refl, λ e. ground (arith, e)))

upgrade_path_least_example :
    (f : Release) × (t : Release) × (upgrade_path calendar (codes "8.0") today ≡ some (path_of f t))
    × IsBestUpgrade calendar (codes "8.0") today f t
upgrade_path_least_example =
    upgrade_path_least calendar (codes "8.0") today php_8_4 php_8_4-IsChoice

abbrev sury : List ((Bytes → Bool) × Bytes)
sury = ((λ v. contains v (codes "sury")), codes "Sury") ∷ []

third_party_build :
    classify_origin sury (codes "debian") (codes "dpkg") (codes "8.0.30-1+sury~bookworm") []
    ≡ (third_party, codes "Sury")
unfolding classify_origin known_distro own_label marked_as contains is_empty trim_space
third_party_build = refl

classify_origin-own_example :
    ((classify_origin sury (codes "ubuntu") (codes "dpkg") (codes "8.1") (codes "UbuntuESM")).0
      ≡ distro_origin)
    ↔ ((is_bare (codes "ubuntu") (codes "dpkg") ≡ false)
        × (own_label (codes "ubuntu") (trim_space (codes "UbuntuESM")) ≡ true))
classify_origin-own_example =
    classify_origin-own sury (codes "ubuntu") (codes "dpkg") (codes "8.1") (codes "UbuntuESM")
