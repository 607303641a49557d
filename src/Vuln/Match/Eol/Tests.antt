-- ===== src/Vuln/Match/Eol/Tests.antt =====
-- internal/vuln/eol.go: PHP 8.0, by two of its packages.
use defendsec.Prelude.{◌≡◌, refl, false, none, [], ◌∷◌, arith}
use defendsec.Prelude.Text.{codes, is_empty}
use defendsec.Lifecycle.{stage_eol}
use defendsec.Lifecycle.Origin.{third_party}
use defendsec.Lifecycle.Report.{EolFinding, eol_advisory_id}
use defendsec.Vuln.Match.{finding_key, family_of}
use defendsec.Vuln.Match.Eol.{eol_finding, eol_key-injective}

abbrev php_8_0 : EolFinding
php_8_0 = record {
  product = codes "php";
  product_label = codes "PHP";
  cycle = codes "8.0";
  stage = stage_eol;
  stage_from = codes "2023-11-26";
  eol_from = codes "2023-11-26";
  eoas_from = codes "2022-11-26";
  eoes_from = [];
  package_name = codes "php8.0-cli";
  installed = codes "8.0.30";
  packages = codes "php8.0-cli" ∷ [];
  origin = third_party;
  origin_label = codes "Sury";
  origin_repo = [];
  upgrade_to = codes "8.4";
  upgrade_to_supported_until = codes "2028-12-31";
  fixed = codes "8.2";
  latest = [];
  link = [];
  snapshot_id = none;
  feed_date = none;
  reason = [];
}

-- The package that is listed first is another one.
abbrev php_8_0_fpm : EolFinding
php_8_0_fpm = record php_8_0 { package_name = codes "php8.0-fpm" }

same_release : finding_key (eol_finding php_8_0) ≡ finding_key (eol_finding php_8_0_fpm)
unfolding finding_key eol_finding family_of eol_advisory_id is_empty
same_release = refl

product_named : is_empty (codes "php") ≡ false
unfolding is_empty
product_named = refl

eol_key-injective_example : (codes "php" ≡ codes "php") × (codes "8.0" ≡ codes "8.0")
eol_key-injective_example =
    eol_key-injective php_8_0 php_8_0_fpm (omega arith, omega arith, product_named)
      (omega arith, omega arith, product_named) same_release
