-- ===== src/Exposure/Tests.antt =====
-- internal/exposure/rank.go: an exploited vulnerability, software past its end of life, and a
-- vulnerability with a higher score than either.
use defendsec.Prelude.{◌≡◌, refl, Bool, true, false, Option, none, some, [], Ordering, inr, ℕ}
use defendsec.Prelude.Int.{sign, pos}
use defendsec.Prelude.Cmp.{flip, Composes}
use defendsec.Prelude.Text.{Bytes, codes}
use defendsec.Exposure.{Item, compare_items, stage_of}
use defendsec.Exposure.Order.{
  rank, compare_items-rank, compare_items_total, exploited_urgent_rest, IsUrgent,
}

abbrev row : Bytes → Bool → Option ℕ → Bytes → Item
row id kev cvss stage = record {
  advisory_id = id;
  severity = codes "Medium";
  kev = kev;
  kev_added = none;
  epss = none;
  cvss = cvss;
  surface = false;
  identity = false;
  eol_stage = stage;
  repo_health = false;
}

abbrev exploited : Item
exploited = row (codes "CVE-2021-4034") true (some 510_000) []

abbrev php : Item
php = row (codes "EOL:php:7.4") false none (codes "eol")

abbrev severe : Item
severe = row (codes "CVE-2024-1") false (some 1_000_000) []

php_stage : IsUrgent php
unfolding stage_of
php_stage = inr (refl, refl)

compare_items-rank_example : sign (compare_items exploited severe) ≡ rank exploited severe
compare_items-rank_example = compare_items-rank exploited severe

compare_items_total_example :
    (sign (compare_items exploited exploited) ≡ Ordering.eq)
    × (sign (compare_items php exploited) ≡ flip (sign (compare_items exploited php)))
    × Composes
        (sign (compare_items exploited php))
        (sign (compare_items php severe))
        (sign (compare_items exploited severe))
    × (compare_items exploited php ≡ pos 0 → exploited.advisory_id ≡ php.advisory_id)
compare_items_total_example = compare_items_total exploited php severe

exploited_urgent_rest_example :
    (sign (compare_items exploited php) ≡ Ordering.lt)
    × (sign (compare_items php severe) ≡ Ordering.lt)
unfolding stage_of
exploited_urgent_rest_example =
    exploited_urgent_rest exploited php severe (refl, refl) refl php_stage (refl, refl) refl
