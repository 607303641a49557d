-- ===== src/Vuln/Details.antt =====
-- internal/vuln/match.go and repohealth.go: what findings of the end of life of a release and of the
-- health of a repository say beyond the fields that every finding has.
use defendsec.Prelude.{List}
use defendsec.Prelude.Int.{ℤ}
use defendsec.Prelude.Text.{Bytes}

pub record EolDetail : Type 0 where
  pub product : Bytes
  pub product_label : Bytes
  pub cycle : Bytes
  pub stage : Bytes
  pub stage_from : Bytes
  pub eol_from : Bytes
  pub eoas_from : Bytes
  pub eoes_from : Bytes
  pub packages : List Bytes
  pub origin : Bytes
  pub origin_repo : Bytes
  pub upgrade_to : Bytes
  pub upgrade_to_supported_until : Bytes
  pub latest : Bytes
  pub link : Bytes

pub record RepoProblem : Type 0 where
  pub code : Bytes
  pub severity : Bytes
  pub title : Bytes
  pub detail : Bytes

pub record RepoDetail : Type 0 where
  pub repo_id : Bytes
  pub label : Bytes
  pub uri : Bytes
  pub suite : Bytes
  pub manager : Bytes
  pub source : Bytes
  pub signature : Bytes
  pub key_id : Bytes
  pub signed_by : Bytes
  pub problems : List RepoProblem
  pub release_date : Bytes
  pub valid_until : Bytes
  pub metadata_time : Bytes
  pub key_expires : Bytes
  pub last_refresh : Bytes
  pub last_refresh_source : Bytes
  pub stale_after_days : ℤ
  pub fix : Bytes
