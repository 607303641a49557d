-- ===== src/RepoHealth/Tests.antt =====
-- internal/repohealth: a host of Debian with one repository that is in order and one whose key has
-- expired.
use defendsec.Prelude.{ℕ, ◌≡◌, refl, false, none, some, List, [], ◌∷◌, ◌↔◌}
use defendsec.Prelude.Int.{pos}
use defendsec.Prelude.Text.{Bytes, codes, is_empty, eq_bytes}
use defendsec.RepoHealth.{Sig, good, other_sig, Repo, RepoReport, reliable, apt, since}
use defendsec.RepoHealth.Problems.{
  assess_report, assess_repo, problems_of, unverified_reasons, problem_reasons, threshold,
}
use defendsec.RepoHealth.Reliable.{AllUnobjected, assess_report-reliable}

abbrev pub repo_with : Bytes → Sig → Repo
repo_with id signature = record {
  id = id;
  label = codes "Example";
  uri = codes "https://deb.example.org";
  suite = codes "stable";
  source = codes "/etc/apt/sources.list.d/example.list";
  signature = signature;
  key_id = codes "0xABCD";
  detail = [];
  signed_by = [];
  release_date = some 1000;
  valid_until = none;
  ignore_valid_until = false;
  metadata_time = none;
  key_expires = none;
}

abbrev pub report_of : List Repo → RepoReport
report_of repos = record {
  manager = apt;
  last_refresh = some 1500;
  last_refresh_source = codes "update-success-stamp";
  repos = repos;
  limits = [];
  assessment = none;
  assessed_at = [];
}

abbrev pub good_day : ℕ → Bytes
good_day t = codes "2025-06-01"

abbrev in_order : RepoReport
in_order = report_of (repo_with (codes "deb stable") good ∷ [])

in_order-reliable : (assess_report good_day in_order 2000 (pos 0)).reliability ≡ reliable
unfolding assess_report problems_of assess_repo since unverified_reasons problem_reasons is_empty
    eq_bytes
in_order-reliable = refl

-- A state that is none of the known ones, and no date at all: the list still counts as reliable.
abbrev undated : Repo
undated = record (repo_with (codes "deb stable") (other_sig (codes "unheard_of"))) {
  release_date = none;
}

undated-reliable :
    (assess_report good_day (report_of (undated ∷ [])) 2000 (pos 0)).reliability ≡ reliable
unfolding assess_report problems_of assess_repo since unverified_reasons problem_reasons is_empty
    eq_bytes
undated-reliable = refl

assess_report-reliable_example :
    ((assess_report good_day in_order 2000 (pos 0)).reliability ≡ reliable) ↔ (
      (is_empty in_order.manager ≡ false)
      × AllUnobjected in_order 2000 (threshold (pos 0)) in_order.repos
      × (in_order.limits ≡ []))
assess_report-reliable_example = assess_report-reliable good_day in_order 2000 (pos 0)
