-- ===== src/Vuln/Match/Repos.antt =====
-- internal/vuln/repohealth.go: the findings of the health of a host's repositories. The SHA-256 of a
-- text in hexadecimal and the renderings of a time, as a day and in RFC 3339, are parameters. A map is
-- a function from its keys.
pub mod Severe
mod Tests
use defendsec.Prelude.{
  ℕ, ◌+◌, ◌-◌, ◌/◌, Bool, true, false, not, ◌||◌, Option, none, some, List, [], ◌∷◌, ◌++◌, ltb,
  if◌then◌else◌, take, length,
}
use defendsec.Prelude.Int.{ℤ, pos, negsuc, sub_ℕ}
use defendsec.Prelude.Text.{Bytes, codes, is_empty, eq_bytes, trim_space}
use defendsec.RepoHealth.{
  Sig, good, expired_key, no_pubkey, bad_signature, revoked_key, unsigned, no_index, not_checked,
  unverified, other_sig, Repo, Problem, RepoReport, is_empty_report, day_length, max_duration,
}
use defendsec.RepoHealth.Advice.{fix, is_one_of}
use defendsec.RepoHealth.Highest.{for_repo, highest}
use defendsec.RepoHealth.Problems.{assess_report}
use defendsec.Vuln.Details.{RepoProblem, RepoDetail}
use defendsec.Vuln.Match.{Finding, repo_health, host_basis, other_state}
use defendsec.Vuln.Match.Windows.{Result}

-- The state of a signature as a text.
abbrev pub sig_text : Sig → Bytes
sig_text good = codes "good"
sig_text expired_key = codes "expired_key"
sig_text no_pubkey = codes "no_pubkey"
sig_text bad_signature = codes "bad_signature"
sig_text revoked_key = codes "revoked_key"
sig_text unsigned = codes "unsigned"
sig_text no_index = codes "no_index"
sig_text not_checked = codes "not_checked"
sig_text unverified = codes "unverified"
sig_text (other_sig s) = s

-- What a map gives for a key that it lacks.
abbrev pub no_repo : Repo
no_repo = record {
  id = [];
  label = [];
  uri = [];
  suite = [];
  source = [];
  signature = other_sig [];
  key_id = [];
  detail = [];
  signed_by = [];
  release_date = none;
  valid_until = none;
  ignore_valid_until = false;
  metadata_time = none;
  key_expires = none;
}

abbrev pub no_problem : Problem
no_problem = record { repo_id = []; code = []; severity = []; title = []; detail = [] }

-- byRepo[id]: the last repository with the id.
unfoldable pub repo_at : Bytes → List Repo → Repo → Repo
unfolding eq_bytes
repo_at id [] known = known
repo_at id (repo ∷ repos) known = repo_at id repos (if eq_bytes repo.id id then repo else known)

-- The threshold in days, rounded; the sum wraps around at 64 bits.
abbrev pub rounded_days : ℕ → ℤ
rounded_days n =
    let sum = n + 43_200_000_000_000 in
    if ltb max_duration sum
    then sub_ℕ 0 ((18_446_744_073_709_551_616 - sum) / day_length)
    else pos (sum / day_length)

unfoldable pub stale_days : ℤ → ℤ
stale_days (negsuc n) = pos 7
stale_days (pos n) = if not (ltb 0 n) then pos 7 else rounded_days n

abbrev pub or_no_problem : Option Problem → Problem
or_no_problem none = no_problem
or_no_problem (some p) = p

unfoldable pub join_spaces : List Bytes → Bytes
join_spaces [] = []
join_spaces (p ∷ []) = p
join_spaces (p ∷ q ∷ ps) = p ++ b' ' ∷ join_spaces (q ∷ ps)

unfoldable pub problem_texts : List Problem → List Bytes
unfolding trim_space
problem_texts [] = []
problem_texts (p ∷ ps) = trim_space (p.title ++ (codes ". " ++ p.detail)) ∷ problem_texts ps

-- reasonOf
unfoldable pub reason_of_problems : List Problem → Bytes
unfolding join_spaces problem_texts
reason_of_problems ps = join_spaces (problem_texts ps)

unfoldable pub detail_problems : List Problem → List RepoProblem
detail_problems [] = []
detail_problems (q ∷ ps) =
    record { code = q.code; severity = q.severity; title = q.title; detail = q.detail }
    ∷ detail_problems ps

module _ (digest : Bytes → Bytes) (day stamp : ℕ → Bytes) where
  unfoldable pub repo_advisory_id : Bytes → Bytes
  repo_advisory_id id = codes "REPO:" ++ take 12 (digest id)

  -- ts
  abbrev pub time_text : Option ℕ → Bytes
  time_text none = []
  time_text (some t) = stamp t

  unfoldable pub repo_finding : RepoReport → ℤ → Repo → List Problem → Finding
  unfolding repo_advisory_id stale_days fix highest reason_of_problems detail_problems
  repo_finding r stale_after repo all = record {
    advisory_id = repo_advisory_id repo.id;
    cve = [];
    range_id = 0;
    snapshot_id = none;
    feed = codes "repohealth";
    feed_date = none;
    kind = repo_health;
    basis = host_basis;
    package_name = repo.label;
    source_package = repo.id;
    installed = [];
    fixed_in = [];
    fix_state = other_state (or_no_problem (highest all)).code;
    severity = (or_no_problem (highest all)).severity;
    summary = repo.label ++ (codes ": " ++ (or_no_problem (highest all)).title);
    kev = false;
    epss = none;
    cvss = none;
    reason = reason_of_problems all;
    upstream_fixed_on = [];
    eol_detail = none;
    repo_detail = some (record {
      repo_id = repo.id;
      label = repo.label;
      uri = repo.uri;
      suite = repo.suite;
      manager = r.manager;
      source = repo.source;
      signature = sig_text repo.signature;
      key_id = repo.key_id;
      signed_by = repo.signed_by;
      problems = detail_problems all;
      release_date = time_text repo.release_date;
      valid_until = time_text repo.valid_until;
      metadata_time = time_text repo.metadata_time;
      key_expires = time_text repo.key_expires;
      last_refresh = time_text r.last_refresh;
      last_refresh_source = r.last_refresh_source;
      stale_after_days = stale_days stale_after;
      fix = fix r.manager (or_no_problem (highest all)).code;
    });
  }

  -- The loop over the problems: a finding for each repository, at its first problem.
  unfoldable pub repo_findings :
      RepoReport → ℤ → List Problem → List Bytes → List Problem → List Finding
  unfolding is_one_of repo_at for_repo repo_finding
  repo_findings r stale_after all seen [] = []
  repo_findings r stale_after all seen (p ∷ ps) =
      let skip = repo_findings r stale_after all seen ps in
      let rest = repo_findings r stale_after all (p.repo_id ∷ seen) ps in
      if is_one_of p.repo_id seen
      then skip
      else repo_finding r stale_after (repo_at p.repo_id r.repos no_repo) (for_repo p.repo_id all)
        ∷ rest

  -- assessRepoHealth; `none` is a host without a report.
  unfoldable pub assess_repo_health : Option RepoReport → ℕ → ℤ → Result → Result
  unfolding is_empty assess_report repo_findings
  assess_repo_health none as_of stale_after res = res
  assess_repo_health (some r) as_of stale_after res =
      let asm = assess_report day r as_of stale_after in
      let found = repo_findings r stale_after asm.problems [] asm.problems in
      if is_empty_report r then res else record res {
        repo_health_assessed = true;
        findings = res.findings ++ found;
        stats = record res.stats {
          repo_health_checked = asm.checked;
          repo_health_findings = res.stats.repo_health_findings + length found;
        };
      }
