-- ===== src/Vuln/Match/Repos/Tests.antt =====
-- internal/vuln/repohealth.go: a repository whose key has expired is reported.
use defendsec.Prelude.{◌≡◌, refl, List, [], ◌∷◌, inl}
use defendsec.Prelude.Int.{pos}
use defendsec.Prelude.Sort.{Among, sort_by, insert_by}
use defendsec.Prelude.Text.{Bytes, codes, is_empty, eq_bytes}
use defendsec.RepoHealth.{Problem, RepoReport, expired_key, high, since}
use defendsec.RepoHealth.Highest.{for_repo, any_high}
use defendsec.RepoHealth.Problems.{assess_report, assess_repo, problems_of}
use defendsec.RepoHealth.Tests.{repo_with, report_of, good_day}
use defendsec.Vuln.Match.{Finding}
use defendsec.Vuln.Match.Repos.{repo_findings}
use defendsec.Vuln.Match.Repos.Severe.{ListsProblems, repo_findings_severe}

abbrev broken : RepoReport
broken = report_of (repo_with (codes "deb stable") expired_key ∷ [])

abbrev problems : List Problem
problems = (assess_report good_day broken 2000 (pos 0)).problems

abbrev first_or : Problem → List Problem → Problem
first_or p [] = p
first_or p (q ∷ qs) = q

abbrev blank_problem : Problem
blank_problem = record { repo_id = []; code = []; severity = []; title = []; detail = [] }

abbrev expired : Problem
expired = first_or blank_problem problems

expired-Among : Among expired problems
unfolding assess_report problems_of assess_repo since is_empty eq_bytes sort_by insert_by
expired-Among = inl refl

abbrev hexed : Bytes → Bytes
hexed s = codes "0123456789abcdef"

repo_findings_severe_example :
    (f : Finding) × Among f
      (repo_findings hexed good_day good_day broken (pos 0) problems [] problems)
    × (f.source_package ≡ expired.repo_id)
    × ListsProblems expired.repo_id problems f
    × (eq_bytes f.severity high ≡ any_high (for_repo expired.repo_id problems))
repo_findings_severe_example =
    repo_findings_severe hexed good_day good_day broken 2000 (pos 0) expired expired-Among
