-- ===== src/Vuln/Match/Repos/Severe.antt =====
-- internal/vuln/repohealth.go: each repository with a problem is reported.
use defendsec.Prelude.{
  ℕ, ◌≡◌, refl, ap, sym, ◌∙◌, Bool, true, false, some, List, [], ◌∷◌, if◌then◌else◌, inl, inr, ◌⊎◌,
  ◌↔◌, arith, Bool-cases,
}
use defendsec.Prelude.Int.{ℤ}
use defendsec.Prelude.Sort.{Among}
use defendsec.Prelude.Text.{Bytes, eq_bytes, eq_bytes_iff}
use defendsec.RepoHealth.{Repo, Problem, RepoReport, high}
use defendsec.RepoHealth.Advice.{is_one_of}
use defendsec.RepoHealth.Highest.{for_repo, for_repo_iff, highest, highest_severe, any_high}
use defendsec.RepoHealth.Owned.{assess_report-repo}
use defendsec.RepoHealth.Problems.{assess_report}
use defendsec.Vuln.Details.{RepoProblem, RepoDetail}
use defendsec.Vuln.Match.{Finding}
use defendsec.Vuln.Match.Repos.{
  no_repo, repo_at, or_no_problem, repo_finding, repo_findings, detail_problems,
}

-- Two constructors.
true≢false : true ≡ false → ⊥
true≢false e = cc

repo_at-known :
    (id : Bytes) (repos : List Repo) (known : Repo)
    → known.id ≡ id
    → (repo_at id repos known).id ≡ id
unfolding repo_at
repo_at-known id [] known e = e
repo_at-known id (repo ∷ repos) known e = elim (Bool-cases (eq_bytes repo.id id)) [
  | inl same ↦ rw (same, repo_at) (repo_at-known id repos repo ((eq_bytes_iff repo.id id).0 same))
  | inr other ↦ rw (other, repo_at) (repo_at-known id repos known e)
]

repo_at-id :
    (id : Bytes) (repos : List Repo) (known repo : Repo)
    → Among repo repos
    → repo.id ≡ id
    → (repo_at id repos known).id ≡ id
unfolding repo_at
repo_at-id id [] known repo i e = absurd i
repo_at-id id (x ∷ repos) known repo (inl same) e =
    let own = (eq_bytes_iff x.id id).1 (ap (λ (y : Repo). y.id) (sym same) ∙ e) in
    rw (own, repo_at) (repo_at-known id repos x ((eq_bytes_iff x.id id).0 own))
repo_at-id id (x ∷ repos) known repo (inr i) e = repo_at-id id repos _ repo i e

-- The most severe problem of a list that is not empty is high exactly if one of them is.
severity_of :
    (all : List Problem) (p : Problem)
    → Among p all
    → eq_bytes (or_no_problem (highest all)).severity high ≡ any_high all
severity_of [] p i = absurd i
severity_of (q ∷ all) p i = let (top, found, there, e) = highest_severe q all in rw found e

-- What a finding lists of a problem.
abbrev pub entry_of : Problem → RepoProblem
entry_of q = record { code = q.code; severity = q.severity; title = q.title; detail = q.detail }

Among-detail_problems :
    (x : RepoProblem) (ps : List Problem)
    → Among x (detail_problems ps) ↔ ((q : Problem) × Among q ps × (x ≡ entry_of q))
unfolding detail_problems
Among-detail_problems x [] = (λ i. absurd i, λ (q, i, e). absurd i)
Among-detail_problems x (p ∷ ps) =
    let (from, to) = Among-detail_problems x ps in
    (
      λ i. elim i [ inl e ↦ (p, inl refl, e) | inr j ↦ let (q, k, e) = from j in (q, inr k, e) ],
      λ (q, i, e). elim i [ inl same ↦ inl (e ∙ ap entry_of same) | inr k ↦ inr (to (q, k, e)) ],
    )

-- The finding lists exactly the problems of the repository among these.
abbrev pub ListsProblems : Bytes → List Problem → Finding → Type 0
ListsProblems id all f =
    (d : RepoDetail) × (f.repo_detail ≡ some d)
    × ((x : RepoProblem)
        → Among x d.problems ↔ ((q : Problem) × Among q all × (q.repo_id ≡ id) × (x ≡ entry_of q)))

module _ (digest : Bytes → Bytes) (day stamp : ℕ → Bytes) (r : RepoReport) (stale_after : ℤ)
    (all : List Problem) where
  abbrev finding_of : Bytes → Finding
  finding_of id =
      repo_finding digest day stamp r stale_after (repo_at id r.repos no_repo) (for_repo id all)

  finding_of-ListsProblems : (id : Bytes) → ListsProblems id all (finding_of id)
  unfolding repo_finding
  finding_of-ListsProblems id = (
    _,
    refl,
    λ x.
        let (from, to) = Among-detail_problems x (for_repo id all) in
        (
          λ i.
              let (q, j, e) = from i in
              let (own, there) = (for_repo_iff id q all).0 j in (q, there, own, e),
          λ (q, there, own, e). to (q, (for_repo_iff id q all).1 (own, there), e),
        ),
  )

  -- A repository that was not met before has its finding from its first problem on.
  repo_findings-Among :
      (seen : List Bytes) (ps : List Problem) (p : Problem)
      → Among p ps
      → is_one_of p.repo_id seen ≡ false
      → Among (finding_of p.repo_id) (repo_findings digest day stamp r stale_after all seen ps)
  unfolding repo_findings is_one_of
  repo_findings-Among seen [] p i h = absurd i
  repo_findings-Among seen (q ∷ ps) p i h =
      by_seen (λ s j k. repo_findings-Among s ps p j k) (is_one_of q.repo_id seen) refl
        (eq_bytes p.repo_id q.repo_id) refl i
    where
      by_seen :
          ((s : List Bytes)
            → Among p ps
            → is_one_of p.repo_id s ≡ false
            → Among (finding_of p.repo_id) (repo_findings digest day stamp r stale_after all s ps))
          → (t : Bool) → is_one_of q.repo_id seen ≡ t
          → (u : Bool) → eq_bytes p.repo_id q.repo_id ≡ u
          → (p ≡ q) ⊎ Among p ps
          → Among (finding_of p.repo_id) (
              if t
              then repo_findings digest day stamp r stale_after all seen ps
              else finding_of q.repo_id
                ∷ repo_findings digest day stamp r stale_after all (q.repo_id ∷ seen) ps)
      by_seen ih true e true f j =
          let same = (eq_bytes_iff p.repo_id q.repo_id).0 f in
          absurd (true≢false (sym e ∙ ap (λ x. is_one_of x seen) (sym same) ∙ h))
      by_seen ih true e false f (inl k) =
          absurd (true≢false (sym e ∙ ap (λ (x : Problem). is_one_of x.repo_id seen) (sym k) ∙ h))
      by_seen ih true e false f (inr k) = ih seen k h
      by_seen ih false e true f j = inl (ap finding_of ((eq_bytes_iff p.repo_id q.repo_id).0 f))
      by_seen ih false e false f (inl k) = inl (ap (λ (x : Problem). finding_of x.repo_id) k)
      by_seen ih false e false f (inr k) = inr (ih (q.repo_id ∷ seen) k (ground arith))

-- Each problem of a report is told of by a finding of its repository: the finding lists exactly the
-- problems of the repository, and is of high severity exactly if one of them is.
pub repo_findings_severe :
    (digest : Bytes → Bytes) (day stamp : ℕ → Bytes) (r : RepoReport) (as_of : ℕ) (stale_after : ℤ)
    (p : Problem)
    → (let all = (assess_report day r as_of stale_after).problems in
        Among p all
        → (f : Finding) × Among f (repo_findings digest day stamp r stale_after all [] all)
          × (f.source_package ≡ p.repo_id)
          × ListsProblems p.repo_id all f
          × (eq_bytes f.severity high ≡ any_high (for_repo p.repo_id all)))
unfolding repo_finding is_one_of
repo_findings_severe digest day stamp r as_of stale_after p i =
    let all = (assess_report day r as_of stale_after).problems in
    let (repo, there, own) = assess_report-repo day r as_of stale_after p i in
    let here = (for_repo_iff p.repo_id p all).1 (refl, i) in
    (
      finding_of digest day stamp r stale_after all p.repo_id,
      repo_findings-Among digest day stamp r stale_after all [] all p i refl,
      repo_at-id p.repo_id r.repos no_repo repo there (sym own),
      finding_of-ListsProblems digest day stamp r stale_after all p.repo_id,
      severity_of (for_repo p.repo_id all) p here,
    )
