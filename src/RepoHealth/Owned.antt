-- ===== src/RepoHealth/Owned.antt =====
-- internal/repohealth/assess.go: each problem is of one of the host's repositories.
use defendsec.Prelude.{
  ℕ, ◌≡◌, refl, ap, ◌∙◌, Bool, true, false, Option, none, some, List, [], ◌∷◌, ◌++◌, if◌then◌else◌,
  inl, inr, ◌⊎◌, arith, Bool-cases,
}
use defendsec.Prelude.Int.{ℤ}
use defendsec.Prelude.Sort.{Among, Among-sort_by}
use defendsec.Prelude.Text.{Bytes, is_empty}
use defendsec.RepoHealth.{Sig, Repo, Problem, RepoReport, no_refresh_within, is_apt, is_no_index}
use defendsec.RepoHealth.Problems.{
  signature_problems, stale_problem, cache_problem, stale_problems, index_problems, cache_problems,
  age_problems, assess_repo, problems_of, problem_cmp, threshold, assess_report,
}

abbrev AllOf : Bytes → List Problem → Type 0
AllOf id [] = Unit
AllOf id (p ∷ ps) = (p.repo_id ≡ id) × AllOf id ps

AllOf-append : (id : Bytes) (ps qs : List Problem) → AllOf id ps → AllOf id qs → AllOf id (ps ++ qs)
AllOf-append id [] qs h k = k
AllOf-append id (p ∷ ps) qs h k = (h.0, AllOf-append id ps qs h.1 k)

AllOf-Among :
    (id : Bytes) (ps : List Problem) (p : Problem) → AllOf id ps → Among p ps → p.repo_id ≡ id
AllOf-Among id [] p h i = absurd i
AllOf-Among id (q ∷ ps) p h (inl e) = ap (λ (x : Problem). x.repo_id) e ∙ h.0
AllOf-Among id (q ∷ ps) p h (inr i) = AllOf-Among id ps p h.1 i

Among-append : (p : Problem) (ps qs : List Problem) → Among p (ps ++ qs) → Among p ps ⊎ Among p qs
Among-append p [] qs i = inr i
Among-append p (x ∷ ps) qs (inl e) = inl (inl e)
Among-append p (x ∷ ps) qs (inr i) = elim (Among-append p ps qs i) [
  | inl j ↦ inl (inr j)
  | inr j ↦ inr j
]

module _ (day : ℕ → Bytes) (r : RepoReport) (as_of : ℕ) (stale : ℤ) (old : Bool) where
  signature_problems-AllOf : (repo : Repo) (s : Sig) → AllOf repo.id (signature_problems r repo s)
  signature_problems-AllOf repo s = ground arith

  stale_problems-AllOf :
      (repo : Repo) (date : Option ℕ)
      → AllOf repo.id (stale_problems day r repo as_of stale old date)
  unfolding stale_problem
  stale_problems-AllOf repo date = ground arith

  index_problems-AllOf :
      (repo : Repo) (until : Option ℕ)
      → AllOf repo.id (index_problems day r repo as_of stale old until)
  index_problems-AllOf repo none = stale_problems-AllOf repo repo.release_date
  index_problems-AllOf repo (some u) = ground (arith, stale_problems-AllOf repo repo.release_date)

  cache_problems-AllOf :
      (repo : Repo) (time : Option ℕ) → AllOf repo.id (cache_problems day repo as_of stale time)
  unfolding cache_problem
  cache_problems-AllOf repo time = ground arith

  age_problems-AllOf : (repo : Repo) → AllOf repo.id (age_problems day r repo as_of stale old)
  age_problems-AllOf repo = by_tests (is_no_index repo.signature) (is_apt r)
    where
      by_tests :
          (t u : Bool)
          → AllOf repo.id (
              if t
              then []
              else (if u
                  then index_problems day r repo as_of stale old repo.valid_until
                  else cache_problems day repo as_of stale repo.metadata_time))
      by_tests true u = tt
      by_tests false true = index_problems-AllOf repo repo.valid_until
      by_tests false false = cache_problems-AllOf repo repo.metadata_time

  problems_of-repo :
      (repos : List Repo) (p : Problem)
      → Among p (problems_of day r repos as_of stale old)
      → (repo : Repo) × Among repo repos × (p.repo_id ≡ repo.id)
  unfolding problems_of assess_repo
  problems_of-repo [] p i = absurd i
  problems_of-repo (repo ∷ repos) p i =
      elim (Among-append p (assess_repo day r repo as_of stale old)
        (problems_of day r repos as_of stale old) i) [
          | inl j ↦ (
            repo,
            inl refl,
            AllOf-Among repo.id (assess_repo day r repo as_of stale old) p
                (AllOf-append repo.id (signature_problems r repo repo.signature)
                  (age_problems day r repo as_of stale old)
                  (signature_problems-AllOf repo repo.signature) (age_problems-AllOf repo))
                j,
          )
          | inr j ↦ let (x, k, e) = problems_of-repo repos p j in (x, inr k, e)
        ]

pub assess_report-repo :
    (day : ℕ → Bytes) (r : RepoReport) (as_of : ℕ) (stale_after : ℤ) (p : Problem)
    → Among p (assess_report day r as_of stale_after).problems
    → (repo : Repo) × Among repo r.repos × (p.repo_id ≡ repo.id)
unfolding assess_report
assess_report-repo day r as_of stale_after p i = elim (Bool-cases (is_empty r.manager)) [
  | inl none_given ↦ absurd (rw none_given at i)
  | inr given ↦
      let stale = threshold stale_after in
      let old = no_refresh_within r as_of stale in
      problems_of-repo day r as_of stale old r.repos p (
        (Among-sort_by problem_cmp p (problems_of day r r.repos as_of stale old)).0 (rw given at i))
]
