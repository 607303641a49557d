-- ===== src/RepoHealth/Reliable.antt =====
-- internal/repohealth/assess.go: when the updates that a host lists count as reliable.
use defendsec.Prelude.{
  ℕ, ◌≤◌, ◌≡◌, refl, sym, ◌∙◌, Bool, true, false, Option, none, some, List, [], ◌∷◌, ◌++◌, length,
  ◌⊎◌, inl, inr, ◌↔◌, arith, Bool-cases,
}
use defendsec.Prelude.Int.{ℤ, ◌≤ℤ◌}
use defendsec.Prelude.Sort.{sort_by, length-sort_by}
use defendsec.Prelude.Text.{Bytes, is_empty}
use defendsec.RepoHealth.{
  Sig, good, not_checked, other_sig, Repo, Problem, reliable, RepoReport, since, no_refresh_within,
  is_apt, is_no_index, is_unverified,
}
use defendsec.RepoHealth.Problems.{
  signature_problems, stale_problems, index_problems, cache_problems, age_problems, assess_repo,
  problems_of, unverified_reasons, problem_cmp, problem_reasons, threshold, reliability_of,
  assess_report,
}

-- No objection is made to the signature: it holds, the repository has none to check, or its state is a
-- text that is none of the known states, which the code takes no notice of.
abbrev pub is_unobjected : Sig → Bool
is_unobjected good = true
is_unobjected not_checked = true
is_unobjected (other_sig s) = true
is_unobjected _ = false

abbrev pub IsRecent : ℕ → ℤ → ℕ → Type 0
IsRecent as_of stale t = since as_of t ≤ℤ stale

-- The time, if one is given, has the property; a time is given, and has the property.
abbrev pub IfAny : Option ℕ → (ℕ → Type 0) → Type 0
IfAny none P = Unit
IfAny (some t) P = P t

abbrev pub Exists : Option ℕ → (ℕ → Type 0) → Type 0
Exists none P = ⊥
Exists (some t) P = P t

-- Of apt: nothing that is given tells that the index is out of date, or that neither the publisher nor
-- the host renewed it lately.
abbrev pub IsAptUnobjected : RepoReport → ℕ → ℤ → Repo → Type 0
IsAptUnobjected r as_of stale repo =
    IfAny repo.valid_until (λ until. (repo.ignore_valid_until ≡ true) ⊎ (as_of ≤ until))
    × IfAny repo.release_date
        (λ date. IsRecent as_of stale date ⊎ Exists r.last_refresh (λ t. IsRecent as_of stale t))

-- Of the others: no time is given for what is cached, or it was fetched lately.
abbrev pub IsCacheUnobjected : ℕ → ℤ → Repo → Type 0
IsCacheUnobjected as_of stale repo = IfAny repo.metadata_time (λ t. IsRecent as_of stale t)

abbrev pub IsUnobjected : RepoReport → ℕ → ℤ → Repo → Type 0
IsUnobjected r as_of stale repo =
    (is_unobjected repo.signature ≡ true)
    × (is_apt r ≡ true → IsAptUnobjected r as_of stale repo)
    × (is_apt r ≡ false → IsCacheUnobjected as_of stale repo)

abbrev pub AllUnobjected : RepoReport → ℕ → ℤ → List Repo → Type 0
AllUnobjected r as_of stale [] = Unit
AllUnobjected r as_of stale (repo ∷ repos) =
    IsUnobjected r as_of stale repo × AllUnobjected r as_of stale repos

module _ (day : ℕ → Bytes) (r : RepoReport) (as_of : ℕ) (stale : ℤ) where
  stale_problems_iff :
      (repo : Repo) (date : Option ℕ)
      → (stale_problems day r repo as_of stale (no_refresh_within r as_of stale) date ≡ [])
        ↔ IfAny date
            (λ d. IsRecent as_of stale d ⊎ Exists r.last_refresh (λ t. IsRecent as_of stale t))
  stale_problems_iff repo none = ground arith
  stale_problems_iff repo (some d) = ground arith

  index_problems_iff :
      (repo : Repo) (until : Option ℕ)
      → (index_problems day r repo as_of stale (no_refresh_within r as_of stale) until ≡ []) ↔ (
          IfAny until (λ u. (repo.ignore_valid_until ≡ true) ⊎ (as_of ≤ u))
          × IfAny repo.release_date
              (λ d. IsRecent as_of stale d ⊎ Exists r.last_refresh (λ t. IsRecent as_of stale t)))
  index_problems_iff repo none = ground (arith, stale_problems_iff repo repo.release_date)
  index_problems_iff repo (some u) = ground (arith, stale_problems_iff repo repo.release_date)

  cache_problems_iff :
      (repo : Repo) (time : Option ℕ)
      → (cache_problems day repo as_of stale time ≡ []) ↔ IfAny time (λ t. IsRecent as_of stale t)
  cache_problems_iff repo none = ground arith
  cache_problems_iff repo (some t) = ground arith

  signature_problems_iff :
      (repo : Repo) (s : Sig)
      → ((signature_problems r repo s ≡ []) × (is_unverified s ≡ false)) ↔ (is_unobjected s ≡ true)
  signature_problems_iff repo s = ground arith

  unobjected-index : (s : Sig) → is_unobjected s ≡ true → is_no_index s ≡ false
  unobjected-index s h = ground arith

  append-nil : (a b : List Problem) → (a ++ b ≡ []) ↔ ((a ≡ []) × (b ≡ []))
  append-nil [] b = ground arith
  append-nil (x ∷ a) b = ground arith

  -- No problem and no doubt about the signature.
  abbrev IsQuiet : Repo → Type 0
  IsQuiet repo =
      (assess_repo day r repo as_of stale (no_refresh_within r as_of stale) ≡ [])
      × (is_unverified repo.signature ≡ false)

  IsQuiet-IsUnobjected : (repo : Repo) → IsQuiet repo ↔ IsUnobjected r as_of stale repo
  unfolding assess_repo
  IsQuiet-IsUnobjected repo =
      let old = no_refresh_within r as_of stale in
      let split =
        append-nil (signature_problems r repo repo.signature)
          (age_problems day r repo as_of stale old) in
      let sig = signature_problems_iff repo repo.signature in
      let index = index_problems_iff repo repo.valid_until in
      let cache = cache_problems_iff repo repo.metadata_time in
      (
        λ (none_wrong, verified).
            let (no_sig, no_age) = split.0 none_wrong in
            let trusted = sig.0 (no_sig, verified) in
            let indexed = unobjected-index repo.signature trusted in
            (
              trusted,
              λ e. index.0 (rw (indexed, e) at no_age),
              λ e. cache.0 (rw (indexed, e) at no_age),
            ),
        λ (trusted, of_apt, of_others).
            let (no_sig, verified) = sig.1 trusted in
            let indexed = unobjected-index repo.signature trusted in
            (
              split.1 (
                no_sig,
                elim (Bool-cases (is_apt r)) [
                  | inl e ↦ rw (indexed, e) (index.1 (of_apt e))
                  | inr e ↦ rw (indexed, e) (cache.1 (of_others e))
                ],
              ),
              verified,
            ),
      )

  AllQuiet : List Repo → Type 0
  AllQuiet repos =
      (problems_of day r repos as_of stale (no_refresh_within r as_of stale) ≡ [])
      × (unverified_reasons repos ≡ [])

  reasons-nil :
      (repo : Repo) (repos : List Repo)
      → (unverified_reasons (repo ∷ repos) ≡ [])
        ↔ ((is_unverified repo.signature ≡ false) × (unverified_reasons repos ≡ []))
  unfolding unverified_reasons
  reasons-nil repo repos = ground arith

  AllQuiet-AllUnobjected : (repos : List Repo) → AllQuiet repos ↔ AllUnobjected r as_of stale repos
  unfolding AllQuiet problems_of unverified_reasons
  AllQuiet-AllUnobjected [] = (λ _. tt, λ _. (refl, refl))
  AllQuiet-AllUnobjected (repo ∷ repos) =
      let old = no_refresh_within r as_of stale in
      let split =
        append-nil (assess_repo day r repo as_of stale old)
          (problems_of day r repos as_of stale old) in
      let one = IsQuiet-IsUnobjected repo in
      let rest = AllQuiet-AllUnobjected repos in
      let noted = reasons-nil repo repos in
      (
        λ (problems, reasons).
            let (here, there) = split.0 problems in
            let (verified, others) = noted.0 reasons in
            (one.0 (here, verified), rest.0 (there, others)),
        λ (healthy, others).
            let (here, verified) = one.1 healthy in
            let (there, reasons) = rest.1 others in
            (split.1 (here, there), noted.1 (verified, reasons)),
      )

texts-nil : (a b c : List Bytes) → (a ++ (b ++ c) ≡ []) ↔ ((a ≡ []) × (b ≡ []) × (c ≡ []))
texts-nil [] [] c = ground arith
texts-nil [] (y ∷ b) c = ground arith
texts-nil (x ∷ a) b c = ground arith

problem_reasons-nil :
    (repos : List Repo) (ps : List Problem) → (problem_reasons repos ps ≡ []) ↔ (ps ≡ [])
unfolding problem_reasons
problem_reasons-nil repos [] = (λ _. refl, λ _. refl)
problem_reasons-nil repos (p ∷ ps) = ground arith

no_length : (ps : List Problem) → (length ps ≡ 0) ↔ (ps ≡ [])
no_length [] = (λ _. refl, λ _. refl)
no_length (p ∷ ps) = ground arith

sorted-nil : (ps : List Problem) → (sort_by problem_cmp ps ≡ []) ↔ (ps ≡ [])
sorted-nil ps =
    let same = length-sort_by problem_cmp ps in
    (
      λ e. (no_length ps).0 (sym same ∙ (no_length (sort_by problem_cmp ps)).1 e),
      λ e. (no_length (sort_by problem_cmp ps)).0 (same ∙ (no_length ps).1 e),
    )

reliability_of-nil : (reasons : List Bytes) → (reliability_of reasons ≡ reliable) ↔ (reasons ≡ [])
reliability_of-nil [] = (λ _. refl, λ _. refl)
reliability_of-nil (x ∷ reasons) = ground arith

-- A host's list of pending updates counts as reliable exactly if the report names a package manager,
-- nothing in it tells against one of its repositories, and it has no limits, which are checks that the
-- agent could not make. What tells against a repository is a signature in one of the states that are
-- known to be bad, or unverified or without an index, but not a state that is empty or unknown; and a
-- date, where one is given: of apt, that the index was valid until a time that is past, unless the
-- source says to ignore it, or that the publisher renewed it longer ago than the threshold, and the
-- host has no time of a refresh within the threshold; of the others, that what the host has cached was
-- fetched longer ago. A repository without these dates, or with an unknown state, counts as in order.
pub assess_report-reliable :
    (day : ℕ → Bytes) (r : RepoReport) (as_of : ℕ) (stale_after : ℤ)
    → ((assess_report day r as_of stale_after).reliability ≡ reliable) ↔ (
        (is_empty r.manager ≡ false)
        × AllUnobjected r as_of (threshold stale_after) r.repos
        × (r.limits ≡ []))
unfolding assess_report AllQuiet
assess_report-reliable day r as_of stale_after = elim (Bool-cases (is_empty r.manager)) [
  | inl empty ↦ rw empty (ground arith)
  | inr named ↦
      let stale = threshold stale_after in
      let problems = problems_of day r r.repos as_of stale (no_refresh_within r as_of stale) in
      let sorted = sort_by problem_cmp problems in
      let all = AllQuiet-AllUnobjected day r as_of stale r.repos in
      let texts =
        texts-nil (unverified_reasons r.repos) (problem_reasons r.repos sorted) r.limits in
      let told = problem_reasons-nil r.repos sorted in
      let none_left = sorted-nil problems in
      let quiet =
        reliability_of-nil
          (unverified_reasons r.repos ++ (problem_reasons r.repos sorted ++ r.limits)) in
      rw named (
        λ e. let (a, b, c) = texts.0 (quiet.0 e) in (refl, all.0 (none_left.0 (told.0 b), a), c),
        λ (_, healthy, c).
            let (p, a) = all.1 healthy in quiet.1 (texts.1 (a, told.1 (none_left.1 p), c)),
      )
]
