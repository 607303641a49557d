-- ===== src/RepoHealth/Problems.antt =====
-- internal/repohealth/assess.go, assessRepo and Assess.
use defendsec.Prelude.{
  ℕ, Bool, false, not, ◌&&◌, Option, none, some, List, [], ◌∷◌, ◌++◌, ltb, if◌then◌else◌, length,
  Ordering,
}
use defendsec.Prelude.Cmp.{lex, or_else}
use defendsec.Prelude.Int.{ℤ, pos, ltb_ℤ}
use defendsec.Prelude.Sort.{sort_by}
use defendsec.Prelude.Text.{Bytes, codes, is_empty, eq_bytes}
use defendsec.RepoHealth.{
  Sig, expired_key, no_pubkey, bad_signature, revoked_key, unsigned, no_index, Repo, Problem,
  Reliability, reliable, unreliable, unassessed, RepoAssessment, RepoReport, high, medium,
  is_empty_report, default_stale_after, since, is_old, no_refresh_within, days, is_apt, is_no_index,
  is_unverified,
}

-- A problem of the repository.
abbrev problem : Repo → Bytes → Bytes → Bytes → Bytes → Problem
problem repo code severity title detail = record {
  repo_id = repo.id;
  code = code;
  severity = severity;
  title = title;
  detail = detail;
}

-- The key's name with a space before it, if it has one.
abbrev key_text : Repo → Bytes
key_text repo = if not (is_empty repo.key_id) then b' ' ∷ repo.key_id else repo.key_id

-- The switch on the state of the signature.
abbrev pub signature_problems : RepoReport → Repo → Sig → List Problem
signature_problems r repo expired_key =
    problem repo (codes "key_expired") high
      (codes "signing key" ++ (key_text repo ++ codes " has expired"))
      (codes "The key that signs this repository has expired, so "
        ++ (r.manager
            ++ (codes
                  " will not accept its index: updates from it have stopped while the host keeps using whatever it fetched earlier. "
                ++ repo.detail)))
    ∷ []
signature_problems r repo no_pubkey =
    problem repo (codes "key_missing") high
      (codes "signing key" ++ (key_text repo ++ codes " is not trusted by this host"))
      (codes
          "The repository is signed by a key that the keyring its source uses does not contain, so "
        ++ (r.manager ++ (codes " will not accept its index. " ++ repo.detail)))
    ∷ []
signature_problems r repo revoked_key =
    problem repo (codes "key_revoked") high
      (codes "signing key" ++ (key_text repo ++ codes " has been revoked"))
      (codes
          "The vendor revoked the key that signs this repository; its index is no longer accepted. "
        ++ repo.detail)
    ∷ []
signature_problems r repo bad_signature =
    problem repo (codes "signature_bad") high (codes "signature does not verify") (
      codes
        "The index's signature does not match its contents (or the signature itself has expired). "
      ++ repo.detail)
    ∷ []
signature_problems r repo unsigned =
    problem repo (codes "unsigned") high (codes "index carries no signature the host accepts") (
      codes "The repository is not marked trusted and its index has no valid signature, so "
      ++ (r.manager ++ (codes " refuses it. " ++ repo.detail)))
    ∷ []
signature_problems r repo no_index =
    (if is_apt r
      then problem repo (codes "no_index") high (codes "the host has no index for this repository")
          (codes
              "The repository is enabled but apt holds no Release file for it: it was never fetched, or apt fetched it and refused it. An expired or untrusted signing key is the usual cause, and `apt-get update` names it. "
            ++ repo.detail)
      else problem repo (codes "no_index") medium
          (codes "the host has no cached metadata for this repository")
          (codes "The repository is enabled but "
            ++ (r.manager
                ++ (codes
                      " has no cached repomd.xml for it, so it cannot list pending updates from it without a refresh. "
                    ++ repo.detail))))
    ∷ []
signature_problems r repo _ = []

module _ (day : ℕ → Bytes) where
  unfoldable pub refresh_note : RepoReport → ℕ → Bytes
  unfolding days since
  refresh_note r as_of = elim r.last_refresh [
    | none ↦ codes "the host has no record of ever refreshing its indexes"
    | some t ↦
        codes "the host last refreshed its indexes on "
        ++ (day t
            ++ (codes " ("
                ++ (days (since as_of t)
                    ++ (codes " ago, per the " ++ (r.last_refresh_source ++ codes ")")))))
  ]

  abbrev pub expired_problem : Repo → ℕ → Problem
  expired_problem repo until =
      problem repo (codes "index_expired") medium (codes "index expired on " ++ day until) (
        codes "The repository's Release file says Valid-Until "
        ++ (day until
            ++ codes
                "; apt refuses an index past that date, so the host receives nothing new from it."))

  unfoldable pub stale_problem : RepoReport → Repo → ℕ → ℕ → Problem
  unfolding days since
  stale_problem r repo as_of date =
      problem repo (codes "index_stale") medium
        (codes "index is " ++ (days (since as_of date) ++ codes " old and has not been refreshed"))
        (codes "The Release file is dated "
          ++ (day date
              ++ (codes " and "
                  ++ (refresh_note r as_of
                      ++ codes
                          ": nothing says this index is still current, so pending updates computed from it may be missing newer packages."))))

  unfoldable pub cache_problem : Repo → ℕ → ℕ → Problem
  unfolding days since
  cache_problem repo as_of time =
      problem repo (codes "index_stale") medium
        (codes "cached metadata is " ++ (days (since as_of time) ++ codes " old"))
        (codes "The cached repository metadata was last fetched or revalidated on "
          ++ (day time
              ++ codes ", so pending updates computed from it may be missing newer packages."))

  -- The date that the publisher gave is past.
  abbrev pub is_past : Repo → ℕ → Option ℕ → Bool
  is_past repo as_of none = false
  is_past repo as_of (some until) = not repo.ignore_valid_until && ltb until as_of

  abbrev pub stale_problems : RepoReport → Repo → ℕ → ℤ → Bool → Option ℕ → List Problem
  stale_problems r repo as_of stale_after refresh_old none = []
  stale_problems r repo as_of stale_after refresh_old (some date) =
      if is_old as_of stale_after date && refresh_old
      then stale_problem r repo as_of date ∷ []
      else []

  abbrev pub index_problems : RepoReport → Repo → ℕ → ℤ → Bool → Option ℕ → List Problem
  index_problems r repo as_of stale_after refresh_old none =
      stale_problems r repo as_of stale_after refresh_old repo.release_date
  index_problems r repo as_of stale_after refresh_old (some until) =
      if not repo.ignore_valid_until && ltb until as_of
      then expired_problem repo until ∷ []
      else stale_problems r repo as_of stale_after refresh_old repo.release_date

  abbrev pub cache_problems : Repo → ℕ → ℤ → Option ℕ → List Problem
  cache_problems repo as_of stale_after none = []
  cache_problems repo as_of stale_after (some time) =
      if is_old as_of stale_after time then cache_problem repo as_of time ∷ [] else []

  -- What the age of the index says, for apt and for the others.
  abbrev pub age_problems : RepoReport → Repo → ℕ → ℤ → Bool → List Problem
  age_problems r repo as_of stale_after refresh_old =
      if is_no_index repo.signature
      then []
      else (if is_apt r
          then index_problems r repo as_of stale_after refresh_old repo.valid_until
          else cache_problems repo as_of stale_after repo.metadata_time)

  unfoldable pub assess_repo : RepoReport → Repo → ℕ → ℤ → Bool → List Problem
  unfolding is_empty eq_bytes since stale_problem cache_problem
  assess_repo r repo as_of stale_after refresh_old =
      signature_problems r repo repo.signature ++ age_problems r repo as_of stale_after refresh_old

  -- The first loop of Assess: the problems of all repositories.
  unfoldable pub problems_of : RepoReport → List Repo → ℕ → ℤ → Bool → List Problem
  unfolding assess_repo
  problems_of r [] as_of stale_after refresh_old = []
  problems_of r (repo ∷ repos) as_of stale_after refresh_old =
      assess_repo r repo as_of stale_after refresh_old
      ++ problems_of r repos as_of stale_after refresh_old

-- The same loop: a reason for each repository that could not be verified.
abbrev note_of : Repo → Bytes
note_of repo =
    repo.label
    ++ (codes ": "
        ++ (codes "could not be verified"
            ++ (if not (is_empty repo.detail)
                then codes " (" ++ (repo.detail ++ codes ")")
                else [])))

unfoldable pub unverified_reasons : List Repo → List Bytes
unfolding is_empty
unverified_reasons [] = []
unverified_reasons (repo ∷ repos) =
    let rest = unverified_reasons repos in
    if is_unverified repo.signature then note_of repo ∷ rest else rest

-- By repository, then what is high first, then by code.
abbrev severity_cmp : Bytes → Bytes → Ordering
severity_cmp a b =
    if eq_bytes a b then Ordering.eq else (if eq_bytes a high then Ordering.lt else Ordering.gt)

unfoldable pub problem_cmp : Problem → Problem → Ordering
unfolding eq_bytes
problem_cmp p q =
    or_else (lex p.repo_id q.repo_id)
      (or_else (severity_cmp p.severity q.severity) (lex p.code q.code))

-- labels[id]: the label of the last repository with the id.
unfoldable pub repo_label : Bytes → List Repo → Bytes → Bytes
unfolding eq_bytes
repo_label id [] known = known
repo_label id (repo ∷ repos) known =
    repo_label id repos (if eq_bytes repo.id id then repo.label else known)

unfoldable pub problem_reasons : List Repo → List Problem → List Bytes
unfolding repo_label
problem_reasons repos [] = []
problem_reasons repos (p ∷ ps) =
    (repo_label p.repo_id repos [] ++ (codes ": " ++ p.title)) ∷ problem_reasons repos ps

abbrev pub threshold : ℤ → ℤ
threshold stale_after = if not (ltb_ℤ (pos 0) stale_after) then default_stale_after else stale_after

abbrev pub reliability_of : List Bytes → Reliability
reliability_of [] = reliable
reliability_of (reason ∷ reasons) = unreliable

unfoldable pub assess_report : (ℕ → Bytes) → RepoReport → ℕ → ℤ → RepoAssessment
unfolding is_empty since problems_of unverified_reasons problem_cmp problem_reasons sort_by
assess_report day r as_of stale_after =
    let stale = threshold stale_after in
    let old = no_refresh_within r as_of stale in
    let problems = sort_by problem_cmp (problems_of day r r.repos as_of stale old) in
    let reasons = unverified_reasons r.repos ++ (problem_reasons r.repos problems ++ r.limits) in
    if is_empty_report r
    then record { reliability = unassessed; reasons = []; problems = []; checked = 0 }
    else record {
      reliability = reliability_of reasons;
      reasons = reasons;
      problems = problems;
      checked = length r.repos;
    }
