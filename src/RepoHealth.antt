-- ===== src/RepoHealth.antt =====
-- internal/repohealth/types.go and assess.go: what is wrong with a host's package repositories, and
-- whether the updates that it lists can be believed. A time is a number of nanoseconds, a duration an
-- integer of them in 64 bits; the text of a day is rendered by the library of times. A signature
-- state that the source does not name is `other_sig` of its text.
pub mod Advice
pub mod Owned
pub mod Problems
pub mod Reliable
pub mod Highest
pub mod Tests
use defendsec.Prelude.{
  ℕ, ◌+◌, ◌-◌, ◌/◌, Bool, true, false, not, ◌&&◌, ◌||◌, Option, none, some, List, [], ◌∷◌, ◌++◌,
  ltb, ◌==◌, if◌then◌else◌, length,
}
use defendsec.Prelude.Int.{ℤ, pos, negsuc, ltb_ℤ, sub_ℕ}
use defendsec.Prelude.Text.{Bytes, codes, is_empty, eq_bytes, decimal}

pub data Sig : Type 0 where
  good expired_key no_pubkey bad_signature revoked_key unsigned no_index not_checked unverified :
      Sig
  other_sig : Bytes → Sig

pub record Repo : Type 0 where
  pub id : Bytes
  pub label : Bytes
  pub uri : Bytes
  pub suite : Bytes
  pub source : Bytes
  pub signature : Sig
  pub key_id : Bytes
  pub detail : Bytes
  pub signed_by : Bytes
  pub release_date : Option ℕ
  pub valid_until : Option ℕ
  pub ignore_valid_until : Bool
  pub metadata_time : Option ℕ
  pub key_expires : Option ℕ

pub record Problem : Type 0 where
  pub repo_id : Bytes
  pub code : Bytes
  pub severity : Bytes
  pub title : Bytes
  pub detail : Bytes

pub data Reliability : Type 0 where
  reliable unreliable unassessed : Reliability

pub record RepoAssessment : Type 0 where
  pub reliability : Reliability
  pub reasons : List Bytes
  pub problems : List Problem
  pub checked : ℕ

pub record RepoReport : Type 0 where
  pub manager : Bytes
  pub last_refresh : Option ℕ
  pub last_refresh_source : Bytes
  pub repos : List Repo
  pub limits : List Bytes
  pub assessment : Option RepoAssessment
  pub assessed_at : Bytes

abbrev pub apt : Bytes
apt = codes "apt"

abbrev pub high : Bytes
high = codes "high"

abbrev pub medium : Bytes
medium = codes "medium"

-- Report.Empty
abbrev pub is_empty_report : RepoReport → Bool
is_empty_report r = is_empty r.manager

abbrev pub day_length : ℕ
day_length = 86_400_000_000_000

-- 7 days
abbrev pub default_stale_after : ℤ
default_stale_after = pos 604_800_000_000_000

abbrev pub max_duration : ℕ
max_duration = 9_223_372_036_854_775_807

-- A difference of times is a duration, and the nearest one where it does not fit.
abbrev pub saturated : ℤ → ℤ
saturated (pos n) = if ltb max_duration n then pos max_duration else pos n
saturated (negsuc n) = if ltb max_duration n then negsuc max_duration else negsuc n

-- asOf.Sub(t)
unfoldable pub since : ℕ → ℕ → ℤ
since as_of t = saturated (sub_ℕ as_of t)

-- asOf.Sub(t) > staleAfter
abbrev pub is_old : ℕ → ℤ → ℕ → Bool
is_old as_of stale_after t = ltb_ℤ stale_after (since as_of t)

abbrev pub no_refresh_within : RepoReport → ℕ → ℤ → Bool
no_refresh_within r as_of stale_after = elim r.last_refresh [
  | none ↦ true
  | some t ↦ is_old as_of stale_after t
]

abbrev pub plural_days : ℕ → Bytes → Bytes
plural_days n sign =
    if n == 1 && is_empty sign then codes "1 day" else sign ++ (decimal n ++ codes " days")

-- days: the whole days of a duration.
unfoldable pub days : ℤ → Bytes
unfolding decimal is_empty
days (pos n) = plural_days (n / day_length) []
days (negsuc n) =
    let whole = (n + 1) / day_length in plural_days whole (if whole == 0 then [] else codes "-")

abbrev pub is_apt : RepoReport → Bool
is_apt r = eq_bytes r.manager apt

abbrev pub is_no_index : Sig → Bool
is_no_index no_index = true
is_no_index _ = false

abbrev pub is_unverified : Sig → Bool
is_unverified unverified = true
is_unverified _ = false
