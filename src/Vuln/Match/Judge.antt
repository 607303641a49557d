-- ===== src/Vuln/Match/Judge.antt =====
-- internal/vuln/match.go, judge: the decision on one advisory for one package from all of its
-- ranges. One round of the loop is the verdict of a range and the note that is made of it.
pub mod Outcome
pub mod Returns
pub mod Lowest
pub mod Reported
use defendsec.Prelude.{
  ℕ, Bool, true, false, not, ◌&&◌, ◌||◌, Option, none, some, List, [], ◌∷◌, if◌then◌else◌,
}
use defendsec.Prelude.Int.{pos, ltb_ℤ}
use defendsec.Prelude.Text.{Bytes, codes, is_empty, eq_bytes}
use defendsec.Vuln.Compare.{Scheme, compare_versions}
use defendsec.Vuln.Match.{
  FixState, affected, fixed, will_not_fix, not_affected, under_investigation, other_state, Kind,
  finding, unfixed, informational, awaiting_vendor, distro_basis, Package, Candidate, Finding,
  version_for, new_finding, awaiting_reason,
}

pub data Judgement : Type 0 where
  judge_clean judge_not_affected judge_finding : Judgement

-- What a round does with its range.
pub data RangeVerdict : Type 0 where
  skipped says_not_affected says_clean pro_only upstream_fix distro_fix says_affected : RangeVerdict
  says_informative : RangeVerdict

-- What does not change during the loop.
pub record Case : Type 0 where
  pub pkg : Package
  pub scheme : Scheme
  pub on_pro : Bool
  pub distro : Bytes
  pub base : Bytes

-- Compare(a, b, scheme) < 0
unfoldable pub below : Scheme → Bytes → Bytes → Option Bool
below scheme a b = elim (compare_versions a b scheme) [
  | none ↦ none
  | some c ↦ some (ltb_ℤ c (pos 0))
]

abbrev pub is_fixed : FixState → Bool
is_fixed fixed = true
is_fixed _ = false

abbrev pub if_below : Option Bool → RangeVerdict → RangeVerdict → Option RangeVerdict
if_below none yes_verdict no_verdict = none
if_below (some true) yes_verdict no_verdict = some yes_verdict
if_below (some false) yes_verdict no_verdict = some no_verdict

abbrev pub ecosystem_ubuntu_pro : Bytes
ecosystem_ubuntu_pro = codes "Ubuntu:Pro"

-- The switch on the state of the range.
abbrev pub by_state : FixState → Case → Candidate → Bytes → Option RangeVerdict
by_state not_affected k c ver = some says_not_affected
by_state fixed k c ver =
    if is_empty c.fixed_in
    then some skipped
    else if_below (below k.scheme ver c.fixed_in)
        (if not (is_empty k.base) && eq_bytes c.distro k.base then upstream_fix else distro_fix)
        says_clean
by_state affected k c ver =
    if is_empty c.fixed_in
    then some says_affected
    else if_below (below k.scheme ver c.fixed_in) says_affected says_clean
by_state will_not_fix k c ver = some says_informative
by_state under_investigation k c ver = some says_informative
by_state (other_state s) k c ver = some skipped

abbrev pub unless_later : Option Bool → Option RangeVerdict → Option RangeVerdict
unless_later none v = none
unless_later (some true) v = some skipped
unless_later (some false) v = v

-- Does the installed version predate the vulnerable code?
unfoldable pub predates : Case → Candidate → Option Bool
predates k c =
    if is_empty c.introduced then some false else below k.scheme (version_for c k.pkg) c.introduced

unfoldable pub range_verdict : Case → Candidate → Option RangeVerdict
range_verdict k c = unless_later (predates k c) (
    if eq_bytes c.ecosystem ecosystem_ubuntu_pro && (not k.on_pro && is_fixed c.state)
    then if_below (below k.scheme (version_for c k.pkg) c.fixed_in) pro_only says_clean
    else by_state c.state k c (version_for c k.pkg))

-- The variables of the loop. The version kept beside a fix is the one it was compared with.
pub record Tally : Type 0 where
  pub best_fixed : Option (Candidate × Bytes)
  pub best_up : Option (Candidate × Bytes)
  pub affected_by : Option Candidate
  pub informative : Option Candidate
  pub pro_only_fix : Option Candidate
  pub clean : Bool
  pub not_aff : Bool

abbrev pub no_notes : Tally
no_notes = record {
  best_fixed = none;
  best_up = none;
  affected_by = none;
  informative = none;
  pro_only_fix = none;
  clean = false;
  not_aff = false;
}

-- The lower of the fix that was best and this one.
unfoldable pub lower_fix :
    Scheme → Option (Candidate × Bytes) → Candidate → Bytes → Option (Option (Candidate × Bytes))
lower_fix scheme none c ver = some (some (c, ver))
lower_fix scheme (some (best, best_ver)) c ver = elim (below scheme c.fixed_in best.fixed_in) [
  | none ↦ none
  | some true ↦ some (some (c, ver))
  | some false ↦ some (some (best, best_ver))
]

abbrev pub with_best : Tally → Option (Option (Candidate × Bytes)) → Option Tally
with_best t none = none
with_best t (some b) = some (record t { best_fixed = b })

abbrev pub with_up : Tally → Option (Option (Candidate × Bytes)) → Option Tally
with_up t none = none
with_up t (some b) = some (record t { best_up = b })

unfoldable pub note : Case → RangeVerdict → Candidate → Tally → Option Tally
note k skipped c t = some t
note k says_not_affected c t = some (record t { not_aff = true })
note k says_clean c t = some (record t { clean = true })
note k pro_only c t = some (record t { pro_only_fix = some c })
note k upstream_fix c t = with_up t (lower_fix k.scheme t.best_up c (version_for c k.pkg))
note k distro_fix c t = with_best t (lower_fix k.scheme t.best_fixed c (version_for c k.pkg))
note k says_affected c t = some (record t { affected_by = some c })
note k says_informative c t = some (record t { informative = some c })

unfoldable pub judge_loop : Case → List Candidate → Tally → Option Tally
judge_loop k [] t = some t
judge_loop k (c ∷ cands) t = elim (range_verdict k c) [
  | none ↦ none
  | some v ↦ elim (note k v c t) [ none ↦ none | some t' ↦ judge_loop k cands t' ]
]

abbrev pub informative_reason : FixState → Bytes
informative_reason under_investigation = codes "the distro is still investigating this"
informative_reason _ = codes "the distro has decided not to fix this"

-- The switch behind the loop. `none` is the empty finding of the source.
unfoldable pub conclude : Case → Tally → Option Finding × Judgement
conclude k t =
    if t.not_aff
    then (none, judge_not_affected)
    else (if t.clean then (none, judge_clean) else elim t.best_fixed [
      | some (c, ver) ↦ (
        some (
            new_finding c k.pkg ver distro_basis finding
              (codes "installed version is below the version the distro fixed this in")),
        judge_finding,
      )
      | none ↦ elim t.best_up [
        | some (c, ver) ↦ (
          some
              (record (new_finding c k.pkg ver distro_basis awaiting_vendor
                (awaiting_reason c k.distro)) { upstream_fixed_on = c.issued }),
          judge_finding,
        )
        | none ↦ elim t.pro_only_fix [
          | some c ↦ (
            some (
                new_finding c k.pkg (version_for c k.pkg) distro_basis unfixed (
                  codes
                    "the fix ships only through Ubuntu Pro (ESM) and this host does not appear to use it")),
            judge_finding,
          )
          | none ↦ elim t.affected_by [
            | some c ↦ (
              some (
                  new_finding c k.pkg k.pkg.version distro_basis unfixed
                    (codes "the distro lists this package as affected and has published no fix")),
              judge_finding,
            )
            | none ↦ elim t.informative [
              | some c ↦ (
                some (
                    new_finding c k.pkg k.pkg.version distro_basis informational
                      (informative_reason c.state)),
                judge_finding,
              )
              | none ↦ (none, judge_clean)
            ]
          ]
        ]
      ]
    ])

-- `none` when a comparison does not return.
unfoldable pub judge : Case → List Candidate → Option (Option Finding × Judgement)
judge k cands = elim (judge_loop k cands no_notes) [ none ↦ none | some t ↦ some (conclude k t) ]
