-- ===== src/Exposure.antt =====
-- internal/exposure/rank.go: the order of the exposure view. A score is a number of units of
-- 0.00001, so that 8.0 is 800000; a KEV date is the number of its calendar day in UTC, to which the
-- source truncates it.
pub mod Order
pub mod Tests
use defendsec.Prelude.{
  ℕ, zero, suc, Bool, true, false, ◌||◌, ◌&&◌, Option, none, some, List, [], ◌∷◌, if◌then◌else◌,
  ltb, compare, Ordering,
}
use defendsec.Prelude.Int.{ℤ, pos, negsuc, sub_ℕ, of_sign, eq_ℤ}
use defendsec.Prelude.Cmp.{lex}
use defendsec.Prelude.Text.{Bytes, codes, to_lower, eq_bytes, is_empty}

pub record Item : Type 0 where
  pub advisory_id : Bytes
  pub severity : Bytes
  pub kev : Bool
  pub kev_added : Option ℕ
  pub epss : Option ℕ
  pub cvss : Option ℕ
  pub surface : Bool
  pub identity : Bool
  pub eol_stage : Bytes
  pub repo_health : Bool

abbrev pub band_kev : ℕ
band_kev = 0

abbrev pub band_urgent : ℕ
band_urgent = 1

abbrev pub band_rest : ℕ
band_rest = 2

-- The severity labels, as the source's switches read them.
pub data Label : Type 0 where
  critical high medium low other_label : Label

unfoldable pub label_of : Bytes → Label
unfolding to_lower eq_bytes
label_of severity =
    let s = to_lower severity in
    if eq_bytes s (codes "critical")
    then critical
    else (if eq_bytes s (codes "high")
        then high
        else (if eq_bytes s (codes "medium")
            then medium
            else (if eq_bytes s (codes "low") then low else other_label)))

pub data Stage : Type 0 where
  stage_eol stage_eoas no_stage : Stage

unfoldable pub stage_of : Bytes → Stage
unfolding eq_bytes
stage_of s =
    if eq_bytes s (codes "eol")
    then stage_eol
    else (if eq_bytes s (codes "eoas") then stage_eoas else no_stage)

-- The score, and whether the row ranks: `none` is the second result false.
unfoldable pub eol_score : Stage → Option ℕ
eol_score stage_eol = some 800_000
eol_score stage_eoas = some 200_000
eol_score no_stage = none

unfoldable pub surface_score : Label → Option ℕ
surface_score critical = some 950_000
surface_score high = some 800_000
surface_score medium = some 500_000
surface_score low = some 200_000
surface_score other_label = none

-- The score alone: 0 where the row does not rank.
abbrev pub score_of : Option ℕ → ℕ
score_of none = 0
score_of (some n) = n

abbrev pub by_severity : Label → ℕ
by_severity critical = band_urgent
by_severity high = band_urgent
by_severity _ = band_rest

-- What the rules for surface, identity and repository rows apply to.
abbrev pub ranks_by_severity : Item → Bool
ranks_by_severity i = i.surface || (i.identity || i.repo_health)

unfoldable pub band : Item → ℕ
band i =
    if ranks_by_severity i then by_severity (label_of i.severity) else elim (stage_of i.eol_stage) [
      | stage_eol ↦ band_urgent
      | stage_eoas ↦ band_rest
      | no_stage ↦ if i.kev then band_kev else band_rest
    ]

unfoldable pub effective : Item → Item
unfolding eol_score surface_score
effective i =
    if ranks_by_severity i
    then record {
      advisory_id = i.advisory_id;
      severity = i.severity;
      kev = false;
      kev_added = none;
      epss = none;
      cvss = some (score_of (surface_score (label_of i.severity)));
      surface = i.surface;
      identity = i.identity;
      eol_stage = [];
      repo_health = i.repo_health;
    }
    else elim (eol_score (stage_of i.eol_stage)) [
      | none ↦ i
      | some score ↦ record {
        advisory_id = i.advisory_id;
        severity = i.severity;
        kev = false;
        kev_added = none;
        epss = none;
        cvss = some score;
        surface = false;
        identity = false;
        eol_stage = i.eol_stage;
        repo_health = false;
      }
    ]

unfoldable pub severity_rank : Label → ℕ
severity_rank critical = 0
severity_rank high = 1
severity_rank medium = 2
severity_rank low = 3
severity_rank other_label = 4

-- The kinds of row, in the order in which they win a tie.
unfoldable pub tie_rank : Item → ℕ
tie_rank i =
    if i.surface
    then 4
    else (if i.identity
        then 3
        else (if i.repo_health then 2 else elim (stage_of i.eol_stage) [ no_stage ↦ 0 | _ ↦ 1 ]))

-- cmpScoreDesc and cmpDateDesc, which differ in the type of what they compare.
unfoldable pub cmp_desc : Option ℕ → Option ℕ → ℤ
cmp_desc none none = pos 0
cmp_desc none (some b) = pos 1
cmp_desc (some a) none = negsuc 0
cmp_desc (some a) (some b) = if ltb b a then negsuc 0 else (if ltb a b then pos 1 else pos 0)

-- if c := …; c != 0 { return c }
abbrev pub or_next : ℤ → ℤ → ℤ
or_next c rest = if eq_ℤ c (pos 0) then rest else c

unfoldable pub compare_items : Item → Item → ℤ
compare_items i j =
    let a = effective i in
    let b = effective j in
    or_next (sub_ℕ (band i) (band j)) (
      or_next (if a.kev && b.kev then cmp_desc a.kev_added b.kev_added else pos 0) (
        or_next (cmp_desc a.epss b.epss) (
          or_next (cmp_desc a.cvss b.cvss) (
            or_next
              (sub_ℕ (severity_rank (label_of a.severity)) (severity_rank (label_of b.severity)))
              (or_next (sub_ℕ (tie_rank a) (tie_rank b))
                (of_sign (lex a.advisory_id b.advisory_id)))))))
