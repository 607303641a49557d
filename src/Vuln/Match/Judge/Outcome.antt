-- ===== src/Vuln/Match/Judge/Outcome.antt =====
-- internal/vuln/match.go, judge: the outcome by the verdicts of the ranges, in whatever order they
-- come.
use defendsec.Prelude.{
  ◌≡◌, refl, Bool, true, false, ◌||◌, Option, none, some, List, [], ◌∷◌, arith, if◌then◌else◌,
}
use defendsec.Vuln.Match.{
  Kind, finding, unfixed, informational, awaiting_vendor, Candidate, Finding, new_finding,
}
use defendsec.Vuln.Match.Judge.{
  Judgement, judge_clean, judge_not_affected, judge_finding, RangeVerdict, skipped,
  says_not_affected, says_clean, pro_only, upstream_fix, distro_fix, says_affected,
  says_informative, Case, range_verdict, lower_fix, note, judge_loop, Tally, no_notes, conclude,
  judge,
}

-- The verdicts of all ranges; `none` if a comparison does not return.
unfoldable pub verdicts : Case → List Candidate → Option (List RangeVerdict)
verdicts k [] = some []
verdicts k (c ∷ cands) = elim (range_verdict k c) [
  | none ↦ none
  | some v ↦ elim (verdicts k cands) [ none ↦ none | some vs ↦ some (v ∷ vs) ]
]

abbrev pub any_of : (RangeVerdict → Bool) → List RangeVerdict → Bool
any_of p [] = false
any_of p (v ∷ vs) = p v || any_of p vs

abbrev pub is_not_affected : RangeVerdict → Bool
is_not_affected says_not_affected = true
is_not_affected _ = false

abbrev pub is_clean : RangeVerdict → Bool
is_clean says_clean = true
is_clean _ = false

abbrev pub is_distro_fix : RangeVerdict → Bool
is_distro_fix distro_fix = true
is_distro_fix _ = false

abbrev pub is_upstream_fix : RangeVerdict → Bool
is_upstream_fix upstream_fix = true
is_upstream_fix _ = false

-- Only Ubuntu Pro fixes it, or nothing does.
abbrev pub is_open : RangeVerdict → Bool
is_open pro_only = true
is_open says_affected = true
is_open _ = false

abbrev pub is_informative : RangeVerdict → Bool
is_informative says_informative = true
is_informative _ = false

-- The outcome by what the ranges say, and its kind if it is a finding.
unfoldable pub outcome : List RangeVerdict → Judgement × Option Kind
outcome vs =
    if any_of is_not_affected vs
    then (judge_not_affected, none)
    else (if any_of is_clean vs
        then (judge_clean, none)
        else (if any_of is_distro_fix vs
            then (judge_finding, some finding)
            else (if any_of is_upstream_fix vs
                then (judge_finding, some awaiting_vendor)
                else (if any_of is_open vs
                    then (judge_finding, some unfixed)
                    else (if any_of is_informative vs
                        then (judge_finding, some informational)
                        else (judge_clean, none))))))

abbrev pub kind_of : Option Finding × Judgement → Judgement × Option Kind
kind_of (none, j) = (j, none)
kind_of (some f, j) = (j, some f.kind)

abbrev is_some {ℓ} : {A : Type ℓ} → Option A → Bool
is_some none = false
is_some (some a) = true

-- What the notes after a round are, from those before it and the verdict of the range.
record Notes (t t' : Tally) (na cl df up op inf : Bool) : Type 0 where
  na_eq : t'.not_aff ≡ (t.not_aff || na)
  cl_eq : t'.clean ≡ (t.clean || cl)
  df_eq : is_some t'.best_fixed ≡ (is_some t.best_fixed || df)
  up_eq : is_some t'.best_up ≡ (is_some t.best_up || up)
  op_eq :
      (is_some t'.pro_only_fix || is_some t'.affected_by)
      ≡ (is_some t.pro_only_fix || is_some t.affected_by || op)
  inf_eq : is_some t'.informative ≡ (is_some t.informative || inf)

abbrev NotesOf : Tally → Tally → RangeVerdict → Type 0
NotesOf t t' v =
    Notes t t' (is_not_affected v) (is_clean v) (is_distro_fix v) (is_upstream_fix v) (is_open v)
      (is_informative v)

note-Notes :
    (k : Case) (v : RangeVerdict) (c : Candidate) (t t' : Tally)
    → note k v c t ≡ some t'
    → NotesOf t t' v
unfolding note lower_fix
note-Notes k skipped c t t' h = ground arith
note-Notes k v c t t' h = ground arith

abbrev NotesAll : Tally → Tally → List RangeVerdict → Type 0
NotesAll t t' vs =
    Notes t t' (any_of is_not_affected vs) (any_of is_clean vs) (any_of is_distro_fix vs)
      (any_of is_upstream_fix vs) (any_of is_open vs) (any_of is_informative vs)

Notes-trans :
    (t t' t'' : Tally) (v : RangeVerdict) (vs : List RangeVerdict)
    → NotesOf t t' v
    → NotesAll t' t'' vs
    → NotesAll t t'' (v ∷ vs)
Notes-trans t t' t'' v vs h k = record {
  na_eq = ground arith;
  cl_eq = ground arith;
  df_eq = ground arith;
  up_eq = ground arith;
  op_eq = ground arith;
  inf_eq = ground arith;
}

-- A run over a range and more has a verdict of the range, a note of it, and a run over the rest.
pub judge_loop-cons :
    (k : Case) (c : Candidate) (cands : List Candidate) (t t' : Tally)
    → judge_loop k (c ∷ cands) t ≡ some t'
    → (v : RangeVerdict) × (t₁ : Tally) × (range_verdict k c ≡ some v)
      × (note k v c t ≡ some t₁)
      × (judge_loop k cands t₁ ≡ some t')
unfolding judge_loop
judge_loop-cons k c cands t t' h = by_verdict (range_verdict k c) refl h
  where
    by_note :
        (v : RangeVerdict) (o : Option Tally)
        → range_verdict k c ≡ some v
        → note k v c t ≡ o
        → elim o [ none ↦ none | some t₁ ↦ judge_loop k cands t₁ ] ≡ some t'
        → (v : RangeVerdict) × (t₁ : Tally) × (range_verdict k c ≡ some v)
          × (note k v c t ≡ some t₁)
          × (judge_loop k cands t₁ ≡ some t')
    by_note v none e f g = cc
    by_note v (some t₁) e f g = (v, t₁, e, f, g)

    by_verdict :
        (o : Option RangeVerdict)
        → range_verdict k c ≡ o
        → elim o [
          | none ↦ none
          | some v ↦ elim (note k v c t) [ none ↦ none | some t₁ ↦ judge_loop k cands t₁ ]
        ]
          ≡ some t'
        → (v : RangeVerdict) × (t₁ : Tally) × (range_verdict k c ≡ some v)
          × (note k v c t ≡ some t₁)
          × (judge_loop k cands t₁ ≡ some t')
    by_verdict none e g = cc
    by_verdict (some v) e g = by_note v (note k v c t) e refl g

pub verdicts-cons :
    (k : Case) (c : Candidate) (cands : List Candidate) (v : RangeVerdict) {vs : List RangeVerdict}
    → range_verdict k c ≡ some v
    → verdicts k (c ∷ cands) ≡ some vs
    → (ws : List RangeVerdict) × (verdicts k cands ≡ some ws) × (vs ≡ v ∷ ws)
unfolding verdicts
verdicts-cons k c cands v {vs} e h = by_rest (verdicts k cands) refl (rw (e, verdicts) at h)
  where
    by_rest :
        (o : Option (List RangeVerdict))
        → verdicts k cands ≡ o
        → elim o [ none ↦ none | some ws ↦ some (v ∷ ws) ] ≡ some vs
        → (ws : List RangeVerdict) × (verdicts k cands ≡ some ws) × (vs ≡ v ∷ ws)
    by_rest none e g = cc
    by_rest (some ws) e g = (ws, e, cc)

judge_loop-Notes :
    (k : Case) (cands : List Candidate) (t t' : Tally) (vs : List RangeVerdict)
    → judge_loop k cands t ≡ some t'
    → verdicts k cands ≡ some vs
    → NotesAll t t' vs
unfolding judge_loop verdicts
judge_loop-Notes k [] t t' [] h e = ground arith
judge_loop-Notes k [] t t' (v ∷ vs) h e = cc
judge_loop-Notes k (c ∷ cands) t t' vs h e =
    let (v, t₁, ev, en, er) = judge_loop-cons k c cands t t' h in
    let (ws, ew, es) = verdicts-cons k c cands v ev e in
    rw es (
      Notes-trans t t₁ t' v ws (note-Notes k v c t t₁ en) (judge_loop-Notes k cands t₁ t' ws er ew))

conclude-kind_of :
    (k : Case) (t : Tally) (vs : List RangeVerdict)
    → NotesAll no_notes t vs
    → kind_of (conclude k t) ≡ outcome vs
unfolding conclude outcome new_finding
conclude-kind_of k t vs h = ground arith

-- The decision on an advisory, whether it is a finding and of which kind, depends on the verdicts
-- of its ranges alone, whatever their order and number: not affected before clean, clean before a
-- fix of the distribution, that before one of the upstream vendor, that before exposure without a
-- fix, that before what is only informative.
pub judge-outcome :
    (k : Case) (cands : List Candidate) {vs : List RangeVerdict} {r : Option Finding × Judgement}
    → verdicts k cands ≡ some vs
    → judge k cands ≡ some r
    → kind_of r ≡ outcome vs
unfolding judge
judge-outcome k cands {vs} {r} e h = by_loop (judge_loop k cands no_notes) refl h
  where
    by_loop :
        (o : Option Tally)
        → judge_loop k cands no_notes ≡ o
        → elim o [ none ↦ none | some t ↦ some (conclude k t) ] ≡ some r
        → kind_of r ≡ outcome vs
    by_loop none f g = cc
    by_loop (some t) f g =
        let same : conclude k t ≡ r = cc in
        rw (← same) (conclude-kind_of k t vs (judge_loop-Notes k cands no_notes t vs f e))
