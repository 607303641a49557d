-- ===== src/Vuln/Match/Judge/Reported.antt =====
-- internal/vuln/match.go, judge: which fix is reported.
use defendsec.Prelude.{
  ◌≡◌, ◌≢◌, refl, ap, ◌∙◌, true, false, Bool, Option, none, some, List, [], ◌∷◌, arith, inl, inr,
}
use mathlib.Core.Path.{subst}
use defendsec.Prelude.Text.{Bytes}
use defendsec.Vuln.Compare.{auto}
use defendsec.Vuln.Match.{finding, distro_basis, Candidate, Finding, new_finding, version_for}
use defendsec.Vuln.Match.Judge.{
  Judgement, distro_fix, Case, below, range_verdict, lower_fix, judge_loop, Tally, no_notes,
  conclude, judge,
}
use defendsec.Vuln.Match.Judge.Lowest.{IsIn, Covers, FixesPlain, note-best, judge_loop-Covers}
use defendsec.Vuln.Match.Judge.Outcome.{judge_loop-cons}

-- A fix that is reported: the finding is of a range of the list whose verdict is a fix of the
-- distribution, with the version that was compared, and no such range has a lower fixed version.
abbrev pub IsLowestFix : Case → List Candidate → Finding → Candidate → Type 0
IsLowestFix k cands f b =
    IsIn b cands
    × (range_verdict k b ≡ some distro_fix)
    × (f ≡ new_finding b k.pkg (version_for b k.pkg) distro_basis finding f.reason)
    × ((c : Candidate)
        → IsIn c cands
        → range_verdict k c ≡ some distro_fix
        → below k.scheme c.fixed_in b.fixed_in ≡ some false)

module _ (k : Case) (chosen : k.scheme ≢ auto) where
  -- A best fix, where there is one, is a range of the list whose verdict is a fix of the
  -- distribution, with the version it was compared with.
  abbrev From : List Candidate → Option (Candidate × Bytes) → Type 0
  From cands none = Unit
  From cands (some (b, ver)) =
      IsIn b cands × (range_verdict k b ≡ some distro_fix) × (ver ≡ version_for b k.pkg)

  lower_fix-From :
      (all : List Candidate) (o o' : Option (Candidate × Bytes)) (d : Candidate)
      → From all o
      → IsIn d all
      → range_verdict k d ≡ some distro_fix
      → lower_fix k.scheme o d (version_for d k.pkg) ≡ some o'
      → From all o'
  unfolding lower_fix
  lower_fix-From all none o' d h i v e =
      let first : some (d, version_for d k.pkg) ≡ o' = cc in subst (From all) first (i, v, refl)
  lower_fix-From all (some (b, ver)) o' d h i v e =
      by_order (below k.scheme d.fixed_in b.fixed_in) e
    where
      by_order :
          (t : Option Bool)
          → elim t [
            | none ↦ none
            | some true ↦ some (some (d, version_for d k.pkg))
            | some false ↦ some (some (b, ver))
          ]
            ≡ some o'
          → From all o'
      by_order none r = cc
      by_order (some true) r =
          let lower : some (d, version_for d k.pkg) ≡ o' = cc in subst (From all) lower (i, v, refl)
      by_order (some false) r = let same : some (b, ver) ≡ o' = cc in subst (From all) same h

  judge_loop-From :
      (all cands : List Candidate) (t t' : Tally)
      → ((c : Candidate) → IsIn c cands → IsIn c all)
      → From all t.best_fixed
      → judge_loop k cands t ≡ some t'
      → From all t'.best_fixed
  unfolding judge_loop
  judge_loop-From all [] t t' within h e =
      let same : t.best_fixed ≡ t'.best_fixed = cc in subst (From all) same h
  judge_loop-From all (d ∷ cands) t t' within h e =
      let (v, mid, ev, en, er) = judge_loop-cons k d cands t t' e in
      let noted : From all mid.best_fixed = elim (note-best k chosen v d t mid en) [
        | inl (q, f) ↦
            lower_fix-From all t.best_fixed mid.best_fixed d h (within d (inl refl))
              (ev ∙ ap some q) f
        | inr (q, f) ↦ subst (From all) f h
      ] in
      judge_loop-From all cands mid t' (λ c i. within c (inr i)) noted er

  conclude-fix :
      (t : Tally) (f : Finding) (j : Judgement) (b : Candidate) (ver : Bytes)
      → t.best_fixed ≡ some (b, ver)
      → conclude k t ≡ (some f, j)
      → f ≡ new_finding b k.pkg ver distro_basis finding f.reason
  unfolding conclude new_finding
  conclude-fix t f j b ver h e = ground arith

  conclude-no_fix :
      (t : Tally) (f : Finding) (j : Judgement)
      → t.best_fixed ≡ none
      → conclude k t ≡ (some f, j)
      → f.kind ≢ finding
  unfolding conclude new_finding
  conclude-no_fix t f j h e q = ground arith

  judge-loop :
      (cands : List Candidate) (r : Option Finding × Judgement)
      → judge k cands ≡ some r
      → (t : Tally) × (judge_loop k cands no_notes ≡ some t) × (conclude k t ≡ r)
  unfolding judge
  judge-loop cands r h = by_loop (judge_loop k cands no_notes) refl h
    where
      by_loop :
          (o : Option Tally)
          → judge_loop k cands no_notes ≡ o
          → elim o [ none ↦ none | some t ↦ some (conclude k t) ] ≡ some r
          → (t : Tally) × (judge_loop k cands no_notes ≡ some t) × (conclude k t ≡ r)
      by_loop none e q = cc
      by_loop (some t) e q = (t, e, cc)

  -- Where the decision is a fix to install, the finding is that of a range of the advisory whose
  -- verdict is a fix of the distribution, and a lowest one: no range with this verdict has a fixed
  -- version that compares below the reported one. The scheme has been chosen, and no fixed version
  -- holds a NUL byte.
  pub judge-IsLowestFix :
      (cands : List Candidate) (f : Finding) (j : Judgement)
      → FixesPlain cands
      → judge k cands ≡ some (some f, j)
      → f.kind ≡ finding
      → (b : Candidate) × IsLowestFix k cands f b
  judge-IsLowestFix cands f j plain h q =
      let (t, e, out) = judge-loop cands (some f, j) h in
      by_best t.best_fixed t out refl (judge_loop-From cands cands no_notes t (λ c i. i) tt e)
        (judge_loop-Covers k chosen cands no_notes t plain tt e).0
    where
      by_best :
          (o : Option (Candidate × Bytes)) (t : Tally)
          → conclude k t ≡ (some f, j)
          → t.best_fixed ≡ o
          → From cands o
          → ((c : Candidate)
              → IsIn c cands
              → range_verdict k c ≡ some distro_fix
              → Covers k.scheme c o)
          → (b : Candidate) × IsLowestFix k cands f b
      by_best none t out e from cov = absurd (conclude-no_fix t f j e out q)
      by_best (some (b, ver)) t out e (i, v, same) cov = (
        b,
        (
          i,
          v,
          subst (λ x. f ≡ new_finding b k.pkg x distro_basis finding f.reason) same
              (conclude-fix t f j b ver e out),
          cov,
        ),
      )
