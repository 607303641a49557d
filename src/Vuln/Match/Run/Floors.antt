-- ===== src/Vuln/Match/Run/Floors.antt =====
-- internal/vuln/match.go, Match: which findings the upstream floors add.
use defendsec.Prelude.{
  ◌≡◌, refl, sym, ap, ◌∙◌, Bool, true, false, not, some, List, [], ◌∷◌, if◌then◌else◌, inl, inr,
  ◌⊎◌,
}
use defendsec.Prelude.Sort.{add_name}
use defendsec.Prelude.Text.{codes}
use defendsec.Vuln.Compare.{
  Scheme, Assessment, Verdict, vulnerable, unknown, not_vulnerable, assess,
}
use defendsec.Vuln.Match.{Package, Candidate, Finding, finding, upstream_basis, new_finding}
use defendsec.Vuln.Match.Attach.{Work}
use defendsec.Vuln.Match.Merge.{merge_all}
use defendsec.Vuln.Match.Run.{
  returned, ◌>>=◌, computed, Found, on_verdict, by_verdict, is_floor_for, assess_floors, count_hit,
  assess_works,
}
use defendsec.Vuln.Match.Run.Calls.{
  >>=-returned, computed-returned, Calls, Calls-then, no_call, one_call,
}

abbrev pub floor_finding : Candidate → Package → Assessment → Finding
floor_finding c p a = new_finding c p p.version upstream_basis finding (codes a.reason)

-- What the verdict on a floor adds.
abbrev pub Judged : Candidate → Package → Assessment → Finding → Type 0
Judged c p a f = (a.verdict ≡ vulnerable) × (f ≡ floor_finding c p a)

by_verdict-Calls :
    (c : Candidate) (p : Package) (a : Assessment) (st : Found)
    → Calls st.merged (by_verdict c p a st).merged (Judged c p a)
by_verdict-Calls c p a st = by_case a.verdict refl
  where
    by_case :
        (v : Verdict)
        → a.verdict ≡ v
        → Calls st.merged (on_verdict v (floor_finding c p a) st).merged (Judged c p a)
    by_case vulnerable e =
        let (calls, q, i) = one_call st.merged (floor_finding c p a) in (calls, q, λ g h. i g h.1)
    by_case unknown e = let (calls, q, i) = no_call st.merged in (calls, q, λ g h. cc)
    by_case not_vulnerable e = let (calls, q, i) = no_call st.merged in (calls, q, λ g h. cc)

abbrev pub FromFloors : Scheme → Package → List Candidate → Finding → Type 0
FromFloors scheme p [] f = ⊥
FromFloors scheme p (c ∷ ups) f =
    ((is_floor_for c p ≡ true)
      × (a : Assessment) × (assess p.version c.fixed_in scheme ≡ some a)
      × Judged c p a f)
    ⊎ FromFloors scheme p ups f

assess_floors-Calls :
    (scheme : Scheme) (p : Package) (ups : List Candidate) (s s' : Bool × Found)
    → assess_floors scheme p ups s ≡ returned s'
    → Calls (s.1).merged (s'.1).merged (FromFloors scheme p ups)
unfolding assess_floors
assess_floors-Calls scheme p [] s s' h =
    let same : s ≡ s' = cc in
    let (calls, e, i) = no_call (s.1).merged in
    (calls, ap (λ (x : Bool × Found). (x.1).merged) (sym same) ∙ e, i)
assess_floors-Calls scheme p (c ∷ ups) (hit, st) s' h =
    by_floor (λ s k. assess_floors-Calls scheme p ups s s' k) (is_floor_for c p) refl h
  where
    seen : Found
    seen = record st { advisories = add_name c.advisory_id st.advisories }

    by_floor :
        ((s : Bool × Found)
          → assess_floors scheme p ups s ≡ returned s'
          → Calls (s.1).merged (s'.1).merged (FromFloors scheme p ups))
        → (t : Bool) → is_floor_for c p ≡ t
        → (if not t
            then assess_floors scheme p ups (hit, st)
            else computed (assess p.version c.fixed_in scheme) >>= λ a.
                assess_floors scheme p ups (true, by_verdict c p a seen))
          ≡ returned s'
        → Calls st.merged (s'.1).merged (FromFloors scheme p (c ∷ ups))
    by_floor ih false e k =
        let (calls, q, i) = ih (hit, st) k in
        (calls, q, λ f r. elim r [ inl (m, x, y, z) ↦ cc | inr later ↦ i f later ])
    by_floor ih true e k =
        let (a, q, rest) =
          >>=-returned (computed (assess p.version c.fixed_in scheme))
            (λ a. assess_floors scheme p ups (true, by_verdict c p a seen)) k in
        let decided = computed-returned (assess p.version c.fixed_in scheme) q in
        Calls-then st.merged (by_verdict c p a seen).merged (s'.1).merged (Judged c p a)
          (FromFloors scheme p ups) (FromFloors scheme p (c ∷ ups))
          (λ f r. elim r [
            | inl (m, b, d, j) ↦
                let here : a ≡ b = cc in
                inl (
                  ap (λ (x : Assessment). x.verdict) here ∙ j.0,
                  j.1 ∙ ap (floor_finding c p) (sym here),
                )
            | inr later ↦ inr later
          ])
          (by_verdict-Calls c p a seen) (ih (true, by_verdict c p a seen) rest)

count_hit-merged : (s : Bool × Found) → (count_hit s).merged ≡ (s.1).merged
count_hit-merged (true, st) = refl
count_hit-merged (false, st) = refl

abbrev pub FromUnmapped : Scheme → List Candidate → List Work → Finding → Type 0
FromUnmapped scheme ups [] f = ⊥
FromUnmapped scheme ups (w ∷ works) f =
    FromFloors scheme w.pkg ups f ⊎ FromUnmapped scheme ups works f

pub assess_works-Calls :
    (scheme : Scheme) (ups : List Candidate) (works : List Work) (st st' : Found)
    → assess_works scheme ups works st ≡ returned st'
    → Calls st.merged st'.merged (FromUnmapped scheme ups works)
unfolding assess_works
assess_works-Calls scheme ups [] st st' h =
    let same : st ≡ st' = cc in
    let (calls, e, i) = no_call st.merged in (calls, ap (λ (x : Found). x.merged) (sym same) ∙ e, i)
assess_works-Calls scheme ups (w ∷ works) st st' h =
    let (s, q, rest) =
      >>=-returned (assess_floors scheme w.pkg ups (false, st))
        (λ s. assess_works scheme ups works (count_hit s)) h in
    let (later, e, i) = assess_works-Calls scheme ups works (count_hit s) st' rest in
    Calls-then st.merged (s.1).merged st'.merged (FromFloors scheme w.pkg ups)
      (FromUnmapped scheme ups works) (FromUnmapped scheme ups (w ∷ works)) (λ f r. r)
      (assess_floors-Calls scheme w.pkg ups (false, st) s q)
      (later, e ∙ ap (λ m. merge_all m later) (count_hit-merged s), i)
