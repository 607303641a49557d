-- ===== src/Vuln/Match/Run/Calls.antt =====
-- internal/vuln/match.go, Match: which findings the loops over the packages add.
use defendsec.Prelude.{
  ◌+◌, ◌≡◌, refl, sym, ap, ◌∙◌, Bool, true, false, not, Option, none, some, List, [], ◌∷◌, ◌++◌,
  if◌then◌else◌, inl, inr, ◌⊎◌, arith,
}
use defendsec.Prelude.Sort.{Among, add_name}
use defendsec.Prelude.Text.{Bytes}
use defendsec.Vuln.Compare.{Scheme}
use defendsec.Vuln.Match.{Candidate, Finding}
use defendsec.Vuln.Match.Attach.{Work}
use defendsec.Vuln.Match.Judge.{
  Judgement, judge_finding, judge_not_affected, judge_clean, Case, judge,
}
use defendsec.Vuln.Match.Merge.{add_finding, merge_all}
use defendsec.Vuln.Match.Run.{
  Answer, returned, failed, never, ◌>>=◌, asked, computed, Found, by_judgement, judge_groups,
  case_of, judge_works,
}

pub >>=-returned :
    {A B : Type 0} (a : Answer A) (f : A → Answer B) {b : B}
    → (a >>= f) ≡ returned b
    → (x : A) × (a ≡ returned x) × (f x ≡ returned b)
>>=-returned (returned x) f h = (x, refl, h)
>>=-returned failed f h = cc
>>=-returned never f h = cc

pub computed-returned : {A : Type 0} (o : Option A) {a : A} → computed o ≡ returned a → o ≡ some a
computed-returned none h = cc
computed-returned (some x) h = cc

pub asked-returned : {A : Type 0} (o : Option A) {a : A} → asked o ≡ returned a → o ≡ some a
asked-returned none h = cc
asked-returned (some x) h = cc

-- From the first map to the second by calls of addFinding, one for each finding of the predicate.
abbrev pub Calls : List (Bytes × Finding) → List (Bytes × Finding) → (Finding → Type 0) → Type 0
Calls m m' P =
    (calls : List Finding) × (m' ≡ merge_all m calls) × ((f : Finding) → P f → Among f calls)

merge_all-append :
    (m : List (Bytes × Finding)) (a b : List Finding)
    → merge_all m (a ++ b) ≡ merge_all (merge_all m a) b
unfolding merge_all
merge_all-append m [] b = refl
merge_all-append m (f ∷ a) b = merge_all-append (add_finding m f) a b

Among-left : (f : Finding) (a b : List Finding) → Among f a → Among f (a ++ b)
Among-left f [] b i = absurd i
Among-left f (x ∷ a) b (inl e) = inl e
Among-left f (x ∷ a) b (inr i) = inr (Among-left f a b i)

Among-right : (f : Finding) (a b : List Finding) → Among f b → Among f (a ++ b)
Among-right f [] b i = i
Among-right f (x ∷ a) b i = inr (Among-right f a b i)

pub Calls-then :
    (m m₁ m₂ : List (Bytes × Finding)) (P Q R : Finding → Type 0)
    → ((f : Finding) → R f → P f ⊎ Q f)
    → Calls m m₁ P
    → Calls m₁ m₂ Q
    → Calls m m₂ R
Calls-then m m₁ m₂ P Q R cases (a, e, i) (b, e', i') = (
  a ++ b,
  e' ∙ (ap (λ x. merge_all x b) e ∙ sym (merge_all-append m a b)),
  λ f r. elim (cases f r) [ inl p ↦ Among-left f a b (i f p) | inr q ↦ Among-right f a b (i' f q) ],
)

-- A predicate that no finding has, and the one of a finding.
abbrev pub Nothing : Finding → Type 0
Nothing f = ⊥

pub no_call : (m : List (Bytes × Finding)) → Calls m m Nothing
unfolding merge_all
no_call m = ([], refl, λ f p. absurd p)

pub one_call : (m : List (Bytes × Finding)) (f : Finding) → Calls m (add_finding m f) (λ g. g ≡ f)
unfolding merge_all
one_call m f = (f ∷ [], refl, λ g e. inl e)

-- What the decision on an advisory adds.
abbrev pub Decided : Option Finding × Judgement → Finding → Type 0
Decided j f = j ≡ (some f, judge_finding)

by_judgement-Calls :
    (j : Option Finding × Judgement) (st : Found)
    → Calls st.merged (by_judgement j st).merged (Decided j)
by_judgement-Calls (some f, judge_finding) st =
    let (calls, e, i) = one_call st.merged f in (calls, e, λ g h. i g (ground arith))
by_judgement-Calls (some f, judge_not_affected) st =
    let (calls, e, i) = no_call st.merged in (calls, e, λ g h. cc)
by_judgement-Calls (some f, judge_clean) st =
    let (calls, e, i) = no_call st.merged in (calls, e, λ g h. cc)
by_judgement-Calls (none, judge_finding) st =
    let (calls, e, i) = no_call st.merged in (calls, e, λ g h. cc)
by_judgement-Calls (none, judge_not_affected) st =
    let (calls, e, i) = no_call st.merged in (calls, e, λ g h. cc)
by_judgement-Calls (none, judge_clean) st =
    let (calls, e, i) = no_call st.merged in (calls, e, λ g h. cc)

abbrev pub FromGroups : Case → List (Bytes × List Candidate) → Finding → Type 0
FromGroups k [] f = ⊥
FromGroups k ((adv, cands) ∷ groups) f =
    (judge k cands ≡ some (some f, judge_finding)) ⊎ FromGroups k groups f

judge_groups-Calls :
    (k : Case) (groups : List (Bytes × List Candidate)) (st st' : Found)
    → judge_groups k groups st ≡ returned st'
    → Calls st.merged st'.merged (FromGroups k groups)
unfolding judge_groups
judge_groups-Calls k [] st st' h =
    let same : st ≡ st' = cc in
    let (calls, e, i) = no_call st.merged in (calls, ap (λ (x : Found). x.merged) (sym same) ∙ e, i)
judge_groups-Calls k ((adv, cands) ∷ groups) st st' h =
    let seen : Found = record st { advisories = add_name adv st.advisories } in
    let (j, q, rest) =
      >>=-returned (computed (judge k cands)) (λ j. judge_groups k groups (by_judgement j seen))
        h in
    let decided = computed-returned (judge k cands) q in
    Calls-then st.merged (by_judgement j seen).merged st'.merged (Decided j) (FromGroups k groups)
      (FromGroups k ((adv, cands) ∷ groups))
      (λ f r. elim r [
        | inl e ↦ let here : j ≡ (some f, judge_finding) = cc in inl here
        | inr later ↦ inr later
      ])
      (by_judgement-Calls j seen) (judge_groups-Calls k groups (by_judgement j seen) st' rest)

abbrev pub FromWorks : Scheme → Bool → Bytes → List Work → Finding → Type 0
FromWorks scheme on_pro distro [] f = ⊥
FromWorks scheme on_pro distro (w ∷ works) f =
    ((w.mapped ≡ true) × FromGroups (case_of scheme on_pro distro w) w.by_adv f)
    ⊎ FromWorks scheme on_pro distro works f

pub judge_works-Calls :
    (scheme : Scheme) (on_pro : Bool) (distro : Bytes) (works : List Work) (st st' : Found)
    → judge_works scheme on_pro distro works st ≡ returned st'
    → Calls st.merged st'.merged (FromWorks scheme on_pro distro works)
unfolding judge_works
judge_works-Calls scheme on_pro distro [] st st' h =
    let same : st ≡ st' = cc in
    let (calls, e, i) = no_call st.merged in (calls, ap (λ (x : Found). x.merged) (sym same) ∙ e, i)
judge_works-Calls scheme on_pro distro (w ∷ works) st st' h =
    by_mapped (λ s k. judge_works-Calls scheme on_pro distro works s st' k) w.mapped refl h
  where
    counted : Found
    counted = record st { distro_mapped = st.distro_mapped + 1 }

    by_mapped :
        ((s : Found)
          → judge_works scheme on_pro distro works s ≡ returned st'
          → Calls s.merged st'.merged (FromWorks scheme on_pro distro works))
        → (t : Bool) → w.mapped ≡ t
        → (if not t
            then judge_works scheme on_pro distro works st
            else judge_groups (case_of scheme on_pro distro w) w.by_adv counted
              >>= judge_works scheme on_pro distro works)
          ≡ returned st'
        → Calls st.merged st'.merged (FromWorks scheme on_pro distro (w ∷ works))
    by_mapped ih false e k =
        let (calls, q, i) = ih st k in
        (calls, q, λ f r. elim r [ inl (m, x) ↦ cc | inr later ↦ i f later ])
    by_mapped ih true e k =
        let (s, q, rest) =
          >>=-returned (judge_groups (case_of scheme on_pro distro w) w.by_adv counted)
            (judge_works scheme on_pro distro works) k in
        Calls-then st.merged s.merged st'.merged
          (FromGroups (case_of scheme on_pro distro w) w.by_adv)
          (FromWorks scheme on_pro distro works) (FromWorks scheme on_pro distro (w ∷ works))
          (λ f r. elim r [ inl (m, x) ↦ inl x | inr later ↦ inr later ])
          (judge_groups-Calls (case_of scheme on_pro distro w) w.by_adv counted s q) (ih s rest)
