-- ===== src/Vuln/Match/Run/Fails.antt =====
-- internal/vuln/match.go, Match: it returns an error only if the store does.
use defendsec.Prelude.{
  ℕ, ◌+◌, ◌≡◌, ◌≢◌, refl, Bool, true, false, not, Option, none, some, List, [], ◌∷◌, length,
  if◌then◌else◌, inl, inr, ◌⊎◌,
}
use defendsec.Prelude.Sort.{add_name}
use defendsec.Prelude.Text.{Bytes, is_empty}
use defendsec.Lifecycle.{Release}
use defendsec.Lifecycle.Assess.{
  Mapped, LifecycleHost, LifecycleStats, nothing_seen, map_all, with_cands, assess_host, report,
}
use defendsec.Vuln.Compare.{Scheme, assess}
use defendsec.Vuln.Match.{Package, Candidate, Finding}
use defendsec.Vuln.Match.Attach.{Work, works_of}
use defendsec.Vuln.Match.Host.{normalize_distro, uses_ubuntu_pro}
use defendsec.Vuln.Match.Judge.{Case, judge}
use defendsec.Vuln.Match.Run.{
  Host, RangeSource, Answer, returned, failed, never, ◌>>=◌, asked, computed, Found, nothing_found,
  unmapped, with_found, start_result, judge_groups, case_of, judge_works, by_verdict, is_floor_for,
  assess_floors, count_hit, assess_works, coverage_for, with_base, ranges_for, attached_for,
  with_floors, lifecycle_host, with_eol, add_eol, match_host,
}
use defendsec.Vuln.Match.Windows.{Coverage, covered, no_feed, no_distro, Result}

-- A query that the store answers with an error.
pub data Fails (src : RangeSource) : Type 0 where
  coverage_fails : (d r : Bytes) → src.distro_covered d r ≡ none → Fails src
  ranges_fail : (d r : Bytes) (names : List Bytes) → src.distro_ranges d r names ≡ none → Fails src
  floors_fail : (names : List Bytes) → src.upstream_ranges names ≡ none → Fails src
  calendar_fails :
      (releases : List Bytes → Option (List Release)) (names : List Bytes)
      → src.eol_releases ≡ some releases
      → releases names ≡ none
      → Fails src

>>=-failed :
    {A B : Type 0} (a : Answer A) (f : A → Answer B)
    → (a >>= f) ≡ failed
    → (a ≡ failed) ⊎ ((x : A) × (f x ≡ failed))
>>=-failed (returned x) f h = inr (x, h)
>>=-failed failed f h = inl refl
>>=-failed never f h = cc

-- A chain fails in its first step or behind it.
step :
    {A B P : Type 0} (a : Answer A) {f : A → Answer B}
    → (a >>= f) ≡ failed
    → (a ≡ failed → P)
    → ((x : A) → f x ≡ failed → P)
    → P
step (returned x) h first later = later x h
step failed h first later = first refl
step never h first later = cc

asked-failed : {A : Type 0} (o : Option A) → asked o ≡ failed → o ≡ none
asked-failed none h = refl
asked-failed (some a) h = cc

computed-not_failed : {A : Type 0} (o : Option A) → computed o ≢ failed
computed-not_failed none h = cc
computed-not_failed (some a) h = cc

judge_groups-not_failed :
    (k : Case) (groups : List (Bytes × List Candidate)) (st : Found)
    → judge_groups k groups st ≢ failed
unfolding judge_groups
judge_groups-not_failed k [] st h = cc
judge_groups-not_failed k ((adv, cands) ∷ groups) st h =
    elim (>>=-failed (computed (judge k cands)) _ h) [
      | inl e ↦ computed-not_failed (judge k cands) e
      | inr (j, e) ↦ judge_groups-not_failed k groups _ e
    ]

judge_works-not_failed :
    (scheme : Scheme) (on_pro : Bool) (distro : Bytes) (works : List Work) (st : Found)
    → judge_works scheme on_pro distro works st ≢ failed
unfolding judge_works
judge_works-not_failed scheme on_pro distro [] st h = cc
judge_works-not_failed scheme on_pro distro (w ∷ works) st h =
    by_mapped (judge_works-not_failed scheme on_pro distro works) w.mapped h
  where
    by_mapped :
        ((s : Found) → judge_works scheme on_pro distro works s ≢ failed)
        → (t : Bool)
        → (if not t
            then judge_works scheme on_pro distro works st
            else judge_groups
                (case_of scheme on_pro distro w)
                w.by_adv
                (record st { distro_mapped = st.distro_mapped + 1 })
              >>= judge_works scheme on_pro distro works)
          ≢ failed
    by_mapped ih false e = ih st e
    by_mapped ih true e = elim (>>=-failed (judge_groups _ w.by_adv _) _ e) [
      | inl q ↦ judge_groups-not_failed _ w.by_adv _ q
      | inr (s, q) ↦ ih s q
    ]

assess_floors-not_failed :
    (scheme : Scheme) (p : Package) (ups : List Candidate) (s : Bool × Found)
    → assess_floors scheme p ups s ≢ failed
unfolding assess_floors
assess_floors-not_failed scheme p [] s h = cc
assess_floors-not_failed scheme p (c ∷ ups) (hit, st) h =
    by_floor (assess_floors-not_failed scheme p ups) (is_floor_for c p) h
  where
    by_floor :
        ((s : Bool × Found) → assess_floors scheme p ups s ≢ failed)
        → (t : Bool)
        → (if not t
            then assess_floors scheme p ups (hit, st)
            else computed (assess p.version c.fixed_in scheme) >>= λ a. assess_floors scheme p ups (
              true,
              by_verdict c p a (record st { advisories = add_name c.advisory_id st.advisories }),
            ))
          ≢ failed
    by_floor ih false e = ih (hit, st) e
    by_floor ih true e = elim (>>=-failed (computed (assess p.version c.fixed_in scheme)) _ e) [
      | inl q ↦ computed-not_failed _ q
      | inr (a, q) ↦ ih _ q
    ]

assess_works-not_failed :
    (scheme : Scheme) (ups : List Candidate) (works : List Work) (st : Found)
    → assess_works scheme ups works st ≢ failed
unfolding assess_works
assess_works-not_failed scheme ups [] st h = cc
assess_works-not_failed scheme ups (w ∷ works) st h =
    elim (>>=-failed (assess_floors scheme w.pkg ups (false, st)) _ h) [
      | inl q ↦ assess_floors-not_failed scheme w.pkg ups (false, st) q
      | inr (s, q) ↦ assess_works-not_failed scheme ups works (count_hit s) q
    ]

module _ (src : RangeSource) where
  coverage_for-failed : (d r : Bytes) → coverage_for src d r ≡ failed → Fails src
  unfolding coverage_for
  coverage_for-failed [] r h = cc
  coverage_for-failed (x ∷ d) r h = elim (>>=-failed (asked (src.distro_covered (x ∷ d) r)) _ h) [
    | inl q ↦ coverage_fails (x ∷ d) r (asked-failed _ q)
    | inr (ok, q) ↦ cc
  ]

  with_base-failed :
      (base r : Bytes) (names : List Bytes) (cands : List Candidate)
      → with_base src base r names cands ≡ failed
      → Fails src
  unfolding is_empty
  with_base-failed [] r names cands h = cc
  with_base-failed (x ∷ base) r names cands h =
      elim (>>=-failed (asked (src.distro_ranges (x ∷ base) r names)) _ h) [
        | inl q ↦ ranges_fail (x ∷ base) r names (asked-failed _ q)
        | inr (up, q) ↦ cc
      ]

  ranges_for-failed :
      (d r : Bytes) (works : List Work) → ranges_for src d r works ≡ failed → Fails src
  unfolding ranges_for
  ranges_for-failed d r works h = elim (>>=-failed (asked (src.distro_ranges d r _)) _ h) [
    | inl q ↦ ranges_fail d r _ (asked-failed _ q)
    | inr (cands, q) ↦ with_base-failed _ r _ cands q
  ]

  attached_for-failed :
      (cov : Coverage) (d r : Bytes) (works : List Work)
      → attached_for src cov d r works ≡ failed
      → Fails src
  unfolding attached_for
  attached_for-failed covered d r works h = elim (>>=-failed (ranges_for src d r works) _ h) [
    | inl q ↦ ranges_for-failed d r works q
    | inr (all, q) ↦ cc
  ]
  attached_for-failed no_feed d r works h = cc
  attached_for-failed no_distro d r works h = cc

  with_floors-failed :
      (scheme : Scheme) (works : List Work) (st : Found)
      → with_floors src scheme works st ≡ failed
      → Fails src
  with_floors-failed scheme [] st h = cc
  with_floors-failed scheme (w ∷ works) st h =
      elim (>>=-failed (asked (src.upstream_ranges _)) _ h) [
        | inl q ↦ floors_fail _ (asked-failed _ q)
        | inr (ups, q) ↦ absurd (assess_works-not_failed scheme ups (w ∷ works) st q)
      ]

assess_host-none :
    (find : Bytes → Bytes → Option (List Bytes)) (markers : List ((Bytes → Bool) × Bytes))
    (releases : List Bytes → Option (List Release)) (day : Bytes) (h : LifecycleHost)
    → assess_host find markers releases day h ≡ none
    → (names : List Bytes) × (releases names ≡ none)
unfolding assess_host
assess_host-none find markers releases day h e =
    by_cands (map_all find markers h h.packages ([], nothing_seen)) e
  where
    by_store :
        (c : Mapped) (cands : List Mapped) (st : LifecycleStats) (names : List Bytes)
        (o : Option (List Release))
        → releases names ≡ o
        → elim o [ none ↦ none | some rels ↦ some (report day rels (c ∷ cands) st) ] ≡ none
        → (names : List Bytes) × (releases names ≡ none)
    by_store c cands st names none q r = (names, q)
    by_store c cands st names (some rels) q r = cc

    by_cands :
        (m : List Mapped × LifecycleStats)
        → with_cands find markers releases day m ≡ none
        → (names : List Bytes) × (releases names ≡ none)
    by_cands ([], st) r = cc
    by_cands (c ∷ cands, st) r = by_store c cands st _ _ refl r

module _ (find : Bytes → Bytes → Option (List Bytes)) (markers : List ((Bytes → Bool) × Bytes))
    (digest : Bytes → Bytes) (day stamp : ℕ → Bytes)
    (sort_slice : (Finding → Finding → Bool) → List Finding → List Finding)
    (src : RangeSource) where
  add_eol-failed :
      (h : Host) (res : Result)
      → add_eol find markers digest day stamp sort_slice src h res ≡ failed
      → Fails src
  unfolding add_eol
  add_eol-failed h res e = by_calendar src.eol_releases refl e
    where
      by_calendar :
          (o : Option (List Bytes → Option (List Release)))
          → src.eol_releases ≡ o
          → elim o [
            | none ↦ returned res
            | some releases ↦
                asked (assess_host find markers releases (day h.as_of) (lifecycle_host h))
                >>= λ found. returned (with_eol res found)
          ]
            ≡ failed
          → Fails src
      by_calendar none q r = cc
      by_calendar (some releases) q r =
          elim (>>=-failed
            (asked (assess_host find markers releases (day h.as_of) (lifecycle_host h)))
            (λ found. returned (with_eol res found)) r) [
              | inl f ↦
                  let (names, none_left) =
                    assess_host-none find markers releases (day h.as_of) (lifecycle_host h)
                      (asked-failed _ f) in
                  calendar_fails releases names q none_left
              | inr (found, f) ↦ cc
            ]

  -- Match returns an error only if the store answers one of its queries with an error: what it cannot
  -- judge is no error.
  pub match_host-Fails :
      (h : Host) → match_host find markers digest day stamp sort_slice src h ≡ failed → Fails src
  unfolding match_host
  match_host-Fails h e =
      let normal = normalize_distro h.distro h.release h.package_manager in
      let on_pro = uses_ubuntu_pro h.packages in
      step (coverage_for src normal.0 normal.1) e (coverage_for-failed src normal.0 normal.1)
        λ cov e₁.
          step (attached_for src cov normal.0 normal.1 (works_of h.packages)) e₁
            (attached_for-failed src cov normal.0 normal.1 (works_of h.packages))
            λ works e₂.
              step (judge_works normal.2 on_pro normal.0 works nothing_found) e₂
                (λ q.
                  absurd (judge_works-not_failed normal.2 on_pro normal.0 works nothing_found q))
                λ st e₃.
                  step (with_floors src normal.2 (unmapped works) st) e₃
                    (with_floors-failed src normal.2 (unmapped works) st)
                    λ st' e₄.
                      step
                        (add_eol find markers digest day stamp sort_slice src h
                          (with_found (start_result normal.0 normal.1 cov (length h.packages)) st'))
                        e₄ (add_eol-failed h _) λ res e₅. cc
