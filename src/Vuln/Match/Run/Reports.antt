-- ===== src/Vuln/Match/Run/Reports.antt =====
-- internal/vuln/match.go, Match: what is decided for a package is in the result.
use defendsec.Prelude.{
  ℕ, ◌≡◌, refl, sym, ap, ◌∙◌, Bool, true, false, Option, some, List, [], ◌∷◌, ◌++◌, length, inl,
  inr, ◌⊎◌, map,
}
use mathlib.Core.Path.{subst}
use defendsec.Prelude.Sort.{Among}
use defendsec.Prelude.Text.{Bytes}
use defendsec.Vuln.Compare.{Scheme}
use defendsec.Vuln.Match.{Package, Candidate, Finding, finding_key, rebuild_base}
use defendsec.Vuln.Match.Attach.{Work, new_work, is_nameless, works_of, attach_all}
use defendsec.Vuln.Match.Attach.Kept.{attach_all-IsKept, works_of-Among, Among-map}
use defendsec.Vuln.Match.Host.{normalize_distro, uses_ubuntu_pro}
use defendsec.Vuln.Match.Judge.{Case, judge_finding, judge}
use defendsec.Vuln.Match.Merge.{find_finding}
use defendsec.Vuln.Match.Merge.Best.{IsBest, merge_all-IsBest}
use defendsec.Vuln.Match.Repos.{assess_repo_health}
use defendsec.Vuln.Match.Run.{
  Host, RangeSource, Answer, returned, ◌>>=◌, asked, Found, nothing_found, case_of, judge_works,
  unmapped, is_less, with_found, start_result, coverage_for, ranges_for, attached_for, with_floors,
  add_eol, finish_result, match_host,
}
use defendsec.Vuln.Match.Run.Calls.{
  >>=-returned, Calls, Calls-then, Nothing, no_call, FromGroups, FromWorks, judge_works-Calls,
}
use defendsec.Vuln.Match.Run.Floors.{assess_works-Calls}
use defendsec.Vuln.Match.Windows.{covered, Result, values}
use defendsec.Vuln.Match.Windows.Mapped.{In-values}

in_groups :
    (k : Case) (groups : List (Bytes × List Candidate)) (adv : Bytes) (cands : List Candidate)
    (f : Finding)
    → Among (adv, cands) groups
    → judge k cands ≡ some (some f, judge_finding)
    → FromGroups k groups f
in_groups k [] adv cands f i h = absurd i
in_groups k ((a, cs) ∷ groups) adv cands f (inl e) h =
    inl (ap (λ (x : Bytes × List Candidate). judge k x.1) (sym e) ∙ h)
in_groups k ((a, cs) ∷ groups) adv cands f (inr i) h = inr (in_groups k groups adv cands f i h)

in_works :
    (scheme : Scheme) (on_pro : Bool) (distro : Bytes) (works : List Work) (w : Work) (f : Finding)
    → Among w works
    → w.mapped ≡ true
    → FromGroups (case_of scheme on_pro distro w) w.by_adv f
    → FromWorks scheme on_pro distro works f
in_works scheme on_pro distro [] w f i m h = absurd i
in_works scheme on_pro distro (x ∷ works) w f (inl e) m h = inl (
  ap (λ (y : Work). y.mapped) (sym e) ∙ m,
  subst (λ (y : Work). FromGroups (case_of scheme on_pro distro y) y.by_adv f) e h,
)
in_works scheme on_pro distro (x ∷ works) w f (inr i) m h =
    inr (in_works scheme on_pro distro works w f i m h)

-- A package with a group has been mapped.
mapped_of :
    (w : Work) (adv : Bytes) (cands : List Candidate)
    → Among (adv, cands) w.by_adv
    → (w.by_adv ≡ []) ⊎ (w.mapped ≡ true)
    → w.mapped ≡ true
mapped_of w adv cands i (inl e) = absurd (subst (Among (adv, cands)) e i)
mapped_of w adv cands i (inr m) = m

with_floors-Calls :
    (src : RangeSource) (scheme : Scheme) (works : List Work) (st st' : Found)
    → with_floors src scheme works st ≡ returned st'
    → Calls st.merged st'.merged Nothing
with_floors-Calls src scheme [] st st' h =
    let same : st ≡ st' = cc in
    let (calls, e, i) = no_call st.merged in (calls, ap (λ (x : Found). x.merged) (sym same) ∙ e, i)
with_floors-Calls src scheme (w ∷ works) st st' h =
    let (ups, q, rest) = >>=-returned (asked (src.upstream_ranges _)) _ h in
    let (calls, e, i) = assess_works-Calls scheme ups (w ∷ works) st st' rest in
    (calls, e, λ f p. absurd p)

new_work-pkg : (p : Package) → p ≡ (new_work p).pkg
unfolding new_work
new_work-pkg p = refl

attached_for-covered :
    (src : RangeSource) (distro release : Bytes) (works : List Work) (all : List Candidate)
    → ranges_for src distro release works ≡ returned all
    → attached_for src covered distro release works ≡ returned (map (attach_all all) works)
unfolding attached_for
attached_for-covered src distro release works all e =
    ap (λ (a : Answer (List Candidate)). a >>= λ all. returned (map (attach_all all) works)) e

returned-injective : {A : Type 0} {a b : A} → returned a ≡ returned b → a ≡ b
returned-injective e = cc

module _ (find : Bytes → Bytes → Option (List Bytes)) (markers : List ((Bytes → Bool) × Bytes))
    (digest : Bytes → Bytes) (day stamp : ℕ → Bytes)
    (sort_slice : (Finding → Finding → Bool) → List Finding → List Finding) where
  -- The result holds the entries of the map, if sorting keeps what it sorts.
  finish_result-Among :
      (st : Found) (res : Result) (k : Bytes) (g : Finding)
      → ((less : Finding → Finding → Bool) (fs : List Finding) (f : Finding)
          → Among f fs
          → Among f (sort_slice less fs))
      → find_finding k st.merged ≡ some g
      → Among g (finish_result find markers digest day stamp sort_slice st res).findings
  unfolding finish_result
  finish_result-Among st res k g keeps e =
      keeps is_less (res.findings ++ values st.merged) g
        (in_append res.findings (In-values k g st.merged e))
    where
      in_append :
          (fs : List Finding) → Among g (values st.merged) → Among g (fs ++ values st.merged)
      in_append [] i = i
      in_append (x ∷ fs) i = inr (in_append fs i)

  -- What is judged a finding, from the ranges that are attached to a package with a name and a
  -- version, is in the result of Match or has a better one of its advisory and family there: its kind
  -- ranks no later, and if it is of the same kind its package does not come later by name. The feed is
  -- loaded, and sorting keeps what it sorts.
  pub match_host_reports :
      (src : RangeSource) (h : Host) (res : Result) (all : List Candidate) (p : Package)
      (adv : Bytes) (cands : List Candidate) (f : Finding)
      → ((less : Finding → Finding → Bool) (fs : List Finding) (g : Finding)
          → Among g fs
          → Among g (sort_slice less fs))
      → (let (distro, release, scheme) = normalize_distro h.distro h.release h.package_manager in
          match_host find markers digest day stamp sort_slice src h ≡ returned res
          → coverage_for src distro release ≡ returned covered
          → ranges_for src distro release (works_of h.packages) ≡ returned all
          → Among p h.packages
          → is_nameless p ≡ false
          → Among (adv, cands) (attach_all all (new_work p)).by_adv
          → judge (case_of scheme (uses_ubuntu_pro h.packages) distro (new_work p)) cands
            ≡ some (some f, judge_finding)
          → (g : Finding) × Among g res.findings × (finding_key g ≡ finding_key f) × IsBest g f)
  unfolding match_host
  match_host_reports src h res all p adv cands f keeps run is_covered ranges there named grouped
        decided =
      let normal = normalize_distro h.distro h.release h.package_manager in
      let w = attach_all all (new_work p) in
      let (kept, counted) = attach_all-IsKept p all in
      let works = map (attach_all all) (works_of h.packages) in
      let (cov, q₁, r₁) = >>=-returned (coverage_for src normal.0 normal.1) _ run in
      let (ws, q₂, r₂) =
        >>=-returned (attached_for src cov normal.0 normal.1 (works_of h.packages)) _ r₁ in
      let same_cov : cov ≡ covered = returned-injective (sym q₁ ∙ is_covered) in
      let same_ws : ws ≡ works = returned-injective (
        sym q₂
        ∙ (ap (λ c. attached_for src c normal.0 normal.1 (works_of h.packages)) same_cov
            ∙ attached_for-covered src normal.0 normal.1 (works_of h.packages) all ranges)) in
      let (st, q₃, r₃) =
        >>=-returned (judge_works normal.2 (uses_ubuntu_pro h.packages) normal.0 ws nothing_found) _
          r₂ in
      let (st', q₄, r₄) = >>=-returned (with_floors src normal.2 (unmapped ws) st) _ r₃ in
      let (res', q₅, r₅) =
        >>=-returned
          (add_eol find markers digest day stamp sort_slice src h
            (with_found (start_result normal.0 normal.1 cov (length h.packages)) st'))
          _ r₄ in
      let among : Among w ws = subst (Among w) (sym same_ws) (
        Among-map (attach_all all) (new_work p) (works_of h.packages)
          (works_of-Among p h.packages there named)) in
      let groups =
        in_groups (case_of normal.2 (uses_ubuntu_pro h.packages) normal.0 w) w.by_adv adv cands f
          grouped
          (ap
              (λ x.
                judge
                  (record {
                    pkg = x;
                    scheme = normal.2;
                    on_pro = uses_ubuntu_pro h.packages;
                    distro = normal.0;
                    base = rebuild_base normal.0;
                  })
                  cands)
              (kept ∙ new_work-pkg p)
            ∙ decided) in
      let from =
        in_works normal.2 (uses_ubuntu_pro h.packages) normal.0 ws w f among
          (mapped_of w adv cands grouped counted) groups in
      let (calls, e, i) =
        Calls-then [] st.merged st'.merged
          (FromWorks normal.2 (uses_ubuntu_pro h.packages) normal.0 ws) Nothing
          (FromWorks normal.2 (uses_ubuntu_pro h.packages) normal.0 ws) (λ g r. inl r)
          (judge_works-Calls normal.2 (uses_ubuntu_pro h.packages) normal.0 ws nothing_found st q₃)
          (with_floors-Calls src normal.2 (unmapped ws) st st' q₄) in
      let (g, found, origin, same, best) = merge_all-IsBest calls f (i f from) in
      let entry : find_finding (finding_key f) st'.merged ≡ some g =
        ap (find_finding (finding_key f)) e ∙ found in
      let out = assess_repo_health digest day stamp h.repo_health h.as_of h.stale_after res' in
      let at_end = finish_result-Among st' out (finding_key f) g keeps entry in
      let last = returned-injective r₅ in
      (g, subst (λ (x : Result). Among g x.findings) last at_end, same, best)
