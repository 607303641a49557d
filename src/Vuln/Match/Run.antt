-- ===== src/Vuln/Match/Run.antt =====
-- internal/vuln/match.go, Match: the assessment of a host, and assessEOL of eol.go. The advisory store
-- is a parameter, with `none` for an error of it; what stands beside an error is left out. So are the
-- regular expressions, the renderings of times and the digest that the parts take, and sort.Slice. A
-- host's `as_of` is the time that the run is made for.
pub mod Calls
pub mod Fails
pub mod Floors
pub mod Reports
mod Tests
use defendsec.Prelude.{
  ℕ, ◌+◌, Bool, true, false, not, ◌&&◌, ◌||◌, Option, none, some, List, [], ◌∷◌, ◌++◌, ltb, length,
  if◌then◌else◌, map,
}
use defendsec.Prelude.Cmp.{lex}
use defendsec.Prelude.Int.{ℤ}
use defendsec.Prelude.Sort.{sort_by, add_name}
use defendsec.Prelude.Text.{Bytes, codes, is_empty, eq_bytes, to_lower, trim_space}
use defendsec.Lifecycle.{Release}
use defendsec.Lifecycle.Assess.{HostPackage, LifecycleHost, LifecycleStats, assess_host}
use defendsec.Lifecycle.Report.{EolFinding}
use defendsec.RepoHealth.{RepoReport}
use defendsec.Vuln.Compare.{
  Scheme, Assessment, Verdict, vulnerable, unknown, not_vulnerable, assess, package_matches,
}
use defendsec.Vuln.Match.{
  FixState, Kind, unfixed, informational, awaiting_vendor, finding, upstream_basis, Package,
  Candidate, Finding, new_finding, finding_key, rebuild_base,
}
use defendsec.Vuln.Match.Attach.{Work, works_of, attach_all}
use defendsec.Vuln.Match.Eol.{eol_finding}
use defendsec.Vuln.Match.Host.{normalize_distro, uses_ubuntu_pro, severity_rank, kind_rank}
use defendsec.Vuln.Match.Judge.{
  Judgement, judge_not_affected, judge_finding, judge_clean, Case, is_fixed, judge,
}
use defendsec.Vuln.Match.Merge.{eq_kind, ltb_bytes, add_finding}
use defendsec.Vuln.Match.Repos.{assess_repo_health}
use defendsec.Vuln.Match.Windows.{
  Coverage, covered, no_feed, no_distro, Stats, no_stats, Result, values,
}

pub record Host : Type 0 where
  pub distro : Bytes
  pub release : Bytes
  pub package_manager : Bytes
  pub packages : List Package
  pub as_of : ℕ
  pub repo_health : Option RepoReport
  pub stale_after : ℤ

-- RangeSource, and the calendar of releases if the store carries one.
pub record RangeSource : Type 0 where
  pub distro_ranges : Bytes → Bytes → List Bytes → Option (List Candidate)
  pub upstream_ranges : List Bytes → Option (List Candidate)
  pub distro_covered : Bytes → Bytes → Option Bool
  pub eol_releases : Option (List Bytes → Option (List Release))

-- A result, an error of the store, or a comparison of versions that does not return.
pub data Answer (A : Type 0) : Type 0 where
  returned : A → Answer A
  failed never : Answer A

infixl 5 ◌>>=◌
abbrev pub ◌>>=◌ : {A B : Type 0} → Answer A → (A → Answer B) → Answer B
returned a >>= f = f a
failed >>= f = failed
never >>= f = never

abbrev pub asked : {A : Type 0} → Option A → Answer A
asked none = failed
asked (some a) = returned a

abbrev pub computed : {A : Type 0} → Option A → Answer A
computed none = never
computed (some a) = returned a

unfoldable pub names_of : List Work → List Bytes
unfolding is_empty add_name
names_of [] = []
names_of (w ∷ works) =
    let rest = names_of works in
    let sourced =
      if not (is_empty w.pkg.source_package) then add_name w.pkg.source_package rest else rest in
    add_name w.pkg.name sourced

-- What the loops over the packages change.
pub record Found : Type 0 where
  pub merged : List (Bytes × Finding)
  pub advisories : List Bytes
  pub distro_mapped : ℕ
  pub not_affected : ℕ
  pub undecidable : ℕ
  pub upstream : ℕ

abbrev pub nothing_found : Found
nothing_found = record {
  merged = [];
  advisories = [];
  distro_mapped = 0;
  not_affected = 0;
  undecidable = 0;
  upstream = 0;
}

abbrev pub by_judgement : Option Finding × Judgement → Found → Found
by_judgement (some f, judge_finding) st = record st { merged = add_finding st.merged f }
by_judgement (f, judge_not_affected) st = record st { not_affected = st.not_affected + 1 }
by_judgement (f, j) st = st

-- The loop over the advisories of a package.
unfoldable pub judge_groups : Case → List (Bytes × List Candidate) → Found → Answer Found
unfolding judge add_name add_finding
judge_groups k [] st = returned st
judge_groups k ((adv, cands) ∷ groups) st = computed (judge k cands) >>= λ j.
    judge_groups k groups (by_judgement j (record st { advisories = add_name adv st.advisories }))

abbrev pub case_of : Scheme → Bool → Bytes → Work → Case
case_of scheme on_pro distro w = record {
  pkg = w.pkg;
  scheme = scheme;
  on_pro = on_pro;
  distro = distro;
  base = rebuild_base distro;
}

unfoldable pub judge_works : Scheme → Bool → Bytes → List Work → Found → Answer Found
unfolding judge_groups rebuild_base
judge_works scheme on_pro distro [] st = returned st
judge_works scheme on_pro distro (w ∷ works) st =
    let skip = judge_works scheme on_pro distro works st in
    if not w.mapped
    then skip
    else judge_groups (case_of scheme on_pro distro w) w.by_adv
        (record st { distro_mapped = st.distro_mapped + 1 })
      >>= judge_works scheme on_pro distro works

abbrev pub on_verdict : Verdict → Finding → Found → Found
on_verdict vulnerable f st = record st { merged = add_finding st.merged f }
on_verdict unknown f st = record st { undecidable = st.undecidable + 1 }
on_verdict not_vulnerable f st = st

abbrev pub by_verdict : Candidate → Package → Assessment → Found → Found
by_verdict c p a =
    on_verdict a.verdict (new_finding c p p.version upstream_basis finding (codes a.reason))

-- Is it an upstream range with a floor for the package?
abbrev pub is_floor_for : Candidate → Package → Bool
is_floor_for c p =
    is_fixed c.state && (not (is_empty c.fixed_in) && package_matches c.package_name p.name)

-- The loop over the upstream ranges for one package; the Boolean is `hit`.
unfoldable pub assess_floors :
    Scheme → Package → List Candidate → Bool × Found → Answer (Bool × Found)
unfolding is_empty package_matches assess add_name add_finding new_finding
assess_floors scheme p [] s = returned s
assess_floors scheme p (c ∷ ups) (hit, st) =
    let skip = assess_floors scheme p ups (hit, st) in
    if not (is_floor_for c p)
    then skip
    else computed (assess p.version c.fixed_in scheme) >>= λ a.
        assess_floors scheme p ups
          (true, by_verdict c p a (record st { advisories = add_name c.advisory_id st.advisories }))

abbrev pub count_hit : Bool × Found → Found
count_hit (hit, st) = if hit then record st { upstream = st.upstream + 1 } else st

unfoldable pub assess_works : Scheme → List Candidate → List Work → Found → Answer Found
unfolding assess_floors
assess_works scheme ups [] st = returned st
assess_works scheme ups (w ∷ works) st =
    assess_floors scheme w.pkg ups (false, st) >>= λ s. assess_works scheme ups works (count_hit s)

unfoldable pub unmapped : List Work → List Work
unmapped [] = []
unmapped (w ∷ works) = let rest = unmapped works in if not w.mapped then w ∷ rest else rest

abbrev pub package_names : List Work → List Bytes
package_names = map (λ w. w.pkg.name)

-- The order of the sorted findings: less(i, j).
unfoldable pub is_less : Finding → Finding → Bool
unfolding severity_rank kind_rank finding_key
is_less a b =
    if not (eq_kind a.kind b.kind)
    then ltb (kind_rank a.kind) (kind_rank b.kind)
    else (if a.kev && not b.kev || not a.kev && b.kev
        then a.kev
        else (if ltb (severity_rank a.severity) (severity_rank b.severity)
              || ltb (severity_rank b.severity) (severity_rank a.severity)
            then ltb (severity_rank b.severity) (severity_rank a.severity)
            else ltb_bytes (finding_key a) (finding_key b)))

abbrev pub count_kind : Finding → Stats → Stats
count_kind f st = elim f.kind [
  | unfixed ↦ record st { unfixed = st.unfixed + 1 }
  | informational ↦ record st { informational = st.informational + 1 }
  | awaiting_vendor ↦ record st { awaiting_vendor = st.awaiting_vendor + 1 }
  | _ ↦ st
]

unfoldable pub count_kinds : List Finding → Stats → Stats
count_kinds [] st = st
count_kinds (f ∷ fs) st = count_kinds fs (count_kind f st)

abbrev pub host_package : Package → HostPackage
host_package p = record {
  name = p.name;
  version = p.version;
  origin = p.origin;
  origin_repo = p.origin_repo;
}

abbrev pub lifecycle_host : Host → LifecycleHost
lifecycle_host h = record {
  distro = to_lower (trim_space h.distro);
  manager = h.package_manager;
  packages = map host_package h.packages;
}

abbrev pub with_eol : Result → List EolFinding × LifecycleStats → Result
with_eol res (found, st) = record res {
  findings = res.findings ++ map eol_finding found;
  stats = record res.stats {
    eol_mapped = st.mapped;
    eol_distro_origin = st.distro_origin;
    eol_origin_unknown = st.origin_unknown;
    eol_no_release = st.no_release;
    eol_supported = st.supported;
  };
}

abbrev pub start_result : Bytes → Bytes → Coverage → ℕ → Result
start_result distro release coverage packages = record {
  repo_health_assessed = false;
  distro = distro;
  release = release;
  coverage = coverage;
  findings = [];
  stats = record no_stats { packages = packages };
}

-- The counts of the loops.
abbrev pub with_found : Result → Found → Result
with_found res st = record res {
  stats = record res.stats {
    distro_mapped = st.distro_mapped;
    upstream = st.upstream;
    not_affected = st.not_affected;
    undecidable = st.undecidable;
  };
}

-- The ranges of the rebuild's base are asked for behind its own.
abbrev pub with_base :
    RangeSource → Bytes → Bytes → List Bytes → List Candidate → Answer (List Candidate)
with_base src base release names cands =
    if is_empty base
    then returned cands
    else asked (src.distro_ranges base release names) >>= λ up. returned (cands ++ up)

abbrev pub coverage_of : Bool → Coverage
coverage_of true = covered
coverage_of false = no_feed

-- The first switch.
unfoldable pub coverage_for : RangeSource → Bytes → Bytes → Answer Coverage
unfolding is_empty
coverage_for src distro release =
    if is_empty distro
    then returned no_distro
    else asked (src.distro_covered distro release) >>= λ ok. returned (coverage_of ok)

-- The distribution's ranges for the names of the packages.
unfoldable pub ranges_for : RangeSource → Bytes → Bytes → List Work → Answer (List Candidate)
unfolding is_empty rebuild_base names_of sort_by
ranges_for src distro release works =
    let names = sort_by lex (names_of works) in
    asked (src.distro_ranges distro release names)
    >>= with_base src (rebuild_base distro) release names

-- The packages, with the ranges attached if the feed is loaded.
unfoldable pub attached_for :
    RangeSource → Coverage → Bytes → Bytes → List Work → Answer (List Work)
unfolding ranges_for attach_all
attached_for src covered distro release works =
    ranges_for src distro release works >>= λ all. returned (map (attach_all all) works)
attached_for src _ distro release works = returned works

-- The upstream floors, for packages that the distribution's feed does not mention.
abbrev pub with_floors : RangeSource → Scheme → List Work → Found → Answer Found
with_floors src scheme [] st = returned st
with_floors src scheme (w ∷ works) st =
    asked (src.upstream_ranges (sort_by lex (package_names (w ∷ works)))) >>= λ ups.
    assess_works scheme ups (w ∷ works) st

module _ (find : Bytes → Bytes → Option (List Bytes)) (markers : List ((Bytes → Bool) × Bytes))
    (digest : Bytes → Bytes) (day stamp : ℕ → Bytes)
    (sort_slice : (Finding → Finding → Bool) → List Finding → List Finding) where
  -- assessEOL, where the store carries the calendar.
  unfoldable pub add_eol : RangeSource → Host → Result → Answer Result
  unfolding assess_host to_lower trim_space eol_finding
  add_eol src h res = elim src.eol_releases [
    | none ↦ returned res
    | some releases ↦
        asked (assess_host find markers releases (day h.as_of) (lifecycle_host h)) >>= λ found.
        returned (with_eol res found)
  ]

  -- What is done with the findings at the end.
  unfoldable pub finish_result : Found → Result → Result
  unfolding values count_kinds
  finish_result st res = record res {
    findings = sort_slice is_less (res.findings ++ values st.merged);
    stats = count_kinds (values st.merged) (record res.stats { advisories = length st.advisories });
  }

  unfoldable pub match_host : RangeSource → Host → Answer Result
  unfolding normalize_distro coverage_for attached_for judge_works unmapped assess_works add_eol
      works_of assess_repo_health finish_result uses_ubuntu_pro
  match_host src h =
      let normal = normalize_distro h.distro h.release h.package_manager in
      let distro = normal.0 in
      let release = normal.1 in
      let scheme = normal.2 in
      coverage_for src distro release >>= λ coverage.
      attached_for src coverage distro release (works_of h.packages) >>= λ works.
      judge_works scheme (uses_ubuntu_pro h.packages) distro works nothing_found >>= λ st.
      with_floors src scheme (unmapped works) st >>= λ st'.
      add_eol src h (with_found (start_result distro release coverage (length h.packages)) st')
      >>= λ res. returned (
          finish_result st'
            (assess_repo_health digest day stamp h.repo_health h.as_of h.stale_after res))
