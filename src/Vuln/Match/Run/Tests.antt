-- ===== src/Vuln/Match/Run/Tests.antt =====
-- internal/vuln/match.go: a host of Ubuntu 22.04 with an OpenSSH that has a fix.
use defendsec.Prelude.{ℕ, ◌≡◌, refl, Bool, true, false, Option, none, some, List, [], ◌∷◌, ◌↔◌, inl}
use defendsec.Prelude.Int.{pos}
use defendsec.Prelude.Sort.{Among, sort_by, insert_by, add_name}
use defendsec.Prelude.Text.{Bytes, codes, eq_bytes, is_empty, trim_space, to_lower, contains}
use defendsec.Vuln.Compare.{dpkg, compare_versions}
use defendsec.Vuln.Dpkg.{compare_dpkg, parse_dpkg, dpkg_ver_rev_cmp, normalize_sign}
use defendsec.Vuln.Match.{
  Finding, finding_key, range_applies_to, rebuild_base, new_finding, version_for, inherit_epoch,
}
use defendsec.Vuln.Match.Attach.{
  new_work, is_nameless, works_of, attach_all, attach, by_source, by_name, indices_where, is_seen,
  add_to_group, add_range,
}
use defendsec.Vuln.Match.Attach.Attached.{Applies, attach_all_iff}
use defendsec.Vuln.Match.Attach.Groups.{Held}
use defendsec.Vuln.Match.Host.{normalize_distro, scheme_of, uses_ubuntu_pro, one_of}
use defendsec.Vuln.Match.Judge.{
  judge_finding, judge, judge_loop, note, lower_fix, conclude, range_verdict, predates, below,
}
use defendsec.Vuln.Match.Merge.{add_finding, find_finding, put_finding}
use defendsec.Vuln.Match.Merge.Best.{IsBest}
use defendsec.Vuln.Match.Repos.{assess_repo_health}
use defendsec.Vuln.Match.Run.{
  Host, RangeSource, Answer, returned, failed, never, match_host, coverage_for, ranges_for,
  attached_for, names_of, judge_works, judge_groups, unmapped, add_eol, finish_result, count_kinds,
  case_of,
}
use defendsec.Vuln.Match.Run.Fails.{Fails, match_host-Fails}
use defendsec.Vuln.Match.Run.Reports.{match_host_reports}
use defendsec.Vuln.Match.Tests.{openssh, two_fixes, lowest, fix_10}
use defendsec.Vuln.Match.Windows.{covered, no_distro, no_stats, Result, values}

abbrev no_match : Bytes → Bytes → Option (List Bytes)
no_match pattern text = none

-- A sort that leaves the order, a digest and a rendering, each a function of the kind that is asked for.
abbrev in_order : (Finding → Finding → Bool) → List Finding → List Finding
in_order less fs = fs

abbrev same_text : Bytes → Bytes
same_text s = s

abbrev one_day : ℕ → Bytes
one_day t = codes "2025-06-01"

abbrev store : Option Bool → RangeSource
store loaded = record {
  distro_ranges = λ d r names. some two_fixes;
  upstream_ranges = λ names. some [];
  distro_covered = λ d r. loaded;
  eol_releases = none;
}

abbrev server : Host
server = record {
  distro = codes "ubuntu";
  release = codes "22.04";
  package_manager = codes "dpkg";
  packages = openssh ∷ [];
  as_of = 0;
  repo_health = none;
  stale_after = pos 0;
}

abbrev no_result : Result
no_result = record {
  repo_health_assessed = false;
  distro = [];
  release = [];
  coverage = no_distro;
  findings = [];
  stats = no_stats;
}

abbrev result_of : Answer Result → Result
result_of (returned r) = r
result_of failed = no_result
result_of never = no_result

abbrev run : Option Bool → Answer Result
run loaded = match_host no_match [] same_text one_day one_day in_order (store loaded) server

openssh-judged : run (some true) ≡ returned (result_of (run (some true)))
unfolding match_host normalize_distro scheme_of to_lower trim_space is_empty one_of eq_bytes
    coverage_for attached_for ranges_for rebuild_base names_of add_name sort_by insert_by works_of
    new_work attach_all attach by_source by_name indices_where is_seen add_to_group add_range
    range_applies_to judge_works judge_groups judge judge_loop note lower_fix conclude range_verdict
    predates below version_for inherit_epoch compare_versions compare_dpkg parse_dpkg
    dpkg_ver_rev_cmp normalize_sign add_finding find_finding put_finding unmapped add_eol
    assess_repo_health finish_result values count_kinds uses_ubuntu_pro contains new_finding
openssh-judged = refl

-- One package is mapped, and the lower of its fixes is found.
openssh-found :
    ((result_of (run (some true))).findings ≡ lowest ∷ [])
    × ((result_of (run (some true))).stats.distro_mapped ≡ 1)
    × ((result_of (run (some true))).stats.advisories ≡ 1)
unfolding match_host normalize_distro scheme_of to_lower trim_space is_empty one_of eq_bytes
    coverage_for attached_for ranges_for rebuild_base names_of add_name sort_by insert_by works_of
    new_work attach_all attach by_source by_name indices_where is_seen add_to_group add_range
    range_applies_to judge_works judge_groups judge judge_loop note lower_fix conclude range_verdict
    predates below version_for inherit_epoch compare_versions compare_dpkg parse_dpkg
    dpkg_ver_rev_cmp normalize_sign add_finding find_finding put_finding unmapped add_eol
    assess_repo_health finish_result values count_kinds uses_ubuntu_pro contains new_finding
openssh-found = (refl, refl, refl)

is_loaded : coverage_for (store (some true)) (codes "ubuntu") (codes "22.04") ≡ returned covered
unfolding coverage_for
is_loaded = refl

ranges_returned :
    ranges_for (store (some true)) (codes "ubuntu") (codes "22.04") (works_of (openssh ∷ []))
    ≡ returned two_fixes
unfolding ranges_for eq_bytes
ranges_returned = refl

grouped : Among (codes "USN-6859-1", two_fixes) (attach_all two_fixes (new_work openssh)).by_adv
unfolding attach_all attach by_source by_name indices_where is_seen add_to_group add_range new_work
    range_applies_to eq_bytes is_empty
grouped = inl refl

decided :
    judge
      (case_of dpkg (uses_ubuntu_pro (openssh ∷ [])) (codes "ubuntu") (new_work openssh))
      two_fixes
    ≡ some (some lowest, judge_finding)
unfolding judge judge_loop note lower_fix conclude range_verdict predates below version_for
    inherit_epoch compare_versions compare_dpkg parse_dpkg dpkg_ver_rev_cmp normalize_sign new_work
    rebuild_base uses_ubuntu_pro contains to_lower eq_bytes is_empty new_finding
decided = refl

not_nameless : is_nameless openssh ≡ false
unfolding trim_space is_empty
not_nameless = refl

match_host_reports_example :
    (g : Finding) × Among g (result_of (run (some true))).findings
    × (finding_key g ≡ finding_key lowest)
    × IsBest g lowest
unfolding normalize_distro scheme_of to_lower trim_space is_empty one_of eq_bytes
match_host_reports_example =
    match_host_reports no_match [] same_text one_day one_day in_order (store (some true)) server
      (result_of (run (some true))) two_fixes openssh (codes "USN-6859-1") two_fixes lowest
      (λ less fs g i. i) openssh-judged is_loaded ranges_returned (inl refl) not_nameless grouped
      decided

run_fails : run none ≡ failed
unfolding match_host normalize_distro scheme_of to_lower trim_space is_empty one_of eq_bytes
    coverage_for
run_fails = refl

match_host-Fails_example : Fails (store none)
match_host-Fails_example =
    match_host-Fails no_match [] same_text one_day one_day in_order (store none) server run_fails

named : is_empty openssh.name ≡ false
unfolding is_empty
named = refl

attach_all_iff_example :
    Held fix_10 (attach_all two_fixes (new_work openssh)).by_adv ↔ Applies two_fixes openssh fix_10
attach_all_iff_example = attach_all_iff two_fixes openssh named fix_10
