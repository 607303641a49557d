-- ===== src/Vuln/Match/Tests.antt =====
-- internal/vuln/match.go: the decision on an advisory for OpenSSH on an Ubuntu host.
use defendsec.Prelude.{
  ◌≡◌, refl, true, false, Option, none, some, List, [], ◌∷◌, arith, ◌≢◌, inl, inr,
}
use defendsec.Prelude.Text.{Bytes, codes, eq_bytes, is_empty}
use defendsec.Vuln.Compare.{auto, dpkg, rpm, compare_versions}
use defendsec.Vuln.Dpkg.{compare_dpkg, parse_dpkg, dpkg_ver_rev_cmp, normalize_sign}
use defendsec.Vuln.Match.{
  FixState, fixed, will_not_fix, Package, Candidate, Finding, version_for, finding_key, Kind,
  finding, unfixed, new_finding, inherit_epoch, distro_basis,
}
use defendsec.Vuln.Match.Host.{kind_rank, normalize_distro, scheme_of}
use defendsec.Vuln.Match.Judge.Reported.{IsLowestFix, judge-IsLowestFix}
use defendsec.Vuln.Match.Merge.{find_finding, put_finding, add_finding, merge_all}
use defendsec.Vuln.Match.Merge.Best.{In, IsBest, merge_all-IsBest}
use defendsec.Vuln.Match.Judge.{
  Judgement, judge_finding, judge_loop, note, lower_fix, conclude, distro_fix, says_informative,
  Case, below, predates, range_verdict, judge,
}
use defendsec.Vuln.Match.Windows.{Result, MissingPatch, match_windows, update_finding}
use defendsec.Vuln.Match.Windows.Mapped.{normalized, match_windows_finds}
use defendsec.Vuln.Match.Judge.Outcome.{verdicts, outcome, kind_of, judge-outcome}
use defendsec.Vuln.Match.Judge.Returns.{judge-Returns, IsPlain, AllPlain}

abbrev pub openssh : Package
openssh = record {
  name = codes "openssh-server";
  version = codes "1:8.9p1-3ubuntu0.7";
  source_package = codes "openssh";
  source_version = codes "1:8.9p1-3ubuntu0.7";
  origin = codes "Ubuntu";
  origin_repo = [];
}

abbrev range_of : Bytes → FixState → Candidate
range_of fix state = record {
  range_id = 7;
  advisory_id = codes "USN-6859-1";
  cve = codes "CVE-2024-6387";
  severity = codes "high";
  summary = [];
  kev = false;
  epss = none;
  cvss = some 810_000;
  ecosystem = codes "Ubuntu";
  distro = codes "ubuntu";
  release = codes "22.04";
  package_name = [];
  source_package = codes "openssh";
  introduced = [];
  fixed_in = fix;
  state = state;
  snapshot_id = none;
  feed = codes "ubuntu";
  feed_date = none;
  issued = [];
}

abbrev ubuntu : Case
ubuntu = record { pkg = openssh; scheme = dpkg; on_pro = false; distro = codes "ubuntu"; base = [] }

abbrev ranges : List Candidate
ranges = range_of [] will_not_fix ∷ range_of (codes "1:8.9p1-3ubuntu0.10") fixed ∷ []

ranges-verdicts : verdicts ubuntu ranges ≡ some (says_informative ∷ distro_fix ∷ [])
unfolding verdicts range_verdict predates below version_for compare_versions compare_dpkg parse_dpkg
    dpkg_ver_rev_cmp normalize_sign
ranges-verdicts = refl

dpkg_chosen : dpkg ≢ auto
dpkg_chosen e = ground arith

openssh-IsPlain : IsPlain openssh
openssh-IsPlain = omega arith

ranges-AllPlain : AllPlain ubuntu dpkg_chosen openssh-IsPlain ranges
ranges-AllPlain = ((tt, tt), ((tt, omega arith), tt))

judge-Returns_example : (r : Option Finding × Judgement) × (judge ubuntu ranges ≡ some r)
judge-Returns_example = judge-Returns ubuntu dpkg_chosen openssh-IsPlain ranges ranges-AllPlain

judge-outcome_example :
    kind_of (judge-Returns_example.0) ≡ outcome (says_informative ∷ distro_fix ∷ [])
judge-outcome_example = judge-outcome ubuntu ranges ranges-verdicts judge-Returns_example.1

abbrev fix_13 : Candidate
fix_13 = range_of (codes "1:8.9p1-3ubuntu0.13") fixed

abbrev pub fix_10 : Candidate
fix_10 = range_of (codes "1:8.9p1-3ubuntu0.10") fixed

abbrev pub two_fixes : List Candidate
two_fixes = fix_13 ∷ fix_10 ∷ []

abbrev pub lowest : Finding
lowest =
    new_finding fix_10 openssh openssh.version distro_basis finding
      (codes "installed version is below the version the distro fixed this in")

two_fixes-judge : judge ubuntu two_fixes ≡ some (some lowest, judge_finding)
unfolding judge judge_loop note lower_fix conclude range_verdict predates below version_for
    inherit_epoch compare_versions compare_dpkg parse_dpkg dpkg_ver_rev_cmp normalize_sign
two_fixes-judge = refl

lowest-kind : lowest.kind ≡ finding
unfolding new_finding
lowest-kind = refl

fix_13-verdict : range_verdict ubuntu fix_13 ≡ some distro_fix
unfolding range_verdict predates below version_for compare_versions compare_dpkg parse_dpkg
    dpkg_ver_rev_cmp normalize_sign
fix_13-verdict = refl

judge-IsLowestFix_example : (b : Candidate) × IsLowestFix ubuntu two_fixes lowest b
judge-IsLowestFix_example =
    judge-IsLowestFix ubuntu dpkg_chosen two_fixes lowest judge_finding
      (omega arith, (omega arith, tt)) two_fixes-judge lowest-kind

-- The same advisory on the server and the client package, of which the client comes first.
abbrev of_package : Bytes → Kind → Finding
of_package name kind = record (new_finding fix_10 openssh [] distro_basis kind []) {
  package_name = name;
}

abbrev found : List Finding
found =
    of_package (codes "openssh-server") finding
    ∷ of_package (codes "openssh-client") unfixed
    ∷ of_package (codes "openssh-client") finding
    ∷ []

client_left :
    merge_all [] found
    ≡ (
      finding_key (of_package (codes "openssh-client") finding),
      of_package (codes "openssh-client") finding,
    )
      ∷ []
unfolding merge_all add_finding find_finding put_finding kind_rank new_finding finding_key eq_bytes
client_left = refl

merge_all-IsBest_example :
    (g : Finding) × (find_finding
        (finding_key (of_package (codes "openssh-client") unfixed))
        (merge_all [] found)
      ≡ some g)
    × In g found
    × (finding_key g ≡ finding_key (of_package (codes "openssh-client") unfixed))
    × IsBest g (of_package (codes "openssh-client") unfixed)
merge_all-IsBest_example =
    merge_all-IsBest found (of_package (codes "openssh-client") unfixed) (inr (inl refl))

rocky_linux :
    normalize_distro (codes "rocky") (codes "9.4") (codes "rpm") ≡ (codes "rocky", codes "9", rpm)
unfolding normalize_distro scheme_of
rocky_linux = refl

abbrev update_range : Candidate
update_range = record fix_10 {
  advisory_id = codes "CVE-2025-1";
  package_name = codes "KB5122876";
  source_package = [];
  fixed_in = codes "KB5122876";
}

abbrev update : MissingPatch
update = record { kb = codes "KB5122876"; title = []; status = codes "approved_pending" }

abbrev other_update : MissingPatch
other_update = record { kb = codes "KB5000001"; title = []; status = codes "not_approved" }

abbrev updates : List MissingPatch
updates = other_update ∷ update ∷ []

abbrev store : List Bytes → Option (List Candidate)
store names = some (update_range ∷ [])

named : is_empty update.kb ≡ false
unfolding is_empty
named = refl

match_windows_finds_example :
    (r : Result) × (g : Finding) × (match_windows (λ s. s) (some true) store updates ≡ some r)
    × In g r.findings
    × (finding_key g ≡ finding_key (update_finding update_range (normalized (λ s. s) update)))
    × IsBest g (update_finding update_range (normalized (λ s. s) update))
match_windows_finds_example =
    match_windows_finds (λ s. s) store updates update update_range (inr (inl refl)) named refl refl
      (λ kbs i. (update_range ∷ [], refl, inl refl))
