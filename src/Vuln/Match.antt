-- ===== src/Vuln/Match.antt =====
-- internal/vuln/match.go: the data of the matcher, and the choice of the versions and ranges that it
-- compares. Scores are in units of 0.00001, dates and times are numbers; neither is computed with
-- here. A fix state that the source does not name is `other_state` of its text.
pub mod Attach
pub mod Eol
pub mod Host
pub mod Judge
pub mod Merge
pub mod Repos
pub mod Run
pub mod Tests
pub mod Windows
use defendsec.Prelude.{
  ℕ, Bool, true, false, not, ◌&&◌, ◌||◌, Option, none, some, List, [], ◌∷◌, ◌++◌, if◌then◌else◌,
  String, ◌==◌,
}
use defendsec.Prelude.Text.{
  Bytes, codes, contains, to_lower, trim_space, split_first, is_empty, eq_bytes, is_digit,
  cut_before,
}
use defendsec.Vuln.Details.{EolDetail, RepoDetail}
use defendsec.Vuln.Compare.{Scheme, auto, dpkg, rpm}

pub data FixState : Type 0 where
  affected fixed will_not_fix not_affected under_investigation : FixState
  other_state : Bytes → FixState

pub data Kind : Type 0 where
  finding unfixed informational awaiting_vendor eol repo_health : Kind

pub data Basis : Type 0 where
  distro_basis upstream_basis lifecycle_basis host_basis : Basis

pub record Package : Type 0 where
  pub name : Bytes
  pub version : Bytes
  pub source_package : Bytes
  pub source_version : Bytes
  pub origin : Bytes
  pub origin_repo : Bytes

pub record Candidate : Type 0 where
  pub range_id : ℕ
  pub advisory_id : Bytes
  pub cve : Bytes
  pub severity : Bytes
  pub summary : Bytes
  pub kev : Bool
  pub epss : Option ℕ
  pub cvss : Option ℕ
  pub ecosystem : Bytes
  pub distro : Bytes
  pub release : Bytes
  pub package_name : Bytes
  pub source_package : Bytes
  pub introduced : Bytes
  pub fixed_in : Bytes
  pub state : FixState
  pub snapshot_id : Option ℕ
  pub feed : Bytes
  pub feed_date : Option ℕ
  pub issued : Bytes

pub record Finding : Type 0 where
  pub advisory_id : Bytes
  pub cve : Bytes
  pub range_id : ℕ
  pub snapshot_id : Option ℕ
  pub feed : Bytes
  pub feed_date : Option ℕ
  pub kind : Kind
  pub basis : Basis
  pub package_name : Bytes
  pub source_package : Bytes
  pub installed : Bytes
  pub fixed_in : Bytes
  pub fix_state : FixState
  pub severity : Bytes
  pub summary : Bytes
  pub kev : Bool
  pub epss : Option ℕ
  pub cvss : Option ℕ
  pub reason : Bytes
  pub upstream_fixed_on : Bytes
  pub eol_detail : Option EolDetail
  pub repo_detail : Option RepoDetail

unfoldable pub family_of : Bytes → Bytes → Bytes
unfolding is_empty
family_of name source = if not (is_empty source) then source else name

-- Finding.Key: the advisory and the package family, with a NUL byte between them.
unfoldable pub finding_key : Finding → Bytes
unfolding family_of
finding_key f = f.advisory_id ++ 0 ∷ family_of f.package_name f.source_package

abbrev pub rhel : Bytes
rhel = codes "rhel"

abbrev pub rocky : Bytes
rocky = codes "rocky"

abbrev pub almalinux : Bytes
almalinux = codes "almalinux"

unfoldable pub rebuild_base : Bytes → Bytes
unfolding eq_bytes
rebuild_base distro = if eq_bytes distro rocky || eq_bytes distro almalinux then rhel else []

unfoldable pub vendor_name : Bytes → Bytes
unfolding eq_bytes
vendor_name distro =
    if eq_bytes distro rocky
    then codes "Rocky Linux"
    else (if eq_bytes distro almalinux then codes "AlmaLinux" else distro)

-- hasEpoch: digits before the first colon, and at least one.
unfoldable pub all_digits : Bytes → Bool
all_digits [] = true
all_digits (c ∷ s) = is_digit c && all_digits s

unfoldable pub has_epoch : Bytes → Bool
unfolding split_first is_empty all_digits
has_epoch v = elim (split_first b':' v) [
  | none ↦ false
  | some (before, rest) ↦ not (is_empty before) && all_digits before
]

-- The prefix of `bin_ver` up to its colon is `before` and the colon.
unfoldable pub inherit_epoch : Bytes → Bytes → Bytes
unfolding has_epoch split_first is_empty
inherit_epoch src_ver bin_ver =
    if has_epoch src_ver then src_ver else elim (split_first b':' bin_ver) [
      | none ↦ src_ver
      | some (before, rest) ↦
          if not (is_empty before) && has_epoch (before ++ b':' ∷ [])
          then before ++ b':' ∷ src_ver
          else src_ver
    ]

unfoldable pub version_for : Candidate → Package → Bytes
unfolding inherit_epoch is_empty eq_bytes
version_for c p =
    if not (is_empty c.source_package)
      && (not (is_empty p.source_package)
          && (not (is_empty p.source_version) && eq_bytes c.source_package p.source_package))
    then inherit_epoch p.source_version p.version
    else p.version

unfoldable pub range_applies_to : Candidate → Package → Bool
unfolding is_empty eq_bytes
range_applies_to c p =
    if not (is_empty c.source_package)
    then (if not (is_empty p.source_package)
        then eq_bytes c.source_package p.source_package
        else eq_bytes c.source_package p.name || eq_bytes c.package_name p.name)
    else eq_bytes c.package_name p.name
      || not (is_empty p.source_package) && eq_bytes c.package_name p.source_package

unfoldable pub new_finding : Candidate → Package → Bytes → Basis → Kind → Bytes → Finding
new_finding c p installed basis kind reason = record {
  advisory_id = c.advisory_id;
  cve = c.cve;
  range_id = c.range_id;
  snapshot_id = c.snapshot_id;
  feed = c.feed;
  feed_date = c.feed_date;
  kind = kind;
  basis = basis;
  package_name = p.name;
  source_package = p.source_package;
  installed = installed;
  fixed_in = c.fixed_in;
  fix_state = c.state;
  severity = c.severity;
  summary = c.summary;
  kev = c.kev;
  epss = c.epss;
  cvss = c.cvss;
  reason = reason;
  upstream_fixed_on = [];
  eol_detail = none;
  repo_detail = none;
}

unfoldable pub awaiting_reason : Candidate → Bytes → Bytes
unfolding is_empty vendor_name
awaiting_reason up distro =
    codes "fixed upstream by Red Hat in "
    ++ (up.fixed_in
        ++ ((if not (is_empty up.issued) then codes " on " ++ up.issued else [])
            ++ (codes "; not yet released by " ++ vendor_name distro)))
