-- ===== src/Vuln/Compare.antt =====
-- internal/vuln/compare.go: the choice of a version ordering, the comparison under it, and the
-- assessment of an installed version against an upstream floor. Also internal/vuln/vuln.go.
pub mod Laws
use defendsec.Prelude.{
  ℕ, Bool, true, false, not, ◌&&◌, ◌||◌, Option, none, some, List, [], ◌∷◌, if◌then◌else◌, ltb,
  String, ◌==◌,
}
use defendsec.Prelude.Int.{ℤ, pos, negsuc, ltb_ℤ}
use defendsec.Prelude.Text.{
  Bytes, codes, contains, to_lower, trim_space, split_first, is_empty, eq_bytes,
}
use defendsec.Vuln.Dpkg.{compare_dpkg, parse_dpkg, has_revision}
use defendsec.Vuln.Rpm.{compare_rpm, parse_rpm, has_release}

pub data Scheme : Type 0 where
  auto dpkg rpm : Scheme

abbrev pub rpm_release_markers : List Bytes
rpm_release_markers =
    codes ".el"
    ∷ codes ".fc"
    ∷ codes ".amzn"
    ∷ codes ".sles"
    ∷ codes ".suse"
    ∷ codes ".oe"
    ∷ codes ".ky"
    ∷ codes ".ocs"
    ∷ codes ".rocky"
    ∷ codes ".alma"
    ∷ []

abbrev pub dpkg_revision_markers : List Bytes
dpkg_revision_markers =
    codes "ubuntu" ∷ codes "deb" ∷ codes "+really" ∷ codes "~bpo" ∷ codes "build" ∷ []

-- The inner loop: does the text hold one of the markers?
unfoldable pub has_marker : Bytes → List Bytes → Bool
unfolding contains
has_marker lower [] = false
has_marker lower (m ∷ ms) = if contains lower m then true else has_marker lower ms

unfoldable pub any_marked : List Bytes → List Bytes → Bool
unfolding has_marker to_lower
any_marked [] markers = false
any_marked (v ∷ versions) markers =
    if has_marker (to_lower v) markers then true else any_marked versions markers

unfoldable pub detect_scheme : List Bytes → Scheme
unfolding any_marked
detect_scheme versions =
    if any_marked versions rpm_release_markers
    then rpm
    else (if any_marked versions dpkg_revision_markers then dpkg else dpkg)

-- Compare. `none` is a comparison that does not return.
unfoldable pub compare_versions : Bytes → Bytes → Scheme → Option ℤ
compare_versions a b rpm = compare_rpm a b
compare_versions a b dpkg = compare_dpkg a b
compare_versions a b auto = elim (detect_scheme (a ∷ b ∷ [])) [
  | rpm ↦ compare_rpm a b
  | _ ↦ compare_dpkg a b
]

pub data Verdict : Type 0 where
  unknown vulnerable not_vulnerable : Verdict

pub record Assessment : Type 0 where
  pub verdict : Verdict
  pub reason : String

-- Any scheme but RPM is read as dpkg, as in the source.
unfoldable pub has_distro_revision : Bytes → Scheme → Bool
has_distro_revision version rpm = has_release (parse_rpm version)
has_distro_revision version _ = has_revision (parse_dpkg version)

unfoldable pub upstream_of : Bytes → Scheme → Bytes
upstream_of version rpm = (parse_rpm version).version
upstream_of version _ = (parse_dpkg version).upstream

abbrev pub chosen : Scheme → List Bytes → Scheme
chosen auto versions = detect_scheme versions
chosen s versions = s

-- What Assess does with the order of the upstream versions.
abbrev pub judged : Option ℤ → Bool → Bool → Option Assessment
judged none installed_revision floor_revision = none
judged (some c) installed_revision floor_revision =
    if not (ltb_ℤ c (pos 0))
    then some (record {
      verdict = not_vulnerable;
      reason = "installed version is at or above the advisory floor";
    })
    else (if installed_revision && not floor_revision
        then some (record {
          verdict = unknown;
          reason =
              "distro-packaged build below an upstream floor; a backported fix cannot be ruled out without a distro security feed";
        })
        else some (record {
          verdict = vulnerable;
          reason = "installed version is below the advisory floor";
        }))

unfoldable pub assess : Bytes → Bytes → Scheme → Option Assessment
assess raw_installed raw_floor requested =
    let installed = trim_space raw_installed in
    let floor = trim_space raw_floor in
    let scheme = chosen requested (installed ∷ floor ∷ []) in
    if is_empty installed || is_empty floor
    then some (record { verdict = unknown; reason = "missing version or advisory floor" })
    else judged (compare_versions (upstream_of installed scheme) (upstream_of floor scheme) scheme)
        (has_distro_revision installed scheme) (has_distro_revision floor scheme)

abbrev pub is_vulnerable : Assessment → Bool
is_vulnerable a = elim a.verdict [ vulnerable ↦ true | _ ↦ false ]

unfoldable pub version_older_than : Bytes → Bytes → Option Bool
version_older_than installed floor = elim (assess installed floor auto) [
  | none ↦ none
  | some a ↦ some (is_vulnerable a)
]

unfoldable pub strip_debian_epoch : Bytes → Bytes
unfolding trim_space split_first
strip_debian_epoch raw =
    let s = trim_space raw in elim (split_first b':' s) [ none ↦ s | some (before, rest) ↦ rest ]

abbrev pub package_aliases : List (Bytes × Bytes)
package_aliases =
    (codes "docker.io", codes "docker")
    ∷ (codes "docker-ce", codes "docker")
    ∷ (codes "docker-ee", codes "docker")
    ∷ (codes "google-chrome", codes "google chrome")
    ∷ (codes "google-chrome-stable", codes "google chrome")
    ∷ (codes "google chrome", codes "google chrome")
    ∷ (codes "adobe-photoshop", codes "adobe photoshop")
    ∷ (codes "openssh", codes "openssh")
    ∷ (codes "openssh-server", codes "openssh")
    ∷ (codes "openssh-clients", codes "openssh")
    ∷ (codes "openssl", codes "openssl")
    ∷ (codes "openssl-libs", codes "openssl")
    ∷ (codes "openssl-devel", codes "openssl")
    ∷ (codes "kernel", codes "kernel")
    ∷ (codes "kernel-core", codes "kernel")
    ∷ (codes "kernel-modules", codes "kernel")
    ∷ (codes "glibc", codes "glibc")
    ∷ (codes "glibc-common", codes "glibc")
    ∷ (codes "curl", codes "curl")
    ∷ (codes "libcurl", codes "curl")
    ∷ (codes "libcurl-minimal", codes "curl")
    ∷ []

unfoldable pub find_alias : Bytes → List (Bytes × Bytes) → Option Bytes
unfolding eq_bytes
find_alias key [] = none
find_alias key ((k, v) ∷ rest) = if eq_bytes k key then some v else find_alias key rest

-- strings.ReplaceAll of one byte by another
unfoldable pub replace_byte : ℕ → ℕ → Bytes → Bytes
replace_byte old new [] = []
replace_byte old new (c ∷ s) = (if c == old then new else c) ∷ replace_byte old new s

unfoldable pub canonical_package : Bytes → Bytes
unfolding to_lower trim_space find_alias replace_byte
canonical_package name =
    let lower = to_lower (trim_space name) in
    let dashed = replace_byte b'_' b'-' lower in
    elim (find_alias lower package_aliases) [
      | some v ↦ v
      | none ↦ elim (find_alias dashed package_aliases) [
        | some v ↦ v
        | none ↦ replace_byte b'-' b' ' dashed
      ]
    ]

unfoldable pub package_matches : Bytes → Bytes → Bool
package_matches advisory_package installed_name =
    eq_bytes (canonical_package installed_name) (canonical_package advisory_package)

unfoldable pub is_high_or_critical : Bytes → Bool
unfolding to_lower trim_space eq_bytes
is_high_or_critical severity =
    let s = to_lower (trim_space severity) in
    eq_bytes s (codes "high") || eq_bytes s (codes "critical")
