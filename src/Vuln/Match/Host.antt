-- ===== src/Vuln/Match/Host.antt =====
-- internal/vuln/match.go: what the matcher takes a host for, and the ranks of what it finds.
use defendsec.Prelude.{ℕ, Bool, true, false, ◌||◌, List, [], ◌∷◌, if◌then◌else◌}
use defendsec.Prelude.Text.{
  Bytes, codes, contains, to_lower, trim_space, cut_before, eq_bytes, is_empty,
}
use defendsec.Vuln.Compare.{Scheme, auto, dpkg, rpm}
use defendsec.Vuln.Match.{
  Kind, finding, unfixed, informational, awaiting_vendor, eol, repo_health, Package, rocky,
  almalinux, rhel,
}

unfoldable pub scheme_of : Bytes → Scheme
unfolding eq_bytes
scheme_of manager =
    if eq_bytes manager (codes "dpkg")
    then dpkg
    else (if eq_bytes manager (codes "rpm") then rpm else auto)

-- The scheme that the package manager gives, or else the one of the distribution.
abbrev pub or_scheme : Scheme → Scheme → Scheme
or_scheme auto s = s
or_scheme s _ = s

-- Is the text one of those?
unfoldable pub one_of : Bytes → List Bytes → Bool
unfolding eq_bytes
one_of s [] = false
one_of s (t ∷ ts) = eq_bytes s t || one_of s ts

abbrev pub rpm_distros : List Bytes
rpm_distros =
    codes "opensuse-leap" ∷ codes "sles" ∷ codes "sle-micro" ∷ codes "fedora" ∷ codes "amzn" ∷ []

-- NormalizeDistro: the distribution, the release and the scheme.
unfoldable pub normalize_distro : Bytes → Bytes → Bytes → Bytes × Bytes × Scheme
unfolding to_lower trim_space is_empty one_of cut_before
normalize_distro raw_id raw_version manager =
    let id = to_lower (trim_space raw_id) in
    let version = trim_space raw_version in
    let scheme = scheme_of manager in
    let major = cut_before b'.' version in
    if is_empty id
    then ([], [], scheme)
    else (if one_of id (rocky ∷ almalinux ∷ [])
        then (id, major, or_scheme scheme rpm)
        else (if one_of id (rhel ∷ codes "centos" ∷ codes "ol" ∷ [])
            then (rhel, major, or_scheme scheme rpm)
            else (if one_of id (codes "opensuse-tumbleweed" ∷ codes "opensuse-slowroll" ∷ [])
                then (id, [], or_scheme scheme rpm)
                else (if one_of id (codes "debian" ∷ [])
                    then (codes "debian", major, or_scheme scheme dpkg)
                    else (if one_of id (codes "ubuntu" ∷ [])
                        then (codes "ubuntu", version, or_scheme scheme dpkg)
                        else (if one_of id rpm_distros
                            then (id, version, or_scheme scheme rpm)
                            else (id, version, scheme)))))))

unfoldable pub uses_ubuntu_pro : List Package → Bool
unfolding to_lower contains
uses_ubuntu_pro [] = false
uses_ubuntu_pro (p ∷ packages) =
    let v = to_lower p.version in
    if contains v (codes "+esm") || contains v (codes "~esm")
    then true
    else uses_ubuntu_pro packages

unfoldable pub severity_rank : Bytes → ℕ
unfolding to_lower eq_bytes
severity_rank severity =
    let s = to_lower severity in
    if eq_bytes s (codes "critical")
    then 4
    else (if eq_bytes s (codes "high")
        then 3
        else (if eq_bytes s (codes "medium")
            then 2
            else (if eq_bytes s (codes "low") then 1 else 0)))

unfoldable pub kind_rank : Kind → ℕ
kind_rank finding = 0
kind_rank eol = 1
kind_rank repo_health = 1
kind_rank awaiting_vendor = 2
kind_rank unfixed = 3
kind_rank informational = 4
