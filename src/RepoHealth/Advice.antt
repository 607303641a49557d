-- ===== src/RepoHealth/Advice.antt =====
-- internal/repohealth/assess.go, Fix: how to put a repository right.
use defendsec.Prelude.{Bool, false, ◌||◌, List, [], ◌∷◌, ◌++◌, if◌then◌else◌}
use defendsec.Prelude.Text.{Bytes, codes, eq_bytes}
use defendsec.RepoHealth.{apt}

unfoldable pub is_one_of : Bytes → List Bytes → Bool
unfolding eq_bytes
is_one_of s [] = false
is_one_of s (t ∷ ts) = eq_bytes s t || is_one_of s ts

abbrev pub key_codes : List Bytes
key_codes =
    codes "key_expired"
    ∷ codes "key_missing"
    ∷ codes "key_revoked"
    ∷ codes "signature_bad"
    ∷ codes "unsigned"
    ∷ []

abbrev pub apt_key_advice : Bytes
apt_key_advice =
    codes
      "Get the vendor's current signing key from the vendor itself and check its fingerprint against the vendor's site. Install it as its own keyring, for example /etc/apt/keyrings/<vendor>.gpg (or the vendor's keyring package, which installs under /usr/share/keyrings), and name it in the repository's source line: deb [signed-by=/etc/apt/keyrings/<vendor>.gpg] <uri> <suite> <components>, or Signed-By: in a .sources file. Do not use apt-key or drop the key into /etc/apt/trusted.gpg.d: that trusts it for every repository. Then run apt-get update, confirm it prints no GPG warning for the repository, and check that `apt list --upgradable` now shows what you expect. If the repository is no longer used, remove its source file instead."

abbrev pub apt_index_advice : Bytes
apt_index_advice =
    codes
      "Run apt-get update and read its output for warnings. If it succeeds, check that the periodic refresh runs (systemctl status apt-daily.timer) so the indexes do not age again; if the repository itself no longer publishes, remove its source."

unfoldable pub refresh : Bytes → Bytes
unfolding eq_bytes
refresh manager =
    if eq_bytes manager (codes "zypper") then codes "zypper refresh" else codes "dnf makecache"

unfoldable pub rpm_key_advice : Bytes → Bytes
unfolding refresh
rpm_key_advice manager =
    codes
      "Get the vendor's current signing key from the vendor itself, check its fingerprint against the vendor's site, replace the file named by the repository's gpgkey= line, and import it (rpm --import <file>). Then run "
    ++ (refresh manager
        ++ codes
            " and confirm it reports no signature error. If the repository is no longer used, disable or remove its .repo file.")

unfoldable pub rpm_index_advice : Bytes → Bytes
unfolding refresh
rpm_index_advice manager =
    codes "Run "
    ++ (refresh manager
        ++ codes
            " and read its output for errors. If it succeeds, check that the periodic refresh is enabled (dnf-makecache.timer on dnf hosts) so the cached metadata does not age again.")

unfoldable pub fix : Bytes → Bytes → Bytes
unfolding is_one_of eq_bytes rpm_key_advice rpm_index_advice
fix manager code =
    if eq_bytes manager apt
    then (if is_one_of code key_codes || eq_bytes code (codes "no_index")
        then apt_key_advice
        else (if is_one_of code (codes "index_expired" ∷ codes "index_stale" ∷ [])
            then apt_index_advice
            else []))
    else (if is_one_of manager (codes "dnf" ∷ codes "zypper" ∷ [])
        then (if is_one_of code key_codes
            then rpm_key_advice manager
            else (if is_one_of code (codes "no_index" ∷ codes "index_stale" ∷ [])
                then rpm_index_advice manager
                else []))
        else [])
