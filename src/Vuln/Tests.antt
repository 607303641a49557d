-- ===== src/Vuln/Tests.antt =====
-- internal/vuln: runs of the comparisons and of the matcher on versions that the distributions use.
use defendsec.Prelude.{◌≡◌, refl, false, none, some, [], ◌∷◌, arith, Ordering, ◌≢◌}
use defendsec.Prelude.Int.{ℤ, pos, negsuc, sign, of_sign}
use defendsec.Prelude.Cmp.{lex, Composes}
use defendsec.Prelude.Text.{Bytes, codes, is_empty, trim_space}
use defendsec.Vuln.Dpkg.{compare_dpkg, parse_dpkg, dpkg_ver_rev_cmp, normalize_sign, cmp_loop}
use defendsec.Vuln.Dpkg.Key.{key}
use defendsec.Vuln.Dpkg.Order.{NulFree, dpkg_ver_rev_cmp-key, cmp_loop-nul}
use defendsec.Vuln.Dpkg.Preorder.{dpkg_cmp, compare_dpkg-dpkg_cmp, compare_dpkg_trans}
use defendsec.Vuln.Rpm.{compare_rpm, parse_rpm, rpm_ver_cmp}
use defendsec.Vuln.Rpm.Key as RpmKey
use defendsec.Vuln.Rpm.Order.{rpm_ver_cmp-key}
use defendsec.Vuln.Rpm.Preorder.{rpm_cmp, compare_rpm-rpm_cmp}
use defendsec.Vuln.Dpkg.{has_revision}
use defendsec.Vuln.Compare.{
  auto, dpkg, compare_versions, Assessment, not_vulnerable, assess, has_distro_revision,
  upstream_of,
}
use defendsec.Vuln.Compare.Laws.{upstream_cmp, verdict_of, assess-verdict_of, assess_monotone}

abbrev rc : Bytes
rc = codes "1.0~rc1"

abbrev release : Bytes
release = codes "1.0"

abbrev patched : Bytes
patched = codes "1:8.9p1-3ubuntu0.10"

rc-NulFree : NulFree rc
rc-NulFree = omega arith

release-NulFree : NulFree release
release-NulFree = omega arith

patched-NulFree : NulFree patched
patched-NulFree = omega arith

tilde_first : compare_dpkg rc release ≡ some (negsuc 0)
unfolding compare_dpkg parse_dpkg dpkg_ver_rev_cmp normalize_sign
tilde_first = refl

epoch_first : compare_dpkg patched release ≡ some (pos 1)
unfolding compare_dpkg parse_dpkg dpkg_ver_rev_cmp normalize_sign
epoch_first = refl

compare_dpkg_trans_example :
    (o p r : Ordering) × (compare_dpkg rc release ≡ some (of_sign o))
    × (compare_dpkg release patched ≡ some (of_sign p))
    × (compare_dpkg rc patched ≡ some (of_sign r))
    × Composes o p r
compare_dpkg_trans_example =
    compare_dpkg_trans rc release patched rc-NulFree release-NulFree patched-NulFree

compare_dpkg-dpkg_cmp_example : compare_dpkg rc patched ≡ some (of_sign (dpkg_cmp 30 rc patched))
compare_dpkg-dpkg_cmp_example =
    compare_dpkg-dpkg_cmp 30 rc patched rc-NulFree patched-NulFree (omega arith) (omega arith)

dpkg_ver_rev_cmp-key_example :
    (d : ℤ) × (dpkg_ver_rev_cmp rc release ≡ some d) × (sign d ≡ lex (key 8 rc) (key 8 release))
dpkg_ver_rev_cmp-key_example =
    dpkg_ver_rev_cmp-key 8 rc release rc-NulFree release-NulFree (omega arith) (omega arith)

cmp_loop-nul_example : cmp_loop 50 (0 ∷ release) [] ≡ none
cmp_loop-nul_example = cmp_loop-nul 50 release [] refl

abbrev build : Bytes
build = codes "1:8.7p1-38.el9_4.1"

abbrev older_build : Bytes
older_build = codes "1:8.7p1-38.el9"

abbrev caret : Bytes
caret = codes "1:8.7p1^git1-1.el9"

build_newer : compare_rpm build older_build ≡ some (pos 1)
unfolding compare_rpm parse_rpm rpm_ver_cmp
build_newer = refl

compare_rpm-rpm_cmp_example : compare_rpm build caret ≡ some (of_sign (rpm_cmp 30 build caret))
compare_rpm-rpm_cmp_example = compare_rpm-rpm_cmp 30 build caret (omega arith) (omega arith)

rpm_ver_cmp-key_example :
    rpm_ver_cmp build caret ≡ some (of_sign (lex (RpmKey.key 30 build) (RpmKey.key 30 caret)))
rpm_ver_cmp-key_example = rpm_ver_cmp-key 30 build caret (omega arith) (omega arith)

dpkg_chosen : dpkg ≢ auto
dpkg_chosen e = ground arith

rc_not_blank : is_empty (trim_space rc) ≡ false
unfolding is_empty trim_space
rc_not_blank = refl

patched_not_blank : is_empty (trim_space patched) ≡ false
unfolding is_empty trim_space
patched_not_blank = refl

assess-verdict_of_example :
    (x : Assessment) × (assess rc patched dpkg ≡ some x)
    × (x.verdict
        ≡ verdict_of
            (upstream_cmp dpkg 30 (trim_space rc) (trim_space patched))
            (has_distro_revision (trim_space rc) dpkg)
            (has_distro_revision (trim_space patched) dpkg))
assess-verdict_of_example =
    assess-verdict_of dpkg 30 rc patched dpkg_chosen rc-NulFree patched-NulFree rc_not_blank
      patched_not_blank (omega arith) (omega arith)

newer_upstream :
    compare_versions
      (upstream_of (trim_space patched) dpkg)
      (upstream_of (trim_space release) dpkg)
      dpkg
    ≡ some (pos 1)
unfolding compare_versions upstream_of compare_dpkg parse_dpkg dpkg_ver_rev_cmp normalize_sign
newer_upstream = refl

release_safe :
    assess release rc dpkg
    ≡ some (record {
      verdict = not_vulnerable;
      reason = "installed version is at or above the advisory floor";
    })
unfolding assess compare_versions upstream_of has_distro_revision has_revision compare_dpkg
    parse_dpkg dpkg_ver_rev_cmp normalize_sign
release_safe = refl

assess_monotone_example :
    (y : Assessment) × (assess patched rc dpkg ≡ some y) × (y.verdict ≡ not_vulnerable)
assess_monotone_example =
    assess_monotone dpkg release patched rc dpkg_chosen release-NulFree patched-NulFree rc-NulFree
      patched_not_blank newer_upstream refl release_safe refl
