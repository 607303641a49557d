-- ===== src/Vuln/Compare/Laws.antt =====
-- internal/vuln/compare.go: what holds of the comparison and of the assessment under every scheme.
use defendsec.Prelude.{
  ℕ, ◌+◌, ◌<◌, ◌≡◌, refl, sym, ◌∙◌, ap, Bool, true, false, ◌||◌, Option, some, List, [], ◌∷◌,
  length, arith, if◌then◌else◌, Ordering, ◌≢◌,
}
use mathlib.Core.Option
use defendsec.Prelude.Int.{ℤ, pos, of_sign, ltb_ℤ}
use defendsec.Prelude.Cmp.{IsCmp, Composes}
use defendsec.Prelude.Text.{Bytes, trim_space, is_empty}
use defendsec.Vuln.Dpkg.Order.{NulFree}
use defendsec.Vuln.Dpkg.Parts.{trim_space-Within}
use defendsec.Vuln.Dpkg.Preorder.{
  dpkg_cmp, dpkg_cmp-IsCmp, compare_dpkg-dpkg_cmp, parse_dpkg-Within,
}
use defendsec.Vuln.Rpm.Preorder.{rpm_cmp, rpm_cmp-IsCmp, compare_rpm-rpm_cmp, length-parse_rpm}
use defendsec.Vuln.Compare.{
  Scheme, auto, dpkg, rpm, compare_versions, Verdict, unknown, vulnerable, not_vulnerable, assess,
  Assessment, judged, chosen, has_distro_revision, upstream_of,
}

-- The order of versions under a scheme that has been chosen.
unfoldable pub version_cmp : Scheme → ℕ → Bytes → Bytes → Ordering
version_cmp rpm n a b = rpm_cmp n a b
version_cmp _ n a b = dpkg_cmp n a b

pub version_cmp-IsCmp : (s : Scheme) (n : ℕ) → IsCmp (version_cmp s n)
unfolding version_cmp
version_cmp-IsCmp rpm n = rpm_cmp-IsCmp n
version_cmp-IsCmp dpkg n = dpkg_cmp-IsCmp n
version_cmp-IsCmp auto n = dpkg_cmp-IsCmp n

-- Under a scheme that has been chosen, Compare returns the order of any two versions without a NUL
-- byte.
pub compare_versions-version_cmp :
    (s : Scheme) (n : ℕ) (a b : Bytes)
    → s ≢ auto
    → NulFree a
    → NulFree b
    → length a < n
    → length b < n
    → compare_versions a b s ≡ some (of_sign (version_cmp s n a b))
unfolding compare_versions version_cmp
compare_versions-version_cmp rpm n a b h ha hb la lb = compare_rpm-rpm_cmp n a b la lb
compare_versions-version_cmp dpkg n a b h ha hb la lb = compare_dpkg-dpkg_cmp n a b ha hb la lb
compare_versions-version_cmp auto n a b h ha hb la lb = absurd (h refl)

-- The order of the upstream parts of two versions.
abbrev pub upstream_cmp : Scheme → ℕ → Bytes → Bytes → Ordering
upstream_cmp s n a b = version_cmp s n (upstream_of a s) (upstream_of b s)

compare-upstream :
    (s : Scheme) (n : ℕ) (a b : Bytes)
    → s ≢ auto
    → NulFree a
    → NulFree b
    → length a < n
    → length b < n
    → compare_versions (upstream_of a s) (upstream_of b s) s ≡ some (of_sign (upstream_cmp s n a b))
unfolding compare_versions version_cmp upstream_of
compare-upstream rpm n a b h ha hb la lb =
    compare_rpm-rpm_cmp n _ _ (omega (arith, (length-parse_rpm a).0))
      (omega (arith, (length-parse_rpm b).0))
compare-upstream dpkg n a b h ha hb la lb =
    let wa = (parse_dpkg-Within a).0 in
    let wb = (parse_dpkg-Within b).0 in
    compare_dpkg-dpkg_cmp n _ _ (wa.1 ha) (wb.1 hb) (omega (arith, wa.0)) (omega (arith, wb.0))
compare-upstream auto n a b h ha hb la lb = absurd (h refl)

-- The verdict by the order of the upstream parts and the presence of a distribution's revision.
abbrev pub verdict_of : Ordering → Bool → Bool → Verdict
verdict_of Ordering.lt true false = unknown
verdict_of Ordering.lt _ _ = vulnerable
verdict_of _ _ _ = not_vulnerable

chosen_self : (s : Scheme) (vs : List Bytes) → s ≢ auto → chosen s vs ≡ s
chosen_self auto vs h = absurd (h refl)
chosen_self dpkg vs h = refl
chosen_self rpm vs h = refl

judged-verdict_of :
    (o : Ordering) (p q : Bool)
    → (x : Assessment) × (judged (some (of_sign o)) p q ≡ some x) × (x.verdict ≡ verdict_of o p q)
judged-verdict_of Ordering.lt true true = (_, refl, refl)
judged-verdict_of Ordering.lt true false = (_, refl, refl)
judged-verdict_of Ordering.lt false q = (_, refl, refl)
judged-verdict_of Ordering.eq p q = (_, refl, refl)
judged-verdict_of Ordering.gt p q = (_, refl, refl)

-- Under a scheme that has been chosen, Assess returns for a version and a floor without NUL bytes
-- and not blank: not vulnerable if the upstream part is not below the floor's, else unknown if only
-- the installed version has a distribution's revision, else vulnerable.
pub assess-verdict_of :
    (s : Scheme) (n : ℕ) (i f : Bytes)
    → s ≢ auto
    → NulFree i
    → NulFree f
    → is_empty (trim_space i) ≡ false
    → is_empty (trim_space f) ≡ false
    → length i < n
    → length f < n
    → (x : Assessment) × (assess i f s ≡ some x)
      × (x.verdict
          ≡ verdict_of
              (upstream_cmp s n (trim_space i) (trim_space f))
              (has_distro_revision (trim_space i) s)
              (has_distro_revision (trim_space f) s))
unfolding assess
assess-verdict_of s n i f h hi hf ei ef li lf =
    let wi = trim_space-Within i in
    let wf = trim_space-Within f in
    rw
      (
        ei,
        ef,
        chosen_self s (trim_space i ∷ trim_space f ∷ []) h,
        compare-upstream s n (trim_space i) (trim_space f) h (wi.1 hi) (wf.1 hf)
            (omega (arith, wi.0)) (omega (arith, wf.0)),
      )
      (judged-verdict_of _ _ _)

assess_not_blank :
    (s : Scheme) (i f : Bytes) {x : Assessment}
    → assess i f s ≡ some x
    → x.verdict ≡ not_vulnerable
    → (is_empty (trim_space i) ≡ false) × (is_empty (trim_space f) ≡ false)
unfolding assess
assess_not_blank s i f h v = by_tests (is_empty (trim_space i)) (is_empty (trim_space f)) _ h v
  where
    by_tests :
        (p q : Bool) (r : Option Assessment) {x : Assessment}
        → (if p || q
            then some (record { verdict = unknown; reason = "missing version or advisory floor" })
            else r)
          ≡ some x
        → x.verdict ≡ not_vulnerable
        → (p ≡ false) × (q ≡ false)
    by_tests true q r h v = cc (ap (Option.map (λ (y : Assessment). y.verdict)) h)
    by_tests false true r h v = cc (ap (Option.map (λ (y : Assessment). y.verdict)) h)
    by_tests false false r h v = (refl, refl)

not_lt_of_sign :
    (o : Ordering) {r : Option ℤ} {c : ℤ}
    → r ≡ some (of_sign o)
    → r ≡ some c
    → ltb_ℤ c (pos 0) ≡ false
    → o ≢ Ordering.lt
not_lt_of_sign o e e' h = ground arith

upgrade_verdict :
    (o p r : Ordering) (x y u v : Bool)
    → Composes o p r
    → o ≢ Ordering.lt
    → verdict_of p x y ≡ not_vulnerable
    → verdict_of r u v ≡ not_vulnerable
upgrade_verdict o p r x y u v h k e = ground arith

-- Assess is monotone in the upstream part of the installed version: under a scheme that has been
-- chosen, where it finds a version not vulnerable, it finds so any other version that is not blank and
-- whose upstream part, which is without the epoch, does not compare below that one's; the versions and
-- the floor hold no NUL byte.
pub assess_monotone :
    (s : Scheme) (i j f : Bytes) {x : Assessment} {c : ℤ}
    → s ≢ auto
    → NulFree i
    → NulFree j
    → NulFree f
    → is_empty (trim_space j) ≡ false
    → compare_versions (upstream_of (trim_space j) s) (upstream_of (trim_space i) s) s ≡ some c
    → ltb_ℤ c (pos 0) ≡ false
    → assess i f s ≡ some x
    → x.verdict ≡ not_vulnerable
    → (y : Assessment) × (assess j f s ≡ some y) × (y.verdict ≡ not_vulnerable)
assess_monotone s i j f {x} {c} h hi hj hf ej cmp le found safe =
    let n : ℕ = length i + length j + length f + 1 in
    let wi = trim_space-Within i in
    let wj = trim_space-Within j in
    let wf = trim_space-Within f in
    let (ei, ef) = assess_not_blank s i f found safe in
    let (x', e', v') = assess-verdict_of s n i f h hi hf ei ef (omega arith) (omega arith) in
    let (y, e, v) = assess-verdict_of s n j f h hj hf ej ef (omega arith) (omega arith) in
    let same : x'.verdict ≡ x.verdict = cc in
    let not_below =
      not_lt_of_sign _
        (compare-upstream s n (trim_space j) (trim_space i) h (wj.1 hj) (wi.1 hi) (omega arith)
          (omega arith))
        cmp le in
    (
      y,
      e,
      v
          ∙ upgrade_verdict _ _ _ _ _ _ _ ((version_cmp-IsCmp s n).trans_cmp _ _ _) not_below
              (sym v' ∙ same ∙ safe),
    )
