-- ===== src/Vuln/Rpm/Preorder.antt =====
-- internal/vuln/rpm.go: CompareRPM is a total preorder on version strings.
use defendsec.Prelude.{
  ℕ, ◌+◌, ◌≤◌, ◌<◌, ◌≡◌, ◌∙◌, ap, length, arith, if◌then◌else◌, ltb, compare, Ordering, Option,
  none, some, ◌==◌,
}
use defendsec.Prelude.Int.{pos, negsuc, of_sign}
use defendsec.Prelude.Cmp.{
  lex, IsCmp, lex-IsCmp, compare-IsCmp, cmp_on-IsCmp, cmp_then-IsCmp, or_else, flip, Composes,
}
use defendsec.Prelude.Text.{Bytes, trim_space, split_first}
use defendsec.Vuln.Dpkg.{with_epoch}
use defendsec.Vuln.Dpkg.Parts.{
  Within, BothWithin, Within-trans, trim_space-Within, split_first-BothWithin, with_epoch-Within,
}
use defendsec.Vuln.Rpm.{with_release, parse_rpm, then_release, compare_rpm}
use defendsec.Vuln.Rpm.Key.{key}
use defendsec.Vuln.Rpm.Order.{rpm_ver_cmp-key}

with_release-length :
    (e : ℕ) (s raw : Bytes) (r : Option (Bytes × Bytes))
    → Within s raw
    → BothWithin r s
    → (length (with_release (e, s) r).version ≤ length raw)
      × (length (with_release (e, s) r).release ≤ length raw)
with_release-length e s raw none w h = omega arith
with_release-length e s raw (some (p, q)) w (hp, hq) = omega arith

pub length-parse_rpm :
    (raw : Bytes)
    → (length (parse_rpm raw).version ≤ length raw) × (length (parse_rpm raw).release ≤ length raw)
unfolding parse_rpm
length-parse_rpm raw =
    let s = trim_space raw in
    let e = with_epoch s (split_first b':' s) in
    with_release-length e.0 e.1 raw (split_first b'-' e.1)
      (Within-trans e.1 s raw (with_epoch-Within s _ (split_first-BothWithin b':' s))
        (trim_space-Within raw))
      (split_first-BothWithin b'-' e.1)

-- The order of versions: the epoch, then the version, then the release.
unfoldable pub rpm_cmp : ℕ → Bytes → Bytes → Ordering
rpm_cmp n a b =
    let va = parse_rpm a in
    let vb = parse_rpm b in
    or_else (compare va.epoch vb.epoch) (
      or_else (lex (key n va.version) (key n vb.version))
        (lex (key n va.release) (key n vb.release)))

pub rpm_cmp-IsCmp : (n : ℕ) → IsCmp (rpm_cmp n)
unfolding rpm_cmp
rpm_cmp-IsCmp n = cmp_then-IsCmp (cmp_on-IsCmp compare-IsCmp (λ a. (parse_rpm a).epoch)) (
    cmp_then-IsCmp (cmp_on-IsCmp lex-IsCmp (λ a. key n (parse_rpm a).version))
      (cmp_on-IsCmp lex-IsCmp (λ a. key n (parse_rpm a).release)))

-- What CompareRPM does with the results for the epoch, the version and the release.
compare_parts :
    (e f : ℕ) (o p : Ordering)
    → (if e == f
        then then_release (some (of_sign o)) (some (of_sign p))
        else (if ltb e f then some (negsuc 0) else some (pos 1)))
      ≡ some (of_sign (or_else (compare e f) (or_else o p)))
compare_parts e f o p = ground arith

-- CompareRPM ends on all versions and returns -1, 0 or 1: the order of the epochs, then of the keys
-- of the versions, then of those of the releases.
pub compare_rpm-rpm_cmp :
    (n : ℕ) (a b : Bytes)
    → length a < n
    → length b < n
    → compare_rpm a b ≡ some (of_sign (rpm_cmp n a b))
unfolding compare_rpm rpm_cmp
compare_rpm-rpm_cmp n a b la lb =
    let wa = length-parse_rpm a in
    let wb = length-parse_rpm b in
    rw
      (
        rpm_ver_cmp-key n (parse_rpm a).version (parse_rpm b).version (omega arith) (omega arith),
        rpm_ver_cmp-key n (parse_rpm a).release (parse_rpm b).release (omega arith) (omega arith),
      )
      (compare_parts (parse_rpm a).epoch (parse_rpm b).epoch _ _)

-- Both calls return, and exchanging the versions reverses the result.
pub compare_rpm_swap :
    (a b : Bytes)
    → (o : Ordering) × (compare_rpm a b ≡ some (of_sign o))
      × (compare_rpm b a ≡ some (of_sign (flip o)))
compare_rpm_swap a b =
    let n : ℕ = length a + length b + 1 in
    (
      rpm_cmp n a b,
      compare_rpm-rpm_cmp n a b (omega arith) (omega arith),
      compare_rpm-rpm_cmp n b a (omega arith) (omega arith)
          ∙ ap (λ o. some (of_sign o)) ((rpm_cmp-IsCmp n).swap_cmp a b),
    )

-- All calls on three versions return, and the results compose: older than older is older, newer
-- than newer is newer, and equal versions compare alike with any third.
pub compare_rpm_trans :
    (a b c : Bytes)
    → (o p r : Ordering) × (compare_rpm a b ≡ some (of_sign o))
      × (compare_rpm b c ≡ some (of_sign p))
      × (compare_rpm a c ≡ some (of_sign r))
      × Composes o p r
compare_rpm_trans a b c =
    let n : ℕ = length a + length b + length c + 1 in
    (
      rpm_cmp n a b,
      rpm_cmp n b c,
      rpm_cmp n a c,
      compare_rpm-rpm_cmp n a b (omega arith) (omega arith),
      compare_rpm-rpm_cmp n b c (omega arith) (omega arith),
      compare_rpm-rpm_cmp n a c (omega arith) (omega arith),
      (rpm_cmp-IsCmp n).trans_cmp a b c,
    )
