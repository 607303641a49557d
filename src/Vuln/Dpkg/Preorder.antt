-- ===== src/Vuln/Dpkg/Preorder.antt =====
-- internal/vuln/dpkg.go: CompareDpkg is a total preorder on version strings.
use defendsec.Prelude.{
  ℕ, ◌+◌, ◌<◌, ◌≡◌, ◌∙◌, ap, length, arith, if◌then◌else◌, ltb, compare, Ordering, Option, none,
  some, ◌==◌,
}
use defendsec.Prelude.Int.{ℤ, pos, negsuc, sign, of_sign}
use defendsec.Prelude.Cmp.{
  lex, IsCmp, lex-IsCmp, compare-IsCmp, cmp_on-IsCmp, cmp_then-IsCmp, or_else, flip, Composes,
}
use defendsec.Prelude.Text.{Bytes, trim_space, split_first, split_last}
use defendsec.Vuln.Dpkg.{
  normalize_sign, with_epoch, with_revision, parse_dpkg, then_revision, compare_dpkg,
}
use defendsec.Vuln.Dpkg.Key.{key}
use defendsec.Vuln.Dpkg.Order.{NulFree, dpkg_ver_rev_cmp-key}
use defendsec.Vuln.Dpkg.Parts.{
  Within, BothWithin, Within-trans, trim_space-Within, split_first-BothWithin,
  split_last-BothWithin, with_epoch-Within,
}

with_revision-Within :
    (e : ℕ) (s raw : Bytes) (r : Option (Bytes × Bytes))
    → Within s raw
    → BothWithin r s
    → Within (with_revision (e, s) r).upstream raw × Within (with_revision (e, s) r).revision raw
with_revision-Within e s raw none w h = (w, (omega arith, λ k. tt))
with_revision-Within e s raw (some (p, q)) w (hp, hq) =
    (Within-trans p s raw hp w, Within-trans q s raw hq w)

-- The parts of a parsed version are parts of the text.
pub parse_dpkg-Within :
    (raw : Bytes) → Within (parse_dpkg raw).upstream raw × Within (parse_dpkg raw).revision raw
unfolding parse_dpkg
parse_dpkg-Within raw =
    let s = trim_space raw in
    let rest = (with_epoch s (split_first b':' s)).1 in
    with_revision-Within (with_epoch s (split_first b':' s)).0 rest raw (split_last b'-' rest)
      (Within-trans rest s raw (with_epoch-Within s _ (split_first-BothWithin b':' s))
        (trim_space-Within raw))
      (split_last-BothWithin b'-' rest)

-- The order of versions: the epoch, then the upstream version, then the revision.
unfoldable pub dpkg_cmp : ℕ → Bytes → Bytes → Ordering
dpkg_cmp n a b =
    let va = parse_dpkg a in
    let vb = parse_dpkg b in
    or_else (compare va.epoch vb.epoch) (
      or_else (lex (key n va.upstream) (key n vb.upstream))
        (lex (key n va.revision) (key n vb.revision)))

pub dpkg_cmp-IsCmp : (n : ℕ) → IsCmp (dpkg_cmp n)
unfolding dpkg_cmp
dpkg_cmp-IsCmp n = cmp_then-IsCmp (cmp_on-IsCmp compare-IsCmp (λ a. (parse_dpkg a).epoch)) (
    cmp_then-IsCmp (cmp_on-IsCmp lex-IsCmp (λ a. key n (parse_dpkg a).upstream))
      (cmp_on-IsCmp lex-IsCmp (λ a. key n (parse_dpkg a).revision)))

-- What CompareDpkg does with the results for the epoch, the upstream version and the revision.
compare_parts :
    (e f : ℕ) (x y : ℤ) (o p : Ordering)
    → sign x ≡ o
    → sign y ≡ p
    → (if e == f
        then then_revision (some x) (some y)
        else (if ltb e f then some (negsuc 0) else some (pos 1)))
      ≡ some (of_sign (or_else (compare e f) (or_else o p)))
unfolding normalize_sign
compare_parts e f x y o p h k = ground arith

-- On versions without a NUL byte CompareDpkg ends, and its result is the order of the epochs, then
-- of the keys of the upstream versions, then of those of the revisions.
pub compare_dpkg-dpkg_cmp :
    (n : ℕ) (a b : Bytes)
    → NulFree a
    → NulFree b
    → length a < n
    → length b < n
    → compare_dpkg a b ≡ some (of_sign (dpkg_cmp n a b))
unfolding compare_dpkg dpkg_cmp
compare_dpkg-dpkg_cmp n a b ha hb la lb =
    let wa = parse_dpkg-Within a in
    let wb = parse_dpkg-Within b in
    let (x, ex, sx) =
      dpkg_ver_rev_cmp-key n (parse_dpkg a).upstream (parse_dpkg b).upstream (wa.0.1 ha) (wb.0.1 hb)
        (omega arith) (omega arith) in
    let (y, ey, sy) =
      dpkg_ver_rev_cmp-key n (parse_dpkg a).revision (parse_dpkg b).revision (wa.1.1 ha) (wb.1.1 hb)
        (omega arith) (omega arith) in
    rw (ex, ey) (compare_parts (parse_dpkg a).epoch (parse_dpkg b).epoch x y _ _ sx sy)

-- For two versions without a NUL byte both calls return, and exchanging the versions reverses the
-- result.
pub compare_dpkg_swap :
    (a b : Bytes)
    → NulFree a
    → NulFree b
    → (o : Ordering) × (compare_dpkg a b ≡ some (of_sign o))
      × (compare_dpkg b a ≡ some (of_sign (flip o)))
compare_dpkg_swap a b ha hb =
    let n : ℕ = length a + length b + 1 in
    (
      dpkg_cmp n a b,
      compare_dpkg-dpkg_cmp n a b ha hb (omega arith) (omega arith),
      compare_dpkg-dpkg_cmp n b a hb ha (omega arith) (omega arith)
          ∙ ap (λ o. some (of_sign o)) ((dpkg_cmp-IsCmp n).swap_cmp a b),
    )

-- For three versions without a NUL byte all calls return, and the results compose: older than
-- older is older, newer than newer is newer, and equal versions compare alike with any third.
pub compare_dpkg_trans :
    (a b c : Bytes)
    → NulFree a
    → NulFree b
    → NulFree c
    → (o p r : Ordering) × (compare_dpkg a b ≡ some (of_sign o))
      × (compare_dpkg b c ≡ some (of_sign p))
      × (compare_dpkg a c ≡ some (of_sign r))
      × Composes o p r
compare_dpkg_trans a b c ha hb hc =
    let n : ℕ = length a + length b + length c + 1 in
    (
      dpkg_cmp n a b,
      dpkg_cmp n b c,
      dpkg_cmp n a c,
      compare_dpkg-dpkg_cmp n a b ha hb (omega arith) (omega arith),
      compare_dpkg-dpkg_cmp n b c hb hc (omega arith) (omega arith),
      compare_dpkg-dpkg_cmp n a c ha hc (omega arith) (omega arith),
      (dpkg_cmp-IsCmp n).trans_cmp a b c,
    )
