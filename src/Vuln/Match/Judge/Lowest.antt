-- ===== src/Vuln/Match/Judge/Lowest.antt =====
-- internal/vuln/match.go, judge: of several fixes the lowest one is reported.
use defendsec.Prelude.{
  ℕ, ◌+◌, ◌<◌, ◌≡◌, refl, sym, ap, Bool, true, false, Option, none, some, List, [], ◌∷◌, length,
  arith, ◌≢◌, Ordering, ◌⊎◌, inl, inr,
}
use mathlib.Core.Path.{subst}
use mathlib.Core.Option
use defendsec.Prelude.Int.{of_sign, ltb_ℤ, pos}
use defendsec.Prelude.Sort.{Among}
use defendsec.Prelude.Text.{Bytes}
use defendsec.Vuln.Compare.{Scheme, auto}
use defendsec.Vuln.Compare.Laws.{version_cmp, version_cmp-IsCmp, compare_versions-version_cmp}
use defendsec.Vuln.Dpkg.Order.{NulFree}
use defendsec.Vuln.Match.{Candidate, version_for}
use defendsec.Vuln.Match.Judge.{
  RangeVerdict, upstream_fix, distro_fix, Case, below, range_verdict, lower_fix, with_best, with_up,
  note, judge_loop, Tally,
}
use defendsec.Vuln.Match.Judge.Outcome.{judge_loop-cons}

abbrev is_lt : Ordering → Bool
is_lt o = elim o [ Ordering.lt ↦ true | _ ↦ false ]

below-is_lt :
    (s : Scheme) (n : ℕ) (a b : Bytes)
    → s ≢ auto
    → NulFree a
    → NulFree b
    → length a < n
    → length b < n
    → below s a b ≡ some (is_lt (version_cmp s n a b))
unfolding below
below-is_lt s n a b h ha hb la lb =
    rw (compare_versions-version_cmp s n a b h ha hb la lb, below) (by_order (version_cmp s n a b))
  where
    by_order : (o : Ordering) → some (ltb_ℤ (of_sign o) (pos 0)) ≡ some (is_lt o)
    by_order o = ground arith

-- Not below a version, and so not below a lower one.
not-below-lower :
    (s : Scheme) (a b c : Bytes)
    → s ≢ auto
    → NulFree a
    → NulFree b
    → NulFree c
    → below s a b ≡ some false
    → below s c b ≡ some true
    → below s a c ≡ some false
not-below-lower s a b c h ha hb hc e f =
    let n : ℕ = length a + length b + length c + 1 in
    ground (
      arith,
      below-is_lt s n a b h ha hb (omega arith) (omega arith),
      below-is_lt s n c b h hc hb (omega arith) (omega arith),
      below-is_lt s n a c h ha hc (omega arith) (omega arith),
      (version_cmp-IsCmp s n).trans_cmp a c b,
    )

not-below-itself : (s : Scheme) (a : Bytes) → s ≢ auto → NulFree a → below s a a ≡ some false
not-below-itself s a h ha =
    let n : ℕ = length a + 1 in
    ground (
      arith,
      below-is_lt s n a a h ha ha (omega arith) (omega arith),
      (version_cmp-IsCmp s n).refl_cmp a,
    )

abbrev pub IsIn : Candidate → List Candidate → Type 0
IsIn = Among

abbrev pub FixesPlain : List Candidate → Type 0
FixesPlain [] = Unit
FixesPlain (c ∷ cands) = NulFree c.fixed_in × FixesPlain cands

abbrev pub PlainBest : Option (Candidate × Bytes) → Type 0
PlainBest none = Unit
PlainBest (some (b, v)) = NulFree b.fixed_in

-- The best fix is not above the one of `c`.
abbrev pub Covers : Scheme → Candidate → Option (Candidate × Bytes) → Type 0
Covers s c none = ⊥
Covers s c (some (b, v)) = below s c.fixed_in b.fixed_in ≡ some false

module _ (s : Scheme) (chosen : s ≢ auto) where
  -- What a fix leaves as the best one: a plain one, not above it, and not above what the best one was
  -- not above before.
  abbrev Keeps : Candidate → Option (Candidate × Bytes) → Option (Candidate × Bytes) → Type 0
  Keeps d o o' =
      PlainBest o'
      × Covers s d o'
      × ((c : Candidate) → NulFree c.fixed_in → Covers s c o → Covers s c o')

  lower_fix-Keeps :
      (o o' : Option (Candidate × Bytes)) (d : Candidate) (ver : Bytes)
      → PlainBest o
      → NulFree d.fixed_in
      → lower_fix s o d ver ≡ some o'
      → Keeps d o o'
  unfolding lower_fix
  lower_fix-Keeps none o' d ver hp hd e =
      let first : some (d, ver) ≡ o' = cc in
      subst (Keeps d none) first (hd, not-below-itself s d.fixed_in chosen hd, λ c hc h. absurd h)
  lower_fix-Keeps (some (b, v)) o' d ver hp hd e = by_order (below s d.fixed_in b.fixed_in) refl e
    where
      by_order :
          (t : Option Bool)
          → below s d.fixed_in b.fixed_in ≡ t
          → elim t [
            | none ↦ none
            | some true ↦ some (some (d, ver))
            | some false ↦ some (some (b, v))
          ]
            ≡ some o'
          → Keeps d (some (b, v)) o'
      by_order none q r = cc
      by_order (some true) q r =
          let lower : some (d, ver) ≡ o' = cc in
          subst (Keeps d (some (b, v))) lower (
            hd,
            not-below-itself s d.fixed_in chosen hd,
            λ c hc h. not-below-lower s c.fixed_in b.fixed_in d.fixed_in chosen hc hp hd h q,
          )
      by_order (some false) q r =
          let same : some (b, v) ≡ o' = cc in
          subst (Keeps d (some (b, v))) same (hp, q, λ c hc h. h)

module _ (k : Case) (chosen : k.scheme ≢ auto) where
  pub note-best :
      (v : RangeVerdict) (d : Candidate) (t t' : Tally)
      → note k v d t ≡ some t'
      → ((v ≡ distro_fix)
          × (lower_fix k.scheme t.best_fixed d (version_for d k.pkg) ≡ some t'.best_fixed))
        ⊎ ((v ≢ distro_fix) × (t.best_fixed ≡ t'.best_fixed))
  unfolding note
  note-best distro_fix d t t' e =
      inl (refl, by_fix (lower_fix k.scheme t.best_fixed d (version_for d k.pkg)) e)
    where
      by_fix :
          (o : Option (Option (Candidate × Bytes)))
          → with_best t o ≡ some t'
          → o ≡ some t'.best_fixed
      by_fix none e = cc
      by_fix (some b) e = ap (Option.map (λ (x : Tally). x.best_fixed)) e
  note-best upstream_fix d t t' e =
      inr (λ q. ground arith, by_fix (lower_fix k.scheme t.best_up d (version_for d k.pkg)) e)
    where
      by_fix :
          (o : Option (Option (Candidate × Bytes)))
          → with_up t o ≡ some t'
          → t.best_fixed ≡ t'.best_fixed
      by_fix none e = cc
      by_fix (some b) e = ground arith
  note-best v d t t' e = ground arith

  -- A note keeps the best fix, or lowers it to a fix of the distribution.
  note-Keeps :
      (v : RangeVerdict) (d : Candidate) (t t' : Tally)
      → PlainBest t.best_fixed
      → NulFree d.fixed_in
      → note k v d t ≡ some t'
      → PlainBest t'.best_fixed
        × (v ≡ distro_fix → Covers k.scheme d t'.best_fixed)
        × ((c : Candidate)
            → NulFree c.fixed_in
            → Covers k.scheme c t.best_fixed
            → Covers k.scheme c t'.best_fixed)
  note-Keeps v d t t' hp hd e = elim (note-best v d t t' e) [
    | inl (q, f) ↦
        let (plain, covers, keeps) =
          lower_fix-Keeps k.scheme chosen t.best_fixed t'.best_fixed d (version_for d k.pkg) hp hd
            f in
        (plain, λ r. covers, keeps)
    | inr (q, f) ↦
        (subst PlainBest f hp, λ r. absurd (q r), λ c hc h. subst (Covers k.scheme c) f h)
  ]

  -- After the loop the best fix is not above that of any range whose verdict was such a fix.
  pub judge_loop-Covers :
      (cands : List Candidate) (t t' : Tally)
      → FixesPlain cands
      → PlainBest t.best_fixed
      → judge_loop k cands t ≡ some t'
      → ((c : Candidate)
          → IsIn c cands
          → range_verdict k c ≡ some distro_fix
          → Covers k.scheme c t'.best_fixed)
        × ((c : Candidate)
            → NulFree c.fixed_in
            → Covers k.scheme c t.best_fixed
            → Covers k.scheme c t'.best_fixed)
  unfolding judge_loop
  judge_loop-Covers [] t t' hs hp e =
      let same : t.best_fixed ≡ t'.best_fixed = cc in
      (λ c i. absurd i, λ c hc h. subst (Covers k.scheme c) same h)
  judge_loop-Covers (d ∷ cands) t t' hs hp e =
      let (v, mid, ev, en, er) = judge_loop-cons k d cands t t' e in
      let (plain, covers, keeps) = note-Keeps v d t mid hp hs.0 en in
      let (ih_in, ih_keeps) = judge_loop-Covers cands mid t' hs.1 plain er in
      (
        λ c i r. elim i [
          | inl same ↦
              let fix : v ≡ distro_fix = cc in
              subst (λ (x : Candidate). Covers k.scheme x t'.best_fixed) (sym same)
                (ih_keeps d hs.0 (covers fix))
          | inr rest ↦ ih_in c rest r
        ],
        λ c hc h. ih_keeps c hc (keeps c hc h),
      )
