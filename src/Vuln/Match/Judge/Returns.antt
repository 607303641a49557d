-- ===== src/Vuln/Match/Judge/Returns.antt =====
-- internal/vuln/match.go, judge: every comparison returns, so that every advisory is decided.
use defendsec.Prelude.{
  ℕ, ◌+◌, ◌≡◌, refl, ◌∙◌, Bool, true, false, not, ◌&&◌, Option, none, some, List, [], ◌∷◌, ◌++◌,
  length, arith, if◌then◌else◌, ◌≢◌,
}
use defendsec.Prelude.Text.{Bytes, is_empty, split_first}
use defendsec.Vuln.Compare.{Scheme, auto}
use defendsec.Vuln.Compare.Laws.{compare_versions-version_cmp}
use defendsec.Vuln.Dpkg.Order.{NulFree}
use defendsec.Vuln.Dpkg.Parts.{BothWithin, split_first-BothWithin}
use defendsec.Vuln.Match.{
  Package, Candidate, Finding, version_for, inherit_epoch, has_epoch, FixState, affected, fixed,
  will_not_fix, not_affected, under_investigation, other_state,
}
use defendsec.Vuln.Match.Judge.{
  Judgement, RangeVerdict, skipped, says_not_affected, says_clean, pro_only, upstream_fix,
  distro_fix, says_affected, says_informative, Case, below, if_below, by_state, unless_later,
  predates, range_verdict, lower_fix, note, judge_loop, Tally, no_notes, judge,
}

abbrev Returns {ℓ} : {A : Type ℓ} → Option A → Type ℓ
Returns {A} o = (a : A) × (o ≡ some a)

below-Returns :
    (s : Scheme) (a b : Bytes) → s ≢ auto → NulFree a → NulFree b → Returns (below s a b)
unfolding below
below-Returns s a b h ha hb =
    let n : ℕ = length a + length b + 1 in
    rw (compare_versions-version_cmp s n a b h ha hb (omega arith) (omega arith), below) (_, refl)

NulFree-append : (a b : Bytes) → NulFree a → NulFree b → NulFree (a ++ b)
NulFree-append [] b ha hb = hb
NulFree-append (x ∷ a) b ha hb = (ha.0, NulFree-append a b ha.1 hb)

-- The texts of a package that are compared.
abbrev pub IsPlain : Package → Type 0
IsPlain p = NulFree p.version × NulFree p.source_version

abbrev pub IsPlainRange : Candidate → Type 0
IsPlainRange c = NulFree c.introduced × NulFree c.fixed_in

inherit_epoch-NulFree : (a b : Bytes) → NulFree a → NulFree b → NulFree (inherit_epoch a b)
unfolding inherit_epoch
inherit_epoch-NulFree a b ha hb =
    by_parts (has_epoch a) (split_first b':' b) (split_first-BothWithin b':' b)
  where
    by_test : (t : Bool) (p : Bytes) → NulFree p → NulFree (if t then p ++ b':' ∷ a else a)
    by_test true p hp = NulFree-append p (b':' ∷ a) hp (omega arith, ha)
    by_test false p hp = ha

    by_parts :
        (t : Bool) (o : Option (Bytes × Bytes))
        → BothWithin o b
        → NulFree (
            if t then a else elim o [
              | none ↦ a
              | some (p, q) ↦
                  if not (is_empty p) && has_epoch (p ++ b':' ∷ []) then p ++ b':' ∷ a else a
            ])
    by_parts true o w = ha
    by_parts false none w = ha
    by_parts false (some (p, q)) w = by_test _ p (w.0.1 hb)

version_for-NulFree : (c : Candidate) (p : Package) → IsPlain p → NulFree (version_for c p)
unfolding version_for
version_for-NulFree c p h = by_test _
  where
    by_test :
        (t : Bool) → NulFree (if t then inherit_epoch p.source_version p.version else p.version)
    by_test true = inherit_epoch-NulFree p.source_version p.version h.1 h.0
    by_test false = h.0

if_below-Returns : (o : Option Bool) (v w : RangeVerdict) → Returns o → Returns (if_below o v w)
if_below-Returns none v w r = cc r.1
if_below-Returns (some true) v w r = (v, refl)
if_below-Returns (some false) v w r = (w, refl)

unless_later-Returns :
    (o : Option Bool) (w : Option RangeVerdict) → Returns o → Returns w → Returns (unless_later o w)
unless_later-Returns none w r q = cc r.1
unless_later-Returns (some true) w r q = (skipped, refl)
unless_later-Returns (some false) w r q = q

unless-Returns :
    (t : Bool) (v : RangeVerdict) (o : Option RangeVerdict)
    → Returns o
    → Returns (if t then some v else o)
unless-Returns true v o r = (v, refl)
unless-Returns false v o r = r

module _ (k : Case) (chosen : k.scheme ≢ auto) (p : IsPlain k.pkg) where
  by_state-Returns :
      (s : FixState) (c : Candidate)
      → IsPlainRange c
      → Returns (by_state s k c (version_for c k.pkg))
  by_state-Returns not_affected c h = (_, refl)
  by_state-Returns fixed c h = unless-Returns (is_empty c.fixed_in) skipped _ (
      if_below-Returns _ _ _
        (below-Returns k.scheme _ _ chosen (version_for-NulFree c k.pkg p) h.1))
  by_state-Returns affected c h = unless-Returns (is_empty c.fixed_in) says_affected _ (
      if_below-Returns _ _ _
        (below-Returns k.scheme _ _ chosen (version_for-NulFree c k.pkg p) h.1))
  by_state-Returns will_not_fix c h = (_, refl)
  by_state-Returns under_investigation c h = (_, refl)
  by_state-Returns (other_state s) c h = (_, refl)

  predates-Returns : (c : Candidate) → IsPlainRange c → Returns (predates k c)
  unfolding predates
  predates-Returns c h = by_test (is_empty c.introduced)
    where
      by_test :
          (t : Bool)
          → Returns (if t then some false else below k.scheme (version_for c k.pkg) c.introduced)
      by_test true = (false, refl)
      by_test false = below-Returns k.scheme _ _ chosen (version_for-NulFree c k.pkg p) h.0

  range_verdict-Returns : (c : Candidate) → IsPlainRange c → Returns (range_verdict k c)
  unfolding range_verdict
  range_verdict-Returns c h = unless_later-Returns _ _ (predates-Returns c h) (by_pro _)
    where
      by_pro :
          (t : Bool)
          → Returns (
              if t
              then if_below (below k.scheme (version_for c k.pkg) c.fixed_in) pro_only says_clean
              else by_state c.state k c (version_for c k.pkg))
      by_pro true =
          if_below-Returns _ _ _
            (below-Returns k.scheme _ _ chosen (version_for-NulFree c k.pkg p) h.1)
      by_pro false = by_state-Returns c.state c h

  abbrev PlainFix : Option (Candidate × Bytes) → Type 0
  PlainFix none = Unit
  PlainFix (some (c, ver)) = NulFree c.fixed_in

  lower_fix-Returns :
      (o : Option (Candidate × Bytes)) (c : Candidate) (ver : Bytes)
      → PlainFix o
      → NulFree c.fixed_in
      → (o' : Option (Candidate × Bytes)) × (lower_fix k.scheme o c ver ≡ some o') × PlainFix o'
  unfolding lower_fix
  lower_fix-Returns none c ver h hc = (some (c, ver), refl, hc)
  lower_fix-Returns (some (best, v)) c ver h hc =
      by_order (below k.scheme c.fixed_in best.fixed_in) (below-Returns k.scheme _ _ chosen hc h)
    where
      by_order :
          (b : Option Bool)
          → Returns b
          → (o' : Option (Candidate × Bytes)) × (elim b [
            | none ↦ none
            | some true ↦ some (some (c, ver))
            | some false ↦ some (some (best, v))
          ]
              ≡ some o')
            × PlainFix o'
      by_order none r = cc r.1
      by_order (some true) r = (some (c, ver), refl, hc)
      by_order (some false) r = (some (best, v), refl, h)

  record PlainTally (t : Tally) : Type 0 where
    plain_best : PlainFix t.best_fixed
    plain_up : PlainFix t.best_up

  abbrev Noted : Option Tally → Type 0
  Noted o = (t' : Tally) × (o ≡ some t') × PlainTally t'

  note-Noted :
      (v : RangeVerdict) (c : Candidate) (t : Tally)
      → NulFree c.fixed_in
      → PlainTally t
      → Noted (note k v c t)
  unfolding note
  note-Noted skipped c t h i = (_, refl, i)
  note-Noted says_not_affected c t h i =
      (_, refl, record { plain_best = i.plain_best; plain_up = i.plain_up })
  note-Noted says_clean c t h i =
      (_, refl, record { plain_best = i.plain_best; plain_up = i.plain_up })
  note-Noted pro_only c t h i =
      (_, refl, record { plain_best = i.plain_best; plain_up = i.plain_up })
  note-Noted upstream_fix c t h i =
      let (o, e, f) = lower_fix-Returns t.best_up c (version_for c k.pkg) i.plain_up h in
      rw e (_, refl, record { plain_best = i.plain_best; plain_up = f })
  note-Noted distro_fix c t h i =
      let (o, e, f) = lower_fix-Returns t.best_fixed c (version_for c k.pkg) i.plain_best h in
      rw e (_, refl, record { plain_best = f; plain_up = i.plain_up })
  note-Noted says_affected c t h i =
      (_, refl, record { plain_best = i.plain_best; plain_up = i.plain_up })
  note-Noted says_informative c t h i =
      (_, refl, record { plain_best = i.plain_best; plain_up = i.plain_up })

  abbrev pub AllPlain : List Candidate → Type 0
  AllPlain [] = Unit
  AllPlain (c ∷ cands) = IsPlainRange c × AllPlain cands

  judge_loop_step :
      (v : RangeVerdict) (c : Candidate) (t t' : Tally) (cands : List Candidate)
      → range_verdict k c ≡ some v
      → note k v c t ≡ some t'
      → judge_loop k (c ∷ cands) t ≡ judge_loop k cands t'
  unfolding judge_loop
  judge_loop_step v c t t' cands e f = ground arith

  judge_loop-Returns :
      (cands : List Candidate) (t : Tally)
      → AllPlain cands
      → PlainTally t
      → Returns (judge_loop k cands t)
  unfolding judge_loop
  judge_loop-Returns [] t h i = (t, refl)
  judge_loop-Returns (c ∷ cands) t h i =
      let (v, e) = range_verdict-Returns c h.0 in
      let (t', f, j) = note-Noted v c t h.0.1 i in
      let (r, g) = judge_loop-Returns cands t' h.1 j in (r, judge_loop_step v c t t' cands e f ∙ g)

  -- Under a scheme that has been chosen, the decision on any ranges whose versions hold no NUL byte,
  -- for a package whose versions hold none, returns.
  pub judge-Returns :
      (cands : List Candidate)
      → AllPlain cands
      → (r : Option Finding × Judgement) × (judge k cands ≡ some r)
  unfolding judge
  judge-Returns cands h =
      let (t, e) =
        judge_loop-Returns cands no_notes h (record { plain_best = tt; plain_up = tt }) in
      rw (e, judge) (_, refl)
