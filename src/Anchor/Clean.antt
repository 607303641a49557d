-- ===== src/Anchor/Clean.antt =====
-- internal/anchor/anchor.go: what Summarise says of what VerifyAgainst finds.
use defendsec.Prelude.{
  Bool, ◌+◌, ◌≡◌, refl, sym, ap, true, Option, none, some, List, [], ◌∷◌, map, inl, inr, ◌↔◌, arith,
}
use mathlib.Core.Path.{subst}
use defendsec.Prelude.Int.{ℤ}
use defendsec.Prelude.Sort.{Among}
use defendsec.Prelude.Text.{Bytes, is_empty, eq_bytes_iff}
use defendsec.Anchor.{
  AnchorRecord, is_published, is_after, Verification, compare_hash, verify_anchor, verify_against,
  Counts, count_one, count_all, summarise,
}

-- What is no sign of a rebuilt chain: it was not published, or it matches.
abbrev IsFine : Verification → Type 0
IsFine v = is_empty v.anchor.error ≡ true → v.matches ≡ true

count_one-IsFine :
    (v : Verification) (s : Counts)
    → ((count_one v s).mismatched + (count_one v s).missing ≡ 0)
      ↔ (IsFine v × (s.mismatched + s.missing ≡ 0))
count_one-IsFine v s = ground arith

abbrev AllFine : List Verification → Type 0
AllFine vs = (v : Verification) → Among v vs → IsFine v

first_and_rest :
    (v : Verification) (vs : List Verification) → (IsFine v × AllFine vs) ↔ AllFine (v ∷ vs)
first_and_rest v vs = (
  λ (f, fs) w i. elim i [ inl e ↦ subst IsFine (sym e) f | inr j ↦ fs w j ],
  λ fs. (fs v (inl refl), λ w i. fs w (inr i)),
)

count_all-AllFine :
    (vs : List Verification) → ((count_all vs).mismatched + (count_all vs).missing ≡ 0) ↔ AllFine vs
unfolding count_all
count_all-AllFine [] = (λ e v i. absurd i, λ f. refl)
count_all-AllFine (v ∷ vs) =
    let (one, back) = count_one-IsFine v (count_all vs) in
    let (join, split) = first_and_rest v vs in
    (
      λ e. join ((one e).0, (count_all-AllFine vs).0 (one e).1),
      λ f. back ((split f).0, (count_all-AllFine vs).1 (split f).1),
    )

module _ (date : ℤ → Bytes) (current : ℤ → Option Bytes) where
  -- The chain has the hash that was published.
  abbrev pub IsInChain : AnchorRecord → Type 0
  IsInChain a = is_published a ≡ true → current a.through_seq ≡ some a.entry_hash

  compare_hash-matches :
      (a : AnchorRecord) (found : Option Bytes)
      → ((compare_hash date current a found).matches ≡ true) ↔ (found ≡ some a.entry_hash)
  unfolding compare_hash
  compare_hash-matches a none = ground arith
  compare_hash-matches a (some hash) = ground (arith, eq_bytes_iff hash a.entry_hash)

  compare_hash-anchor :
      (a : AnchorRecord) (found : Option Bytes) → (compare_hash date current a found).anchor ≡ a
  unfolding compare_hash
  compare_hash-anchor a none = refl
  compare_hash-anchor a (some hash) = ground arith

  verify_anchor-IsFine : (a : AnchorRecord) → IsFine (verify_anchor date current a) ↔ IsInChain a
  unfolding verify_anchor is_published
  verify_anchor-IsFine a = ground (
    arith,
    compare_hash-matches a (current a.through_seq),
    compare_hash-anchor a (current a.through_seq),
  )

  Among-map :
      (bs : List AnchorRecord) (a : AnchorRecord)
      → Among a bs
      → Among (verify_anchor date current a) (map (verify_anchor date current) bs)
  Among-map [] a i = absurd i
  Among-map (b ∷ bs) a (inl e) = inl (ap (verify_anchor date current) e)
  Among-map (b ∷ bs) a (inr i) = inr (Among-map bs a i)

  map-AllFine :
      (bs : List AnchorRecord)
      → ((a : AnchorRecord) → Among a bs → IsInChain a)
      → AllFine (map (verify_anchor date current) bs)
  map-AllFine [] h v i = absurd i
  map-AllFine (a ∷ bs) h v (inl e) =
      subst IsFine (sym e) ((verify_anchor-IsFine a).1 (h a (inl refl)))
  map-AllFine (a ∷ bs) h v (inr i) = map-AllFine bs (λ b j. h b (inr j)) v i

  -- The summary counts no mismatch and no missing anchor exactly if the chain still has, for each
  -- anchor that was published, the hash that was published for its sequence number. Sorting keeps
  -- what it sorts.
  pub summarise_clean_iff :
      (sort_slice : (Verification → Verification → Bool) → List Verification → List Verification)
      → ((vs : List Verification) (v : Verification)
          → Among v (sort_slice is_after vs) ↔ Among v vs)
      → (anchors : List AnchorRecord)
      → ((summarise (verify_against date current sort_slice anchors)).counts.mismatched
            + (summarise (verify_against date current sort_slice anchors)).counts.missing
          ≡ 0)
        ↔ ((a : AnchorRecord) → Among a anchors → IsInChain a)
  unfolding summarise verify_against
  summarise_clean_iff sort_slice keeps anchors =
      let found = map (verify_anchor date current) anchors in
      let (fine, none_bad) = count_all-AllFine (sort_slice is_after found) in
      (
        λ e a i. (verify_anchor-IsFine a).0 (
            fine e (verify_anchor date current a)
              ((keeps found (verify_anchor date current a)).1 (Among-map anchors a i))),
        λ h. none_bad (λ v i. map-AllFine anchors h v ((keeps found v).0 i)),
      )

-- The four counts of a summary make up its total.
counts_total :
    (vs : List Verification)
    → (summarise vs).total
      ≡ (summarise vs).counts.matching
        + (summarise vs).counts.mismatched
        + (summarise vs).counts.missing
        + (summarise vs).counts.failed
unfolding summarise count_all
counts_total [] = refl
counts_total (v ∷ vs) = ground (arith, counts_total vs)
