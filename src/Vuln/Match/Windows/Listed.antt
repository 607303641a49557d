-- ===== src/Vuln/Match/Windows/Listed.antt =====
-- internal/vuln/windows.go: every missing update with a KB number is asked for.
use defendsec.Prelude.{
  ◌≡◌, refl, sym, ◌∙◌, ap, Bool, true, false, Option, ◌&&◌, ◌⊎◌, if◌then◌else◌, some, List, [], ◌∷◌,
  arith, inl, inr, Bool-cases,
}
use defendsec.Prelude.Sort.{Among}
use defendsec.Prelude.Text.{Bytes, eq_bytes, eq_bytes_iff, is_empty}
use defendsec.Vuln.Match.{Candidate}
use defendsec.Vuln.Match.Windows.{
  MissingPatch, add_patch, not_approved, approved_pending, find_patch, kbs_of, patches_of,
}

Among-add_patch :
    (kb : Bytes) (m : MissingPatch) (acc : List MissingPatch)
    → (kb ≡ m.kb) ⊎ Among kb (kbs_of acc)
    → Among kb (kbs_of (add_patch m acc))
unfolding add_patch kbs_of
Among-add_patch kb m [] i = i
Among-add_patch kb m (prev ∷ rest) i =
    by_test (Among-add_patch kb m rest) (eq_bytes prev.kb m.kb) refl
      (eq_bytes prev.status not_approved && eq_bytes m.status approved_pending) i
  where
    by_test :
        ((kb ≡ m.kb) ⊎ Among kb (kbs_of rest) → Among kb (kbs_of (add_patch m rest)))
        → (t : Bool) → eq_bytes prev.kb m.kb ≡ t
        → (u : Bool) → (kb ≡ m.kb) ⊎ Among kb (kbs_of (prev ∷ rest))
        → Among kb
            (kbs_of (if t then (if u then m ∷ rest else prev ∷ rest) else prev ∷ add_patch m rest))
    by_test ih true e true (inl q) = inl q
    by_test ih true e true (inr (inl q)) = inl (q ∙ (eq_bytes_iff prev.kb m.kb).0 e)
    by_test ih true e true (inr (inr j)) = inr j
    by_test ih true e false (inl q) = inl (q ∙ sym ((eq_bytes_iff prev.kb m.kb).0 e))
    by_test ih true e false (inr j) = j
    by_test ih false e u (inl q) = inr (ih (inl q))
    by_test ih false e u (inr (inl q)) = inl q
    by_test ih false e u (inr (inr j)) = inr (ih (inr j))

pub find_patch-Among :
    (kb : Bytes) (acc : List MissingPatch)
    → Among kb (kbs_of acc)
    → (p : MissingPatch) × (find_patch kb acc ≡ some p) × (p.kb ≡ kb)
unfolding find_patch kbs_of
find_patch-Among kb [] i = absurd i
find_patch-Among kb (m ∷ rest) i = elim (Bool-cases (eq_bytes m.kb kb)) [
  | inl same ↦ (m, rw same refl, (eq_bytes_iff m.kb kb).0 same)
  | inr other ↦ elim i [
    | inl e ↦ absurd (ground (arith, other, (eq_bytes_iff m.kb kb).1 (sym e)))
    | inr j ↦ let (p, found, same) = find_patch-Among kb rest j in (p, rw other found, same)
  ]
]

module _ (normalize_kb : Bytes → Bytes) (ranges : List Bytes → Option (List Candidate)) where
  -- An update that was listed, or comes with a number, is in the list.
  pub Among-patches_of :
      (kb : Bytes) (acc missing : List MissingPatch)
      → Among kb (kbs_of acc)
        ⊎ ((m : MissingPatch) × Among m missing × (kb ≡ normalize_kb m.kb) × (is_empty kb ≡ false))
      → Among kb (kbs_of (patches_of normalize_kb (some true) ranges acc missing))
  unfolding patches_of
  Among-patches_of kb acc [] (inl i) = i
  Among-patches_of kb acc [] (inr (m, j, e, full)) = absurd j
  Among-patches_of kb acc (d ∷ missing) i =
      let here = record d { kb = normalize_kb d.kb } in
      by_empty (λ l. Among-patches_of kb l missing) (is_empty (normalize_kb d.kb)) refl i
    where
      by_empty :
          ((l : List MissingPatch)
            → Among kb (kbs_of l)
              ⊎ ((m : MissingPatch) × Among m missing
                  × (kb ≡ normalize_kb m.kb)
                  × (is_empty kb ≡ false))
            → Among kb (kbs_of (patches_of normalize_kb (some true) ranges l missing)))
          → (t : Bool) → is_empty (normalize_kb d.kb) ≡ t
          → Among kb (kbs_of acc)
            ⊎ ((m : MissingPatch) × Among m (d ∷ missing)
                × (kb ≡ normalize_kb m.kb)
                × (is_empty kb ≡ false))
          → Among kb (
              kbs_of (
                if t
                then patches_of normalize_kb (some true) ranges acc missing
                else patches_of normalize_kb
                    (some true)
                    ranges
                    (add_patch (record d { kb = normalize_kb d.kb }) acc)
                    missing))
      by_empty ih true e (inl j) = ih acc (inl j)
      by_empty ih true e (inr (m, inl same, q, full)) = absurd (ground (arith, e, same, q, full))
      by_empty ih true e (inr (m, inr j, q, full)) = ih acc (inr (m, j, q, full))
      by_empty ih false e (inl j) =
          ih (add_patch (record d { kb = normalize_kb d.kb }) acc)
            (inl (Among-add_patch kb (record d { kb = normalize_kb d.kb }) acc (inr j)))
      by_empty ih false e (inr (m, inl same, q, full)) =
          ih (add_patch (record d { kb = normalize_kb d.kb }) acc) (
            inl (
              Among-add_patch kb (record d { kb = normalize_kb d.kb }) acc
                (inl (q ∙ ap (λ (x : MissingPatch). normalize_kb x.kb) same))))
      by_empty ih false e (inr (m, inr j, q, full)) =
          ih (add_patch (record d { kb = normalize_kb d.kb }) acc) (inr (m, j, q, full))
