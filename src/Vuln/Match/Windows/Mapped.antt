-- ===== src/Vuln/Match/Windows/Mapped.antt =====
-- internal/vuln/windows.go: no fix of a missing update is lost.
use defendsec.Prelude.{
  ◌≡◌, refl, sym, ◌∙◌, ap, true, false, Option, none, some, List, [], ◌∷◌, arith, inl, inr,
  Bool-cases,
}
use defendsec.Prelude.Cmp.{lex}
use defendsec.Prelude.Sort.{Among, sort_by, Among-sort_by}
use defendsec.Prelude.Text.{Bytes, eq_bytes, is_empty}
use defendsec.Vuln.Match.{fixed, Candidate, Finding, finding_key, new_finding}
use defendsec.Vuln.Match.Judge.Lowest.{IsIn}
use defendsec.Vuln.Match.Merge.{find_finding}
use defendsec.Vuln.Match.Merge.Best.{In, IsBest, merge_all-IsBest}
use defendsec.Vuln.Match.Windows.{
  Result, MissingPatch, find_patch, patch_of, update_finding, findings_of, values, kbs_of,
  patches_of, with_patches, with_ranges, finding_cmp, match_windows,
}
use defendsec.Vuln.Match.Windows.Listed.{find_patch-Among, Among-patches_of}

pub In-values :
    (k : Bytes) (g : Finding) (m : List (Bytes × Finding))
    → find_finding k m ≡ some g
    → In g (values m)
unfolding find_finding values
In-values k g [] h = cc
In-values k g ((k', f) ∷ m) h = elim (Bool-cases (eq_bytes k' k)) [
  | inl same ↦ inl (ground arith)
  | inr other ↦ inr (In-values k g m (ground arith))
]

patch_of-fixed :
    (patches : List MissingPatch) (c : Candidate) (m : MissingPatch)
    → c.state ≡ fixed
    → find_patch c.package_name patches ≡ some m
    → patch_of patches c ≡ some m
patch_of-fixed patches c m e h = rw e h

In-findings_of :
    (patches : List MissingPatch) (c : Candidate) (m : MissingPatch) (cands : List Candidate)
    → IsIn c cands
    → patch_of patches c ≡ some m
    → In (update_finding c m) (findings_of patches cands)
unfolding findings_of
In-findings_of patches c m [] i h = absurd i
In-findings_of patches c m (d ∷ cands) (inl e) h =
    by_patch (patch_of patches d) (ap (patch_of patches) (sym e) ∙ h)
  where
    by_patch :
        (o : Option MissingPatch)
        → o ≡ some m
        → In (update_finding c m) (elim o [
          | none ↦ findings_of patches cands
          | some n ↦ update_finding d n ∷ findings_of patches cands
        ])
    by_patch none f = cc
    by_patch (some n) f =
        let same : m ≡ n = cc in
        inl (ap (λ (x : Candidate). update_finding x m) e ∙ ap (update_finding d) same)
In-findings_of patches c m (d ∷ cands) (inr i) h =
    by_patch (In-findings_of patches c m cands i h) (patch_of patches d)
  where
    by_patch :
        In (update_finding c m) (findings_of patches cands)
        → (o : Option MissingPatch)
        → In (update_finding c m) (elim o [
          | none ↦ findings_of patches cands
          | some n ↦ update_finding d n ∷ findings_of patches cands
        ])
    by_patch later none = later
    by_patch later (some n) = inr later

-- The finding of an update has the key and the quality that its KB number gives it.
same_update :
    (c : Candidate) (p m : MissingPatch) (g : Finding)
    → p.kb ≡ m.kb
    → finding_key g ≡ finding_key (update_finding c p)
    → IsBest g (update_finding c p)
    → (finding_key g ≡ finding_key (update_finding c m)) × IsBest g (update_finding c m)
unfolding finding_key new_finding
same_update c p m g e key best = rw (← e) (key, best)

-- The update with its KB number in the normal form.
abbrev pub normalized : (Bytes → Bytes) → MissingPatch → MissingPatch
normalized normalize_kb m = record m { kb = normalize_kb m.kb }

-- No fix of a missing update is lost: for each update that the host misses, its KB number not empty,
-- and each range of that number in state fixed, the result holds a finding of the range's advisory and
-- family that is at least as good as the update's own finding: its kind ranks no later, and if it is of
-- the same kind its package does not come later by name. The feed is loaded, and the store answers a
-- question that names the KB number with ranges among which this one is.
pub match_windows_finds :
    (normalize_kb : Bytes → Bytes) (ranges : List Bytes → Option (List Candidate))
    (missing : List MissingPatch) (m : MissingPatch) (c : Candidate)
    → Among m missing
    → is_empty (normalize_kb m.kb) ≡ false
    → c.package_name ≡ normalize_kb m.kb
    → c.state ≡ fixed
    → ((kbs : List Bytes)
        → Among (normalize_kb m.kb) kbs
        → (cands : List Candidate) × (ranges kbs ≡ some cands) × IsIn c cands)
    → (r : Result) × (g : Finding) × (match_windows normalize_kb (some true) ranges missing
        ≡ some r)
      × In g r.findings
      × (finding_key g ≡ finding_key (update_finding c (normalized normalize_kb m)))
      × IsBest g (update_finding c (normalized normalize_kb m))
unfolding match_windows with_ranges find_patch kbs_of
match_windows_finds normalize_kb ranges missing m c i full name state answers =
    by_patches (patches_of normalize_kb (some true) ranges [] missing)
      (Among-patches_of normalize_kb ranges (normalize_kb m.kb) [] missing (inr (m, i, refl, full)))
  where
    by_patches :
        (patches : List MissingPatch)
        → Among (normalize_kb m.kb) (kbs_of patches)
        → (r : Result) × (g : Finding) × (with_patches normalize_kb (some true) ranges patches
            ≡ some r)
          × In g r.findings
          × (finding_key g ≡ finding_key (update_finding c (normalized normalize_kb m)))
          × IsBest g (update_finding c (normalized normalize_kb m))
    by_patches [] j = absurd j
    by_patches (n ∷ rest) j =
        let (cands, q, there) =
          answers (sort_by lex (kbs_of (n ∷ rest)))
            ((Among-sort_by lex (normalize_kb m.kb) (kbs_of (n ∷ rest))).1 j) in
        let (p, listed, same_kb) = find_patch-Among (normalize_kb m.kb) (n ∷ rest) j in
        let own : find_patch c.package_name (n ∷ rest) ≡ some p =
          ap (λ k. find_patch k (n ∷ rest)) name ∙ listed in
        let here =
          In-findings_of (n ∷ rest) c p cands there (patch_of-fixed (n ∷ rest) c p state own) in
        let (g, found, from, same, best) =
          merge_all-IsBest (findings_of (n ∷ rest) cands) (update_finding c p) here in
        let (key, quality) = same_update c p (normalized normalize_kb m) g same_kb same best in
        (
          with_ranges (n ∷ rest) cands,
          g,
          rw (q, with_patches) refl,
          (Among-sort_by finding_cmp g _).1
              (In-values (finding_key (update_finding c p)) g _ found),
          key,
          quality,
        )
