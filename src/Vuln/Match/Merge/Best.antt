-- ===== src/Vuln/Match/Merge/Best.antt =====
-- internal/vuln/match.go, addFinding: which finding is left for a key.
use defendsec.Prelude.{
  ◌≡◌, refl, sym, ◌∙◌, ap, ◌≢◌, Bool, true, false, Option, none, some, List, [], ◌∷◌, if◌then◌else◌,
  arith, Ordering, ◌≤◌, ◌⊎◌, inl, inr, Bool-cases,
}
use defendsec.Prelude.Cmp.{lex, lex-IsCmp}
use defendsec.Prelude.Sort.{Among}
use defendsec.Prelude.Text.{Bytes, eq_bytes, eq_bytes_iff}
use defendsec.Vuln.Match.{Kind, Finding, finding_key}
use defendsec.Vuln.Match.Host.{kind_rank}
use defendsec.Vuln.Match.Merge.{
  eq_kind, find_finding, put_finding, replaces, add_finding, merge_all,
}

find-put_self :
    (k : Bytes) (f : Finding) (m : List (Bytes × Finding))
    → find_finding k (put_finding k f m) ≡ some f
unfolding find_finding put_finding
find-put_self k f [] = ground (arith, eq_bytes_iff k k)
find-put_self k f ((k', g) ∷ m) = ground (arith, eq_bytes_iff k k, find-put_self k f m)

find-put_other :
    (k l : Bytes) (f : Finding) (m : List (Bytes × Finding))
    → eq_bytes k l ≡ false
    → find_finding l (put_finding k f m) ≡ find_finding l m
unfolding find_finding put_finding
find-put_other k l f [] h = ground arith
find-put_other k l f ((k', g) ∷ m) h = ground (arith, find-put_other k l f m h, eq_bytes_iff k' k)

-- `g` is at least as good as `f`: its kind ranks no later, and between two of one kind its package
-- does not come later.
abbrev pub IsBest : Finding → Finding → Type 0
IsBest g f =
    (kind_rank g.kind ≤ kind_rank f.kind)
    × (g.kind ≡ f.kind → lex f.package_name g.package_name ≢ Ordering.lt)

eq_kind_iff : (a b : Kind) → eq_kind a b ≡ true → a ≡ b
eq_kind_iff a b h = ground arith

eq_kind_refl : (a : Kind) → eq_kind a a ≡ true
eq_kind_refl a = ground arith

IsBest-refl : (f : Finding) → IsBest f f
IsBest-refl f = (omega arith, λ e. λ h. ground (arith, lex-IsCmp.refl_cmp f.package_name))

replacing-IsBest : (f prev h : Finding) → replaces f prev ≡ true → IsBest prev h → IsBest f h
replacing-IsBest f prev h r b = ground (
  arith,
  eq_kind_iff prev.kind f.kind,
  eq_kind_refl prev.kind,
  lex-IsCmp.trans_cmp h.package_name f.package_name prev.package_name,
)

kept-IsBest : (f prev : Finding) → replaces f prev ≡ false → IsBest prev f
kept-IsBest f prev r = ground (arith, eq_kind_iff prev.kind f.kind, eq_kind_refl prev.kind)

-- Every entry of the first map has one under its key in the second that is as good.
Improves : List (Bytes × Finding) → List (Bytes × Finding) → Type 0
Improves m m' =
    (k : Bytes) (g : Finding)
    → find_finding k m ≡ some g
    → (g' : Finding) × (find_finding k m' ≡ some g') × ((h : Finding) → IsBest g h → IsBest g' h)

same_Improves : (m : List (Bytes × Finding)) → Improves m m
unfolding Improves
same_Improves m k g e = (g, e, λ h b. b)

put-Improves :
    (f prev : Finding) (m : List (Bytes × Finding))
    → find_finding (finding_key f) m ≡ some prev
    → replaces f prev ≡ true
    → Improves m (put_finding (finding_key f) f m)
unfolding Improves
put-Improves f prev m e r k g found = elim (Bool-cases (eq_bytes (finding_key f) k)) [
  | inl same ↦
      let q = (eq_bytes_iff (finding_key f) k).0 same in
      let here : prev ≡ g = cc in
      (
        f,
        rw (← q) (find-put_self (finding_key f) f m),
        λ h b. replacing-IsBest f prev h r (rw here b),
      )
  | inr other ↦ (g, find-put_other (finding_key f) k f m other ∙ found, λ h b. b)
]

put-new-Improves :
    (f : Finding) (m : List (Bytes × Finding))
    → find_finding (finding_key f) m ≡ none
    → Improves m (put_finding (finding_key f) f m)
unfolding Improves
put-new-Improves f m e k g found = elim (Bool-cases (eq_bytes (finding_key f) k)) [
  | inl same ↦ let q = (eq_bytes_iff (finding_key f) k).0 same in cc
  | inr other ↦ (g, find-put_other (finding_key f) k f m other ∙ found, λ h b. b)
]

-- What a call of addFinding does to the map, and to the entry of its finding.
add-Improves :
    (m : List (Bytes × Finding)) (f : Finding)
    → Improves m (add_finding m f)
      × ((g : Finding) × (find_finding (finding_key f) (add_finding m f) ≡ some g) × IsBest g f)
unfolding add_finding
add-Improves m f = by_entry (find_finding (finding_key f) m) refl
  where
    by_test :
        (prev : Finding) (t : Bool)
        → find_finding (finding_key f) m ≡ some prev
        → replaces f prev ≡ t
        → Improves m (if t then put_finding (finding_key f) f m else m)
          × ((g : Finding) × (find_finding
                  (finding_key f)
                  (if t then put_finding (finding_key f) f m else m)
                ≡ some g)
              × IsBest g f)
    by_test prev true e r =
        (put-Improves f prev m e r, (f, find-put_self (finding_key f) f m, IsBest-refl f))
    by_test prev false e r = (same_Improves m, (prev, e, kept-IsBest f prev r))

    by_entry :
        (o : Option Finding)
        → find_finding (finding_key f) m ≡ o
        → Improves m (elim o [
          | none ↦ put_finding (finding_key f) f m
          | some prev ↦ if replaces f prev then put_finding (finding_key f) f m else m
        ])
          × ((g : Finding) × (find_finding (finding_key f) (elim o [
            | none ↦ put_finding (finding_key f) f m
            | some prev ↦ if replaces f prev then put_finding (finding_key f) f m else m
          ])
                ≡ some g)
              × IsBest g f)
    by_entry none e =
        (put-new-Improves f m e, (f, find-put_self (finding_key f) f m, IsBest-refl f))
    by_entry (some prev) e = by_test prev (replaces f prev) e refl

merge-Improves : (m : List (Bytes × Finding)) (fs : List Finding) → Improves m (merge_all m fs)
unfolding merge_all Improves
merge-Improves m [] k g e = (g, e, λ h b. b)
merge-Improves m (f ∷ fs) k g e =
    let (g', e', b') = (add-Improves m f).0 k g e in
    let (g'', e'', b'') = merge-Improves (add_finding m f) fs k g' e' in
    (g'', e'', λ h b. b'' h (b' h b))

abbrev pub In : Finding → List Finding → Type 0
In = Among

put-from :
    (f g : Finding) (k : Bytes) (m : List (Bytes × Finding))
    → find_finding k (put_finding (finding_key f) f m) ≡ some g
    → (find_finding k m ≡ some g) ⊎ ((g ≡ f) × (finding_key f ≡ k))
put-from f g k m h = elim (Bool-cases (eq_bytes (finding_key f) k)) [
  | inl same ↦
      let q = (eq_bytes_iff (finding_key f) k).0 same in
      let here = find-put_self (finding_key f) f m in inr (cc (h, q, here), q)
  | inr other ↦ inl (sym (find-put_other (finding_key f) k f m other) ∙ h)
]

add-from :
    (f g : Finding) (k : Bytes) (m : List (Bytes × Finding))
    → find_finding k (add_finding m f) ≡ some g
    → (find_finding k m ≡ some g) ⊎ ((g ≡ f) × (finding_key f ≡ k))
unfolding add_finding
add-from f g k m h = by_entry (find_finding (finding_key f) m) h
  where
    by_test :
        (t : Bool)
        → find_finding k (if t then put_finding (finding_key f) f m else m) ≡ some g
        → (find_finding k m ≡ some g) ⊎ ((g ≡ f) × (finding_key f ≡ k))
    by_test true h = put-from f g k m h
    by_test false h = inl h

    by_entry :
        (o : Option Finding)
        → find_finding k (elim o [
          | none ↦ put_finding (finding_key f) f m
          | some prev ↦ if replaces f prev then put_finding (finding_key f) f m else m
        ])
          ≡ some g
        → (find_finding k m ≡ some g) ⊎ ((g ≡ f) × (finding_key f ≡ k))
    by_entry none h = put-from f g k m h
    by_entry (some prev) h = by_test (replaces f prev) h

merge-from :
    (fs : List Finding) (g : Finding) (k : Bytes) (m : List (Bytes × Finding))
    → find_finding k (merge_all m fs) ≡ some g
    → (find_finding k m ≡ some g) ⊎ (In g fs × (finding_key g ≡ k))
unfolding merge_all
merge-from [] g k m h = inl h
merge-from (f ∷ fs) g k m h = elim (merge-from fs g k (add_finding m f) h) [
  | inr (i, e) ↦ inr (inr i, e)
  | inl found ↦ elim (add-from f g k m found) [
    | inl old ↦ inl old
    | inr (here, e) ↦ inr (inl here, ap finding_key here ∙ e)
  ]
]

merge-IsBest :
    (m : List (Bytes × Finding)) (fs : List Finding) (f : Finding)
    → In f fs
    → (g : Finding) × (find_finding (finding_key f) (merge_all m fs) ≡ some g) × IsBest g f
unfolding merge_all Improves
merge-IsBest m [] f i = absurd i
merge-IsBest m (x ∷ fs) f (inl e) =
    let (g, found, best) = (add-Improves m x).1 in
    let (g', found', b) = merge-Improves (add_finding m x) fs (finding_key x) g found in
    rw e (g', found', b x best)
merge-IsBest m (x ∷ fs) f (inr i) = merge-IsBest (add_finding m x) fs f i

-- After any calls of addFinding on an empty map, each finding that it was called with has an entry
-- under its key: one of these findings, of the same key, and at least as good, which means that its
-- kind ranks no later, and if it is of the same kind its package does not come later by name.
pub merge_all-IsBest :
    (fs : List Finding) (f : Finding)
    → In f fs
    → (g : Finding) × (find_finding (finding_key f) (merge_all [] fs) ≡ some g)
      × In g fs
      × (finding_key g ≡ finding_key f)
      × IsBest g f
unfolding find_finding
merge_all-IsBest fs f i =
    let (g, found, best) = merge-IsBest [] fs f i in
    elim (merge-from fs g (finding_key f) [] found) [
      | inl e ↦ cc
      | inr (j, e) ↦ (g, found, j, e, best)
    ]
