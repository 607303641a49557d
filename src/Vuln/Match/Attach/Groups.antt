-- ===== src/Vuln/Match/Attach/Groups.antt =====
-- internal/vuln/match.go, Match: the groups of the ranges of one advisory.
use defendsec.Prelude.{
  ◌≡◌, refl, Bool, true, false, List, [], ◌∷◌, ◌++◌, if◌then◌else◌, ◌⊎◌, inl, inr,
}
use defendsec.Prelude.Text.{Bytes, eq_bytes, eq_bytes_iff}
use defendsec.Vuln.Match.{Candidate}
use defendsec.Vuln.Match.Judge.Lowest.{IsIn}
use defendsec.Vuln.Match.Attach.{add_to_group}

-- The range is in the group of its advisory.
abbrev pub Held : Candidate → List (Bytes × List Candidate) → Type 0
Held c [] = ⊥
Held c ((a, group) ∷ groups) = ((a ≡ c.advisory_id) × IsIn c group) ⊎ Held c groups

IsIn-snoc_old : (c d : Candidate) (cs : List Candidate) → IsIn c cs → IsIn c (cs ++ d ∷ [])
IsIn-snoc_old c d [] i = elim i [ ]
IsIn-snoc_old c d (x ∷ cs) (inl e) = inl e
IsIn-snoc_old c d (x ∷ cs) (inr i) = inr (IsIn-snoc_old c d cs i)

IsIn-snoc_new : (d : Candidate) (cs : List Candidate) → IsIn d (cs ++ d ∷ [])
IsIn-snoc_new d [] = inl refl
IsIn-snoc_new d (x ∷ cs) = inr (IsIn-snoc_new d cs)

IsIn-snoc : (c d : Candidate) (cs : List Candidate) → IsIn c (cs ++ d ∷ []) → (c ≡ d) ⊎ IsIn c cs
IsIn-snoc c d [] (inl e) = inl e
IsIn-snoc c d [] (inr i) = elim i [ ]
IsIn-snoc c d (x ∷ cs) (inl e) = inr (inl e)
IsIn-snoc c d (x ∷ cs) (inr i) = elim (IsIn-snoc c d cs i) [ inl e ↦ inl e | inr j ↦ inr (inr j) ]

pub add_to_group-old :
    (c d : Candidate) (gs : List (Bytes × List Candidate)) → Held c gs → Held c (add_to_group d gs)
unfolding add_to_group
add_to_group-old c d [] h = elim h [ ]
add_to_group-old c d ((a, group) ∷ gs) h =
    by_test (add_to_group-old c d gs) (eq_bytes a d.advisory_id) h
  where
    by_test :
        (Held c gs → Held c (add_to_group d gs))
        → (t : Bool) → ((a ≡ c.advisory_id) × IsIn c group) ⊎ Held c gs
        → Held c (if t then (a, group ++ d ∷ []) ∷ gs else (a, group) ∷ add_to_group d gs)
    by_test ih true (inl (e, i)) = inl (e, IsIn-snoc_old c d group i)
    by_test ih true (inr k) = inr k
    by_test ih false (inl x) = inl x
    by_test ih false (inr k) = inr (ih k)

pub add_to_group-new :
    (d : Candidate) (gs : List (Bytes × List Candidate)) → Held d (add_to_group d gs)
unfolding add_to_group
add_to_group-new d [] = inl (refl, inl refl)
add_to_group-new d ((a, group) ∷ gs) =
    by_test (add_to_group-new d gs) (eq_bytes a d.advisory_id) refl
  where
    by_test :
        Held d (add_to_group d gs)
        → (t : Bool) → eq_bytes a d.advisory_id ≡ t
        → Held d (if t then (a, group ++ d ∷ []) ∷ gs else (a, group) ∷ add_to_group d gs)
    by_test ih true e = inl ((eq_bytes_iff a d.advisory_id).0 e, IsIn-snoc_new d group)
    by_test ih false e = inr ih

pub Held-add_to_group :
    (c d : Candidate) (gs : List (Bytes × List Candidate))
    → Held c (add_to_group d gs)
    → (c ≡ d) ⊎ Held c gs
unfolding add_to_group
Held-add_to_group c d [] (inl (e, inl i)) = inl i
Held-add_to_group c d [] (inl (e, inr i)) = elim i [ ]
Held-add_to_group c d [] (inr h) = elim h [ ]
Held-add_to_group c d ((a, group) ∷ gs) h =
    by_test (Held-add_to_group c d gs) (eq_bytes a d.advisory_id) h
  where
    by_test :
        (Held c (add_to_group d gs) → (c ≡ d) ⊎ Held c gs)
        → (t : Bool)
        → Held c (if t then (a, group ++ d ∷ []) ∷ gs else (a, group) ∷ add_to_group d gs)
        → (c ≡ d) ⊎ (((a ≡ c.advisory_id) × IsIn c group) ⊎ Held c gs)
    by_test ih true (inl (e, i)) = elim (IsIn-snoc c d group i) [
      | inl q ↦ inl q
      | inr j ↦ inr (inl (e, j))
    ]
    by_test ih true (inr k) = inr (inr k)
    by_test ih false (inl x) = inr (inl x)
    by_test ih false (inr k) = elim (ih k) [ inl q ↦ inl q | inr j ↦ inr (inr j) ]
