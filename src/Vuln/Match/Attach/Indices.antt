-- ===== src/Vuln/Match/Attach/Indices.antt =====
-- internal/vuln/match.go, Match: the indices under a key are those of the
-- ranges that have the key.
use defendsec.Prelude.{
  ℕ, zero, suc, ◌+◌, ◌≡◌, refl, Bool, true, false, some, List, [], ◌∷◌, if◌then◌else◌, get_elem?,
  arith, inl, inr, Bool-cases, ◌==◌,
}
use defendsec.Vuln.Match.{Candidate}
use defendsec.Vuln.Match.Attach.{indices_where, is_seen}

pub indices_where_found :
    (test : Candidate → Bool) (i j : ℕ) (c : Candidate) (cands : List Candidate)
    → get_elem? cands j ≡ some c
    → test c ≡ true
    → is_seen (i + j) (indices_where test i cands) ≡ true
unfolding indices_where is_seen
indices_where_found test i j c [] e h = cc
indices_where_found test i zero c (d ∷ cands) e h = let it : d ≡ c = cc in rw (it, h) (ground arith)
indices_where_found test i (suc j) c (d ∷ cands) e h =
    let later = indices_where_found test (suc i) j c cands e h in ground (arith, later)

pub indices_where_sound :
    (test : Candidate → Bool) (i k : ℕ) (cands : List Candidate)
    → is_seen k (indices_where test i cands) ≡ true
    → (j : ℕ) × (c : Candidate) × (k ≡ i + j) × (get_elem? cands j ≡ some c) × (test c ≡ true)
unfolding indices_where is_seen
indices_where_sound test i k [] h = cc
indices_where_sound test i k (d ∷ cands) h =
    by_test (indices_where_sound test (suc i) k cands) (test d) refl h
  where
    by_test :
        (is_seen k (indices_where test (suc i) cands) ≡ true
          → (j : ℕ) × (c : Candidate) × (k ≡ suc i + j)
            × (get_elem? cands j ≡ some c)
            × (test c ≡ true))
        → (t : Bool) → test d ≡ t
        → is_seen k
            (if t then i ∷ indices_where test (suc i) cands else indices_where test (suc i) cands)
          ≡ true
        → (j : ℕ) × (c : Candidate) × (k ≡ i + j)
          × (get_elem? (d ∷ cands) j ≡ some c)
          × (test c ≡ true)
    by_test ih true e s = elim (Bool-cases (k == i)) [
      | inl here ↦ (0, d, ground arith, refl, e)
      | inr other ↦ let (j, c, q, g, h) = ih (ground arith) in (suc j, c, omega arith, g, h)
    ]
    by_test ih false e s = let (j, c, q, g, h) = ih s in (suc j, c, omega arith, g, h)
