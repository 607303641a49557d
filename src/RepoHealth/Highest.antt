-- ===== src/RepoHealth/Highest.antt =====
-- internal/repohealth/assess.go: the problems of one repository, the most severe of them, and what
-- is advised.
use defendsec.Prelude.{
  ◌≡◌, refl, ap, sym, ◌∙◌, Bool, true, false, not, ◌&&◌, ◌||◌, Option, none, some, List, [], ◌∷◌,
  if◌then◌else◌, ◌⊎◌, inl, inr, ◌↔◌, arith,
}
use defendsec.Prelude.Sort.{Among}
use defendsec.Prelude.Text.{Bytes, eq_bytes, eq_bytes_iff}
use defendsec.RepoHealth.{Problem, high}

-- ForRepo
unfoldable pub for_repo : Bytes → List Problem → List Problem
unfolding eq_bytes
for_repo id [] = []
for_repo id (p ∷ ps) = let rest = for_repo id ps in if eq_bytes p.repo_id id then p ∷ rest else rest

-- The loop of Highest: `none` is not found.
unfoldable pub highest_from : Option Problem → List Problem → Option Problem
unfolding eq_bytes
highest_from best [] = best
highest_from none (p ∷ ps) = highest_from (some p) ps
highest_from (some b) (p ∷ ps) =
    highest_from
      (some (if eq_bytes p.severity high && not (eq_bytes b.severity high) then p else b)) ps

unfoldable pub highest : List Problem → Option Problem
unfolding highest_from
highest ps = highest_from none ps

abbrev pub is_high : Problem → Bool
is_high p = eq_bytes p.severity high

abbrev pub any_high : List Problem → Bool
any_high [] = false
any_high (p ∷ ps) = is_high p || any_high ps

-- From a best problem the loop ends with it or one of the list, and with one that is high if it or
-- one of the list is.
Best : Problem → List Problem → Option Problem → Type 0
Best b ps found =
    (p : Problem) × (found ≡ some p)
    × ((p ≡ b) ⊎ Among p ps)
    × (is_high p ≡ (is_high b || any_high ps))

highest_from-Best : (b : Problem) (ps : List Problem) → Best b ps (highest_from (some b) ps)
unfolding highest_from Best
highest_from-Best b [] = (b, refl, inl refl, ground arith)
highest_from-Best b (q ∷ ps) =
    by_test (highest_from-Best q ps) (highest_from-Best b ps) (is_high q) (is_high b) refl refl
  where
    by_test :
        Best q ps (highest_from (some q) ps)
        → Best b ps (highest_from (some b) ps)
        → (t u : Bool) → is_high q ≡ t
        → is_high b ≡ u
        → Best b (q ∷ ps) (highest_from (some (if t && not u then q else b)) ps)
    by_test (p, e, i, h) other true false eq eb =
        (p, e, elim i [ inl f ↦ inr (inl f) | inr j ↦ inr (inr j) ], ground arith)
    by_test other (p, e, i, h) true true eq eb =
        (p, e, elim i [ inl f ↦ inl f | inr j ↦ inr (inr j) ], ground arith)
    by_test other (p, e, i, h) false u eq eb =
        (p, e, elim i [ inl f ↦ inl f | inr j ↦ inr (inr j) ], ground arith)

-- What a repository has is a problem with its id, and each of them.
pub for_repo_iff :
    (id : Bytes) (p : Problem) (ps : List Problem)
    → Among p (for_repo id ps) ↔ ((p.repo_id ≡ id) × Among p ps)
unfolding for_repo
for_repo_iff id p [] = (λ i. absurd i, λ i. absurd i.1)
for_repo_iff id p (q ∷ ps) = by_test (for_repo_iff id p ps) (eq_bytes q.repo_id id) refl
  where
    by_test :
        (Among p (for_repo id ps) ↔ ((p.repo_id ≡ id) × Among p ps))
        → (t : Bool) → eq_bytes q.repo_id id ≡ t
        → Among p (if t then q ∷ for_repo id ps else for_repo id ps)
          ↔ ((p.repo_id ≡ id) × ((p ≡ q) ⊎ Among p ps))
    by_test ih true e = (
      λ i. elim i [
        | inl f ↦ (ap (λ (x : Problem). x.repo_id) f ∙ (eq_bytes_iff q.repo_id id).0 e, inl f)
        | inr j ↦ let (a, b) = ih.0 j in (a, inr b)
      ],
      λ (a, i). elim i [ inl f ↦ inl f | inr j ↦ inr (ih.1 (a, j)) ],
    )
    by_test ih false e = (
      λ i. let (a, b) = ih.0 i in (a, inr b),
      λ (a, i). elim i [
        | inl f ↦
            let own = (eq_bytes_iff q.repo_id id).1 (ap (λ (x : Problem). x.repo_id) (sym f) ∙ a) in
            cc
        | inr j ↦ ih.1 (a, j)
      ],
    )

-- The finding of a repository is made of its most severe problem: of a list that is not empty Highest
-- finds one of the list, and one of high severity exactly if there is such a one.
pub highest_severe :
    (p : Problem) (ps : List Problem)
    → (q : Problem) × (highest (p ∷ ps) ≡ some q)
      × Among q (p ∷ ps)
      × (is_high q ≡ any_high (p ∷ ps))
unfolding highest highest_from Best
highest_severe p ps = highest_from-Best p ps
