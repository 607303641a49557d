-- ===== src/Vuln/Match/Attach/Attached.antt =====
-- internal/vuln/match.go, Match: which ranges are attached to a package.
use defendsec.Prelude.{
  ℕ, ◌≡◌, refl, sym, ◌∙◌, ap, Bool, true, false, not, ◌||◌, Option, none, some, List, [], ◌∷◌,
  if◌then◌else◌, get_elem?, arith, inl, inr, ◌↔◌, Bool-cases, ◌==◌,
}
use defendsec.Prelude.Text.{Bytes, eq_bytes, eq_bytes_iff, is_empty}
use defendsec.Vuln.Match.{Package, Candidate, range_applies_to}
use defendsec.Vuln.Match.Attach.Groups.{Held, add_to_group-old, add_to_group-new, Held-add_to_group}
use defendsec.Vuln.Match.Attach.Indices.{indices_where_found, indices_where_sound}
use defendsec.Vuln.Match.Attach.{
  Work, new_work, indices_where, is_under_source, is_under_name, by_source, by_name, is_seen,
  add_to_group, add_range, attach, attach_all,
}

-- Some index that the lookups of the package find: by its source, or by its own name.
abbrev pub is_looked_up : Package → Candidate → Bool
is_looked_up p c = not (is_empty c.source_package) || eq_bytes c.package_name p.name

-- The range is one of those, is looked up and applies.
abbrev pub Applies : List Candidate → Package → Candidate → Type 0
Applies cands p c =
    (j : ℕ) × (get_elem? cands j ≡ some c)
    × (is_looked_up p c ≡ true)
    × (range_applies_to c p ≡ true)

module _ (cands : List Candidate) (p : Package) where
  record Good (seen : List ℕ) (w : Work) : Type 0 where
    same : w.pkg ≡ p
    sound : (c : Candidate) → Held c w.by_adv → Applies cands p c
    kept :
        (j : ℕ) (c : Candidate)
        → is_seen j seen ≡ true
        → get_elem? cands j ≡ some c
        → range_applies_to c p ≡ true
        → Held c w.by_adv

  abbrev Looked : List ℕ → Type 0
  Looked idx =
      (i : ℕ) (c : Candidate)
      → is_seen i idx ≡ true
      → get_elem? cands i ≡ some c
      → is_looked_up p c ≡ true

  past-Good :
      (seen : List ℕ) (w : Work) (i : ℕ)
      → get_elem? cands i ≡ none
      → Good seen w
      → Good (i ∷ seen) w
  unfolding is_seen
  past-Good seen w i e g = record {
    same = g.same;
    sound = g.sound;
    kept = λ j c s q a. elim (Bool-cases (j == i)) [
      | inl here ↦ let at : j ≡ i = ground arith in cc
      | inr other ↦ g.kept j c (ground arith) q a
    ];
  }

  add_range-Good :
      (seen : List ℕ) (w : Work) (i : ℕ) (d : Candidate)
      → get_elem? cands i ≡ some d
      → is_looked_up p d ≡ true
      → Good seen w
      → Good (i ∷ seen) (add_range d w)
  unfolding add_range is_seen
  add_range-Good seen w i d e look g = by_test (range_applies_to d w.pkg) refl
    where
      own : range_applies_to d w.pkg ≡ range_applies_to d p
      own = ap (range_applies_to d) g.same

      by_test :
          (t : Bool)
          → range_applies_to d w.pkg ≡ t
          → Good
              (i ∷ seen)
              (if t then record w { mapped = true; by_adv = add_to_group d w.by_adv } else w)
      by_test true h = record {
        same = g.same;
        sound = λ c k. elim (Held-add_to_group c d w.by_adv k) [
          | inl q ↦ rw q (i, e, look, sym own ∙ h)
          | inr old ↦ g.sound c old
        ];
        kept = λ j c s q a. elim (Bool-cases (j == i)) [
          | inl here ↦
              let at : j ≡ i = ground arith in
              let it : c ≡ d = cc in rw it (add_to_group-new d w.by_adv)
          | inr other ↦ add_to_group-old c d w.by_adv (g.kept j c (ground arith) q a)
        ];
      }
      by_test false h = record {
        same = g.same;
        sound = g.sound;
        kept = λ j c s q a. elim (Bool-cases (j == i)) [
          | inl here ↦
              let at : j ≡ i = ground arith in
              let it : c ≡ d = cc in
              let no_way : range_applies_to d p ≡ true =
                ap (λ x. range_applies_to x p) (sym it) ∙ a in
              cc
          | inr other ↦ g.kept j c (ground arith) q a
        ];
      }

  -- What a call of attach leads to: the state is good, and no index is forgotten or passed over.
  Leads : List ℕ → List ℕ → List ℕ × Work → Type 0
  Leads seen idx s =
      Good s.0 s.1 × ((j : ℕ) → is_seen j seen || is_seen j idx ≡ true → is_seen j s.0 ≡ true)

  attach-Good :
      (idx : List ℕ) (seen : List ℕ) (w : Work)
      → Looked idx
      → Good seen w
      → Leads seen idx (attach cands idx (seen, w))
  unfolding attach Leads is_seen
  attach-Good [] seen w look g = (g, λ j s. ground arith)
  attach-Good (i ∷ idx) seen w look g =
      by_range (λ seen' w' g'. attach-Good idx seen' w' later g') (get_elem? cands i) refl
    where
      later : Looked idx
      later j c s e = look j c (ground arith) e

      by_range :
          ((seen' : List ℕ) (w' : Work)
            → Good seen' w'
            → Leads seen' idx (attach cands idx (seen', w')))
          → (o : Option Candidate) → get_elem? cands i ≡ o
          → Leads seen (i ∷ idx) (elim o [
            | none ↦ attach cands idx (i ∷ seen, w)
            | some c ↦
                attach cands idx (if is_seen i seen then (seen, w) else (i ∷ seen, add_range c w))
          ])
      by_range ih none e =
          let (good, grows) = ih (i ∷ seen) w (past-Good seen w i e g) in
          (good, λ j s. grows j (ground arith))
      by_range ih (some c) e = elim (Bool-cases (is_seen i seen)) [
        | inl before ↦
            let (good, grows) = ih seen w g in rw before (good, λ j s. grows j (ground arith))
        | inr new ↦
            let start = add_range-Good seen w i c e (look i c (ground arith) e) g in
            let (good, grows) = ih (i ∷ seen) (add_range c w) start in
            rw new (good, λ j s. grows j (ground arith))
      ]

module _ (cands : List Candidate) (p : Package) where
  Looked-indices :
      (test : Candidate → Bool)
      → ((c : Candidate) → test c ≡ true → is_looked_up p c ≡ true)
      → Looked cands p (indices_where test 0 cands)
  Looked-indices test implies i c s e =
      let (j, d, at, q, h) = indices_where_sound test 0 i cands s in
      let same_index : j ≡ i = omega arith in
      let same : d ≡ c = cc in implies c (ap test (sym same) ∙ h)

  source-Looked : (key : Bytes) → Looked cands p (by_source cands key)
  unfolding by_source
  source-Looked key = Looked-indices (is_under_source key) (λ c h. ground arith)

  name-Looked : Looked cands p (by_name cands p.name)
  unfolding by_name
  name-Looked = Looked-indices (is_under_name p.name) (λ c h. ground arith)

  source-found :
      (key : Bytes) (j : ℕ) (c : Candidate)
      → get_elem? cands j ≡ some c
      → is_empty c.source_package ≡ false
      → eq_bytes c.source_package key ≡ true
      → is_seen j (by_source cands key) ≡ true
  unfolding by_source
  source-found key j c e n h =
      let found = indices_where_found (is_under_source key) 0 j c cands e (ground arith) in
      ground (arith, found)

  name-found :
      (j : ℕ) (c : Candidate)
      → get_elem? cands j ≡ some c
      → is_empty p.name ≡ false
      → eq_bytes c.package_name p.name ≡ true
      → is_seen j (by_name cands p.name) ≡ true
  unfolding by_name is_empty
  name-found j c e n h =
      let q = (eq_bytes_iff c.package_name p.name).0 h in
      let named : is_empty c.package_name ≡ false = ap is_empty q ∙ n in
      let found = indices_where_found (is_under_name p.name) 0 j c cands e (ground arith) in
      ground (arith, found)

  fresh-Good : Good cands p [] (new_work p)
  unfolding new_work is_seen
  fresh-Good = record { same = refl; sound = λ c h. elim h [ ]; kept = λ j c s q a. cc }

  End : Work → Type 0
  End w = (c : Candidate) → Held c w.by_adv ↔ Applies cands p c

  with_source :
      is_empty p.source_package ≡ false
      → is_empty p.name ≡ false
      → End (
          (attach cands
            (by_name cands p.name)
            (attach cands (by_source cands p.source_package) ([], new_work p))).1)
  unfolding End Leads range_applies_to is_seen
  with_source s n =
      let idx = by_source cands p.source_package in
      let one = attach cands idx ([], new_work p) in
      let (g1, grows1) =
        attach-Good cands p idx [] (new_work p) (source-Looked p.source_package) fresh-Good in
      let (g2, grows2) = attach-Good cands p (by_name cands p.name) one.0 one.1 name-Looked g1 in
      λ c. (
        g2.sound c,
        λ (j, e, look, a).
            g2.kept j c
              (elim (Bool-cases (is_empty c.source_package)) [
                | inl bare ↦ let at = name-found j c e n (ground arith) in grows2 j (ground arith)
                | inr keyed ↦
                    let at = source-found p.source_package j c e keyed (ground arith) in
                    let in_one = grows1 j (ground arith) in grows2 j (ground arith)
              ])
              e a,
      )

  without_source :
      is_empty p.source_package ≡ true
      → is_empty p.name ≡ false
      → End (
          (attach cands
            (by_source cands p.name)
            (attach cands (by_name cands p.name) ([], new_work p))).1)
  unfolding End Leads range_applies_to is_seen
  without_source s n =
      let one = attach cands (by_name cands p.name) ([], new_work p) in
      let (g1, grows1) =
        attach-Good cands p (by_name cands p.name) [] (new_work p) name-Looked fresh-Good in
      let (g2, grows2) =
        attach-Good cands p (by_source cands p.name) one.0 one.1 (source-Looked p.name) g1 in
      λ c. (
        g2.sound c,
        λ (j, e, look, a).
            g2.kept j c
              (elim (Bool-cases (eq_bytes c.package_name p.name)) [
                | inl named ↦
                    let at = name-found j c e n named in
                    let in_one = grows1 j (ground arith) in grows2 j (ground arith)
                | inr other ↦
                    let at = source-found p.name j c e (ground arith) (ground arith) in
                    grows2 j (ground arith)
              ])
              e a,
      )

  attach_all-End : is_empty p.name ≡ false → End (attach_all cands (new_work p))
  unfolding attach_all new_work
  attach_all-End n = elim (Bool-cases (is_empty p.source_package)) [
    | inl bare ↦ rw bare (without_source bare n)
    | inr keyed ↦ rw keyed (with_source keyed n)
  ]

  -- A range is in the group of its advisory exactly if it is among the ranges that the store
  -- returned, it applies to the package, and it is looked up: it names a source package, or the
  -- package itself. The package has a name.
  pub attach_all_iff :
      is_empty p.name ≡ false
      → (c : Candidate) → Held c (attach_all cands (new_work p)).by_adv ↔ Applies cands p c
  unfolding End
  attach_all_iff n = attach_all-End n
