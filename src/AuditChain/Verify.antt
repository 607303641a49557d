-- ===== src/AuditChain/Verify.antt =====
-- internal/auditchain/chain.go: what VerifyFrom accepts, and that a log cannot be changed behind a
-- hash that has been published.
use defendsec.Prelude.{
  ℕ, suc, ◌≡◌, refl, sym, ◌∙◌, ap, ◌≢◌, ◌↔◌, ◌⊎◌, false, Option, none, some, List, [], ◌∷◌, ◌++◌,
  length, arith, Bool-cases, inl, inr,
}
use mathlib.Core.Path.{ap₂}
use defendsec.Prelude.Text.{Bytes, eq_bytes, eq_bytes_iff}
use defendsec.AuditChain.{Entry, canonical, compute_hash, jumped, verify_loop, verify_from}
use defendsec.Prelude.Decimal.{length_split}
use defendsec.AuditChain.Encoding.{SamePayload, canonical-injective}

abbrev pub Follows : Option ℕ → ℕ → Type 0
Follows none seq = Unit
Follows (some last) seq = seq ≡ suc last

module _ (hash : Bytes → Bytes) where
  -- Dense numbers, each entry carrying the hash of the one before it and its own.
  abbrev pub Chain : Option ℕ → Bytes → List Entry → Type 0
  Chain last prev [] = Unit
  Chain last prev (e ∷ entries) =
      Follows last e.seq
      × (e.prev_hash ≡ prev)
      × (e.entry_hash ≡ compute_hash hash prev e)
      × Chain (some e.seq) e.entry_hash entries

  jumped-Follows : (last : Option ℕ) (seq : ℕ) → (jumped hash last seq ≡ false) ↔ Follows last seq
  jumped-Follows none seq = ground arith
  jumped-Follows (some l) seq = ground arith

  verify_loop→Chain :
      (last : Option ℕ) (prev : Bytes) (entries : List Entry)
      → verify_loop hash last prev entries ≡ none
      → Chain last prev entries
  unfolding verify_loop
  verify_loop→Chain last prev [] h = tt
  verify_loop→Chain last prev (e ∷ entries) h = ground (
    arith,
    jumped-Follows last e.seq,
    eq_bytes_iff e.prev_hash prev,
    eq_bytes_iff e.entry_hash (compute_hash hash prev e),
    verify_loop→Chain (some e.seq) e.entry_hash entries,
  )

  Chain→verify_loop :
      (last : Option ℕ) (prev : Bytes) (entries : List Entry)
      → Chain last prev entries
      → verify_loop hash last prev entries ≡ none
  unfolding verify_loop
  Chain→verify_loop last prev [] h = refl
  Chain→verify_loop last prev (e ∷ entries) h = ground (
    arith,
    jumped-Follows last e.seq,
    eq_bytes_iff e.prev_hash prev,
    eq_bytes_iff e.entry_hash (compute_hash hash prev e),
    Chain→verify_loop (some e.seq) e.entry_hash entries h.3,
  )

  -- VerifyFrom reports no error exactly on the ranges that are chained onto `prev`.
  pub verify_from_iff :
      (prev : Bytes) (entries : List Entry)
      → (verify_from hash prev entries ≡ none) ↔ Chain none prev entries
  unfolding verify_from
  verify_from_iff prev entries =
      (verify_loop→Chain none prev entries, Chain→verify_loop none prev entries)

abbrev pub Collision : (Bytes → Bytes) → Type 0
Collision hash = (x : Bytes) × (y : Bytes) × (x ≢ y) × (hash x ≡ hash y)

-- The hash that a range ends with.
abbrev pub final_hash : Bytes → List Entry → Bytes
final_hash prev [] = prev
final_hash prev (e ∷ entries) = final_hash e.entry_hash entries

same_entry :
    (e f : Entry)
    → SamePayload e f
    → e.prev_hash ≡ f.prev_hash
    → e.entry_hash ≡ f.entry_hash
    → e ≡ f
same_entry e f h p q = ground arith

module _ (hash : Bytes → Bytes) (w : ℕ) (sized : (m : Bytes) → length (hash m) ≡ w) where
  -- Two messages with one hash are one message, or a collision.
  same_message : (x y : Bytes) → hash x ≡ hash y → (x ≡ y) ⊎ Collision hash
  same_message x y h = elim (Bool-cases (eq_bytes x y)) [
    | inl same ↦ inl ((eq_bytes_iff x y).0 same)
    | inr other ↦ inr (x, y, (λ e. cc ((eq_bytes_iff x y).1 e)), h)
  ]

  module _ (e f : Entry) (p q : Bytes) (sp : length p ≡ length q)
      (he : e.entry_hash ≡ hash (p ++ canonical e)) (hf : f.entry_hash ≡ hash (q ++ canonical f))
      (pe : e.prev_hash ≡ p) (pf : f.prev_hash ≡ q) (same : e.entry_hash ≡ f.entry_hash) where
    one_entry : (((p ≡ q) × (e ≡ f))) ⊎ Collision hash
    one_entry = elim (same_message (p ++ canonical e) (q ++ canonical f) (sym he ∙ same ∙ hf)) [
      | inr c ↦ inr c
      | inl m ↦
          let (pq, cef) = length_split p q (canonical e) (canonical f) sp m in
          inl (pq, same_entry e f (canonical-injective e f cef) (pe ∙ pq ∙ sym pf) same)
    ]

  chains_or_Collision :
      (l k : Option ℕ) (p q : Bytes) (es fs : List Entry)
      → length p ≡ length q
      → length es ≡ length fs
      → Chain hash l p es
      → Chain hash k q fs
      → final_hash p es ≡ final_hash q fs
      → ((p ≡ q) × (es ≡ fs)) ⊎ Collision hash
  unfolding compute_hash
  chains_or_Collision l k p q [] [] sp sl c d h = inl (h, refl)
  chains_or_Collision l k p q [] (f ∷ fs) sp sl c d h = absurd (omega arith)
  chains_or_Collision l k p q (e ∷ es) [] sp sl c d h = absurd (omega arith)
  chains_or_Collision l k p q (e ∷ es) (f ∷ fs) sp sl (_, pe, he, ce) (_, pf, hf, cf) h =
      let ih =
        chains_or_Collision (some e.seq) (some f.seq) e.entry_hash f.entry_hash es fs
          (ap length he
            ∙ sized (p ++ canonical e)
            ∙ sym (sized (q ++ canonical f))
            ∙ sym (ap length hf))
          (omega arith) ce cf h in
      elim ih [
        | inr x ↦ inr x
        | inl (same, rest) ↦ elim (one_entry e f p q sp he hf pe pf same) [
          | inr x ↦ inr x
          | inl (pq, ef) ↦ inl (pq, ap₂ ◌∷◌ ef rest)
        ]
      ]

  -- Two ranges of one length that VerifyFrom accepts after one hash and that end with one hash are
  -- the same entries, or else a collision of the hash is at hand.
  pub verify_from_tamper_evident :
      (prev : Bytes) (es fs : List Entry)
      → length es ≡ length fs
      → verify_from hash prev es ≡ none
      → verify_from hash prev fs ≡ none
      → final_hash prev es ≡ final_hash prev fs
      → (es ≡ fs) ⊎ Collision hash
  verify_from_tamper_evident prev es fs l c d h =
      elim (chains_or_Collision none none prev prev es fs refl l
        ((verify_from_iff hash prev es).0 c) ((verify_from_iff hash prev fs).0 d) h) [
          | inl (_, same) ↦ inl same
          | inr x ↦ inr x
        ]
