-- ===== src/AuditChain/Attest.antt =====
-- internal/auditchain/chain.go: what a signed checkpoint says of the log.
use defendsec.Prelude.{
  ℕ, suc, ◌+◌, ◌≡◌, refl, sym, ◌∙◌, ◌↔◌, ◌⊎◌, Bool, true, Option, none, some, List, [], ◌∷◌, length,
  arith,
}
use defendsec.Prelude.Text.{Bytes, eq_bytes_iff}
use defendsec.AuditChain.{
  Entry, verify_from, verify, genesis, Checkpoint, verify_checkpoint, sign_checkpoint,
  canonical_checkpoint, verify_against_checkpoint, last_entry, reaches,
}
use defendsec.AuditChain.Verify.{
  Chain, verify_from_iff, Collision, final_hash, verify_from_tamper_evident,
}

-- The range is not empty and ends at the checkpoint's number and hash.
abbrev pub Reaches : Checkpoint → List Entry → Type 0
Reaches c [] = ⊥
Reaches c (e ∷ entries) =
    ((last_entry e entries).seq ≡ c.through_seq)
    × ((last_entry e entries).entry_hash ≡ c.entry_hash)

module _ (hash : Bytes → Bytes) (PublicKey : Type 0) (check : PublicKey → Bytes → Bytes → Bool)
    (decode : Bytes → Option Bytes) where
  reaches_iff :
      (c : Checkpoint) (entries : List Entry)
      → (reaches hash PublicKey check decode c entries ≡ none) ↔ Reaches c entries
  reaches_iff c [] = ground arith
  reaches_iff c (e ∷ entries) =
      ground (arith, eq_bytes_iff (last_entry e entries).entry_hash c.entry_hash)

  -- The signature is one in base64 that holds under the key for the checkpoint's signed form.
  abbrev pub IsSigned : PublicKey → Checkpoint → Type 0
  IsSigned key c =
      (raw : Bytes) × (decode c.signature ≡ some raw)
      × (check key (canonical_checkpoint c) raw ≡ true)

  verify_checkpoint_iff :
      (key : PublicKey) (c : Checkpoint)
      → (verify_checkpoint hash PublicKey check decode key c ≡ none) ↔ IsSigned key c
  unfolding verify_checkpoint
  verify_checkpoint_iff key c = by_decode (decode c.signature) refl
    where
      by_decode :
          (o : Option Bytes)
          → decode c.signature ≡ o
          → (verify_checkpoint hash PublicKey check decode key c ≡ none) ↔ IsSigned key c
      by_decode none e = (λ h. ground (arith, e, h), λ (raw, d, h). absurd (ground (arith, e, d)))
      by_decode (some raw) e =
          (λ h. (raw, e, ground (arith, e, h)), λ (x, d, h). ground (arith, e, d, h))

  -- VerifyAgainstCheckpoint accepts exactly if the checkpoint's signature decodes to one that holds
  -- under the key for the checkpoint's signed form, the range is chained onto `prev`, and the range is
  -- not empty and ends at the checkpoint's number and hash.
  pub verify_against_checkpoint_iff :
      (key : PublicKey) (prev : Bytes) (entries : List Entry) (c : Checkpoint)
      → (verify_against_checkpoint hash PublicKey check decode key prev entries c ≡ none)
        ↔ (IsSigned key c × Chain hash none prev entries × Reaches c entries)
  unfolding verify_against_checkpoint
  verify_against_checkpoint_iff key prev entries c =
      ground (
        arith,
        verify_checkpoint_iff key c,
        verify_from_iff hash prev entries,
        reaches_iff c entries,
      )

verify_checkpoint-accepts :
    (hash : Bytes → Bytes) (PublicKey : Type 0) (check : PublicKey → Bytes → Bytes → Bool)
    (decode : Bytes → Option Bytes) (key : PublicKey) (c : Checkpoint) (raw : Bytes)
    → decode c.signature ≡ some raw
    → check key (canonical_checkpoint c) raw ≡ true
    → verify_checkpoint hash PublicKey check decode key c ≡ none
unfolding verify_checkpoint
verify_checkpoint-accepts hash PublicKey check decode key c raw d e =
    rw (d, verify_checkpoint) (rw e refl)

-- A checkpoint that SignCheckpoint has signed is accepted by VerifyCheckpoint, if what the private
-- key signs holds under the public key and base64 decodes what it encodes.
pub verify_checkpoint-sign_checkpoint :
    (PublicKey : Type 0) (check : PublicKey → Bytes → Bytes → Bool) (decode : Bytes → Option Bytes)
    (sign encode : Bytes → Bytes) (key : PublicKey) (c : Checkpoint)
    → ((m : Bytes) → check key m (sign m) ≡ true)
    → ((m : Bytes) → decode (encode m) ≡ some m)
    → (hash : Bytes → Bytes)
    → verify_checkpoint hash PublicKey check decode key (sign_checkpoint sign encode c) ≡ none
unfolding sign_checkpoint canonical_checkpoint
verify_checkpoint-sign_checkpoint PublicKey check decode sign encode key c signed coded hash =
    verify_checkpoint-accepts hash PublicKey check decode key (sign_checkpoint sign encode c)
      (sign (canonical_checkpoint c)) (coded (sign (canonical_checkpoint c)))
      (signed (canonical_checkpoint c))

last-Chain :
    (hash : Bytes → Bytes) (l : Option ℕ) (p : Bytes) (e : Entry) (entries : List Entry)
    → Chain hash l p (e ∷ entries)
    → ((last_entry e entries).seq ≡ e.seq + length entries)
      × ((last_entry e entries).entry_hash ≡ final_hash p (e ∷ entries))
unfolding last_entry
last-Chain hash l p e [] h = (omega arith, refl)
last-Chain hash l p e (f ∷ entries) (_, _, _, c) =
    let (s, t) = last-Chain hash (some e.seq) e.entry_hash f entries c in
    let next : f.seq ≡ suc e.seq = c.0 in (omega arith, t)

verify-first :
    (hash : Bytes → Bytes) (e : Entry) (entries : List Entry)
    → verify hash (e ∷ entries) ≡ none
    → (e.seq ≡ 1) × (verify_from hash genesis (e ∷ entries) ≡ none)
unfolding verify
verify-first hash e entries h = ground arith

module _ (hash : Bytes → Bytes) (w : ℕ) (sized : (m : Bytes) → length (hash m) ≡ w)
    (PublicKey : Type 0) (check : PublicKey → Bytes → Bytes → Bool)
    (decode : Bytes → Option Bytes) where
  -- A checkpoint fixes the log up to it: two logs that Verify accepts, and that are accepted against
  -- one checkpoint from the beginning of the chain, are the same log, or else a collision of the hash
  -- is at hand.
  pub checkpoint_fixes_log :
      (key : PublicKey) (c : Checkpoint) (es fs : List Entry)
      → verify hash es ≡ none
      → verify hash fs ≡ none
      → verify_against_checkpoint hash PublicKey check decode key genesis es c ≡ none
      → verify_against_checkpoint hash PublicKey check decode key genesis fs c ≡ none
      → (es ≡ fs) ⊎ Collision hash
  checkpoint_fixes_log key c [] fs v u h k =
      absurd ((verify_against_checkpoint_iff hash PublicKey check decode key genesis [] c).0 h).2
  checkpoint_fixes_log key c (e ∷ es) [] v u h k =
      absurd ((verify_against_checkpoint_iff hash PublicKey check decode key genesis [] c).0 k).2
  checkpoint_fixes_log key c (e ∷ es) (f ∷ fs) v u h k =
      let iff = verify_against_checkpoint_iff hash PublicKey check decode key genesis in
      let (_, chain_e, reach_e) = (iff (e ∷ es) c).0 h in
      let (_, chain_f, reach_f) = (iff (f ∷ fs) c).0 k in
      let (one_e, from_e) = verify-first hash e es v in
      let (one_f, from_f) = verify-first hash f fs u in
      let (last_e, final_e) = last-Chain hash none genesis e es chain_e in
      let (last_f, final_f) = last-Chain hash none genesis f fs chain_f in
      verify_from_tamper_evident hash w sized genesis (e ∷ es) (f ∷ fs) (omega arith) from_e from_f
        (sym final_e ∙ reach_e.1 ∙ sym reach_f.1 ∙ final_f)
