-- ===== src/AuditChain.antt =====
-- internal/auditchain/chain.go: the hash chain of the audit log. A time is the text to which the
-- source renders it before it hashes it, and a sequence number is not negative and does not reach
-- 2^63. SHA-256 in hexadecimal, the check of an Ed25519 signature and the decoding of base64 are
-- parameters.
pub mod Encoding
pub mod Verify
pub mod Attest
pub mod Tests
use defendsec.Prelude.{
  ℕ, zero, suc, ◌+◌, ◌/◌, ◌%◌, Bool, true, false, not, Option, none, some, List, [], ◌∷◌, ◌++◌,
  length, if◌then◌else◌, ltb, ◌==◌,
}
use defendsec.Prelude.Text.{Bytes, codes, eq_bytes, decimal}

abbrev pub domain : Bytes
domain = codes "defendsec-audit-v1"

abbrev pub checkpoint_domain : Bytes
checkpoint_domain = codes "defendsec-audit-checkpoint-v1"

abbrev pub genesis : Bytes
genesis = []

pub record Entry : Type 0 where
  pub seq : ℕ
  pub at : Bytes
  pub actor : Bytes
  pub action : Bytes
  pub device_id : Bytes
  pub detail : Bytes
  pub prev_hash : Bytes
  pub entry_hash : Bytes

-- writeField: what it appends, before what is appended later.
unfoldable pub write_field : Bytes → Bytes → Bytes
write_field s rest = decimal (length s) ++ b':' ∷ (s ++ 10 ∷ rest)

unfoldable pub canonical : Entry → Bytes
canonical e =
    domain
    ++ 10
      ∷ write_field (decimal e.seq) (
          write_field e.at (
            write_field e.actor
              (write_field e.action (write_field e.device_id (write_field e.detail [])))))

pub record TamperError : Type 0 where
  pub seq : ℕ
  pub actor : Bytes
  pub action : Bytes
  pub at : Bytes
  pub reason : Bytes

abbrev pub tampered : Entry → Bytes → TamperError
tampered e reason = record {
  seq = e.seq;
  actor = e.actor;
  action = e.action;
  at = e.at;
  reason = reason;
}

pub record Checkpoint : Type 0 where
  pub through_seq : ℕ
  pub entry_hash : Bytes
  pub at : Bytes
  pub signing_key_id : Bytes
  pub signature : Bytes

unfoldable pub canonical_checkpoint : Checkpoint → Bytes
canonical_checkpoint c =
    checkpoint_domain
    ++ 10
      ∷ write_field (decimal c.through_seq)
          (write_field c.entry_hash (write_field c.at (write_field c.signing_key_id [])))

-- `hash` is SHA-256 written in hexadecimal.
module _ (hash : Bytes → Bytes) where
  unfoldable pub compute_hash : Bytes → Entry → Bytes
  compute_hash prev e = hash (prev ++ canonical e)

  unfoldable pub link : Bytes → Entry → Entry
  link prev e = record e { prev_hash = prev; entry_hash = compute_hash prev e }

  -- Is the entry not the first, and its number not the next one?
  abbrev pub jumped : Option ℕ → ℕ → Bool
  jumped none seq = false
  jumped (some last) seq = not (seq == suc last)

  abbrev pub jump_reason : Option ℕ → Bytes
  jump_reason none = []
  jump_reason (some last) =
      codes "sequence jumped from " ++ (decimal last ++ codes ", so an entry was removed")

  -- The loop; `last` is none before the first entry.
  unfoldable pub verify_loop : Option ℕ → Bytes → List Entry → Option TamperError
  unfolding eq_bytes
  verify_loop last prev [] = none
  verify_loop last prev (e ∷ entries) =
      let rest = verify_loop (some e.seq) e.entry_hash entries in
      if jumped last e.seq
      then some (tampered e (jump_reason last))
      else (if not (eq_bytes e.prev_hash prev)
          then some (tampered e (codes "previous hash does not match the entry before it"))
          else (if not (eq_bytes e.entry_hash (compute_hash prev e))
              then some (
                  tampered e
                    (codes "entry hash does not match its contents, so the row was modified"))
              else rest))

  -- VerifyFrom; `none` is no error.
  unfoldable pub verify_from : Bytes → List Entry → Option TamperError
  unfolding verify_loop
  verify_from prev entries = verify_loop none prev entries

  unfoldable pub verify : List Entry → Option TamperError
  unfolding verify_from
  verify [] = none
  verify (e ∷ entries) =
      if not (e.seq == 1)
      then some (tampered e (codes "chain does not start at sequence 1"))
      else verify_from genesis (e ∷ entries)

-- SignCheckpoint, where `sign` is Ed25519 under the private key and `encode` is base64.
unfoldable pub sign_checkpoint : (Bytes → Bytes) → (Bytes → Bytes) → Checkpoint → Checkpoint
sign_checkpoint sign encode c = record c { signature = encode (sign (canonical_checkpoint c)) }

pub data CheckpointError : Type 0 where
  bad_base64 bad_signature : ℕ → CheckpointError
  wrong_range : ℕ → ℕ → CheckpointError
  broken : TamperError → CheckpointError

unfoldable pub last_entry : Entry → List Entry → Entry
last_entry e [] = e
last_entry e (e' ∷ entries) = last_entry e' entries

module _ (hash : Bytes → Bytes) (PublicKey : Type 0) (check : PublicKey → Bytes → Bytes → Bool)
    (decode : Bytes → Option Bytes) where
  unfoldable pub verify_checkpoint : PublicKey → Checkpoint → Option CheckpointError
  verify_checkpoint key c = elim (decode c.signature) [
    | none ↦ some (bad_base64 c.through_seq)
    | some raw ↦
        if not (check key (canonical_checkpoint c) raw)
        then some (bad_signature c.through_seq)
        else none
  ]

  abbrev pub reaches : Checkpoint → List Entry → Option CheckpointError
  reaches c [] = some (
      broken (record {
        seq = c.through_seq;
        actor = [];
        action = [];
        at = c.at;
        reason =
            codes "checkpoint attests the chain through sequence "
            ++ (decimal c.through_seq ++ codes ", but no entries were supplied");
      }))
  reaches c (e ∷ entries) =
      let last = last_entry e entries in
      if not (last.seq == c.through_seq)
      then some (wrong_range c.through_seq last.seq)
      else (if not (eq_bytes last.entry_hash c.entry_hash)
          then some (
              broken (
                tampered last
                  (codes "range does not reach the hash the signed checkpoint attests to")))
          else none)

  unfoldable pub verify_against_checkpoint :
      PublicKey → Bytes → List Entry → Checkpoint → Option CheckpointError
  unfolding verify_checkpoint last_entry eq_bytes
  verify_against_checkpoint key prev entries c = elim (verify_checkpoint key c) [
    | some err ↦ some err
    | none ↦ elim (verify_from hash prev entries) [
      | some err ↦ some (broken err)
      | none ↦ reaches c entries
    ]
  ]
