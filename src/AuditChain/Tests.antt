-- ===== src/AuditChain/Tests.antt =====
-- internal/auditchain/chain.go: a log of two entries under a small hash of constant length.
use defendsec.Prelude.{ℕ, ◌+◌, ◌*◌, ◌%◌, ◌≡◌, refl, ◌↔◌, ◌⊎◌, Bool, none, some, List, [], ◌∷◌}
use defendsec.Prelude.Text.{decimal, Bytes, codes, eq_bytes}
use defendsec.AuditChain.{
  Entry, Checkpoint, link, canonical, write_field, genesis, compute_hash, verify_from, verify,
  verify_checkpoint, verify_against_checkpoint, sign_checkpoint, canonical_checkpoint, last_entry,
  bad_signature,
}
use defendsec.AuditChain.Encoding.{SamePayload, canonical-injective}
use defendsec.AuditChain.Verify.{Chain, verify_from_iff, Collision, verify_from_tamper_evident}
use defendsec.AuditChain.Attest.{
  IsSigned, Reaches, verify_against_checkpoint_iff, checkpoint_fixes_log,
}

-- A polynomial in the bytes, modulo a prime.
abbrev checksum : ℕ → Bytes → ℕ
checksum acc [] = acc
checksum acc (c ∷ s) = checksum ((acc * 31 + c) % 65521) s

abbrev hash : Bytes → Bytes
hash m = checksum 1 m ∷ []

abbrev unlinked : ℕ → Bytes → Entry
unlinked seq action = record {
  seq = seq;
  at = codes "2026-01-01T00:00:00Z";
  actor = codes "admin";
  action = action;
  device_id = [];
  detail = [];
  prev_hash = [];
  entry_hash = [];
}

abbrev first : Entry
first = link hash genesis (unlinked 1 (codes "login"))

abbrev second : Entry
second = link hash first.entry_hash (unlinked 2 (codes "lock"))

abbrev log : List Entry
log = first ∷ second ∷ []

data Key : Type 0 where
  server_key : Key

-- A signature is the hash of the message.
abbrev toy_check : Key → Bytes → Bytes → Bool
toy_check key m signature = eq_bytes signature (hash m)

abbrev unsigned_checkpoint : Checkpoint
unsigned_checkpoint = record {
  through_seq = 2;
  entry_hash = second.entry_hash;
  at = codes "2026-01-01T01:00:00Z";
  signing_key_id = codes "k1";
  signature = [];
}

abbrev checkpoint : Checkpoint
checkpoint = sign_checkpoint hash (λ s. s) unsigned_checkpoint

log_valid : verify hash log ≡ none
unfolding verify link compute_hash canonical write_field decimal
log_valid = refl

log_from_genesis : verify_from hash genesis log ≡ none
unfolding verify_from link compute_hash canonical write_field decimal
log_from_genesis = refl

log_attested :
    verify_against_checkpoint hash Key toy_check some server_key genesis log checkpoint ≡ none
unfolding verify_against_checkpoint verify_checkpoint verify_from link compute_hash canonical
    write_field decimal eq_bytes sign_checkpoint canonical_checkpoint last_entry
log_attested = refl

-- Without a signature it is refused.
unsigned_refused :
    verify_checkpoint hash Key toy_check some server_key unsigned_checkpoint
    ≡ some (bad_signature 2)
unfolding verify_checkpoint canonical_checkpoint write_field decimal link compute_hash canonical
    eq_bytes
unsigned_refused = refl

canonical-injective_example : SamePayload first first
canonical-injective_example = canonical-injective first first refl

verify_from_iff_example : (verify_from hash genesis log ≡ none) ↔ Chain hash none genesis log
verify_from_iff_example = verify_from_iff hash genesis log

verify_from_tamper_evident_example : (log ≡ log) ⊎ Collision hash
verify_from_tamper_evident_example =
    verify_from_tamper_evident hash 1 (λ m. refl) genesis log log refl log_from_genesis
      log_from_genesis refl

verify_against_checkpoint_iff_example :
    (verify_against_checkpoint hash Key toy_check some server_key genesis log checkpoint ≡ none) ↔ (
      IsSigned hash Key toy_check some server_key checkpoint
      × Chain hash none genesis log
      × Reaches checkpoint log)
verify_against_checkpoint_iff_example =
    verify_against_checkpoint_iff hash Key toy_check some server_key genesis log checkpoint

checkpoint_fixes_log_example : (log ≡ log) ⊎ Collision hash
checkpoint_fixes_log_example =
    checkpoint_fixes_log hash 1 (λ m. refl) Key toy_check some server_key checkpoint log log
      log_valid log_valid log_attested log_attested
