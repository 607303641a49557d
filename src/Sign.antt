-- ===== src/Sign.antt =====
-- internal/sign/sign.go and ack.go: signed commands, signed acknowledgements and signed messages. The
-- checks of signatures, SHA-256 and base64 are parameters. Times are seconds, far inside 64 bits, so
-- that no sum of them wraps around. Keys and their files are not modelled.
pub mod Forms
pub mod Window
mod Tests
use defendsec.Prelude.{
  ℕ, ◌+◌, Bool, true, false, not, ◌&&◌, Option, none, some, List, [], ◌∷◌, ◌++◌, length,
  if◌then◌else◌, ◌==◌,
}
use defendsec.Prelude.Int.{ℤ, pos, negsuc, ltb_ℤ, ◌+ℤ◌, ◌-ℤ◌}
use defendsec.Prelude.Text.{Bytes, codes, is_empty, decimal}

abbrev pub command_domain : Bytes
command_domain = codes "defendsec-cmd-v1"

abbrev pub ack_domain : Bytes
ack_domain = codes "defendsec-ack-v1"

pub record Envelope : Type 0 where
  pub device_id : Bytes
  pub command_id : Bytes
  pub command_type : Bytes
  pub issued_unix : ℤ
  pub expires_unix : ℤ
  pub payload : Bytes

-- The text of an integer.
unfoldable pub integer : ℤ → Bytes
unfolding decimal
integer (pos n) = decimal n
integer (negsuc n) = b'-' ∷ decimal (n + 1)

abbrev pub new_line : ℕ
new_line = 10

-- Canonical
unfoldable pub canonical_command : Envelope → Bytes
unfolding integer
canonical_command e =
    command_domain
    ++ new_line
      ∷ (e.device_id
          ++ new_line
            ∷ (e.command_id
                ++ new_line
                  ∷ (e.command_type
                      ++ new_line
                        ∷ (integer e.issued_unix
                            ++ new_line ∷ (integer e.expires_unix ++ new_line ∷ e.payload)))))

pub data CommandError : Type 0 where
  unsigned_command invalid_signature command_expired issued_in_future too_old : CommandError
  not_base64 : CommandError

pub record AckEnvelope : Type 0 where
  pub command_id : Bytes
  pub device_id : Bytes
  pub accepted : Bool
  pub result_hash : Bytes
  pub executed_unix : ℤ

abbrev pub bool_text : Bool → Bytes
bool_text true = codes "true"
bool_text false = codes "false"

-- A field with its length, and what is written behind it.
unfoldable pub ack_field : Bytes → Bytes → Bytes
unfolding decimal
ack_field field rest = decimal (length field) ++ b':' ∷ (field ++ new_line ∷ rest)

-- CanonicalAck
unfoldable pub canonical_ack : AckEnvelope → Bytes
unfolding ack_field integer
canonical_ack e =
    ack_domain
    ++ new_line
      ∷ ack_field e.command_id (
          ack_field e.device_id (
            ack_field (bool_text e.accepted)
              (ack_field e.result_hash (ack_field (integer e.executed_unix) []))))

-- blobMessage
unfoldable pub blob_message : Bytes → Bytes → Bytes
unfolding decimal
blob_message domain msg = domain ++ new_line ∷ (decimal (length domain) ++ new_line ∷ msg)

-- `check key message signature`
module _ (check : Bytes → Bytes → Bytes → Bool) where
  -- Verify; `none` is no error.
  unfoldable pub verify_command : Bytes → Envelope → Bytes → ℤ → Option CommandError
  unfolding is_empty canonical_command ◌+ℤ◌ ◌-ℤ◌
  verify_command key e sig now =
      if is_empty sig
      then some unsigned_command
      else (if not (check key (canonical_command e) sig)
          then some invalid_signature
          else (if ltb_ℤ (pos 0) e.expires_unix && ltb_ℤ e.expires_unix now
              then some command_expired
              else (if ltb_ℤ (pos 0) e.issued_unix && ltb_ℤ (now +ℤ pos 60) e.issued_unix
                  then some issued_in_future
                  else (if ltb_ℤ (pos 0) e.issued_unix && ltb_ℤ (pos 300) (now -ℤ e.issued_unix)
                      then some too_old
                      else none))))

  -- VerifyStored: `decode` is the decoding of base64.
  unfoldable pub verify_stored :
      (Bytes → Option Bytes) → Bytes → Envelope → Bytes → Option CommandError
  unfolding canonical_command
  verify_stored decode key e sig = elim (decode sig) [
    | none ↦ some not_base64
    | some raw ↦ if not (check key (canonical_command e) raw) then some invalid_signature else none
  ]

  -- VerifyBlob
  unfoldable pub verify_blob : Bytes → Bytes → Bytes → Bytes → Bool
  unfolding blob_message
  verify_blob key domain msg sig =
      if not (length sig == 64) then false else check key (blob_message domain msg) sig

  -- VerifyAck: `digest` is SHA-256.
  unfoldable pub verify_ack : (Bytes → Bytes) → Bytes → AckEnvelope → Bytes → Bool
  unfolding is_empty canonical_ack
  verify_ack digest key e sig =
      if is_empty sig then false else check key (digest (canonical_ack e)) sig
