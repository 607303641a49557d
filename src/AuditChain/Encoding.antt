-- ===== src/AuditChain/Encoding.antt =====
-- internal/auditchain/chain.go: the hashed form of an entry determines its fields.
use defendsec.Prelude.{◌≡◌, refl, [], ◌∷◌, ◌++◌, length, arith}
use defendsec.Prelude.Text.{decimal, Bytes}
use defendsec.Prelude.Decimal.{NoDigit, cut_split, decimal-Without, decimal-injective, length_split}
use defendsec.AuditChain.{domain, write_field, canonical, Entry}

-- A digit is no colon.
colon-NoDigit : NoDigit b':'
colon-NoDigit d h e = omega arith

-- A field and what follows it are determined by the bytes written.
pub write_field-injective :
    (s t r q : Bytes) → write_field s r ≡ write_field t q → (s ≡ t) × (r ≡ q)
unfolding write_field
write_field-injective s t r q e =
    let (same_length, same_rest) =
      cut_split b':' (decimal (length s)) (decimal (length t)) (s ++ 10 ∷ r) (t ++ 10 ∷ q)
        (decimal-Without b':' (length s) colon-NoDigit)
        (decimal-Without b':' (length t) colon-NoDigit) e in
    let same_lengths = decimal-injective (length s) (length t) same_length in
    let (same, rest) = length_split s t (10 ∷ r) (10 ∷ q) same_lengths same_rest in
    (same, ground (arith, rest))

-- The fields that the hash covers.
abbrev pub SamePayload : Entry → Entry → Type 0
SamePayload e f =
    (e.seq ≡ f.seq)
    × (e.at ≡ f.at)
    × (e.actor ≡ f.actor)
    × (e.action ≡ f.action)
    × (e.device_id ≡ f.device_id)
    × (e.detail ≡ f.detail)

abbrev from_detail : Entry → Bytes
from_detail e = write_field e.detail []

abbrev from_device : Entry → Bytes
from_device e = write_field e.device_id (from_detail e)

abbrev from_action : Entry → Bytes
from_action e = write_field e.action (from_device e)

abbrev from_actor : Entry → Bytes
from_actor e = write_field e.actor (from_action e)

abbrev from_at : Entry → Bytes
from_at e = write_field e.at (from_actor e)

-- No two entries that differ in a field that is hashed have the same hashed form.
pub canonical-injective : (e f : Entry) → canonical e ≡ canonical f → SamePayload e f
unfolding canonical
canonical-injective e f h =
    let (_, h₀) =
      length_split (domain ++ 10 ∷ []) (domain ++ 10 ∷ []) (write_field (decimal e.seq) (from_at e))
        (write_field (decimal f.seq) (from_at f)) refl h in
    let (p₁, h₁) =
      write_field-injective (decimal e.seq) (decimal f.seq) (from_at e) (from_at f) h₀ in
    let (p₂, h₂) = write_field-injective e.at f.at (from_actor e) (from_actor f) h₁ in
    let (p₃, h₃) = write_field-injective e.actor f.actor (from_action e) (from_action f) h₂ in
    let (p₄, h₄) = write_field-injective e.action f.action (from_device e) (from_device f) h₃ in
    let (p₅, h₅) =
      write_field-injective e.device_id f.device_id (from_detail e) (from_detail f) h₄ in
    let (p₆, _) = write_field-injective e.detail f.detail [] [] h₅ in
    (decimal-injective e.seq f.seq p₁, p₂, p₃, p₄, p₅, p₆)
