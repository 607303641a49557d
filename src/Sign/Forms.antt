-- ===== src/Sign/Forms.antt =====
-- internal/sign: what the signed forms determine.
use defendsec.Prelude.{ℕ, ◌+◌, ◌≡◌, ◌≢◌, refl, sym, ap, Bool, [], ◌∷◌, ◌++◌, arith, length}
use mathlib.Core.Path.{subst}
use defendsec.Prelude.Decimal.{
  Without, NoDigit, cut_split, decimal-Without, decimal-injective, length_split,
}
use defendsec.Prelude.Int.{ℤ, pos, negsuc}
use defendsec.Prelude.Text.{Bytes, decimal}
use defendsec.Sign.{
  command_domain, ack_domain, Envelope, integer, canonical_command, AckEnvelope, bool_text,
  ack_field, canonical_ack, blob_message,
}

newline-NoDigit : NoDigit 10
newline-NoDigit d h e = omega arith

colon-NoDigit : NoDigit b':'
colon-NoDigit d h e = omega arith

minus-NoDigit : NoDigit b'-'
minus-NoDigit d h e = omega arith

-- A decimal does not begin with a minus.
not_minus : (n : ℕ) (s : Bytes) → decimal n ≢ b'-' ∷ s
not_minus n s e =
    let none_left : Without b'-' (b'-' ∷ s) =
      subst (Without b'-') e (decimal-Without b'-' n minus-NoDigit) in
    none_left.0 refl

integer-injective : (a b : ℤ) → integer a ≡ integer b → a ≡ b
unfolding integer
integer-injective (pos m) (pos n) e = ap pos (decimal-injective m n e)
integer-injective (pos m) (negsuc n) e = absurd (not_minus m (decimal (n + 1)) e)
integer-injective (negsuc m) (pos n) e = absurd (not_minus n (decimal (m + 1)) (sym e))
integer-injective (negsuc m) (negsuc n) e =
    let tails : decimal (m + 1) ≡ decimal (n + 1) = ground (arith, e) in
    let same = decimal-injective (m + 1) (n + 1) tails in ap negsuc (omega arith)

integer-Without : (a : ℤ) → Without 10 (integer a)
unfolding integer
integer-Without (pos n) = decimal-Without 10 n newline-NoDigit
integer-Without (negsuc n) = (λ e. omega arith, decimal-Without 10 (n + 1) newline-NoDigit)

-- The header fields hold no line break.
abbrev pub IsOneLine : Envelope → Type 0
IsOneLine e = Without 10 e.device_id × Without 10 e.command_id × Without 10 e.command_type

same_fields :
    (e f : Envelope)
    → e.device_id ≡ f.device_id
    → e.command_id ≡ f.command_id
    → e.command_type ≡ f.command_type
    → e.issued_unix ≡ f.issued_unix
    → e.expires_unix ≡ f.expires_unix
    → e.payload ≡ f.payload
    → e ≡ f
same_fields e f a b c d x y = ground arith

-- What is written behind each field.
abbrev times_of : Envelope → Bytes
times_of e = integer e.issued_unix ++ 10 ∷ (integer e.expires_unix ++ 10 ∷ e.payload)

abbrev type_of : Envelope → Bytes
type_of e = e.command_type ++ 10 ∷ times_of e

abbrev id_of : Envelope → Bytes
id_of e = e.command_id ++ 10 ∷ type_of e

abbrev device_of : Envelope → Bytes
device_of e = e.device_id ++ 10 ∷ id_of e

same_tail : (a b : Bytes) → 10 ∷ a ≡ 10 ∷ b → a ≡ b
same_tail a b e = ground arith

-- A signature on a command is one on that command alone: two commands whose device, id and type hold
-- no line break have the same signed form only if they are the same in every field.
pub canonical_command-injective :
    (e f : Envelope) → IsOneLine e → IsOneLine f → canonical_command e ≡ canonical_command f → e ≡ f
unfolding canonical_command
canonical_command-injective e f (d, c, t) (d', c', t') h =
    let (_, h₁) =
      length_split command_domain command_domain (10 ∷ device_of e) (10 ∷ device_of f) refl h in
    let h₂ = same_tail (device_of e) (device_of f) h₁ in
    let (same_device, h₃) = cut_split 10 e.device_id f.device_id (id_of e) (id_of f) d d' h₂ in
    let (same_id, h₄) = cut_split 10 e.command_id f.command_id (type_of e) (type_of f) c c' h₃ in
    let (same_type, h₅) =
      cut_split 10 e.command_type f.command_type (times_of e) (times_of f) t t' h₄ in
    let (issued, h₆) =
      cut_split 10 (integer e.issued_unix) (integer f.issued_unix)
        (integer e.expires_unix ++ 10 ∷ e.payload) (integer f.expires_unix ++ 10 ∷ f.payload)
        (integer-Without e.issued_unix) (integer-Without f.issued_unix) h₅ in
    let (expires, same_payload) =
      cut_split 10 (integer e.expires_unix) (integer f.expires_unix) e.payload f.payload
        (integer-Without e.expires_unix) (integer-Without f.expires_unix) h₆ in
    same_fields e f same_device same_id same_type
      (integer-injective e.issued_unix f.issued_unix issued)
      (integer-injective e.expires_unix f.expires_unix expires) same_payload

ack_field-injective : (s t r q : Bytes) → ack_field s r ≡ ack_field t q → (s ≡ t) × (r ≡ q)
unfolding ack_field
ack_field-injective s t r q e =
    let (same_length, same_rest) =
      cut_split b':' (decimal (length s)) (decimal (length t)) (s ++ 10 ∷ r) (t ++ 10 ∷ q)
        (decimal-Without b':' (length s) colon-NoDigit)
        (decimal-Without b':' (length t) colon-NoDigit) e in
    let same_lengths = decimal-injective (length s) (length t) same_length in
    let (same, rest) = length_split s t (10 ∷ r) (10 ∷ q) same_lengths same_rest in
    (same, same_tail r q rest)

bool_text-injective : (a b : Bool) → bool_text a ≡ bool_text b → a ≡ b
bool_text-injective a b e = ground arith

same_ack :
    (e f : AckEnvelope)
    → e.command_id ≡ f.command_id
    → e.device_id ≡ f.device_id
    → e.accepted ≡ f.accepted
    → e.result_hash ≡ f.result_hash
    → e.executed_unix ≡ f.executed_unix
    → e ≡ f
same_ack e f a b c d x = ground arith

abbrev result_fields : AckEnvelope → Bytes
result_fields e = ack_field e.result_hash (ack_field (integer e.executed_unix) [])

abbrev accepted_fields : AckEnvelope → Bytes
accepted_fields e = ack_field (bool_text e.accepted) (result_fields e)

-- Two acknowledgements have the same signed form only if they are the same, whatever their fields
-- hold.
pub canonical_ack-injective : (e f : AckEnvelope) → canonical_ack e ≡ canonical_ack f → e ≡ f
unfolding canonical_ack
canonical_ack-injective e f h =
    let device : AckEnvelope → Bytes = λ x. ack_field x.device_id (accepted_fields x) in
    let whole : AckEnvelope → Bytes = λ x. ack_field x.command_id (device x) in
    let (_, h₁) = length_split ack_domain ack_domain (10 ∷ whole e) (10 ∷ whole f) refl h in
    let h₂ = same_tail (whole e) (whole f) h₁ in
    let (a, h₃) = ack_field-injective e.command_id f.command_id (device e) (device f) h₂ in
    let (b, h₄) =
      ack_field-injective e.device_id f.device_id (accepted_fields e) (accepted_fields f) h₃ in
    let (c, h₅) =
      ack_field-injective (bool_text e.accepted) (bool_text f.accepted) (result_fields e)
        (result_fields f) h₄ in
    let (d, h₆) =
      ack_field-injective e.result_hash f.result_hash (ack_field (integer e.executed_unix) [])
        (ack_field (integer f.executed_unix) []) h₅ in
    let (x, _) = ack_field-injective (integer e.executed_unix) (integer f.executed_unix) [] [] h₆ in
    same_ack e f a b (bool_text-injective e.accepted f.accepted c) d
      (integer-injective e.executed_unix f.executed_unix x)

-- A message signed under another domain is no command: the domain holds no line break.
pub blob-command_apart :
    (domain msg : Bytes) (e : Envelope)
    → Without 10 domain
    → domain ≢ command_domain
    → blob_message domain msg ≢ canonical_command e
unfolding blob_message canonical_command
blob-command_apart domain msg e plain other h = other (
    (cut_split 10 domain command_domain (decimal (length domain) ++ 10 ∷ msg) (device_of e) plain
      (omega arith) h).0)
