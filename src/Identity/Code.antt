-- ===== src/Identity/Code.antt =====
-- internal/identity/totp.go: a code has six digits.
use defendsec.Prelude.{
  ℕ, zero, suc, ◌+◌, ◌/◌, ◌%◌, ◌^◌, ◌≤◌, ◌≡◌, refl, true, Option, [], ◌∷◌, ◌++◌, length,
  length-append, arith,
}
use defendsec.Prelude.Int.{ℤ}
use defendsec.Prelude.Text.{Bytes}
use defendsec.Identity.{digits_of, all_digits_in, code_for, as_uint64, big_endian, truncate}

length-digits_of : (k n : ℕ) → length (digits_of k n) ≡ k
unfolding digits_of
length-digits_of zero n = refl
length-digits_of (suc k) n =
    let rest = length-digits_of k (n / 10) in
    omega (arith, rest, length-append (digits_of k (n / 10)) ((48 + n % 10) ∷ []))

all_digits_in-snoc :
    (s : Bytes) (d : ℕ) → all_digits_in s ≡ true → d ≤ 9 → all_digits_in (s ++ (48 + d) ∷ []) ≡ true
unfolding all_digits_in
all_digits_in-snoc [] d h b = ground arith
all_digits_in-snoc (c ∷ s) d h b = ground (arith, all_digits_in-snoc s d)

all_digits_in-digits_of : (k n : ℕ) → all_digits_in (digits_of k n) ≡ true
unfolding digits_of all_digits_in
all_digits_in-digits_of zero n = refl
all_digits_in-digits_of (suc k) n =
    all_digits_in-snoc (digits_of k (n / 10)) (n % 10) (all_digits_in-digits_of k (n / 10))
      (omega arith)

pub code_for_form :
    (decode : Bytes → Option Bytes) (hmac : Bytes → Bytes → Bytes) (key : Bytes) (c : ℤ)
    → (length (code_for decode hmac key c) ≡ 6)
      × (all_digits_in (code_for decode hmac key c) ≡ true)
unfolding code_for
code_for_form decode hmac key c =
    let value = truncate (hmac key (big_endian 8 (as_uint64 c))) % 10 ^ 6 in
    (length-digits_of 6 value, all_digits_in-digits_of 6 value)
