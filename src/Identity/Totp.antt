-- ===== src/Identity/Totp.antt =====
-- internal/identity/totp.go, VerifyTOTP: which codes are accepted.
use defendsec.Prelude.{
  ◌≡◌, ◌≢◌, refl, sym, ap, ◌∙◌, true, false, Option, none, some, List, [], ◌∷◌, arith, length, inl,
  inr, ◌⊎◌, Option-cases,
}
use mathlib.Core.Path.{subst}
use defendsec.Prelude.Int.{ℤ, pos, negsuc, ltb_ℤ, ◌+ℤ◌}
use defendsec.Prelude.Sort.{Among}
use defendsec.Prelude.Text.{Bytes, is_empty, eq_bytes_iff, eq_bytes_refl, trim_space}
use defendsec.Identity.{
  TotpResult, totp_counter, totp_code, to_upper, try_code, try_counters, verify_totp, all_digits_in,
}
use defendsec.Identity.Code.{code_for_form}

-- The steps that a time accepts, the newest first.
abbrev pub steps_at : ℤ → List ℤ
steps_at now =
    (totp_counter now +ℤ pos 1) ∷ (totp_counter now +ℤ pos 0) ∷ (totp_counter now +ℤ negsuc 0) ∷ []

module _ (decode : Bytes → Option Bytes) (hmac : Bytes → Bytes → Bytes) where
  -- An accepted counter is a fresh one of the list, and the code is its code.
  abbrev pub Fresh : Bytes → Bytes → ℤ → List ℤ → ℤ → Type 0
  Fresh secret code last_used counters c =
      Among c counters × (ltb_ℤ last_used c ≡ true) × (totp_code decode hmac secret c ≡ some code)

  try_counters_sound :
      (secret code : Bytes) (last_used : ℤ) (counters : List ℤ)
      → (try_counters decode hmac secret code last_used counters).valid ≡ true
      → Fresh secret code last_used counters
          (try_counters decode hmac secret code last_used counters).counter
  unfolding try_counters
  try_counters_sound secret code last_used [] h = absurd (ground (arith, h))
  try_counters_sound secret code last_used (c ∷ counters) h =
      ground (arith, try_counters_sound secret code last_used counters, eq_bytes_iff code)

  verify_totp_tries :
      (secret code : Bytes) (now last_used : ℤ)
      → (verify_totp decode hmac secret code now last_used).valid ≡ true
      → verify_totp decode hmac secret code now last_used
        ≡ try_counters decode hmac secret (trim_space code) last_used (steps_at now)
  unfolding verify_totp
  verify_totp_tries secret code now last_used h = ground (arith, h)

  -- An accepted code is the code of the secret at one of the three steps around the time, and that
  -- step is later than the last one used: with its counter stored, no code of it or of an earlier step
  -- is accepted again.
  pub verify_totp_sound :
      (secret code : Bytes) (now last_used : ℤ)
      → (verify_totp decode hmac secret code now last_used).valid ≡ true
      → Fresh secret
          (trim_space code)
          last_used
          (steps_at now)
          (verify_totp decode hmac secret code now last_used).counter
  verify_totp_sound secret code now last_used h =
      let tried = verify_totp_tries secret code now last_used h in
      subst (λ r. Fresh secret (trim_space code) last_used (steps_at now) r.counter) (sym tried)
        (try_counters_sound secret (trim_space code) last_used (steps_at now)
          (ap (λ r. r.valid) (sym tried) ∙ h))

  -- A secret that gives a code at one step gives one at every step.
  code_at :
      (secret code : Bytes) (c other : ℤ)
      → totp_code decode hmac secret c ≡ some code
      → totp_code decode hmac secret other ≢ none
  unfolding totp_code
  code_at secret code c other h e = ground (arith, h, e)

  -- A round whose step has a code accepts what the later ones accept.
  try_code_valid :
      (code : Bytes) (want : Option Bytes) (d : ℤ) (rest : TotpResult)
      → want ≢ none
      → (want ≡ some code) ⊎ (rest.valid ≡ true)
      → (try_code decode hmac code want d rest).valid ≡ true
  try_code_valid code none d rest has h = absurd (has refl)
  try_code_valid code (some want) d rest has h = ground (arith, h, eq_bytes_iff code want)

  code_is_form :
      (secret code : Bytes) (c : ℤ)
      → totp_code decode hmac secret c ≡ some code
      → (length code ≡ 6) × (all_digits_in code ≡ true)
  unfolding totp_code
  code_is_form secret code c h = elim (Option-cases (decode (to_upper (trim_space secret)))) [
    | inl e ↦ absurd (ground (arith, e, h))
    | inr (key, e) ↦ ground (arith, e, h, code_for_form decode hmac key c)
  ]

  try_counters_accepts :
      (secret code : Bytes) (last_used c : ℤ) (counters : List ℤ)
      → Fresh secret code last_used counters c
      → (try_counters decode hmac secret code last_used counters).valid ≡ true
  unfolding try_counters
  try_counters_accepts secret code last_used c [] f = absurd f.0
  try_counters_accepts secret code last_used c (d ∷ counters) (inl same, fresh, is_code) =
      ground (arith, same, fresh, is_code, eq_bytes_refl code)
  try_counters_accepts secret code last_used c (d ∷ counters) (inr i, fresh, is_code) =
      let later = try_counters_accepts secret code last_used c counters (i, fresh, is_code) in
      let rest = try_counters decode hmac secret code last_used counters in
      ground (
        arith,
        later,
        try_code_valid code (totp_code decode hmac secret d) d rest
            (code_at secret code c d is_code) (inr later),
      )

  -- A code that belongs to a step later than the last one used, one of the three steps around the
  -- time, is accepted.
  pub verify_totp_accepts :
      (secret code : Bytes) (now last_used c : ℤ)
      → is_empty secret ≡ false
      → Fresh secret (trim_space code) last_used (steps_at now) c
      → (verify_totp decode hmac secret code now last_used).valid ≡ true
  unfolding verify_totp
  verify_totp_accepts secret code now last_used c has fresh = ground (
    arith,
    has,
    code_is_form secret (trim_space code) c fresh.2,
    try_counters_accepts secret (trim_space code) last_used c (steps_at now) fresh,
  )
