-- ===== src/Identity/Tests.antt =====
-- internal/identity: an account with a one-time password whose code is the number of the step.
use defendsec.Prelude.{◌≡◌, refl, true, false, Option, none, some, [], ◌∷◌, ◌++◌, inl}
use defendsec.Prelude.Int.{pos, ◌+ℤ◌}
use defendsec.Prelude.Text.{Bytes, codes, is_empty, eq_bytes, trim_space, to_lower}
use defendsec.Identity.{
  verify_totp, totp_counter, totp_code, code_for, digits_of, big_endian, truncate, to_upper,
  try_counters, all_digits_in, valid_username, normalize_username, all_name_bytes,
}
use defendsec.Identity.Totp.{Fresh, steps_at, verify_totp_sound, verify_totp_accepts}

abbrev plain_text : Bytes → Option Bytes
plain_text s = some s

-- The step, with an offset of 4 in the last byte.
abbrev step_mac : Bytes → Bytes → Bytes
step_mac key message = message ++ 0 ∷ 0 ∷ 0 ∷ 0 ∷ 0 ∷ 0 ∷ 0 ∷ 0 ∷ 0 ∷ 0 ∷ 0 ∷ 4 ∷ []

third_step : totp_code plain_text step_mac (codes "abc") (pos 3) ≡ some (codes "000003")
unfolding totp_code to_upper trim_space is_empty code_for digits_of truncate big_endian
third_step = refl

accepted :
    (verify_totp plain_text step_mac (codes "abc") (codes " 000003") (pos 70) (pos 2)).valid ≡ true
unfolding verify_totp totp_counter try_counters all_digits_in totp_code to_upper trim_space is_empty
    code_for digits_of truncate big_endian eq_bytes ◌+ℤ◌
accepted = refl

-- The same code is not accepted again.
not_again :
    (verify_totp plain_text step_mac (codes "abc") (codes "000003") (pos 75) (pos 3)).valid ≡ false
unfolding verify_totp totp_counter try_counters all_digits_in totp_code to_upper trim_space is_empty
    code_for digits_of truncate big_endian eq_bytes ◌+ℤ◌
not_again = refl

verify_totp_sound_example :
    Fresh plain_text step_mac
      (codes "abc")
      (trim_space (codes " 000003"))
      (pos 2)
      (steps_at (pos 70))
      (verify_totp plain_text step_mac (codes "abc") (codes " 000003") (pos 70) (pos 2)).counter
verify_totp_sound_example =
    verify_totp_sound plain_text step_mac (codes "abc") (codes " 000003") (pos 70) (pos 2) accepted

third_is_Fresh :
    Fresh plain_text step_mac
      (codes "abc")
      (trim_space (codes " 000003"))
      (pos 2)
      (steps_at (pos 70))
      (pos 3)
unfolding trim_space totp_counter ◌+ℤ◌
third_is_Fresh = (inl refl, refl, third_step)

has_secret : is_empty (codes "abc") ≡ false
unfolding is_empty
has_secret = refl

verify_totp_accepts_example :
    (verify_totp plain_text step_mac (codes "abc") (codes " 000003") (pos 70) (pos 2)).valid ≡ true
verify_totp_accepts_example =
    verify_totp_accepts plain_text step_mac (codes "abc") (codes " 000003") (pos 70) (pos 2) (pos 3)
      has_secret third_is_Fresh

named : valid_username (normalize_username (codes " Ann.B@x ")) ≡ none
unfolding valid_username normalize_username all_name_bytes to_lower trim_space
named = refl
