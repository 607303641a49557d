-- ===== src/Sign/Tests.antt =====
-- internal/sign: a command to a device, with a check of signatures that accepts one signature.
use defendsec.Prelude.{◌≡◌, refl, Bool, none, [], arith}
use defendsec.Prelude.Int.{pos, ◌+ℤ◌, ◌-ℤ◌, ◌≤ℤ◌}
use defendsec.Prelude.Text.{Bytes, codes, is_empty, eq_bytes}
use defendsec.Sign.{Envelope, canonical_command, verify_command}
use defendsec.Sign.Forms.{IsOneLine, canonical_command-injective}
use defendsec.Sign.Window.{replay_window}

abbrev restart : Envelope
restart = record {
  device_id = codes "dev-1";
  command_id = codes "cmd-7";
  command_type = codes "restart";
  issued_unix = pos 1000;
  expires_unix = pos 1200;
  payload = [];
}

abbrev one_signature : Bytes → Bytes → Bytes → Bool
one_signature key message sig = eq_bytes sig (codes "sig")

restart-IsOneLine : IsOneLine restart
restart-IsOneLine = omega arith

canonical_command-injective_example : restart ≡ restart
canonical_command-injective_example =
    canonical_command-injective restart restart restart-IsOneLine restart-IsOneLine refl

-- A line break in an id moves the border of the fields: two commands, one signed form.
shifted :
    canonical_command (record restart {
      device_id = codes "a";
      command_id = codes "b\nc";
      command_type = codes "d";
    })
    ≡ canonical_command (record restart {
      device_id = codes "a\nb";
      command_id = codes "c";
      command_type = codes "d";
    })
unfolding canonical_command
shifted = refl

accepted_at_950 : verify_command one_signature [] restart (codes "sig") (pos 950) ≡ none
unfolding verify_command ◌+ℤ◌ ◌-ℤ◌ eq_bytes is_empty
accepted_at_950 = refl

accepted_at_1200 : verify_command one_signature [] restart (codes "sig") (pos 1200) ≡ none
unfolding verify_command ◌+ℤ◌ ◌-ℤ◌ eq_bytes is_empty
accepted_at_1200 = refl

replay_window_example : pos 1200 ≤ℤ pos 950 +ℤ pos 360
replay_window_example =
    replay_window one_signature [] restart (codes "sig") (pos 950) (pos 1200) refl accepted_at_950
      accepted_at_1200
