-- ===== src/CommandLog/Tests.antt =====
-- internal/cmdlog: a log of one old command, to which one without a time is appended.
use defendsec.Prelude.{
  ◌≡◌, refl, true, false, Option, none, some, [], ◌∷◌, inl, inr, length, if◌then◌else◌,
}
use defendsec.Prelude.Int.{ℤ, pos}
use defendsec.Prelude.Text.{Bytes, codes, is_empty, eq_bytes}
use defendsec.CommandLog.{
  CommandRecord, Snapshot, LogFile, holds, got, new_log, set_overflow_handler, set_retention_days,
  keep_where, is_kept, in_window, capped, apply_retention, read, append, update, update_first,
  pending,
}
use defendsec.CommandLog.Retention.{ListedOrTold, kept_of, append_keeps}

abbrev command : Bytes → Bytes → CommandRecord
command id created_at = record {
  id = id;
  device_id = codes "dev-1";
  hostname = [];
  command_type = codes "restart";
  payload = [];
  status = codes "queued";
  accepted = false;
  message = [];
  created_at = created_at;
  updated_at = [];
  signature = [];
  signing_key_id = [];
  issued_unix = pos 0;
  expires_unix = pos 0;
  actor_identity = [];
  ack_signature = [];
  ack_result_hash = [];
  ack_executed_unix = pos 0;
  ack_verified = false;
}

abbrev old_command : CommandRecord
old_command = command (codes "a") (codes "100")

abbrev undated : CommandRecord
undated = command (codes "b") []

abbrev before : Snapshot
before = record { updated_at = []; commands = old_command ∷ [] }

abbrev after : Snapshot
after = record { updated_at = codes "now"; commands = undated ∷ [] }

abbrev parse_two : Bytes → Option Snapshot
parse_two raw = if eq_bytes raw (codes "old") then some before else some after

abbrev render_new : Snapshot → Bytes
render_new d = codes "new"

-- A time that is given is 100, and the window begins at 200.
abbrev time_100 : Bytes → Option ℤ
time_100 s = if is_empty s then none else some (pos 100)

abbrev log : LogFile
log = set_overflow_handler (new_log (holds (codes "old")))

kept_is_after :
    kept_of parse_two render_new time_100 (λ days. pos 200) (codes "now") log undated before ≡ after
unfolding apply_retention in_window keep_where is_kept capped is_empty
kept_is_after = refl

log_is_read : read parse_two log.disk ≡ got before
unfolding read eq_bytes
log_is_read = refl

new_is_read :
    parse_two (render_new after)
    ≡ some
        (kept_of parse_two render_new time_100 (λ days. pos 200) (codes "now") log undated before)
unfolding apply_retention in_window keep_where is_kept capped is_empty eq_bytes
new_is_read = refl

undated_stays : is_kept time_100 (λ days. pos 200) (pos 200) undated ≡ true
unfolding is_kept is_empty
undated_stays = refl

append_keeps_example :
    ListedOrTold parse_two render_new time_100
      (λ days. pos 200)
      log
      undated
      (append parse_two render_new time_100 (λ days. pos 200) true (codes "now") log undated)
append_keeps_example =
    append_keeps parse_two render_new time_100 (λ days. pos 200) (codes "now") log undated undated
      before new_is_read log_is_read refl (inr (inl refl)) undated_stays

-- A window of 0 days is the default one.
default_window : (set_retention_days log (pos 0)).retention_days ≡ pos 365
unfolding set_retention_days
default_window = refl

one_pending :
    length (pending parse_two render_new time_100 (λ days. pos 200) log (codes "dev-1")) ≡ 1
unfolding pending read keep_where eq_bytes
one_pending = refl

-- An update of a command that is not in the log writes nothing.
no_such_command :
    update parse_two render_new time_100 (λ days. pos 200) true [] [] log (codes "c") (λ r. r)
    ≡ (log, none)
unfolding update read update_first eq_bytes
no_such_command = refl
