-- ===== src/CommandLog.antt =====
-- internal/cmdlog/cmdlog.go: the log of commands in a file. The file system is a state, in which a
-- write takes place or fails as a whole, since a file is written beside the log and then renamed. The
-- lock makes each operation one step. JSON, the parsing of times and the calendar are parameters.
pub mod Retention
mod Tests
use defendsec.Prelude.{
  ℕ, zero, suc, ◌+◌, ◌-◌, Bool, true, false, not, ◌&&◌, ◌||◌, Option, none, some, List, [], ◌∷◌,
  ◌++◌, length, drop, ltb, ◌==◌, if◌then◌else◌,
}
use defendsec.Prelude.Int.{ℤ, pos, negsuc, ltb_ℤ, eq_ℤ}
use defendsec.Prelude.Text.{Bytes, codes, is_empty, eq_bytes}

pub record CommandRecord : Type 0 where
  pub id : Bytes
  pub device_id : Bytes
  pub hostname : Bytes
  pub command_type : Bytes
  pub payload : Bytes
  pub status : Bytes
  pub accepted : Bool
  pub message : Bytes
  pub created_at : Bytes
  pub updated_at : Bytes
  pub signature : Bytes
  pub signing_key_id : Bytes
  pub issued_unix : ℤ
  pub expires_unix : ℤ
  pub actor_identity : Bytes
  pub ack_signature : Bytes
  pub ack_result_hash : Bytes
  pub ack_executed_unix : ℤ
  pub ack_verified : Bool

pub record Snapshot : Type 0 where
  pub updated_at : Bytes
  pub commands : List CommandRecord

-- What is at the path of the log.
pub data Disk : Type 0 where
  missing unreadable : Disk
  holds : Bytes → Disk

-- The log; `reported` are the calls of the overflow handler, which may be unset.
pub record LogFile : Type 0 where
  pub disk : Disk
  pub retention_days : ℤ
  pub has_handler : Bool
  pub reported : List ℕ

pub data LogError : Type 0 where
  read_failed parse_failed write_failed : LogError

abbrev pub default_retention_days : ℤ
default_retention_days = pos 365

abbrev pub max_records : ℕ
max_records = 50000

-- New
abbrev pub new_log : Disk → LogFile
new_log disk = record {
  disk = disk;
  retention_days = default_retention_days;
  has_handler = false;
  reported = [];
}

-- SetRetentionDays
unfoldable pub set_retention_days : LogFile → ℤ → LogFile
set_retention_days f days = record f {
  retention_days = if eq_ℤ days (pos 0) then default_retention_days else days;
}

-- SetOverflowHandler, with a handler that is not nil.
abbrev pub set_overflow_handler : LogFile → LogFile
set_overflow_handler f = record f { has_handler = true }

unfoldable pub keep_where : (CommandRecord → Bool) → List CommandRecord → List CommandRecord
keep_where p [] = []
keep_where p (r ∷ rs) = let rest = keep_where p rs in if p r then r ∷ rest else rest

-- The cap, with the number of records it drops.
unfoldable pub capped : List CommandRecord → List CommandRecord × Option ℕ
capped rs =
    if ltb max_records (length rs)
    then (drop (length rs - max_records) rs, some (length rs - max_records))
    else (rs, none)

-- `parse_time` is time.Parse of RFC 3339, `cutoff days` the time that many days ago.
module _ (parse_time : Bytes → Option ℤ) (cutoff : ℕ → ℤ) where
  unfoldable pub is_kept : ℤ → CommandRecord → Bool
  is_kept limit r = elim (parse_time r.created_at) [ none ↦ true | some at ↦ not (ltb_ℤ at limit) ]

  -- What is in the window, the first half of applyRetention.
  unfoldable pub in_window : ℤ → List CommandRecord → List CommandRecord
  unfolding keep_where is_kept
  in_window (pos zero) rs = rs
  in_window (pos (suc n)) rs = keep_where (is_kept (cutoff (suc n))) rs
  in_window (negsuc n) rs = rs

  -- applyRetention
  unfoldable pub apply_retention : ℤ → List CommandRecord → List CommandRecord × Option ℕ
  unfolding in_window capped
  apply_retention days rs = capped (in_window days rs)

abbrev pub report_overflow : LogFile → Option ℕ → LogFile
report_overflow f none = f
report_overflow f (some dropped) =
    if f.has_handler then record f { reported = f.reported ++ dropped ∷ [] } else f

pub data ReadResult : Type 0 where
  failed : LogError → ReadResult
  got : Snapshot → ReadResult

-- read; no list of commands and an empty one are the same list here.
unfoldable pub read : (Bytes → Option Snapshot) → Disk → ReadResult
read parse missing = got (record { updated_at = []; commands = [] })
read parse unreadable = failed read_failed
read parse (holds raw) = elim (parse raw) [ none ↦ failed parse_failed | some doc ↦ got doc ]

-- write; `can_write` tells whether the calls of the file system succeed.
unfoldable pub write :
    (Snapshot → Bytes) → Bool → Bytes → LogFile → Snapshot → LogFile × Option LogError
write render can_write now f doc =
    if can_write
    then (record f { disk = holds (render (record doc { updated_at = now })) }, none)
    else (f, some write_failed)

abbrev pub behind : CommandRecord → Option (List CommandRecord) → Option (List CommandRecord)
behind r none = none
behind r (some rs) = some (r ∷ rs)

-- The loop of Update; `none` if no record has the id.
unfoldable pub update_first :
    Bytes → (CommandRecord → CommandRecord) → List CommandRecord → Option (List CommandRecord)
unfolding eq_bytes
update_first id change [] = none
update_first id change (r ∷ rs) = elim (eq_bytes r.id id) [
  | true ↦ some (change r ∷ rs)
  | false ↦ behind r (update_first id change rs)
]

-- `parse` and `render` are encoding/json; `now` is the time of the call, as a text.
module _ (parse : Bytes → Option Snapshot) (render : Snapshot → Bytes)
    (parse_time : Bytes → Option ℤ) (cutoff : ℕ → ℤ) where
  -- Append
  abbrev pub append_to :
      Bool → Bytes → LogFile → CommandRecord → Snapshot → LogFile × Option LogError
  append_to can_write now f rec doc =
      let (kept, dropped) =
        apply_retention parse_time cutoff f.retention_days (doc.commands ++ rec ∷ []) in
      write render can_write now (report_overflow f dropped) (record doc { commands = kept })

  unfoldable pub append : Bool → Bytes → LogFile → CommandRecord → LogFile × Option LogError
  unfolding read apply_retention write
  append can_write now f rec = elim (read parse f.disk) [
    | failed e ↦ (f, some e)
    | got doc ↦ append_to can_write now f rec doc
  ]

  -- Update
  abbrev pub store_updated :
      Bool → Bytes → LogFile → Snapshot → Option (List CommandRecord) → LogFile × Option LogError
  store_updated can_write now f doc none = (f, none)
  store_updated can_write now f doc (some rs) =
      write render can_write now f (record doc { commands = rs })

  abbrev pub stamped : Bytes → (CommandRecord → CommandRecord) → CommandRecord → CommandRecord
  stamped now change r = record (change r) { updated_at = now }

  -- `now` is the time that the record gets, `written` that of the write behind it.
  unfoldable pub update :
      Bool
      → Bytes
      → Bytes
      → LogFile
      → Bytes
      → (CommandRecord → CommandRecord)
      → LogFile × Option LogError
  unfolding read update_first write
  update can_write now written f id change = elim (read parse f.disk) [
    | failed e ↦ (f, some e)
    | got doc ↦
        store_updated can_write written f doc (update_first id (stamped now change) doc.commands)
  ]

  -- What Pending and List go through: of a log that cannot be read, no record.
  abbrev pub commands_of : ReadResult → List CommandRecord
  commands_of (failed e) = []
  commands_of (got doc) = doc.commands

  unfoldable pub pending : LogFile → Bytes → List CommandRecord
  unfolding read keep_where eq_bytes
  pending f device_id =
      keep_where (λ r. eq_bytes r.device_id device_id && eq_bytes r.status (codes "queued"))
        (commands_of (read parse f.disk))

  -- List
  unfoldable pub list_commands : LogFile → Bytes → List CommandRecord
  unfolding read keep_where eq_bytes is_empty
  list_commands f device_id =
      keep_where (λ r. is_empty device_id || eq_bytes r.device_id device_id)
        (commands_of (read parse f.disk))
