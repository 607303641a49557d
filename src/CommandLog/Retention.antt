-- ===== src/CommandLog/Retention.antt =====
-- internal/cmdlog/cmdlog.go, applyRetention: no record is lost before its time in silence.
use defendsec.Prelude.{
  ℕ, zero, suc, ◌-◌, ◌≤◌, ◌≡◌, ◌≢◌, refl, sym, ap, Bool, true, Option, none, some, List, [], ◌∷◌,
  ◌++◌, inl, inr, ◌⊎◌, arith, length, length-append, length-drop,
}
use mathlib.Core.Path.{subst}
use defendsec.Prelude.Int.{ℤ, pos, negsuc}
use defendsec.Prelude.Sort.{Among}
use defendsec.Prelude.Text.{Bytes}
use defendsec.CommandLog.{
  CommandRecord, Snapshot, LogFile, LogError, got, max_records, keep_where, is_kept, in_window,
  capped, apply_retention, report_overflow, read, write, append, append_to, list_commands,
}

Among-keep_where :
    (p : CommandRecord → Bool) (r : CommandRecord) (rs : List CommandRecord)
    → Among r rs
    → p r ≡ true
    → Among r (keep_where p rs)
unfolding keep_where
Among-keep_where p r [] i h = absurd i
Among-keep_where p r (x ∷ rs) (inl same) h = ground (arith, same, h)
Among-keep_where p r (x ∷ rs) (inr i) h = ground (arith, Among-keep_where p r rs i h)

-- The cap leaves no more than the maximum.
pub capped_bounded : (rs : List CommandRecord) → length (capped rs).0 ≤ max_records
unfolding capped
capped_bounded rs = ground (arith, length-drop (length rs - max_records) rs)

module _ (parse_time : Bytes → Option ℤ) (cutoff : ℕ → ℤ) where
  -- The record is not before the window, or there is no window.
  abbrev pub IsInWindow : ℤ → CommandRecord → Type 0
  IsInWindow (pos zero) r = Unit
  IsInWindow (pos (suc n)) r = is_kept parse_time cutoff (cutoff (suc n)) r ≡ true
  IsInWindow (negsuc n) r = Unit

  Among-in_window :
      (days : ℤ) (r : CommandRecord) (rs : List CommandRecord)
      → Among r rs
      → IsInWindow days r
      → Among r (in_window parse_time cutoff days rs)
  unfolding in_window
  Among-in_window (pos zero) r rs i h = i
  Among-in_window (pos (suc n)) r rs i h =
      Among-keep_where (is_kept parse_time cutoff (cutoff (suc n))) r rs i h
  Among-in_window (negsuc n) r rs i h = i

  -- What the cap does not report, it does not drop.
  not_capped : (rs : List CommandRecord) → ((capped rs).1 ≡ none) → (capped rs).0 ≡ rs
  unfolding capped
  not_capped rs h = ground (arith, h)

  longer : (xs : List ℕ) (n : ℕ) → xs ++ n ∷ [] ≢ xs
  longer xs n e = ground (arith, length-append xs (n ∷ []), ap length e)

  all_pass :
      (p : CommandRecord → Bool) (rs : List CommandRecord)
      → ((r : CommandRecord) → p r ≡ true)
      → keep_where p rs ≡ rs
  unfolding keep_where
  all_pass p [] h = refl
  all_pass p (r ∷ rs) h = ground (arith, h r, all_pass p rs h)

module _ (parse : Bytes → Option Snapshot) (render : Snapshot → Bytes)
    (parse_time : Bytes → Option ℤ) (cutoff : ℕ → ℤ) where
  -- What Append writes, where the log can be read.
  append_writes :
      (now : Bytes) (f : LogFile) (rec : CommandRecord) (doc : Snapshot)
      → read parse f.disk ≡ got doc
      → append parse render parse_time cutoff true now f rec
        ≡ append_to parse render parse_time cutoff true now f rec doc
  unfolding append
  append_writes now f rec doc e = ground (arith, e)

  -- The records that List without a device returns after a write.
  list_written :
      (now : Bytes) (f : LogFile) (doc : Snapshot)
      → parse (render (record doc { updated_at = now })) ≡ some (record doc { updated_at = now })
      → list_commands parse render parse_time cutoff (write render true now f doc).0 []
        ≡ doc.commands
  unfolding list_commands write read
  list_written now f doc back =
      ground (arith, back, all_pass parse_time cutoff (λ r. true) doc.commands (λ r. refl))

  -- The operation has no error, and lists the record or has told the handler.
  abbrev pub ListedOrTold : LogFile → CommandRecord → LogFile × Option LogError → Type 0
  ListedOrTold f r (g, error) =
      (error ≡ none)
      × (Among r (list_commands parse render parse_time cutoff g []) ⊎ (g.reported ≢ f.reported))

  abbrev pub IsReadAgain : Snapshot → Type 0
  IsReadAgain d = parse (render d) ≡ some d

  -- What Append keeps.
  abbrev pub kept_of : Bytes → LogFile → CommandRecord → Snapshot → Snapshot
  kept_of now f rec doc =
      let kept = apply_retention parse_time cutoff f.retention_days (doc.commands ++ rec ∷ []) in
      record { updated_at = now; commands = kept.0 }

  write-ListedOrTold :
      (now : Bytes) (f : LogFile) (r : CommandRecord) (doc : Snapshot)
      → f.has_handler ≡ true
      → (kept : List CommandRecord) (dropped : Option ℕ)
      → IsReadAgain (record { updated_at = now; commands = kept })
      → (dropped ≡ none → Among r kept)
      → ListedOrTold f r
          (write render true now (report_overflow f dropped) (record doc { commands = kept }))
  unfolding write
  write-ListedOrTold now f r doc handled kept none back i =
      let listed = list_written now f (record doc { commands = kept }) back in
      (refl, inl (subst (Among r) (sym listed) (i refl)))
  write-ListedOrTold now f r doc handled kept (some n) back i =
      let told = longer parse_time cutoff f.reported n in
      (refl, inr (ground (arith, told, handled)))

  -- No record is lost in silence: where the log can be read and written, a record that it holds, and
  -- the one that is appended, is listed after Append if it is in the window, or else the handler that
  -- is installed has been told of dropped records. What is written is read again.
  pub append_keeps :
      (now : Bytes) (f : LogFile) (rec r : CommandRecord) (doc : Snapshot)
      → IsReadAgain (kept_of now f rec doc)
      → read parse f.disk ≡ got doc
      → f.has_handler ≡ true
      → Among r (doc.commands ++ rec ∷ [])
      → IsInWindow parse_time cutoff f.retention_days r
      → ListedOrTold f r (append parse render parse_time cutoff true now f rec)
  unfolding apply_retention
  append_keeps now f rec r doc back can_read handled i h =
      let rs = in_window parse_time cutoff f.retention_days (doc.commands ++ rec ∷ []) in
      let kept =
        Among-in_window parse_time cutoff f.retention_days r (doc.commands ++ rec ∷ []) i h in
      subst (ListedOrTold f r) (sym (append_writes now f rec doc can_read)) (
        write-ListedOrTold now f r doc handled (capped rs).0 (capped rs).1 back
          (λ e. subst (Among r) (sym (not_capped parse_time cutoff rs e)) kept))
