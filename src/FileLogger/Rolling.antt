-- ===== src/FileLogger/Rolling.antt =====
-- The events of DDFileLogger, and rolling by size.
use cocoa_lumberjack.Base.{
  ℕ, ◌<◌, ◌≡◌, ◌⊎◌, inl, inr, Bool, true, false, List, [], ◌∷◌, none, some, arith, if◌then◌else◌,
  length,
}
use cocoa_lumberjack.FileName.{Bytes}
use cocoa_lumberjack.FileLogger.{
  File, FileLogger, Env, Event, append_bytes, lt_roll_log_file_now,
  lt_maybe_roll_log_file_due_to_size, write_data, lt_log_data, handle_event, log_data,
  roll_log_file, current_log_file_info, set_max_size, set_frequency, timer_fires, vnode_changes,
  flush, will_remove_logger, cleanup, delete_old,
}
use cocoa_lumberjack.FileLogger.Invariant.{
  IsOpen, IsSound, file_info-head, update_file-head, roll-IsSound, roll-IsClosed, size-IsSound,
  set_maximum_file_size-IsSound, set_rolling_frequency-IsSound, timer_fires-IsSound,
  lt_cleanup-IsSound,
}
use cocoa_lumberjack.FileLogger.Deleting.{delete_old_files-IsSound}
use cocoa_lumberjack.FileLogger.Opening.{lt_current_log_file_handle-IsSound, info-IsSound}

-- A write goes to the end of the newest file, which stays open.
pub write_data-open :
    (env : Env) (bytes : Bytes) (s : FileLogger) (f : File) (fs : List File)
    → s.handle ≡ some f.path
    → s.disk ≡ f ∷ fs
    → write_data env bytes s
      ≡ record s { disk = (if env.can_write then append_bytes bytes f else f) ∷ fs }
unfolding write_data
write_data-open env bytes s f fs h d = ground (arith, update_file-head f fs (append_bytes bytes))

pub write_data-closed :
    (env : Env) (bytes : Bytes) (s : FileLogger) → s.handle ≡ none → write_data env bytes s ≡ s
unfolding write_data
write_data-closed env bytes s h = ground arith

pub write_data-IsSound :
    (env : Env) (bytes : Bytes) (s : FileLogger) → IsSound s → IsSound (write_data env bytes s)
write_data-IsSound env bytes s (inl c) = rw (write_data-closed env bytes s c.no_handle) (inl c)
write_data-IsSound env bytes s (inr (f, fs, o)) =
    rw (write_data-open env bytes s f fs o.opening.has_handle o.opening.on_disk)
      (inr ((if env.can_write then append_bytes bytes f else f), fs, ground arith))

if-IsSound : (b : Bool) (s t : FileLogger) → IsSound s → IsSound t → IsSound (if b then s else t)
if-IsSound true s t v w = v
if-IsSound false s t v w = w

log_data-IsSound :
    (env : Env) (bytes : Bytes) (s : FileLogger) → IsSound s → IsSound (lt_log_data env bytes s)
unfolding lt_log_data
log_data-IsSound env [] s v = v
log_data-IsSound env (b ∷ bs) s v =
    size-IsSound env _
      (write_data-IsSound env (b ∷ bs) _ (lt_current_log_file_handle-IsSound env s v))

-- Every event, under whatever failures of the file system, leaves the logger sound: closed with no
-- source watching and no timer, or open on the newest file, which is the current one, not archived and
-- not a link, with the timer at its date of creation plus the rolling frequency, if that is positive.
pub handle_event-IsSound :
    (env : Env) (e : Event) (s : FileLogger) → IsSound s → IsSound (handle_event env e s)
unfolding handle_event
handle_event-IsSound env (log_data bytes) s v = log_data-IsSound env bytes s v
handle_event-IsSound env roll_log_file s v = roll-IsSound s v
handle_event-IsSound env current_log_file_info s v = info-IsSound env s v
handle_event-IsSound env (set_max_size n) s v = set_maximum_file_size-IsSound env n s v
handle_event-IsSound env (set_frequency n) s v = set_rolling_frequency-IsSound env n s v
handle_event-IsSound env timer_fires s v = timer_fires-IsSound env s v
handle_event-IsSound env vnode_changes s v =
    if-IsSound s.vnode (lt_roll_log_file_now s) s (roll-IsSound s v) v
handle_event-IsSound env flush s v = v
handle_event-IsSound env will_remove_logger s v = roll-IsSound s v
handle_event-IsSound env cleanup s v = lt_cleanup-IsSound s v
handle_event-IsSound env delete_old s v = delete_old_files-IsSound env s v

-- No open file has reached the maximum size, if there is one.
abbrev pub IsLimited : FileLogger → Type 0
IsLimited s =
    (s.handle ≡ none)
    ⊎ ((f : File) × (fs : List File) × IsOpen s f fs
        × ((s.maximum_file_size ≡ 0) ⊎ (length f.content < s.maximum_file_size)))

size-closed :
    (env : Env) (s : FileLogger) → s.handle ≡ none → lt_maybe_roll_log_file_due_to_size env s ≡ s
unfolding lt_maybe_roll_log_file_due_to_size
size-closed env s e = ground arith

size-open :
    (env : Env) (s : FileLogger) (f : File) (fs : List File)
    → IsOpen s f fs
    → env.can_get_offset ≡ true
    → let s' = lt_maybe_roll_log_file_due_to_size env s in
      (s' ≡ lt_roll_log_file_now s)
      ⊎ ((s' ≡ s) × ((s.maximum_file_size ≡ 0) ⊎ (length f.content < s.maximum_file_size)))
unfolding lt_maybe_roll_log_file_due_to_size
size-open env s f fs o ok =
    ground (arith, o.opening.has_handle, o.opening.on_disk, file_info-head env.now f fs)

size-IsLimited :
    (env : Env) (s : FileLogger)
    → IsSound s
    → env.can_get_offset ≡ true
    → IsLimited (lt_maybe_roll_log_file_due_to_size env s)
size-IsLimited env s (inl c) ok = rw (size-closed env s c.no_handle) (inl c.no_handle)
size-IsLimited env s (inr (f, fs, o)) ok = elim (size-open env s f fs o ok) [
  | inl e ↦ rw e (inl (roll-IsClosed s f fs o.opening).no_handle)
  | inr (e, small) ↦ rw e (inr (f, fs, o, small))
]

-- After data has been logged, if offsets can be read, no file is open that has reached the maximum
-- size: the file was rolled, it is smaller, or there is no maximum.
pub lt_log_data-IsLimited :
    (env : Env) (b : ℕ) (bs : Bytes) (s : FileLogger)
    → IsSound s
    → env.can_get_offset ≡ true
    → IsLimited (lt_log_data env (b ∷ bs) s)
unfolding lt_log_data
lt_log_data-IsLimited env b bs s v ok =
    size-IsLimited env _
      (write_data-IsSound env (b ∷ bs) _ (lt_current_log_file_handle-IsSound env s v)) ok

pub lt_log_data-IsSound :
    (env : Env) (bytes : Bytes) (s : FileLogger) → IsSound s → IsSound (lt_log_data env bytes s)
unfolding handle_event
lt_log_data-IsSound env bytes s v = handle_event-IsSound env (log_data bytes) s v
