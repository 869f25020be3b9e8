-- ===== src/FileLogger/Unlimited.antt =====
-- A file logger without limits on the size and the age of its file.
use cocoa_lumberjack.Base.{ℕ, ◌≡◌, refl, sym, subst, ◌∙◌, All, List, [], ◌∷◌, arith, if◌then◌else◌}
use cocoa_lumberjack.FileName.{Bytes}
use cocoa_lumberjack.FileLogger.{
  File, FileLogger, Env, Event, append_bytes, lt_should_use_log_file, use_or_create,
  lt_current_log_file_info, lt_current_log_file_handle, lt_maybe_roll_log_file_due_to_size,
  lt_maybe_roll_log_file_due_to_age, lt_schedule_timer_to_roll_log_file_due_to_age, lt_log_data,
  set_maximum_file_size, set_rolling_frequency, handle_event, log_data, roll_log_file,
  current_log_file_info, set_max_size, set_frequency, timer_fires, vnode_changes, flush,
  will_remove_logger, cleanup, delete_old,
}
use cocoa_lumberjack.FileLogger.Invariant.{IsOpen, file_info-head}
use cocoa_lumberjack.FileLogger.Rolling.{write_data-open}

-- Both limits are switched off, and the newest file is open.
pub record IsUnlimited (s : FileLogger) (f : File) (fs : List File) : Type 0 where
  pub any_size : s.maximum_file_size ≡ 0
  pub any_age : s.rolling_frequency ≡ 0
  pub opened : IsOpen s f fs

-- The events that neither set a limit nor ask for rolling or closing, and that come from the logger's
-- own messages.
abbrev pub IsLogging : Event → Type 0
IsLogging (log_data bytes) = Unit
IsLogging roll_log_file = ⊥
IsLogging current_log_file_info = Unit
IsLogging (set_max_size n) = n ≡ 0
IsLogging (set_frequency n) = n ≡ 0
IsLogging timer_fires = Unit
IsLogging vnode_changes = ⊥
IsLogging flush = Unit
IsLogging will_remove_logger = ⊥
IsLogging cleanup = ⊥
IsLogging delete_old = ⊥

-- The same file stays open: it may have grown, and nothing was archived.
pub record Stays (s u : FileLogger) (f : File) (fs : List File) : Type 0 where
  pub file : File
  pub same_path : file.path ≡ f.path
  pub unlimited : IsUnlimited u file fs
  pub same_archived : u.archived ≡ s.archived

stays : (s : FileLogger) (f : File) (fs : List File) → IsUnlimited s f fs → Stays s s f fs
stays s f fs u = record { file = f; same_path = refl; unlimited = u; same_archived = refl }

-- With a file open and no limit, logging is writing.
lt_log_data-write :
    (env : Env) (b : ℕ) (bs : Bytes) (s : FileLogger) (f : File) (fs : List File)
    → IsUnlimited s f fs
    → lt_log_data env (b ∷ bs) s
      ≡ record s { disk = (if env.can_write then append_bytes (b ∷ bs) f else f) ∷ fs }
unfolding lt_log_data lt_current_log_file_handle lt_maybe_roll_log_file_due_to_size
lt_log_data-write env b bs s f fs u =
    let o = u.opened.opening in
    ground
      (arith, o.has_handle, u.any_size, write_data-open env (b ∷ bs) s f fs o.has_handle o.on_disk)

log_data-Stays :
    (env : Env) (bytes : Bytes) (s : FileLogger) (f : File) (fs : List File)
    → IsUnlimited s f fs
    → Stays s (lt_log_data env bytes s) f fs
unfolding lt_log_data
log_data-Stays env [] s f fs u = stays s f fs u
log_data-Stays env (b ∷ bs) s f fs u =
    subst (λ w. Stays s w f fs) (sym (lt_log_data-write env b bs s f fs u))
      (record {
        file = if env.can_write then append_bytes (b ∷ bs) f else f;
        same_path = ground arith;
        unlimited = record { any_size = u.any_size; any_age = u.any_age; opened = ground arith };
        same_archived = refl;
      })

info-same :
    (env : Env) (s : FileLogger) (f : File) (fs : List File)
    → IsUnlimited s f fs
    → lt_current_log_file_info env s ≡ s
unfolding lt_current_log_file_info use_or_create lt_should_use_log_file
info-same env s f fs u =
    let o = u.opened.opening in
    ground
      (arith, o.is_current, o.on_disk, o.not_archived, o.not_symlink, file_info-head env.now f fs)

timer-same :
    (env : Env) (s : FileLogger) (f : File) (fs : List File)
    → IsUnlimited s f fs
    → handle_event env timer_fires s ≡ s
unfolding handle_event
timer-same env s f fs u = ground (arith, u.opened.timed, u.any_age)

size-same :
    (env : Env) (n : ℕ) (s : FileLogger) (f : File) (fs : List File)
    → n ≡ 0
    → IsUnlimited s f fs
    → set_maximum_file_size env n s ≡ s
unfolding set_maximum_file_size lt_maybe_roll_log_file_due_to_size
size-same env n s f fs l u = ground (arith, u.opened.opening.has_handle, u.any_size)

frequency-same :
    (env : Env) (n : ℕ) (s : FileLogger) (f : File) (fs : List File)
    → n ≡ 0
    → IsUnlimited s f fs
    → set_rolling_frequency env n s ≡ s
unfolding set_rolling_frequency lt_maybe_roll_log_file_due_to_age
    lt_schedule_timer_to_roll_log_file_due_to_age
frequency-same env n s f fs l u =
    ground
      (arith, u.opened.opening.has_handle, u.any_age, u.opened.opening.is_current, u.opened.timed)

handle_event-Stays :
    (env : Env) (e : Event) (s : FileLogger) (f : File) (fs : List File)
    → IsLogging e
    → IsUnlimited s f fs
    → Stays s (handle_event env e s) f fs
unfolding handle_event
handle_event-Stays env (log_data bytes) s f fs l u = log_data-Stays env bytes s f fs u
handle_event-Stays env roll_log_file s f fs l u = absurd l
handle_event-Stays env current_log_file_info s f fs l u =
    subst (λ w. Stays s w f fs) (sym (info-same env s f fs u)) (stays s f fs u)
handle_event-Stays env (set_max_size n) s f fs l u =
    subst (λ w. Stays s w f fs) (sym (size-same env n s f fs l u)) (stays s f fs u)
handle_event-Stays env (set_frequency n) s f fs l u =
    subst (λ w. Stays s w f fs) (sym (frequency-same env n s f fs l u)) (stays s f fs u)
handle_event-Stays env timer_fires s f fs l u =
    subst (λ w. Stays s w f fs) (sym (timer-same env s f fs u)) (stays s f fs u)
handle_event-Stays env vnode_changes s f fs l u = absurd l
handle_event-Stays env flush s f fs l u = stays s f fs u
handle_event-Stays env will_remove_logger s f fs l u = absurd l
handle_event-Stays env cleanup s f fs l u = absurd l
handle_event-Stays env delete_old s f fs l u = absurd l

pub handle_events : List (Env × Event) → FileLogger → FileLogger
handle_events [] s = s
handle_events (e ∷ es) s = handle_events es (handle_event e.0 e.1 s)

-- With both limits switched off and a file open, no messages, however many, and no setting of a limit
-- to 0 ever roll the file: it stays open, and nothing is archived.
pub handle_events-Stays :
    (es : List (Env × Event)) (s : FileLogger) (f : File) (fs : List File)
    → All (λ (e : Env × Event). IsLogging e.1) es
    → IsUnlimited s f fs
    → Stays s (handle_events es s) f fs
unfolding handle_events
handle_events-Stays [] s f fs l u = stays s f fs u
handle_events-Stays (e ∷ es) s f fs l u =
    let first = handle_event-Stays e.0 e.1 s f fs l.0 u in
    let rest = handle_events-Stays es (handle_event e.0 e.1 s) first.file fs l.1 first.unlimited in
    record {
      file = rest.file;
      same_path = rest.same_path ∙ first.same_path;
      unlimited = rest.unlimited;
      same_archived = rest.same_archived ∙ first.same_archived;
    }
