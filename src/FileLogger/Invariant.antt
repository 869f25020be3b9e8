-- ===== src/FileLogger/Invariant.antt =====
-- The states that a file logger can be in: closed, or open on the newest file.
use cocoa_lumberjack.Base.{
  ℕ, ◌+◌, ◌≡◌, ◌⊎◌, inl, inr, refl, true, false, List, ◌∷◌, none, some, arith, ltb, ==_refl,
  if◌then◌else◌, Option-cases,
}
use cocoa_lumberjack.FileLogger.{
  File, FileLogger, Env, update_file, file_info, lt_cleanup,
  lt_schedule_timer_to_roll_log_file_due_to_age, lt_roll_log_file_now,
  lt_maybe_roll_log_file_due_to_age, lt_maybe_roll_log_file_due_to_size, set_maximum_file_size,
  set_rolling_frequency, handle_event, timer_fires,
}

-- The current file, if it is known, is the newest, and not archived.
abbrev pub KnowsNewest : FileLogger → Type 0
KnowsNewest s =
    (s.current ≡ none)
    ⊎ ((f : File) × (fs : List File) × (s.disk ≡ f ∷ fs)
        × (s.current ≡ some f.path)
        × (f.is_archived ≡ false))

-- No file is open: then nothing is watched and no timer is set.
pub record IsClosed (s : FileLogger) : Type 0 where
  pub no_handle : s.handle ≡ none
  pub no_vnode : s.vnode ≡ false
  pub no_timer : s.timer ≡ none
  pub newest : KnowsNewest s

-- The newest file is open: it is the current one, no archived file and no link, and it is watched.
pub record IsOpening (s : FileLogger) (f : File) (fs : List File) : Type 0 where
  pub on_disk : s.disk ≡ f ∷ fs
  pub has_handle : s.handle ≡ some f.path
  pub is_current : s.current ≡ some f.path
  pub not_archived : f.is_archived ≡ false
  pub not_symlink : f.is_symlink ≡ false
  pub watched : s.vnode ≡ true

-- Besides, the timer is set to the end of the file's time, if its time is limited.
pub record IsOpen (s : FileLogger) (f : File) (fs : List File) : Type 0 where
  pub opening : IsOpening s f fs
  pub timed :
      s.timer ≡ (if ltb 0 s.rolling_frequency then some (f.created + s.rolling_frequency) else none)

abbrev pub IsSound : FileLogger → Type 0
IsSound s = IsClosed s ⊎ ((f : File) × (fs : List File) × IsOpen s f fs)

pub file_info-head : (now : ℕ) (f : File) (fs : List File) → file_info now f.path (f ∷ fs) ≡ f
unfolding file_info
file_info-head now f fs = ground (arith, ==_refl f.path)

pub update_file-head :
    (f : File) (fs : List File) (change : File → File)
    → update_file f.path change (f ∷ fs) ≡ change f ∷ fs
unfolding update_file
update_file-head f fs change = ground (arith, ==_refl f.path)

pub roll-IsClosed :
    (s : FileLogger) (f : File) (fs : List File)
    → IsOpening s f fs
    → IsClosed (lt_roll_log_file_now s)
unfolding lt_roll_log_file_now
roll-IsClosed s f fs o = ground (arith, o.has_handle, o.is_current)

pub roll-closed : (s : FileLogger) → s.handle ≡ none → lt_roll_log_file_now s ≡ s
unfolding lt_roll_log_file_now
roll-closed s e = ground arith

pub roll-IsSound : (s : FileLogger) → IsSound s → IsSound (lt_roll_log_file_now s)
roll-IsSound s (inl c) = rw (roll-closed s c.no_handle) (inl c)
roll-IsSound s (inr (f, fs, o)) = inl (roll-IsClosed s f fs o.opening)

pub schedule-IsOpen :
    (env : Env) (s : FileLogger) (f : File) (fs : List File)
    → IsOpening s f fs
    → IsOpen (lt_schedule_timer_to_roll_log_file_due_to_age env s) f fs
unfolding lt_schedule_timer_to_roll_log_file_due_to_age
schedule-IsOpen env s f fs o = ground (arith, o.on_disk, o.is_current, file_info-head env.now f fs)

-- Each of the two tests leaves the state, sets the timer anew, or rolls the file.
age-cases :
    (env : Env) (s : FileLogger)
    → (lt_maybe_roll_log_file_due_to_age env s ≡ lt_roll_log_file_now s)
      ⊎ (lt_maybe_roll_log_file_due_to_age env s
          ≡ lt_schedule_timer_to_roll_log_file_due_to_age env s)
unfolding lt_maybe_roll_log_file_due_to_age
age-cases env s = ground arith

pub size-cases :
    (env : Env) (s : FileLogger)
    → (lt_maybe_roll_log_file_due_to_size env s ≡ lt_roll_log_file_now s)
      ⊎ (lt_maybe_roll_log_file_due_to_size env s ≡ s)
unfolding lt_maybe_roll_log_file_due_to_size
size-cases env s = ground arith

age-IsSound :
    (env : Env) (s : FileLogger) (f : File) (fs : List File)
    → IsOpening s f fs
    → IsSound (lt_maybe_roll_log_file_due_to_age env s)
age-IsSound env s f fs o = elim (age-cases env s) [
  | inl e ↦ rw e (inl (roll-IsClosed s f fs o))
  | inr e ↦ rw e (inr (f, fs, schedule-IsOpen env s f fs o))
]

pub size-IsSound :
    (env : Env) (s : FileLogger) → IsSound s → IsSound (lt_maybe_roll_log_file_due_to_size env s)
size-IsSound env s v = elim (size-cases env s) [ inl e ↦ rw e (roll-IsSound s v) | inr e ↦ rw e v ]

set_maximum_file_size-cases :
    (env : Env) (n : ℕ) (s : FileLogger)
    → let s' = record s { maximum_file_size = n } in
      (set_maximum_file_size env n s ≡ s')
      ⊎ (set_maximum_file_size env n s ≡ lt_maybe_roll_log_file_due_to_size env s')
unfolding set_maximum_file_size
set_maximum_file_size-cases env n s = elim (Option-cases s.handle) [
  | inl e ↦ inl (ground arith)
  | inr (p, e) ↦ inr (ground arith)
]

max_size-IsSound :
    (n : ℕ) (s : FileLogger) → IsSound s → IsSound (record s { maximum_file_size = n })
max_size-IsSound n s (inl c) = inl (record {
  no_handle = c.no_handle;
  no_vnode = c.no_vnode;
  no_timer = c.no_timer;
  newest = c.newest;
})
max_size-IsSound n s (inr (f, fs, o)) = inr (f, fs, ground arith)

pub set_maximum_file_size-IsSound :
    (env : Env) (n : ℕ) (s : FileLogger) → IsSound s → IsSound (set_maximum_file_size env n s)
set_maximum_file_size-IsSound env n s v =
    let v' = max_size-IsSound n s v in
    elim (set_maximum_file_size-cases env n s) [
      | inl e ↦ rw e v'
      | inr e ↦ rw e (size-IsSound env (record s { maximum_file_size = n }) v')
    ]

set_rolling_frequency-closed :
    (env : Env) (n : ℕ) (s : FileLogger)
    → s.handle ≡ none
    → set_rolling_frequency env n s ≡ record s { rolling_frequency = n }
unfolding set_rolling_frequency
set_rolling_frequency-closed env n s e = ground arith

set_rolling_frequency-open :
    (env : Env) (n p : ℕ) (s : FileLogger)
    → s.handle ≡ some p
    → set_rolling_frequency env n s
      ≡ lt_maybe_roll_log_file_due_to_age env (record s { rolling_frequency = n })
unfolding set_rolling_frequency
set_rolling_frequency-open env n p s e = ground arith

pub set_rolling_frequency-IsSound :
    (env : Env) (n : ℕ) (s : FileLogger) → IsSound s → IsSound (set_rolling_frequency env n s)
set_rolling_frequency-IsSound env n s (inl c) =
    rw (set_rolling_frequency-closed env n s c.no_handle) (
      inl (record {
        no_handle = c.no_handle;
        no_vnode = c.no_vnode;
        no_timer = c.no_timer;
        newest = c.newest;
      }))
set_rolling_frequency-IsSound env n s (inr (f, fs, o)) =
    rw (set_rolling_frequency-open env n f.path s o.opening.has_handle)
      (age-IsSound env (record s { rolling_frequency = n }) f fs (ground arith))

timer_fires-none :
    (env : Env) (s : FileLogger) → s.timer ≡ none → handle_event env timer_fires s ≡ s
unfolding handle_event
timer_fires-none env s e = ground arith

timer_fires-some :
    (env : Env) (s : FileLogger) (t : ℕ)
    → s.timer ≡ some t
    → handle_event env timer_fires s ≡ lt_maybe_roll_log_file_due_to_age env s
unfolding handle_event
timer_fires-some env s t e = ground arith

pub timer_fires-IsSound :
    (env : Env) (s : FileLogger) → IsSound s → IsSound (handle_event env timer_fires s)
timer_fires-IsSound env s (inl c) = rw (timer_fires-none env s c.no_timer) (inl c)
timer_fires-IsSound env s (inr (f, fs, o)) = elim (Option-cases s.timer) [
  | inl e ↦ rw (timer_fires-none env s e) (inr (f, fs, o))
  | inr (t, e) ↦ rw (timer_fires-some env s t e) (age-IsSound env s f fs o.opening)
]

pub lt_cleanup-IsSound : (s : FileLogger) → IsSound s → IsSound (lt_cleanup s)
unfolding lt_cleanup
lt_cleanup-IsSound s (inl c) =
    inl (record { no_handle = refl; no_vnode = refl; no_timer = refl; newest = c.newest })
lt_cleanup-IsSound s (inr (f, fs, o)) = inl (record {
  no_handle = refl;
  no_vnode = refl;
  no_timer = refl;
  newest = inr (f, fs, o.opening.on_disk, o.opening.is_current, o.opening.not_archived);
})
