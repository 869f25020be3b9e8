-- ===== src/Database/Saving.antt =====
-- The count of unsaved entries and the save timer.
use cocoa_lumberjack.Base.{
  ℕ, suc, ◌+◌, ◌<◌, ◌≡◌, ◌≢◌, ◌⊎◌, inl, inr, refl, true, false, List, [], ◌∷◌, Option, none, some,
  arith, is_some,
}
use cocoa_lumberjack.Database.{
  DbCall, db_log, db_save, db_save_and_delete, db_delete, Suspension, not_activated, resumed,
  suspended, Schedule, Database, suspend, perform_save_and_suspend_save_timer, destroy_save_timer,
  update_and_resume_save_timer, create_suspended_save_timer, set_save_threshold, set_save_interval,
  log_accepted,
}

-- The entries that were accepted since the last save, by the calls of the database.
abbrev pub pending : List DbCall → ℕ
pending [] = 0
pending (db_log true ∷ cs) = suc (pending cs)
pending (db_log false ∷ cs) = pending cs
pending (db_save ∷ cs) = 0
pending (db_save_and_delete ∷ cs) = 0
pending (db_delete ∷ cs) = pending cs

-- There is no timer, or nothing is unsaved and the timer does not run, or the timer runs.
abbrev pub IsTimed : ℕ → ℕ → ℕ → Option (Option Schedule) → Suspension → Type 0
IsTimed interval count time timer p =
    ((timer ≡ none) × (p ≡ resumed))
    ⊎ ((0 < interval) × (is_some timer ≡ true) × (count ≡ 0) × (p ≢ resumed))
    ⊎ ((0 < interval)
        × (0 < count)
        × (p ≡ resumed)
        × (timer ≡ some (some (record { start = time + interval; interval = interval }))))

pub record IsSaving (s : Database) : Type 0 where
  pub counted : pending s.calls ≡ s.unsaved_count
  pub limited : (s.save_threshold ≡ 0) ⊎ (s.unsaved_count < s.save_threshold)
  pub dated :
      ((s.unsaved_count ≡ 0) × (s.unsaved_time ≡ 0))
      ⊎ ((0 < s.unsaved_count) × (0 < s.unsaved_time))
  pub timed :
      IsTimed s.save_interval s.unsaved_count s.unsaved_time s.save_timer s.save_timer_suspended

abbrev pub NoTimer : Database → Type 0
NoTimer s = (s.save_timer ≡ none) × (s.save_timer_suspended ≡ resumed)

abbrev pub HasTimer : Database → Type 0
HasTimer s = (0 < s.save_interval) × (is_some s.save_timer ≡ true)

suspend-stopped :
    (t : Option (Option Schedule)) (p : Suspension) → is_some t ≡ true → suspend t p ≢ resumed
suspend-stopped none p h = cc
suspend-stopped (some t) not_activated h = λ e. cc
suspend-stopped (some t) resumed h = λ e. cc
suspend-stopped (some t) suspended h = λ e. cc

pub perform_save-IsSaving :
    (s : Database)
    → pending s.calls ≡ s.unsaved_count
    → NoTimer s ⊎ HasTimer s
    → IsSaving (perform_save_and_suspend_save_timer s)
unfolding perform_save_and_suspend_save_timer
perform_save-IsSaving s c t = record {
  counted = ground arith;
  limited = ground arith;
  dated = inl (refl, refl);
  timed = elim t [
    | inl (e, e') ↦ inl (e, rw (e, e') refl)
    | inr (pos, h) ↦ inr (inl (pos, h, refl, suspend-stopped s.save_timer s.save_timer_suspended h))
  ];
}

-- A timer that may be set: something is unsaved, or it does not run.
abbrev IsStartable : Database → Type 0
IsStartable s =
    NoTimer s
    ⊎ (HasTimer s
        × ((0 < s.unsaved_time) ⊎ ((s.unsaved_count ≡ 0) × (s.save_timer_suspended ≢ resumed))))

update-IsSaving :
    (s : Database)
    → pending s.calls ≡ s.unsaved_count
    → (s.save_threshold ≡ 0) ⊎ (s.unsaved_count < s.save_threshold)
    → ((s.unsaved_count ≡ 0) × (s.unsaved_time ≡ 0))
      ⊎ ((0 < s.unsaved_count) × (0 < s.unsaved_time))
    → IsStartable s
    → IsSaving (update_and_resume_save_timer s)
unfolding update_and_resume_save_timer
update-IsSaving s c l d t = record {
  counted = ground arith;
  limited = ground arith;
  dated = ground arith;
  timed = ground arith;
}

pub has_timer : (s : Database) → IsSaving s → NoTimer s ⊎ HasTimer s
has_timer s v = ground (arith, v.timed)

set_save_threshold-cases :
    (n : ℕ) (s : Database)
    → let s' = record s { save_threshold = n } in
      (set_save_threshold n s ≡ s)
      ⊎ (set_save_threshold n s ≡ perform_save_and_suspend_save_timer s')
      ⊎ ((set_save_threshold n s ≡ s') × ((n ≡ 0) ⊎ (s.unsaved_count < n)))
unfolding set_save_threshold
set_save_threshold-cases n s = ground arith

pub set_save_threshold-IsSaving :
    (n : ℕ) (s : Database) → IsSaving s → IsSaving (set_save_threshold n s)
set_save_threshold-IsSaving n s v = elim (set_save_threshold-cases n s) [
  | inl e ↦ rw e v
  | inr (inl e) ↦
      rw e (perform_save-IsSaving (record s { save_threshold = n }) v.counted (has_timer s v))
  | inr (inr (e, l)) ↦
      rw e (record { counted = v.counted; limited = l; dated = v.dated; timed = v.timed })
]

set_save_interval-cases :
    (n : ℕ) (s : Database)
    → let s' = record s { save_interval = n } in
      (set_save_interval n s ≡ s)
      ⊎ ((0 < n)
          × (is_some s.save_timer ≡ true)
          × (set_save_interval n s ≡ update_and_resume_save_timer s'))
      ⊎ ((0 < n)
          × (s.save_timer ≡ none)
          × (set_save_interval n s
              ≡ update_and_resume_save_timer
                  (record s' { save_timer = some none; save_timer_suspended = not_activated })))
      ⊎ (set_save_interval n s ≡ record s' { save_timer = none; save_timer_suspended = resumed })
      ⊎ ((s.save_timer ≡ none) × (set_save_interval n s ≡ s'))
unfolding set_save_interval create_suspended_save_timer destroy_save_timer
set_save_interval-cases n s = ground arith

pub not_activated-stopped : not_activated ≢ resumed
not_activated-stopped = λ e. cc

pub set_save_interval-IsSaving :
    (n : ℕ) (s : Database) → IsSaving s → IsSaving (set_save_interval n s)
set_save_interval-IsSaving n s v = elim (set_save_interval-cases n s) [
  | inl e ↦ rw e v
  | inr (inl (pos, h, e)) ↦ rw e (
      update-IsSaving (record s { save_interval = n }) v.counted v.limited v.dated
        (ground (arith, v.timed, v.dated)))
  | inr (inr (inl (pos, h, e))) ↦ rw e (
      update-IsSaving
        (record s {
          save_interval = n;
          save_timer = some none;
          save_timer_suspended = not_activated;
        })
        v.counted v.limited v.dated
        (inr ((pos, refl), ground (arith, v.dated, not_activated-stopped))))
  | inr (inr (inr (inl e))) ↦ rw e (record {
    counted = v.counted;
    limited = v.limited;
    dated = v.dated;
    timed = inl (refl, refl);
  })
  | inr (inr (inr (inr (h, e)))) ↦ rw e (record {
    counted = v.counted;
    limited = v.limited;
    dated = v.dated;
    timed = ground (arith, v.timed);
  })
]

log_accepted-cases :
    (now : ℕ) (s : Database)
    → let s' = record s { unsaved_count = suc s.unsaved_count } in
      (log_accepted now s ≡ perform_save_and_suspend_save_timer s')
      ⊎ ((log_accepted now s ≡ update_and_resume_save_timer (record s' { unsaved_time = now }))
          × (s.unsaved_count ≡ 0)
          × ((s.save_threshold ≡ 0) ⊎ (1 < s.save_threshold)))
      ⊎ ((log_accepted now s ≡ s')
          × (0 < s.unsaved_count)
          × ((s.save_threshold ≡ 0) ⊎ (suc s.unsaved_count < s.save_threshold)))
unfolding log_accepted
log_accepted-cases now s = ground arith

pub log_accepted-IsSaving :
    (now : ℕ) (s : Database) (cs : List DbCall)
    → 0 < now
    → IsSaving s
    → pending cs ≡ suc s.unsaved_count
    → IsSaving (log_accepted now (record s { calls = cs }))
log_accepted-IsSaving now s cs pos v c = elim (log_accepted-cases now (record s { calls = cs })) [
  | inl e ↦ rw e (
      perform_save-IsSaving (record s { calls = cs; unsaved_count = suc s.unsaved_count }) c
        (has_timer s v))
  | inr (inl (e, zero_count, l)) ↦ rw e (
      update-IsSaving
        (record s { calls = cs; unsaved_count = suc s.unsaved_count; unsaved_time = now }) c
        (omega (arith, zero_count, l)) (inr (omega arith, pos)) (ground (arith, v.timed)))
  | inr (inr (e, more, l)) ↦ rw e (record {
    counted = c;
    limited = l;
    dated = ground (arith, v.dated);
    timed = ground (arith, v.timed);
  })
]
