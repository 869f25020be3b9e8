-- ===== src/Database/Handling.antt =====
-- The events of DDAbstractDatabaseLogger and the unsaved entries.
use cocoa_lumberjack.Base.{
  ℕ, suc, ◌<◌, ◌≡◌, ◌⊎◌, inl, inr, refl, sym, ap, ◌∙◌, true, false, ◌∷◌, none, some, arith, is_some,
}
use cocoa_lumberjack.Database.{
  db_log, not_activated, Database, init, perform_save_and_suspend_save_timer, perform_delete,
  destroy_save_timer, create_suspended_save_timer, destroy_delete_timer, update_delete_timer,
  create_and_start_delete_timer, delete_now, set_max_age, set_delete_interval, did_add_logger,
  will_remove_logger, log_message, handle_event, Event, message_logged, set_threshold, set_saving,
  set_age, set_deleting, set_on_every_save, save_pending, delete_old, flushed, added, removed,
  save_timer_fired, delete_timer_fired,
}
use cocoa_lumberjack.Database.Saving.{
  pending, IsSaving, perform_save-IsSaving, has_timer, set_save_threshold-IsSaving,
  set_save_interval-IsSaving, log_accepted-IsSaving, not_activated-stopped,
}

-- The deletes have no part in it.
record SavingSame (s t : Database) : Type 0 where
  same_threshold : t.save_threshold ≡ s.save_threshold
  same_interval : t.save_interval ≡ s.save_interval
  same_timer : t.save_timer ≡ s.save_timer
  same_suspended : t.save_timer_suspended ≡ s.save_timer_suspended
  same_count : t.unsaved_count ≡ s.unsaved_count
  same_time : t.unsaved_time ≡ s.unsaved_time
  same_pending : pending t.calls ≡ pending s.calls

same-IsSaving : (s t : Database) → SavingSame s t → IsSaving s → IsSaving t
same-IsSaving s t e v = record {
  counted = e.same_pending ∙ v.counted ∙ sym e.same_count;
  limited = rw (e.same_threshold, e.same_count) v.limited;
  dated = rw (e.same_count, e.same_time) v.dated;
  timed = rw (e.same_interval, e.same_count, e.same_time, e.same_timer, e.same_suspended) v.timed;
}

perform_delete-SavingSame : (now : ℕ) (s : Database) → SavingSame s (perform_delete now s)
unfolding perform_delete
perform_delete-SavingSame now s = ground arith

create_delete-SavingSame :
    (now : ℕ) (s : Database) → SavingSame s (create_and_start_delete_timer now s)
unfolding create_and_start_delete_timer update_delete_timer
create_delete-SavingSame now s = ground arith

set_max_age-SavingSame : (now n : ℕ) (s : Database) → SavingSame s (set_max_age now n s)
unfolding set_max_age delete_now perform_delete update_delete_timer create_and_start_delete_timer
    destroy_delete_timer
set_max_age-SavingSame now n s = ground arith

set_delete_interval-SavingSame :
    (now n : ℕ) (s : Database) → SavingSame s (set_delete_interval now n s)
unfolding set_delete_interval update_delete_timer create_and_start_delete_timer destroy_delete_timer
set_delete_interval-SavingSame now n s = ground arith

create_save-cases :
    (s : Database)
    → ((create_suspended_save_timer s
          ≡ record s { save_timer = some none; save_timer_suspended = not_activated })
        × (0 < s.save_interval)
        × (s.save_timer ≡ none))
      ⊎ (create_suspended_save_timer s ≡ s)
unfolding create_suspended_save_timer
create_save-cases s = ground arith

create_save-IsSaving :
    (s : Database)
    → (s.unsaved_count ≡ 0) ⊎ (is_some s.save_timer ≡ true)
    → IsSaving s
    → IsSaving (create_suspended_save_timer s)
create_save-IsSaving s h v = elim (create_save-cases s) [
  | inl (e, pos, no_timer) ↦ rw e (record {
    counted = v.counted;
    limited = v.limited;
    dated = v.dated;
    timed = inr (inl (pos, refl, ground (arith, h, no_timer), not_activated-stopped));
  })
  | inr e ↦ rw e v
]

removed-IsSaving : (s : Database) → IsSaving s → IsSaving (will_remove_logger s)
unfolding will_remove_logger destroy_save_timer destroy_delete_timer
    perform_save_and_suspend_save_timer
removed-IsSaving s v = record {
  counted = ground arith;
  limited = ground arith;
  dated = ground arith;
  timed = ground arith;
}

-- The logger is added while nothing is unsaved, or while it has its timer, as it does when it is added
-- after it was made or removed.
abbrev pub IsAllowed : Event → Database → Type 0
IsAllowed added s = (s.unsaved_count ≡ 0) ⊎ (is_some s.save_timer ≡ true)
IsAllowed _ s = Unit

fired-cases :
    (now : ℕ) (s : Database)
    → (handle_event now save_timer_fired s ≡ perform_save_and_suspend_save_timer s)
      ⊎ (handle_event now save_timer_fired s ≡ s)
unfolding handle_event
fired-cases now s = ground arith

delete_fired-cases :
    (now : ℕ) (s : Database)
    → (handle_event now delete_timer_fired s ≡ perform_delete now s)
      ⊎ (handle_event now delete_timer_fired s ≡ s)
unfolding handle_event
delete_fired-cases now s = ground arith

-- The invariant of saving is kept by whatever the queue of the logger runs, at a time after the epoch, if
-- the logger is added only while nothing is unsaved or its timer is there. The invariant: the count is
-- that of the entries which the database accepted since its last save; the count is below the
-- threshold, if there is one; the time is set exactly if something is unsaved; and there is no timer, or
-- nothing is unsaved and the timer does not run, or something is unsaved and the timer runs and fires
-- when the oldest unsaved entry is as old as the interval.
pub handle_event-IsSaving :
    (now : ℕ) (e : Event) (s : Database)
    → 0 < now
    → IsAllowed e s
    → IsSaving s
    → IsSaving (handle_event now e s)
unfolding handle_event log_message did_add_logger
handle_event-IsSaving now (message_logged true) s pos h v =
    log_accepted-IsSaving now s (db_log true ∷ s.calls) pos v (ap suc v.counted)
handle_event-IsSaving now (message_logged false) s pos h v = record {
  counted = v.counted;
  limited = v.limited;
  dated = v.dated;
  timed = v.timed;
}
handle_event-IsSaving now (set_threshold n) s pos h v = set_save_threshold-IsSaving n s v
handle_event-IsSaving now (set_saving n) s pos h v = set_save_interval-IsSaving n s v
handle_event-IsSaving now (set_age n) s pos h v =
    same-IsSaving s (set_max_age now n s) (set_max_age-SavingSame now n s) v
handle_event-IsSaving now (set_deleting n) s pos h v =
    same-IsSaving s (set_delete_interval now n s) (set_delete_interval-SavingSame now n s) v
handle_event-IsSaving now (set_on_every_save flag) s pos h v = record {
  counted = v.counted;
  limited = v.limited;
  dated = v.dated;
  timed = v.timed;
}
handle_event-IsSaving now save_pending s pos h v = perform_save-IsSaving s v.counted (has_timer s v)
handle_event-IsSaving now delete_old s pos h v =
    same-IsSaving s (perform_delete now s) (perform_delete-SavingSame now s) v
handle_event-IsSaving now flushed s pos h v = perform_save-IsSaving s v.counted (has_timer s v)
handle_event-IsSaving now added s pos h v =
    let t = create_suspended_save_timer s in
    same-IsSaving t (create_and_start_delete_timer now t) (create_delete-SavingSame now t)
      (create_save-IsSaving s h v)
handle_event-IsSaving now removed s pos h v = removed-IsSaving s v
handle_event-IsSaving now save_timer_fired s pos h v = elim (fired-cases now s) [
  | inl e ↦ rw e (perform_save-IsSaving s v.counted (has_timer s v))
  | inr e ↦ rw e v
]
handle_event-IsSaving now delete_timer_fired s pos h v = elim (delete_fired-cases now s) [
  | inl e ↦ rw e (same-IsSaving s (perform_delete now s) (perform_delete-SavingSame now s) v)
  | inr e ↦ rw e v
]

-- The state in which the logger is made.
pub init-IsSaving : IsSaving init
unfolding init
init-IsSaving = record {
  counted = refl;
  limited = inr (omega arith);
  dated = inl (refl, refl);
  timed = inl (refl, refl);
}

-- The calls that save: afterwards no accepted entry is unsaved. This is so after a flush, a request to save,
-- the removal of the logger, and whenever a save timer that is there fires: if it does not run, then
-- nothing was unsaved.
pub saves-pending :
    (now : ℕ) (s : Database)
    → IsSaving s
    → (pending (handle_event now flushed s).calls ≡ 0)
      × (pending (handle_event now save_pending s).calls ≡ 0)
      × (pending (handle_event now removed s).calls ≡ 0)
      × ((s.save_timer ≡ none) ⊎ (pending (handle_event now save_timer_fired s).calls ≡ 0))
unfolding handle_event will_remove_logger destroy_save_timer destroy_delete_timer
    perform_save_and_suspend_save_timer
saves-pending now s v =
    let c = v.counted in
    (ground (arith, c), ground (arith, c), ground (arith, c), ground (arith, c, v.timed))
