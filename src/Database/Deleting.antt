-- ===== src/Database/Deleting.antt =====
-- The delete timer.
use cocoa_lumberjack.Base.{ℕ, ◌<◌, ◌≡◌, ◌⊎◌, inl, refl, Bool, true, none, some, arith, is_some}
use cocoa_lumberjack.Database.{
  Schedule, Database, perform_save_and_suspend_save_timer, perform_delete, destroy_save_timer,
  update_and_resume_save_timer, create_suspended_save_timer, set_save_threshold, set_save_interval,
  destroy_delete_timer, update_delete_timer, create_and_start_delete_timer, delete_now, set_max_age,
  set_delete_interval, did_add_logger, will_remove_logger, log_accepted, log_message, handle_event,
  Event, message_logged, set_threshold, set_saving, set_age, set_deleting, set_on_every_save,
  save_pending, delete_old, flushed, added, removed, save_timer_fired, delete_timer_fired,
}

-- A delete timer is there only while the interval and the age are positive, and it has that interval.
abbrev pub IsDeleting : Database → Type 0
IsDeleting s =
    (s.delete_timer ≡ none)
    ⊎ ((0 < s.delete_interval)
        × (0 < s.max_age)
        × (t : Schedule) × (s.delete_timer ≡ some t)
        × (t.interval ≡ s.delete_interval))

-- It is there whenever they are.
abbrev pub IsArmed : Database → Type 0
IsArmed s = (s.delete_interval ≡ 0) ⊎ (s.max_age ≡ 0) ⊎ (is_some s.delete_timer ≡ true)

record DeletingSame (s t : Database) : Type 0 where
  same_interval : t.delete_interval ≡ s.delete_interval
  same_age : t.max_age ≡ s.max_age
  same_timer : t.delete_timer ≡ s.delete_timer

same-IsDeleting : (s t : Database) → DeletingSame s t → IsDeleting s → IsDeleting t
same-IsDeleting s t e v = rw (e.same_interval, e.same_age, e.same_timer) v

same-IsArmed : (s t : Database) → DeletingSame s t → IsArmed s → IsArmed t
same-IsArmed s t e v = rw (e.same_interval, e.same_age, e.same_timer) v

save-DeletingSame : (s : Database) → DeletingSame s (perform_save_and_suspend_save_timer s)
unfolding perform_save_and_suspend_save_timer
save-DeletingSame s = ground arith

threshold-DeletingSame : (n : ℕ) (s : Database) → DeletingSame s (set_save_threshold n s)
unfolding set_save_threshold perform_save_and_suspend_save_timer
threshold-DeletingSame n s = ground arith

saving-DeletingSame : (n : ℕ) (s : Database) → DeletingSame s (set_save_interval n s)
unfolding set_save_interval update_and_resume_save_timer create_suspended_save_timer
    destroy_save_timer
saving-DeletingSame n s = ground arith

message-DeletingSame : (now : ℕ) (b : Bool) (s : Database) → DeletingSame s (log_message now b s)
unfolding log_message log_accepted update_and_resume_save_timer perform_save_and_suspend_save_timer
message-DeletingSame now b s = ground arith

delete-DeletingSame : (now : ℕ) (s : Database) → DeletingSame s (perform_delete now s)
unfolding perform_delete
delete-DeletingSame now s = ground arith

create_save-DeletingSame : (s : Database) → DeletingSame s (create_suspended_save_timer s)
unfolding create_suspended_save_timer
create_save-DeletingSame s = ground arith

create_delete-IsArmed : (now : ℕ) (s : Database) → IsArmed (create_and_start_delete_timer now s)
unfolding create_and_start_delete_timer update_delete_timer
create_delete-IsArmed now s = ground arith

create_delete-IsDeleting :
    (now : ℕ) (s : Database) → IsDeleting s → IsDeleting (create_and_start_delete_timer now s)
unfolding create_and_start_delete_timer update_delete_timer
create_delete-IsDeleting now s v = ground arith

set_max_age-IsDeleting :
    (now n : ℕ) (s : Database) → IsDeleting s → IsDeleting (set_max_age now n s)
unfolding set_max_age delete_now perform_delete update_delete_timer create_and_start_delete_timer
    destroy_delete_timer
set_max_age-IsDeleting now n s v = ground arith

set_max_age-IsArmed : (now n : ℕ) (s : Database) → IsArmed s → IsArmed (set_max_age now n s)
unfolding set_max_age delete_now perform_delete update_delete_timer create_and_start_delete_timer
    destroy_delete_timer
set_max_age-IsArmed now n s v = ground arith

set_delete_interval-IsDeleting :
    (now n : ℕ) (s : Database) → IsDeleting s → IsDeleting (set_delete_interval now n s)
unfolding set_delete_interval update_delete_timer create_and_start_delete_timer destroy_delete_timer
set_delete_interval-IsDeleting now n s v = ground arith

set_delete_interval-IsArmed :
    (now n : ℕ) (s : Database) → IsArmed s → IsArmed (set_delete_interval now n s)
unfolding set_delete_interval update_delete_timer create_and_start_delete_timer destroy_delete_timer
set_delete_interval-IsArmed now n s v = ground arith

removed-none : (s : Database) → (will_remove_logger s).delete_timer ≡ none
unfolding will_remove_logger destroy_delete_timer
removed-none s = refl

-- The events that have to do with deletes only by a call of `db_delete`.
abbrev IsOther : Event → Type 0
IsOther (set_age n) = ⊥
IsOther (set_deleting n) = ⊥
IsOther added = ⊥
IsOther removed = ⊥
IsOther _ = Unit

fired-DeletingSame :
    (now : ℕ) (s : Database)
    → DeletingSame s (handle_event now save_timer_fired s)
      × DeletingSame s (handle_event now delete_timer_fired s)
unfolding handle_event perform_save_and_suspend_save_timer perform_delete
fired-DeletingSame now s = (ground arith, ground arith)

other-DeletingSame :
    (now : ℕ) (e : Event) (s : Database) → IsOther e → DeletingSame s (handle_event now e s)
unfolding handle_event
other-DeletingSame now (message_logged b) s h = message-DeletingSame now b s
other-DeletingSame now (set_threshold n) s h = threshold-DeletingSame n s
other-DeletingSame now (set_saving n) s h = saving-DeletingSame n s
other-DeletingSame now (set_age n) s h = absurd h
other-DeletingSame now (set_deleting n) s h = absurd h
other-DeletingSame now (set_on_every_save flag) s h = record {
  same_interval = refl;
  same_age = refl;
  same_timer = refl;
}
other-DeletingSame now save_pending s h = save-DeletingSame s
other-DeletingSame now delete_old s h = delete-DeletingSame now s
other-DeletingSame now flushed s h = save-DeletingSame s
other-DeletingSame now added s h = absurd h
other-DeletingSame now removed s h = absurd h
other-DeletingSame now save_timer_fired s h = (fired-DeletingSame now s).0
other-DeletingSame now delete_timer_fired s h = (fired-DeletingSame now s).1

-- What an event does to a timer that is there whenever it may be.
abbrev pub Arms : Event → Database → Database → Type 0
Arms added s t = IsArmed t
Arms removed s t = t.delete_timer ≡ none
Arms _ s t = IsArmed s → IsArmed t

other-Arms :
    (now : ℕ) (e : Event) (s : Database)
    → IsOther e
    → IsDeleting s
    → IsDeleting (handle_event now e s) × (IsArmed s → IsArmed (handle_event now e s))
other-Arms now e s h v =
    let t = handle_event now e s in
    let same = other-DeletingSame now e s h in
    (same-IsDeleting s t same v, λ a. same-IsArmed s t same a)

-- The delete timer, whatever happens: if it is there, then the interval and the age are positive and it has
-- the interval. When the logger is added it is there whenever both are positive; this is kept by every
-- event until the logger is removed, which leaves no delete timer.
pub handle_event-IsDeleting :
    (now : ℕ) (e : Event) (s : Database)
    → IsDeleting s
    → IsDeleting (handle_event now e s) × Arms e s (handle_event now e s)
handle_event-IsDeleting now (message_logged b) s v = other-Arms now (message_logged b) s tt v
handle_event-IsDeleting now (set_threshold n) s v = other-Arms now (set_threshold n) s tt v
handle_event-IsDeleting now (set_saving n) s v = other-Arms now (set_saving n) s tt v
handle_event-IsDeleting now (set_age n) s v =
    unfold handle_event in (set_max_age-IsDeleting now n s v, set_max_age-IsArmed now n s)
handle_event-IsDeleting now (set_deleting n) s v =
    unfold handle_event in
    (set_delete_interval-IsDeleting now n s v, set_delete_interval-IsArmed now n s)
handle_event-IsDeleting now (set_on_every_save flag) s v =
    other-Arms now (set_on_every_save flag) s tt v
handle_event-IsDeleting now save_pending s v = other-Arms now save_pending s tt v
handle_event-IsDeleting now delete_old s v = other-Arms now delete_old s tt v
handle_event-IsDeleting now flushed s v = other-Arms now flushed s tt v
handle_event-IsDeleting now added s v =
    let t = create_suspended_save_timer s in
    unfold handle_event did_add_logger in
    (
      create_delete-IsDeleting now t (same-IsDeleting s t (create_save-DeletingSame s) v),
      create_delete-IsArmed now t,
    )
handle_event-IsDeleting now removed s v =
    unfold handle_event in (inl (removed-none s), removed-none s)
handle_event-IsDeleting now save_timer_fired s v = other-Arms now save_timer_fired s tt v
handle_event-IsDeleting now delete_timer_fired s v = other-Arms now delete_timer_fired s tt v
