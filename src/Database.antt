-- ===== src/Database.antt =====
-- DDAbstractDatabaseLogger of Sources/CocoaLumberjack/DDAbstractDatabaseLogger.m, as its queue runs it: when
-- entries are saved and deleted, and the two timers. Times and intervals are whole nanoseconds, and an
-- interval that is not positive, which switches its timer off, is 0. The methods that a subclass
-- overrides are recorded by their calls.
pub mod Saving
pub mod Handling
pub mod Deleting
pub mod Interface
mod Examples
use cocoa_lumberjack.Base.{
  ℕ, zero, suc, ◌+◌, ◌*◌, Bool, true, false, not, ◌&&◌, List, [], ◌∷◌, Option, none, some, ltb, leb,
  ◌==◌, if◌then◌else◌, is_some,
}

-- A call of `db_log:`, with its answer, of `db_save`, `db_saveAndDelete` or `db_delete`.
pub data DbCall : Type 0 where
  db_log : Bool → DbCall
  db_save db_save_and_delete db_delete : DbCall

-- `_saveTimerSuspended`: -1 for a timer never activated, 0 for one that runs, 1 for a suspended one.
pub data Suspension : Type 0 where
  not_activated resumed suspended : Suspension

-- The first argument of `dispatch_source_set_timer`, and the interval.
pub record Schedule : Type 0 where
  pub start : ℕ
  pub interval : ℕ

-- The instance variables and the calls of the database, the latest first. A save timer has no
-- schedule until it is set.
pub record Database : Type 0 where
  pub save_threshold : ℕ
  pub save_interval : ℕ
  pub max_age : ℕ
  pub delete_interval : ℕ
  pub delete_on_every_save : Bool
  pub save_timer : Option (Option Schedule)
  pub save_timer_suspended : Suspension
  pub unsaved_count : ℕ
  pub unsaved_time : ℕ
  pub delete_timer : Option Schedule
  pub last_delete_time : ℕ
  pub calls : List DbCall

abbrev pub seconds : ℕ → ℕ
seconds n = n * 1000000000

unfoldable pub init : Database
init = record {
  save_threshold = 500;
  save_interval = seconds 60;
  max_age = seconds 604800;
  delete_interval = seconds 300;
  delete_on_every_save = false;
  save_timer = none;
  save_timer_suspended = resumed;
  unsaved_count = 0;
  unsaved_time = 0;
  delete_timer = none;
  last_delete_time = 0;
  calls = [];
}

abbrev call_save : Database → List DbCall
call_save s =
    if ltb 0 s.unsaved_count
    then (if s.delete_on_every_save then db_save_and_delete else db_save) ∷ s.calls
    else s.calls

-- A timer that runs is suspended; there may be none.
abbrev pub suspend : Option (Option Schedule) → Suspension → Suspension
suspend none p = p
suspend (some t) not_activated = not_activated
suspend (some t) resumed = suspended
suspend (some t) suspended = suspended

pub perform_save_and_suspend_save_timer : Database → Database
perform_save_and_suspend_save_timer s = record s {
  calls = call_save s;
  unsaved_count = 0;
  unsaved_time = 0;
  save_timer_suspended = suspend s.save_timer s.save_timer_suspended;
}

pub perform_delete : ℕ → Database → Database
perform_delete now s =
    if ltb 0 s.max_age then record s { calls = db_delete ∷ s.calls; last_delete_time = now } else s

pub destroy_save_timer : Database → Database
destroy_save_timer s =
    if is_some s.save_timer
    then record s { save_timer = none; save_timer_suspended = resumed }
    else s

pub update_and_resume_save_timer : Database → Database
update_and_resume_save_timer s =
    if is_some s.save_timer && ltb 0 s.save_interval && ltb 0 s.unsaved_time
    then record s {
      save_timer =
          some (
            some (record { start = s.unsaved_time + s.save_interval; interval = s.save_interval }));
      save_timer_suspended = resumed;
    }
    else s

pub create_suspended_save_timer : Database → Database
create_suspended_save_timer s =
    if not (is_some s.save_timer) && ltb 0 s.save_interval
    then record s { save_timer = some none; save_timer_suspended = not_activated }
    else s

pub destroy_delete_timer : Database → Database
destroy_delete_timer s = record s { delete_timer = none }

abbrev delete_schedule : ℕ → Database → Schedule
delete_schedule now s = record {
  start = (if ltb 0 s.last_delete_time then s.last_delete_time else now) + s.delete_interval;
  interval = s.delete_interval;
}

pub update_delete_timer : ℕ → Database → Database
update_delete_timer now s =
    if is_some s.delete_timer && ltb 0 s.delete_interval && ltb 0 s.max_age
    then record s { delete_timer = some (delete_schedule now s) }
    else s

-- The new timer is set by `updateDeleteTimer`, which has the same guards.
pub create_and_start_delete_timer : ℕ → Database → Database
unfolding update_delete_timer
create_and_start_delete_timer now s =
    if not (is_some s.delete_timer) && ltb 0 s.delete_interval && ltb 0 s.max_age
    then update_delete_timer now
        (record s { delete_timer = some (record { start = 0; interval = 0 }) })
    else s

pub set_save_threshold : ℕ → Database → Database
unfolding perform_save_and_suspend_save_timer
set_save_threshold n s =
    let s' = record s { save_threshold = n } in
    if s.save_threshold == n
    then s
    else if leb n s.unsaved_count && ltb 0 n
    then perform_save_and_suspend_save_timer s'
    else s'

pub set_save_interval : ℕ → Database → Database
unfolding update_and_resume_save_timer create_suspended_save_timer destroy_save_timer
set_save_interval n s =
    let s' = record s { save_interval = n } in
    if s.save_interval == n
    then s
    else if ltb 0 n
    then (if is_some s.save_timer
        then update_and_resume_save_timer s'
        else update_and_resume_save_timer (create_suspended_save_timer s'))
    else if is_some s.save_timer
    then destroy_save_timer s'
    else s'

-- Deletes at once, and sets the delete timer, when entries may have become too old.
delete_now : ℕ → Database → Database
unfolding perform_delete update_delete_timer create_and_start_delete_timer
delete_now now s =
    let s' = perform_delete now s in
    if is_some s'.delete_timer
    then update_delete_timer now s'
    else create_and_start_delete_timer now s'

pub set_max_age : ℕ → ℕ → Database → Database
unfolding delete_now destroy_delete_timer
set_max_age now n s =
    let s' = record s { max_age = n } in
    if s.max_age == n
    then s
    else if ltb 0 s.max_age
    then (if n == 0
        then destroy_delete_timer s'
        else if ltb n s.max_age
        then delete_now now s'
        else s')
    else if ltb 0 n
    then delete_now now s'
    else s'

pub set_delete_interval : ℕ → ℕ → Database → Database
unfolding update_delete_timer create_and_start_delete_timer destroy_delete_timer
set_delete_interval now n s =
    let s' = record s { delete_interval = n } in
    if s.delete_interval == n
    then s
    else if ltb 0 n
    then (if is_some s.delete_timer
        then update_delete_timer now s'
        else create_and_start_delete_timer now s')
    else if is_some s.delete_timer
    then destroy_delete_timer s'
    else s'

pub did_add_logger : ℕ → Database → Database
unfolding create_suspended_save_timer create_and_start_delete_timer
did_add_logger now s = create_and_start_delete_timer now (create_suspended_save_timer s)

pub will_remove_logger : Database → Database
unfolding perform_save_and_suspend_save_timer destroy_save_timer destroy_delete_timer
will_remove_logger s =
    destroy_delete_timer (destroy_save_timer (perform_save_and_suspend_save_timer s))

-- The message was put into the buffer.
pub log_accepted : ℕ → Database → Database
unfolding perform_save_and_suspend_save_timer update_and_resume_save_timer
log_accepted now s =
    let n = suc s.unsaved_count in
    let s' = record s { unsaved_count = n } in
    if leb s.save_threshold n && ltb 0 s.save_threshold
    then perform_save_and_suspend_save_timer s'
    else if n == 1
    then update_and_resume_save_timer (record s' { unsaved_time = now })
    else s'

-- The Boolean is the answer of `db_log:`.
pub log_message : ℕ → Bool → Database → Database
unfolding log_accepted
log_message now accepted s =
    let s' = record s { calls = db_log accepted ∷ s.calls } in
    if accepted then log_accepted now s' else s'

-- What the queue of the logger runs.
pub data Event : Type 0 where
  message_logged : Bool → Event
  set_threshold set_saving set_age set_deleting : ℕ → Event
  set_on_every_save : Bool → Event
  save_pending delete_old flushed added removed save_timer_fired delete_timer_fired : Event

-- The handler of the save timer runs only while it is not suspended.
is_running : Database → Bool
is_running s = is_some s.save_timer && elim s.save_timer_suspended [ resumed ↦ true | _ ↦ false ]

pub handle_event : ℕ → Event → Database → Database
unfolding is_running perform_save_and_suspend_save_timer perform_delete set_save_threshold
    set_save_interval set_max_age set_delete_interval did_add_logger will_remove_logger log_message
handle_event now (message_logged accepted) s = log_message now accepted s
handle_event now (set_threshold n) s = set_save_threshold n s
handle_event now (set_saving n) s = set_save_interval n s
handle_event now (set_age n) s = set_max_age now n s
handle_event now (set_deleting n) s = set_delete_interval now n s
handle_event now (set_on_every_save flag) s = record s { delete_on_every_save = flag }
handle_event now save_pending s = perform_save_and_suspend_save_timer s
handle_event now delete_old s = perform_delete now s
handle_event now flushed s = perform_save_and_suspend_save_timer s
handle_event now added s = did_add_logger now s
handle_event now removed s = will_remove_logger s
handle_event now save_timer_fired s =
    if is_running s then perform_save_and_suspend_save_timer s else s
handle_event now delete_timer_fired s = if is_some s.delete_timer then perform_delete now s else s
