-- ===== src/Database/Examples.antt =====
-- A database logger at which the theorems apply.
use cocoa_lumberjack.Base.{◌≡◌, ◌⊎◌, inr, refl, true, false, [], ◌∷◌, none, some, arith}
use cocoa_lumberjack.Database.{
  Database, resumed, db_log, handle_event, message_logged, set_age, flushed, save_pending, removed,
  save_timer_fired,
}
use cocoa_lumberjack.Database.Saving.{IsSaving, pending}
use cocoa_lumberjack.Database.Handling.{handle_event-IsSaving, saves-pending}
use cocoa_lumberjack.Database.Deleting.{IsDeleting, Arms, handle_event-IsDeleting}

-- One entry of two is accepted and unsaved, and both timers are set.
abbrev one_unsaved : Database
one_unsaved = record {
  save_threshold = 2;
  save_interval = 60;
  max_age = 900;
  delete_interval = 300;
  delete_on_every_save = false;
  save_timer = some (some (record { start = 160; interval = 60 }));
  save_timer_suspended = resumed;
  unsaved_count = 1;
  unsaved_time = 100;
  delete_timer = some (record { start = 400; interval = 300 });
  last_delete_time = 100;
  calls = db_log false ∷ db_log true ∷ [];
}

one_unsaved-IsSaving : IsSaving one_unsaved
one_unsaved-IsSaving = record {
  counted = refl;
  limited = inr (omega arith);
  dated = inr (omega arith, omega arith);
  timed = inr (inr (omega arith, omega arith, refl, refl));
}

handle_event-IsSaving_example : IsSaving (handle_event 120 (message_logged true) one_unsaved)
handle_event-IsSaving_example =
    handle_event-IsSaving 120 (message_logged true) one_unsaved (omega arith) tt
      one_unsaved-IsSaving

saves-pending_example :
    (pending (handle_event 160 flushed one_unsaved).calls ≡ 0)
    × (pending (handle_event 160 save_pending one_unsaved).calls ≡ 0)
    × (pending (handle_event 160 removed one_unsaved).calls ≡ 0)
    × ((one_unsaved.save_timer ≡ none)
        ⊎ (pending (handle_event 160 save_timer_fired one_unsaved).calls ≡ 0))
saves-pending_example = saves-pending 160 one_unsaved one_unsaved-IsSaving

handle_event-IsDeleting_example :
    IsDeleting (handle_event 120 (set_age 500) one_unsaved)
    × Arms (set_age 500) one_unsaved (handle_event 120 (set_age 500) one_unsaved)
handle_event-IsDeleting_example =
    handle_event-IsDeleting 120 (set_age 500) one_unsaved
      (inr (omega arith, omega arith, record { start = 400; interval = 300 }, refl, refl))
