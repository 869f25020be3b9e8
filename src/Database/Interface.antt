-- ===== src/Database/Interface.antt =====
-- The interface of DDAbstractDatabaseLogger in include/CocoaLumberjack/DDAbstractDatabaseLogger.h: its
-- properties and methods as records of operations, with the laws that the comments promise, and the
-- methods of DDAbstractDatabaseLogger.m behind them. A setter runs when its block comes to the logger's
-- queue; times are nanoseconds, and 0 switches an interval off.
use cocoa_lumberjack.Base.{ℕ, ◌*◌, ◌≡◌, refl, Bool, false, arith}
use cocoa_lumberjack.Database.{
  Database, seconds, init, perform_save_and_suspend_save_timer, perform_delete, update_delete_timer,
  create_and_start_delete_timer, destroy_delete_timer, delete_now, set_save_threshold,
  set_save_interval, set_max_age, set_delete_interval,
}

-- How often the logger saves.
pub record SaveProperties (Logger : Type 0) : Type 0 where
  pub save_threshold : Logger → ℕ
  pub set_save_threshold : ℕ → Logger → Logger
  pub save_interval : Logger → ℕ
  pub set_save_interval : ℕ → Logger → Logger

-- How long entries are kept, and how often old ones are deleted, at a time.
pub record DeleteProperties (Logger : Type 0) : Type 0 where
  pub max_age : Logger → ℕ
  pub set_max_age : ℕ → ℕ → Logger → Logger
  pub delete_interval : Logger → ℕ
  pub set_delete_interval : ℕ → ℕ → Logger → Logger
  pub delete_on_every_save : Logger → Bool
  pub set_delete_on_every_save : Bool → Logger → Logger

pub record LogEntries (Logger : Type 0) : Type 0 where
  pub save_pending_log_entries : Logger → Logger
  pub delete_old_log_entries : ℕ → Logger → Logger

-- The defaults; each property is what was set, and the setters leave the other properties.
pub record IsDeleting {Logger : Type 0} (api : DeleteProperties Logger) (start : Logger)
    : Type 0 where
  pub default_age : api.max_age start ≡ seconds (60 * 60 * 24 * 7)
  pub default_interval : api.delete_interval start ≡ seconds (60 * 5)
  pub default_on_every_save : api.delete_on_every_save start ≡ false
  pub age_set : (now n : ℕ) (s : Logger) → api.max_age (api.set_max_age now n s) ≡ n
  pub interval_set :
      (now n : ℕ) (s : Logger) → api.delete_interval (api.set_delete_interval now n s) ≡ n
  pub on_every_save_set :
      (b : Bool) (s : Logger) → api.delete_on_every_save (api.set_delete_on_every_save b s) ≡ b
  pub age_kept :
      (now n : ℕ) (s : Logger) → api.max_age (api.set_delete_interval now n s) ≡ api.max_age s
  pub interval_kept :
      (now n : ℕ) (s : Logger)
      → api.delete_interval (api.set_max_age now n s) ≡ api.delete_interval s

abbrev pub save_properties : SaveProperties Database
save_properties = record {
  save_threshold = λ s. s.save_threshold;
  set_save_threshold = set_save_threshold;
  save_interval = λ s. s.save_interval;
  set_save_interval = set_save_interval;
}

abbrev pub delete_properties : DeleteProperties Database
delete_properties = record {
  max_age = λ s. s.max_age;
  set_max_age = set_max_age;
  delete_interval = λ s. s.delete_interval;
  set_delete_interval = set_delete_interval;
  delete_on_every_save = λ s. s.delete_on_every_save;
  set_delete_on_every_save = λ b s. record s { delete_on_every_save = b };
}

abbrev pub log_entries : LogEntries Database
log_entries = record {
  save_pending_log_entries = perform_save_and_suspend_save_timer;
  delete_old_log_entries = perform_delete;
}

-- The properties about deleting start and change as the header says.
pub delete_properties-IsDeleting : IsDeleting delete_properties init
unfolding init set_max_age set_delete_interval delete_now perform_delete update_delete_timer
    create_and_start_delete_timer destroy_delete_timer
delete_properties-IsDeleting = record {
  default_age = refl;
  default_interval = refl;
  default_on_every_save = refl;
  age_set = λ now n s. ground arith;
  interval_set = λ now n s. ground arith;
  on_every_save_set = λ b s. refl;
  age_kept = λ now n s. ground arith;
  interval_kept = λ now n s. ground arith;
}
