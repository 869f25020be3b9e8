-- ===== src/Log/Examples.antt =====
-- Calls, classes and uses of macros at which the theorems on the interfaces of DDLog apply.
use cocoa_lumberjack.Base.{
  ℕ, zero, suc, ◌≡◌, refl, true, false, List, [], ◌∷◌, ◌++◌, none, some, codes,
}
use cocoa_lumberjack.FileName.{Bytes}
use cocoa_lumberjack.Log.Level.{Flag, Level}
use cocoa_lumberjack.Log.Api.Dynamic.{Class, Selector}
use cocoa_lumberjack.Log.AbstractLogger.{LogFormatter}
use cocoa_lumberjack.Log.AbstractLogger.Ordering.{
  Work, Queues, Reach, here, next, call, pass, run, idle, execute, formatted, Reach-formatted,
}
use cocoa_lumberjack.Log.Macros.{
  Site, class, instance_of, dd_log, dd_log_to_ddlog, dd_logv, legacy_dd_log,
}
use cocoa_lumberjack.Log.Macros.Effects.{perform_calls, logged, macros-logged}
use cocoa_lumberjack.Log.System.{empty_registry}
use cocoa_lumberjack.Log.Api.{Arguments}
use cocoa_lumberjack.Log.Registry.{LogMessage}
use cocoa_lumberjack.Log.Api.Instances.{Process, shared_instance}
use cocoa_lumberjack.Log.Macros.Families.{at_level, async_site, expansion, macros-expansion}

abbrev model : Class
model = record {
  ident = 1;
  name = codes "Model";
  methods = Selector.dd_log_level ∷ Selector.dd_set_log_level ∷ [];
  superclasses = [];
}

-- A class is loaded while the first round runs.
abbrev loading : ℕ → List Class
loading zero = []
loading (suc zero) = model ∷ []
loading (suc (suc n)) = model ∷ []

abbrev loading_later : ℕ → List Class
loading_later zero = model ∷ []
loading_later (suc n) = model ∷ loading n

abbrev star : LogFormatter ℕ
star = record {
  ident = 4;
  format_log_message = λ m. some (42 ∷ m ∷ []);
  has_did_add_to_logger = true;
  has_did_add_to_logger_in_queue = false;
  has_will_remove_from_logger = true;
}

abbrev set_star : Work ℕ
set_star = Work.set_formatter (some star)

-- The formatter is set and a message is logged; both blocks reach the logger's queue, which runs the
-- first of them.
abbrev waiting : Queues ℕ
waiting = record {
  calls = set_star ∷ Work.log 5 ∷ [];
  global = [];
  internal = set_star ∷ Work.log 5 ∷ [];
  executed = [];
  logger = (idle ℕ 3).logger;
}

abbrev settled : Queues ℕ
settled = record waiting {
  internal = Work.log 5 ∷ [];
  executed = set_star ∷ [];
  logger = execute ℕ set_star waiting.logger;
}

settled-Reach : Reach ℕ 3 settled
settled-Reach =
    next
      (next
        (next (next (next here (call set_star refl)) (call (Work.log 5) refl))
          (pass set_star (Work.log 5 ∷ []) refl refl))
        (pass (Work.log 5) [] refl refl))
      (run set_star (Work.log 5 ∷ []) refl refl)

Reach-formatted_example :
    (settled.executed ++ (settled.internal ++ settled.global) ≡ settled.calls)
    × (settled.logger.logged ≡ formatted ℕ none settled.executed)
Reach-formatted_example = Reach-formatted ℕ settled-Reach

-- No instance has a logger, and nothing waits.
abbrev idle_process : Process
idle_process = record { registries = λ d. empty_registry; waiting = []; on_logging_queue = false }

abbrev site : Site
site = record {
  log_level_def = 0;
  log_async_enabled = true;
  file = codes "main.m";
  pretty_function = codes "main";
  line = 12;
}

abbrev values : Bytes
values = codes "text"

-- The values are the number of the message.
abbrev made : Bytes → ℕ → Arguments ℕ → LogMessage
made f v a = record { ident = v; flag = a.flag }

macros-logged_example :
    (perform_calls made (dd_log Flag.info (at_level Level.debug site) (codes "%d") 7) idle_process
      ≡ logged made shared_instance Flag.info Level.debug site (codes "%d") 7 idle_process)
    × (perform_calls made
          (dd_log_to_ddlog Flag.info 2 (at_level Level.debug site) (codes "%d") 7)
          idle_process
        ≡ logged made 2 Flag.info Level.debug site (codes "%d") 7 idle_process)
    × (perform_calls made
          (dd_logv Flag.info (at_level Level.debug site) (codes "%d") 7)
          idle_process
        ≡ logged made shared_instance Flag.info Level.debug site (codes "%d") 7 idle_process)
    × (perform_calls made
          (legacy_dd_log Flag.info (at_level Level.debug site) (codes "%d") 7)
          idle_process
        ≡ logged made shared_instance Flag.info Level.debug
            (async_site site)
            (codes "%d")
            7
            idle_process)
macros-logged_example = macros-logged made Flag.info Level.debug site 2 (codes "%d") 7 idle_process

macros-expansion_example :
    (dd_log {Object = ℕ} Flag.info (at_level Level.debug site) (codes "%@") values
      ≡ expansion class false Flag.info Level.debug site (codes "%@") values)
    × (dd_log_to_ddlog {Object = ℕ} Flag.info 2 (at_level Level.debug site) (codes "%@") values
        ≡ expansion (instance_of 2) false Flag.info Level.debug site (codes "%@") values)
    × (dd_logv {Object = ℕ} Flag.info (at_level Level.debug site) (codes "%@") values
        ≡ expansion class true Flag.info Level.debug site (codes "%@") values)
    × (legacy_dd_log {Object = ℕ} Flag.info (at_level Level.debug site) (codes "%@") values
        ≡ expansion class false Flag.info Level.debug (async_site site) (codes "%@") values)
macros-expansion_example = macros-expansion Flag.info Level.debug site 2 (codes "%@") values
