-- ===== src/Log/AbstractLogger.antt =====
-- DDLogFormatter, DDAbstractLogger and its assertions, and DDLoggerInformation of
-- include/CocoaLumberjack/DDLog.h, with the methods of DDLog.m. The formatter of a logger belongs to the
-- logger's queue: a setter, like a message, reaches it over the logging queue.
pub mod Ordering
pub mod Notices
use cocoa_lumberjack.Base.{
  ℕ, Bool, true, false, not, ◌&&◌, ◌≡◌, List, [], ◌∷◌, ◌++◌, Option, none, some, ◌==◌,
  if◌then◌else◌,
}
use cocoa_lumberjack.FileName.{Bytes}
use cocoa_lumberjack.Log.Registry.{Logger}

-- An object of the protocol DDLogFormatter: how it formats, where `none` is nil, and which optional
-- methods it responds to.
pub record LogFormatter (Message : Type 0) : Type 0 where
  pub ident : ℕ
  pub format_log_message : Message → Option Bytes
  pub has_did_add_to_logger : Bool
  pub has_did_add_to_logger_in_queue : Bool
  pub has_will_remove_from_logger : Bool

-- Which of the two queues the caller is on.
pub record Context : Type 0 where
  pub on_global_logging_queue : Bool
  pub on_internal_logger_queue : Bool

-- A call of a formatter's method by a logger.
pub data Notice : Type 0 where
  did_add_to_logger did_add_to_logger_in_queue will_remove_from_logger : ℕ → Notice

-- The properties of DDAbstractLogger. A setter or getter of the formatter is a block for the logger's
-- queue, where it runs on the state of the logger.
pub record AbstractLogger (State Message : Type 0) : Type 0 where
  pub log_formatter : State → Option (LogFormatter Message)
  pub set_log_formatter : Option (LogFormatter Message) → State → State
  pub logger_queue : State → ℕ
  pub is_on_global_logging_queue : Context → Bool
  pub is_on_internal_logger_queue : Context → Bool

-- The conditions of the assertions.
pub record Assertions : Type 0 where
  pub on_global_logging_queue : Context → Bool
  pub on_internal_logger_queue : Context → Bool
  pub not_on_global_logging_queue : Context → Bool
  pub not_on_internal_logger_queue : Context → Bool
  pub locked_property_access : Context → Bool

-- As the macros test them; the fourth asks for the global queue as well.
abbrev pub assertions : Assertions
assertions = record {
  on_global_logging_queue = λ c. c.on_global_logging_queue;
  on_internal_logger_queue = λ c. c.on_internal_logger_queue;
  not_on_global_logging_queue = λ c. not c.on_global_logging_queue;
  not_on_internal_logger_queue = λ c. not c.on_global_logging_queue;
  locked_property_access = λ c. not c.on_global_logging_queue && not c.on_internal_logger_queue;
}

-- DDLoggerInformation: a logger with the level it was added at.
pub record LoggerInformation : Type 0 where
  pub logger : Logger
  pub level : ℕ

pub information_with_logger : Logger → ℕ → LoggerInformation
information_with_logger l level = record { logger = l; level = level }

-- The state that the logger's queue owns: the formatter, the messages that were logged, each with the
-- formatter of the time, which is named, and the notices to formatters.
pub record Logging (Message : Type 0) : Type 0 where
  pub formatter : Option (LogFormatter Message)
  pub queue : ℕ
  pub logged : List (Message × Option ℕ)
  pub notices : List Notice

module _ {Message : Type 0} where
  abbrev pub name_of : Option (LogFormatter Message) → Option ℕ
  name_of none = none
  name_of (some f) = some f.ident

  -- Whether two are the same object, or both nil.
  unfoldable pub is_same : Option (LogFormatter Message) → Option (LogFormatter Message) → Bool
  is_same none none = true
  is_same none (some g) = false
  is_same (some f) none = false
  is_same (some f) (some g) = f.ident == g.ident

  unfoldable pub removal : Option (LogFormatter Message) → List Notice
  removal none = []
  removal (some f) =
      if f.has_will_remove_from_logger then will_remove_from_logger f.ident ∷ [] else []

  unfoldable pub addition : Option (LogFormatter Message) → List Notice
  addition none = []
  addition (some f) =
      if f.has_did_add_to_logger_in_queue
      then did_add_to_logger_in_queue f.ident ∷ []
      else if f.has_did_add_to_logger
      then did_add_to_logger f.ident ∷ []
      else []

  -- The block of `setLogFormatter:`.
  unfoldable pub set_log_formatter :
      Option (LogFormatter Message) → Logging Message → Logging Message
  unfolding is_same removal addition
  set_log_formatter f s =
      if is_same s.formatter f
      then s
      else record s { formatter = f; notices = (s.notices ++ removal s.formatter) ++ addition f }

  -- `logMessage:`, which reads the variable.
  unfoldable pub log_message : Message → Logging Message → Logging Message
  log_message m s = record s { logged = s.logged ++ (m, name_of s.formatter) ∷ [] }

  abbrev pub abstract_logger : AbstractLogger (Logging Message) Message
  unfolding set_log_formatter
  abstract_logger = record {
    log_formatter = λ s. s.formatter;
    set_log_formatter = set_log_formatter;
    logger_queue = λ s. s.queue;
    is_on_global_logging_queue = λ c. c.on_global_logging_queue;
    is_on_internal_logger_queue = λ c. c.on_internal_logger_queue;
  }
