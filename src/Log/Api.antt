-- ===== src/Log/Api.antt =====
-- The interface of the class DDLog that include/CocoaLumberjack/DDLog.h declares, as records of
-- operations and of the laws that the comments of the header promise. A process holds DDLog
-- instances, which are named by numbers; a class method takes no instance.
pub mod Instances
pub mod Listing
pub mod Dynamic
use cocoa_lumberjack.Base.{
  ℕ, ◌≡◌, Bool, true, false, ◌&&◌, List, [], ◌∷◌, ◌++◌, map, Option, none, some, ◌==◌,
  if◌then◌else◌,
}
use cocoa_lumberjack.FileName.{Bytes}
use cocoa_lumberjack.Log.Registry.{Logger}

-- The arguments of a logging primitive, but for the waiting and for the values that are formatted.
pub record Arguments (Object : Type 0) : Type 0 where
  pub level : ℕ
  pub flag : ℕ
  pub context : ℕ
  pub file : Bytes
  pub function : Option Bytes
  pub line : ℕ
  pub tag : Option Object
  pub format : Option Bytes

-- The three logging primitives of the class and those of an instance. The values stand for the
-- variadic arguments and for the va_list that is made of them.
pub record LoggingPrimitives (Process Object Values Message : Type 0) : Type 0 where
  pub class_log : Bool → Arguments Object → Values → Process → Process
  pub log : ℕ → Bool → Arguments Object → Values → Process → Process
  pub class_log_args : Bool → Arguments Object → Values → Process → Process
  pub log_args : ℕ → Bool → Arguments Object → Values → Process → Process
  pub class_log_message : Bool → Message → Process → Process
  pub log_message : ℕ → Bool → Message → Process → Process

-- A class method is the method of the shared instance, the variadic form is that with a va_list, and
-- this one logs the message made of its arguments, or does nothing if the format is nil.
pub record IsLoggingPrimitives {Process Object Values Message : Type 0} (shared : ℕ)
    (make : Bytes → Values → Arguments Object → Message)
    (api : LoggingPrimitives Process Object Values Message) : Type 0 where
  pub class_log-log :
      (b : Bool) (a : Arguments Object) (v : Values) (p : Process)
      → api.class_log b a v p ≡ api.log shared b a v p
  pub class_log_args-log_args :
      (b : Bool) (a : Arguments Object) (v : Values) (p : Process)
      → api.class_log_args b a v p ≡ api.log_args shared b a v p
  pub class_log_message-log_message :
      (b : Bool) (m : Message) (p : Process)
      → api.class_log_message b m p ≡ api.log_message shared b m p
  pub log-log_args :
      (d : ℕ) (b : Bool) (a : Arguments Object) (v : Values) (p : Process)
      → api.log d b a v p ≡ api.log_args d b a v p
  pub log_args-log_message :
      (d : ℕ) (b : Bool) (a : Arguments Object) (v : Values) (p : Process)
      → api.log_args d b a v p
        ≡ elim a.format [ none ↦ p | some f ↦ api.log_message d b (make f v a) p ]

-- Flushing, and adding, removing and listing loggers, by class and by instance. A missing logger is
-- nil.
pub record LoggerManagement (Process : Type 0) : Type 0 where
  pub class_flush_log : Process → Process
  pub flush_log : ℕ → Process → Process
  pub class_add_logger : Option Logger → Process → Process
  pub add_logger : ℕ → Option Logger → Process → Process
  pub class_add_logger_with_level : Option Logger → ℕ → Process → Process
  pub add_logger_with_level : ℕ → Option Logger → ℕ → Process → Process
  pub class_remove_logger : Option Logger → Process → Process
  pub remove_logger : ℕ → Option Logger → Process → Process
  pub class_remove_all_loggers : Process → Process
  pub remove_all_loggers : ℕ → Process → Process
  pub class_all_loggers : Process → List Logger
  pub all_loggers : ℕ → Process → List Logger
  pub class_all_loggers_with_level : Process → List (Logger × ℕ)
  pub all_loggers_with_level : ℕ → Process → List (Logger × ℕ)

-- What the list of the loggers with their levels is after an operation.
unfoldable pub is_listed : ℕ → ℕ → List (Logger × ℕ) → Bool
is_listed logger level [] = false
is_listed logger level (e ∷ es) =
    if e.0.ident == logger && e.1 == level then true else is_listed logger level es

unfoldable pub listed : Option Logger → ℕ → List (Logger × ℕ) → List (Logger × ℕ)
listed none level es = es
listed (some l) level es = if is_listed l.ident level es then es else es ++ (l, level) ∷ []

unfoldable pub unlist : ℕ → List (Logger × ℕ) → List (Logger × ℕ)
unlist logger [] = []
unlist logger (e ∷ es) = if e.0.ident == logger then es else e ∷ unlist logger es

unfoldable pub unlisted : Option Logger → List (Logger × ℕ) → List (Logger × ℕ)
unlisted none es = es
unlisted (some l) es = unlist l.ident es

-- Only the list of one instance changes.
abbrev pub ChangesList :
    {Process : Type 0}
    → LoggerManagement Process
    → ℕ
    → (Process → Process)
    → (List (Logger × ℕ) → List (Logger × ℕ))
    → Type 0
ChangesList {Process} api d change effect =
    (e : ℕ) (p : Process)
    → api.all_loggers_with_level e (change p)
      ≡ (if e == d then effect (api.all_loggers_with_level e p) else api.all_loggers_with_level e p)

pub record IsLoggerManagement {Process : Type 0} (all_bits : ℕ) (api : LoggerManagement Process)
    : Type 0 where
  pub all_loggers-all_loggers_with_level :
      (d : ℕ) (p : Process) → api.all_loggers d p ≡ map (λ e. e.0) (api.all_loggers_with_level d p)
  pub add_logger-listed :
      (d : ℕ) (l : Option Logger) → ChangesList api d (api.add_logger d l) (listed l all_bits)
  pub add_logger_with_level-listed :
      (d : ℕ) (l : Option Logger) (level : ℕ)
      → ChangesList api d (api.add_logger_with_level d l level) (listed l level)
  pub remove_logger-unlisted :
      (d : ℕ) (l : Option Logger) → ChangesList api d (api.remove_logger d l) (unlisted l)
  pub remove_all_loggers-empty : (d : ℕ) → ChangesList api d (api.remove_all_loggers d) (λ es. [])
  pub flush_log-kept : (d : ℕ) → ChangesList api d (api.flush_log d) (λ es. es)
