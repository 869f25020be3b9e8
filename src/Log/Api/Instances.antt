-- ===== src/Log/Api/Instances.antt =====
-- The methods of DDLog.m behind the interface of DDLog. Each instance has its table of loggers; all
-- instances use one serial logging queue, which is static.
use cocoa_lumberjack.Base.{
  ℕ, ◌≡◌, refl, Bool, List, [], ◌∷◌, ◌++◌, Option, none, some, ◌==◌, if◌then◌else◌, arith, map,
}
use cocoa_lumberjack.FileName.{Bytes}
use cocoa_lumberjack.Log.Level.{Level, level_bits}
use cocoa_lumberjack.Log.Registry.{
  Logger, LogMessage, Registry, lt_all_loggers, lt_all_loggers_with_level,
}
use cocoa_lumberjack.Log.System.{Task, Request, enqueue, perform}
use cocoa_lumberjack.Log.Api.{Arguments, LoggingPrimitives, IsLoggingPrimitives, LoggerManagement}

-- The tables of the instances, the blocks that wait on the logging queue, each with its instance and its
-- task, and whether the code that calls runs on the logging queue, as a logger that logs does.
pub record Process : Type 0 where
  pub registries : ℕ → Registry
  pub waiting : List (ℕ × Task)
  pub on_logging_queue : Bool

-- `sharedInstance`
abbrev pub shared_instance : ℕ
shared_instance = 0

-- A block runs.
unfoldable pub perform_block : ℕ × Task → (ℕ → Registry) → ℕ → Registry
perform_block (d, t) registries e = if e == d then perform t (registries e) else registries e

unfoldable pub perform_blocks : List (ℕ × Task) → (ℕ → Registry) → ℕ → Registry
unfolding perform_block
perform_blocks [] registries = registries
perform_blocks (b ∷ bs) registries = perform_blocks bs (perform_block b registries)

-- The block that a method of an instance makes, or none.
unfoldable pub blocks_of : ℕ → Request → List (ℕ × Task)
blocks_of d r = map (λ t. (d, t)) (enqueue r [])

-- `dispatch_async` on the logging queue
unfoldable pub dispatch_async : List (ℕ × Task) → Process → Process
dispatch_async bs p = record p { waiting = p.waiting ++ bs }

-- `dispatch_sync` on the logging queue: the blocks that wait run first.
unfoldable pub dispatch_sync : List (ℕ × Task) → Process → Process
unfolding perform_blocks
dispatch_sync bs p = record p {
  waiting = [];
  registries = perform_blocks (p.waiting ++ bs) p.registries;
}

-- `queueLogMessage:asynchronously:`, without the semaphore. A message that is logged synchronously by
-- code on the logging queue is logged at once, before the blocks that wait.
unfoldable pub queue_log_message : ℕ → Bool → LogMessage → Process → Process
unfolding blocks_of dispatch_async dispatch_sync
queue_log_message d asynchronous m p =
    let block = blocks_of d (Request.log (some m)) in
    if asynchronous
    then dispatch_async block p
    else if p.on_logging_queue
    then record p { registries = perform_blocks block p.registries }
    else dispatch_sync block p

-- The table of an instance after the blocks that wait, which a block that is dispatched synchronously
-- reads.
unfoldable pub table : ℕ → Process → Registry
table d p = perform_blocks p.waiting p.registries d

module _ {Object Values : Type 0} (make : Bytes → Values → Arguments Object → LogMessage) where
  unfoldable pub log_args : ℕ → Bool → Arguments Object → Values → Process → Process
  log_args d asynchronous a v p = elim a.format [
    | none ↦ p
    | some f ↦ queue_log_message d asynchronous (make f v a) p
  ]

  unfoldable pub log_format : ℕ → Bool → Arguments Object → Values → Process → Process
  log_format d asynchronous a v p = elim a.format [
    | none ↦ p
    | some f ↦ log_args d asynchronous a v p
  ]

  abbrev pub logging_primitives : LoggingPrimitives Process Object Values LogMessage
  unfolding log_args log_format
  logging_primitives = record {
    class_log = λ b a v p. elim a.format [ none ↦ p | some f ↦ log_args shared_instance b a v p ];
    log = log_format;
    class_log_args = log_args shared_instance;
    log_args = log_args;
    class_log_message = queue_log_message shared_instance;
    log_message = queue_log_message;
  }

  log_format-log_args :
      (d : ℕ) (b : Bool) (a : Arguments Object) (v : Values) (p : Process)
      → log_format d b a v p ≡ log_args d b a v p
  unfolding log_args log_format
  log_format-log_args d b a v p = ground arith

  -- The primitives keep what the header says of them: the class methods are those of the shared
  -- instance, the variadic form is that with a va_list, and this one logs the message made of its
  -- arguments, or leaves the process as it is if the format is nil.
  pub logging_primitives-IsLoggingPrimitives :
      IsLoggingPrimitives shared_instance make logging_primitives
  unfolding log_args log_format
  logging_primitives-IsLoggingPrimitives = record {
    class_log-log = λ b a v p. refl;
    class_log_args-log_args = λ b a v p. refl;
    class_log_message-log_message = λ b m p. refl;
    log-log_args = λ d b a v p. log_format-log_args d b a v p;
    log_args-log_message = λ d b a v p. refl;
  }

-- The methods but for the logging primitives are called by code that is not on the logging queue.
unfoldable pub add_logger_with_level : ℕ → Option Logger → ℕ → Process → Process
add_logger_with_level d l level p = dispatch_async (blocks_of d (Request.add_logger l level)) p

unfoldable pub add_logger : ℕ → Option Logger → Process → Process
unfolding add_logger_with_level
add_logger d l p = add_logger_with_level d l (level_bits Level.all) p

unfoldable pub remove_logger : ℕ → Option Logger → Process → Process
remove_logger d l p = dispatch_async (blocks_of d (Request.remove_logger l)) p

unfoldable pub remove_all_loggers : ℕ → Process → Process
remove_all_loggers d p = dispatch_async (blocks_of d Request.remove_all_loggers) p

unfoldable pub flush_log : ℕ → Process → Process
flush_log d p = dispatch_sync (blocks_of d Request.flush_log) p

unfoldable pub all_loggers : ℕ → Process → List Logger
unfolding table
all_loggers d p = lt_all_loggers (table d p)

unfoldable pub all_loggers_with_level : ℕ → Process → List (Logger × ℕ)
unfolding table
all_loggers_with_level d p = lt_all_loggers_with_level (table d p)

abbrev pub logger_management : LoggerManagement Process
logger_management = record {
  class_flush_log = flush_log shared_instance;
  flush_log = flush_log;
  class_add_logger = add_logger shared_instance;
  add_logger = add_logger;
  class_add_logger_with_level = add_logger_with_level shared_instance;
  add_logger_with_level = add_logger_with_level;
  class_remove_logger = remove_logger shared_instance;
  remove_logger = remove_logger;
  class_remove_all_loggers = remove_all_loggers shared_instance;
  remove_all_loggers = remove_all_loggers;
  class_all_loggers = all_loggers shared_instance;
  all_loggers = all_loggers;
  class_all_loggers_with_level = all_loggers_with_level shared_instance;
  all_loggers_with_level = all_loggers_with_level;
}
