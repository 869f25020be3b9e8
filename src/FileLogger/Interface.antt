-- ===== src/FileLogger/Interface.antt =====
-- The interface of DDFileLogger in include/CocoaLumberjack/DDFileLogger.h, and the object behind it: the
-- state of its internal queue, the queue for callbacks and the file manager, each named by a number. A
-- call runs when its block has come to the logger's own queue. Times are milliseconds.
use cocoa_lumberjack.Base.{ℕ, ◌*◌, Bool, true, false, List, [], ◌∷◌, ◌++◌, Option, none, some}
use cocoa_lumberjack.FileLogger.{
  File, FileLogger, Env, lt_current_log_file_info, lt_maybe_roll_log_file_due_to_size,
  lt_roll_log_file_now, set_maximum_file_size, set_rolling_frequency,
}

-- The public methods. A block is named by a number, and `none` is nil.
pub record FileLoggerInterface (Logger Surroundings : Type 0) : Type 0 where
  pub init : List File → Logger
  pub init_with_log_file_manager : ℕ → List File → Logger
  pub init_with_log_file_manager_completion_queue : ℕ → Option ℕ → List File → Logger
  pub will_log_message_deprecated : Logger → Logger
  pub did_log_message_deprecated : Logger → Logger
  pub will_log_message : Logger → Logger
  pub did_log_message : Surroundings → Logger → Logger
  pub flush : Logger → Logger
  pub should_archive_recent_log_file_info : File → Bool
  pub maximum_file_size : Logger → ℕ
  pub set_maximum_file_size : Surroundings → ℕ → Logger → Logger
  pub rolling_frequency : Logger → ℕ
  pub set_rolling_frequency : Surroundings → ℕ → Logger → Logger
  pub do_not_reuse_log_files : Logger → Bool
  pub set_do_not_reuse_log_files : Bool → Logger → Logger
  pub log_file_manager : Logger → ℕ
  pub automatically_append_newline_for_custom_formatters : Logger → Bool
  pub set_automatically_append_newline_for_custom_formatters : Bool → Logger → Logger
  pub roll_log_file_with_completion_block : Option ℕ → Logger → Logger
  pub roll_log_file : Logger → Logger
  pub current_log_file_info : Surroundings → Logger → Option ℕ × Logger

-- `kDDDefaultLogMaxFileSize` and `kDDDefaultLogRollingFrequency`
abbrev pub default_log_max_file_size : ℕ
default_log_max_file_size = 1024 * 1024

abbrev pub default_log_rolling_frequency : ℕ
default_log_rolling_frequency = 60 * 60 * 24 * 1000

-- The object; `completions` are the blocks that were dispatched, each with its queue.
pub record Object : Type 0 where
  pub queue_state : FileLogger
  pub log_file_manager : ℕ
  pub completion_queue : ℕ
  pub automatically_append_newline : Bool
  pub completions : List (ℕ × ℕ)

-- The global queue of default priority, and the manager that `init` makes.
abbrev pub global_queue : ℕ
global_queue = 0

abbrev pub default_manager : ℕ
default_manager = 0

unfoldable pub init_with_completion_queue : ℕ → Option ℕ → List File → Object
init_with_completion_queue manager queue disk = record {
  queue_state = record {
    maximum_file_size = default_log_max_file_size;
    rolling_frequency = default_log_rolling_frequency;
    do_not_reuse_log_files = false;
    current = none;
    handle = none;
    vnode = false;
    timer = none;
    disk = disk;
    archived = [];
    deletions = 0;
    deleted = [];
  };
  log_file_manager = manager;
  completion_queue = elim queue [ none ↦ global_queue | some q ↦ q ];
  automatically_append_newline = true;
  completions = [];
}

abbrev on_queue : (FileLogger → FileLogger) → Object → Object
on_queue f o = record o { queue_state = f o.queue_state }

unfoldable pub roll_log_file_with_completion_block : Option ℕ → Object → Object
roll_log_file_with_completion_block block o = elim block [
  | none ↦ on_queue lt_roll_log_file_now o
  | some b ↦ record (on_queue lt_roll_log_file_now o) {
    completions = o.completions ++ (o.completion_queue, b) ∷ [];
  }
]

abbrev pub file_logger_interface : FileLoggerInterface Object Env
unfolding init_with_completion_queue roll_log_file_with_completion_block
file_logger_interface = record {
  init = init_with_completion_queue default_manager none;
  init_with_log_file_manager = λ m. init_with_completion_queue m none;
  init_with_log_file_manager_completion_queue = init_with_completion_queue;
  will_log_message_deprecated = λ o. o;
  did_log_message_deprecated = λ o. o;
  will_log_message = λ o. o;
  did_log_message = λ env. on_queue (lt_maybe_roll_log_file_due_to_size env);
  flush = λ o. o;
  should_archive_recent_log_file_info = λ f. false;
  maximum_file_size = λ o. o.queue_state.maximum_file_size;
  set_maximum_file_size = λ env n. on_queue (set_maximum_file_size env n);
  rolling_frequency = λ o. o.queue_state.rolling_frequency;
  set_rolling_frequency = λ env n. on_queue (set_rolling_frequency env n);
  do_not_reuse_log_files = λ o. o.queue_state.do_not_reuse_log_files;
  set_do_not_reuse_log_files = λ b. on_queue (λ s. record s { do_not_reuse_log_files = b });
  log_file_manager = λ o. o.log_file_manager;
  automatically_append_newline_for_custom_formatters = λ o. o.automatically_append_newline;
  set_automatically_append_newline_for_custom_formatters =
      λ b o. record o { automatically_append_newline = b };
  roll_log_file_with_completion_block = roll_log_file_with_completion_block;
  roll_log_file = roll_log_file_with_completion_block none;
  current_log_file_info = λ env o.
      let s = lt_current_log_file_info env o.queue_state in
      (s.current, record o { queue_state = s });
}
