-- ===== src/SystemLog/Os.antt =====
-- DDOSLogger of include/CocoaLumberjack/DDOSLogger.h and DDOSLogger.m. The facility os_log records what is
-- sent to it.
use cocoa_lumberjack.Base.{
  ℕ, ◌≡◌, ◌≤◌, refl, List, [], ◌∷◌, ◌++◌, Option, none, some, ◌==◌, if◌then◌else◌, bytes_eq, arith,
  ltb,
}
use cocoa_lumberjack.FileName.{Bytes}
use cocoa_lumberjack.Log.Level.{Flag, flag_bits, severity}
use cocoa_lumberjack.FileLogger.Text.{Formatted, dropped, formatted_text}
use cocoa_lumberjack.SystemLog.{capture_file}

-- `os_log_type_t`
pub data OsLogType : Type 0 where
  default info debug error fault : OsLogType

-- The protocol DDOSLogLevelMapper, whose one method takes the bits of a flag.
pub record OsLogLevelMapper : Type 0 where
  pub os_log_type_for_log_flag : ℕ → OsLogType

-- DDOSLogLevelMapperDefault.
abbrev pub os_log_level_mapper_default : OsLogLevelMapper
os_log_level_mapper_default = record {
  os_log_type_for_log_flag = λ flag.
      if flag == flag_bits Flag.error
      then error
      else if flag == flag_bits Flag.warning
      then error
      else if flag == flag_bits Flag.info
      then info
      else if flag == flag_bits Flag.debug
      then debug
      else if flag == flag_bits Flag.verbose
      then debug
      else default;
}

abbrev raised : OsLogType → OsLogType
raised default = default
raised info = info
raised debug = default
raised error = error
raised fault = fault

-- DDOSLogLevelMapperSimulatorConsoleAppWorkaround.
abbrev pub os_log_level_mapper_simulator : OsLogLevelMapper
os_log_level_mapper_simulator = record {
  os_log_type_for_log_flag =
      λ flag. raised (os_log_level_mapper_default.os_log_type_for_log_flag flag);
}

-- The logger object of the facility: the default one, or one that was created.
pub data OsLog : Type 0 where
  os_log_default : OsLog
  os_log_create : Bytes → Bytes → OsLog

pub record OsLogger : Type 0 where
  pub subsystem : Option Bytes
  pub category : Option Bytes
  pub log_level_mapper : OsLogLevelMapper

-- The class: its shared instance, its property, and the ways to make one.
pub record OsLoggerInterface (Logger : Type 0) : Type 0 where
  pub shared_instance : Logger
  pub log_level_mapper : Logger → OsLogLevelMapper
  pub init_with_subsystem_category_log_level_mapper :
      Option Bytes → Option Bytes → OsLogLevelMapper → Logger
  pub init_with_subsystem_category : Option Bytes → Option Bytes → Logger
  pub init_with_log_level_mapper : OsLogLevelMapper → Logger
  pub init : Logger

abbrev with_mapper : Option Bytes → Option Bytes → OsLogLevelMapper → OsLogger
with_mapper s c m = record { subsystem = s; category = c; log_level_mapper = m }

abbrev pub os_logger : OsLoggerInterface OsLogger
os_logger = record {
  shared_instance = with_mapper none none os_log_level_mapper_default;
  log_level_mapper = λ l. l.log_level_mapper;
  init_with_subsystem_category_log_level_mapper = with_mapper;
  init_with_subsystem_category = λ s c. with_mapper s c os_log_level_mapper_default;
  init_with_log_level_mapper = with_mapper none none;
  init = with_mapper none none os_log_level_mapper_default;
}

-- `logger`
abbrev pub logger_of : OsLogger → OsLog
logger_of l = elim l.subsystem [
  | none ↦ os_log_default
  | some s ↦ elim l.category [ none ↦ os_log_default | some c ↦ os_log_create s c ]
]

-- An entry: the object, the type and the text.
abbrev pub OsEntry : Type 0
OsEntry = OsLog × (OsLogType × Bytes)

-- `logMessage:` for a message of that file name, flag and text, with what the formatter makes of it.
pub log_message : OsLogger → Option Formatted → Bytes → ℕ → Bytes → List OsEntry → List OsEntry
log_message l r file_name flag text log =
    let type = l.log_level_mapper.os_log_type_for_log_flag flag in
    let sent = log ++ (logger_of l, (type, formatted_text r text)) ∷ [] in
    if bytes_eq file_name capture_file then log else elim r [ some dropped ↦ log | _ ↦ sent ]

-- How serious a type is.
abbrev pub seriousness : OsLogType → ℕ
seriousness debug = 0
seriousness info = 1
seriousness default = 2
seriousness error = 3
seriousness fault = 4

raised-debug : (t : OsLogType) → 1 ≤ seriousness (raised t)
raised-debug default = omega arith
raised-debug info = omega arith
raised-debug debug = omega arith
raised-debug error = omega arith
raised-debug fault = omega arith

raised-grows : (t : OsLogType) → seriousness t ≤ seriousness (raised t)
raised-grows default = omega arith
raised-grows info = omega arith
raised-grows debug = omega arith
raised-grows error = omega arith
raised-grows fault = omega arith

abbrev by_severity : ℕ → ℕ
by_severity n = if ltb n 2 then 3 else if n == 2 then 1 else 0

seriousness-severity :
    (f : Flag)
    → seriousness (os_log_level_mapper_default.os_log_type_for_log_flag (flag_bits f))
      ≡ by_severity (severity f)
seriousness-severity Flag.error = refl
seriousness-severity Flag.warning = refl
seriousness-severity Flag.info = refl
seriousness-severity Flag.debug = refl
seriousness-severity Flag.verbose = refl

-- By default a flag that is at least as severe as another gets a type at least as serious; the mapping for the
-- simulator gives no flag whatever the type for debugging, and lowers none.
pub os_log_type-severity :
    (f g : Flag) (flag : ℕ)
    → severity f ≤ severity g
    → (seriousness (os_log_level_mapper_default.os_log_type_for_log_flag (flag_bits g))
        ≤ seriousness (os_log_level_mapper_default.os_log_type_for_log_flag (flag_bits f)))
      × (1 ≤ seriousness (os_log_level_mapper_simulator.os_log_type_for_log_flag flag))
      × (seriousness (os_log_level_mapper_default.os_log_type_for_log_flag flag)
          ≤ seriousness (os_log_level_mapper_simulator.os_log_type_for_log_flag flag))
os_log_type-severity f g flag h = (
  ground (arith, h, seriousness-severity f, seriousness-severity g),
  raised-debug (os_log_level_mapper_default.os_log_type_for_log_flag flag),
  raised-grows (os_log_level_mapper_default.os_log_type_for_log_flag flag),
)
