-- ===== src/SystemLog/Asl.antt =====
-- DDASLLogger of include/CocoaLumberjack/DDASLLogger.h and DDASLLogger.m, and the level that
-- DDASLLogCapture reads back. The facility asl keeps what is sent to it; its calls succeed.
use cocoa_lumberjack.Base.{
  ℕ, List, [], ◌∷◌, ◌++◌, Option, some, ◌==◌, if◌then◌else◌, bytes_eq, codes,
}
use cocoa_lumberjack.FileName.{Bytes}
use cocoa_lumberjack.Log.Level.{Flag, flag_bits}
use cocoa_lumberjack.FileLogger.Text.{Formatted, dropped, formatted_text}
use cocoa_lumberjack.SystemLog.{capture_file}

-- `kDDASLKeyDDLog` and `kDDASLDDLogValue`
abbrev pub asl_key_dd_log : Bytes
asl_key_dd_log = codes "DDLog"

abbrev pub asl_dd_log_value : Bytes
asl_dd_log_value = codes "1"

-- A message of asl: its level, from 0 for an emergency to 7 for debugging, its text, the user that may
-- read it, the process that sent it, and the value of the key of this library, if it has one.
pub record AslMessage : Type 0 where
  pub level : ℕ
  pub text : Bytes
  pub read_uid : ℕ
  pub pid : ℕ
  pub dd_log : Option Bytes

-- The class: the shared instance, and logging, for a message of that file name, flag and text, with
-- what the formatter makes of it, the user's number and that of the process.
pub record AslLogger (Logger : Type 0) : Type 0 where
  pub shared_instance : Logger
  pub log_message :
      Logger → Option Formatted → Bytes → ℕ → Bytes → ℕ → ℕ → List AslMessage → List AslMessage

-- `ASL_LEVEL_CRIT`, `ASL_LEVEL_ERR`, `ASL_LEVEL_WARNING` and `ASL_LEVEL_NOTICE`.
unfoldable pub asl_log_level : ℕ → ℕ
asl_log_level flag =
    if flag == flag_bits Flag.error
    then 2
    else if flag == flag_bits Flag.warning
    then 3
    else if flag == flag_bits Flag.info
    then 4
    else 5

unfoldable pub sent_message : ℕ → Bytes → ℕ → ℕ → AslMessage
unfolding asl_log_level
sent_message flag text uid pid = record {
  level = asl_log_level flag;
  text = text;
  read_uid = uid;
  pid = pid;
  dd_log = some asl_dd_log_value;
}

unfoldable pub log_message :
    Option Formatted → Bytes → ℕ → Bytes → ℕ → ℕ → List AslMessage → List AslMessage
unfolding sent_message
log_message r file_name flag text uid pid log =
    let sent = log ++ sent_message flag (formatted_text r text) uid pid ∷ [] in
    if bytes_eq file_name capture_file then log else elim r [ some dropped ↦ log | _ ↦ sent ]

abbrev pub asl_logger : AslLogger Unit
unfolding log_message
asl_logger = record { shared_instance = tt; log_message = λ l. log_message }
