-- ===== src/FileManager/Manager.antt =====
-- The protocol DDLogFileManager and the class DDLogFileManagerDefault of
-- include/CocoaLumberjack/DDFileLogger.h, as records of operations. An optional method is an Option.
-- NSFileManager, serializers and file loggers are named by numbers.
pub mod Default
pub mod Listing
pub mod Configuration
use cocoa_lumberjack.Base.{ℕ, Bool, List, Option}
use cocoa_lumberjack.FileName.{Bytes}
use cocoa_lumberjack.FileManager.Creation.{Write}
use cocoa_lumberjack.FileManager.Sorting.{Info}

-- A new log file's path, or the error, if one is known.
pub data NewLogFile : Type 0 where
  new_log_file : Bytes → NewLogFile
  no_log_file : Option ℕ → NewLogFile
  out_of_fuel : NewLogFile

-- The required methods. A directory is what the file system answers when it is listed; a new file is
-- made with the date as a text, fuel for the attempts, and what each attempt to write does.
pub record LogFileManager (Manager Directory : Type 0) : Type 0 where
  pub maximum_number_of_log_files : Manager → ℕ
  pub set_maximum_number_of_log_files : ℕ → Manager → Manager
  pub log_files_disk_quota : Manager → ℕ
  pub set_log_files_disk_quota : ℕ → Manager → Manager
  pub logs_directory : Manager → Bytes
  pub unsorted_log_file_paths : Manager → Directory → List Bytes
  pub unsorted_log_file_names : Manager → Directory → List Bytes
  pub unsorted_log_file_infos : Manager → Directory → List Info
  pub sorted_log_file_paths : Manager → Directory → List Bytes
  pub sorted_log_file_names : Manager → Directory → List Bytes
  pub sorted_log_file_infos : Manager → Directory → List Info
  pub create_new_log_file_with_error : Manager → Bytes → ℕ → (ℕ → ℕ → Write) → NewLogFile

-- The optional methods.
pub record OptionalLogFileManager (Manager Files : Type 0) : Type 0 where
  pub log_message_serializer : Option (Manager → ℕ)
  pub file_manager : Option (Manager → ℕ)
  pub should_lock_log_file : Option (Bytes → Manager → Bool)
  pub cleanup_log_files_with_error : Option (Bool → Manager → Files → Bool × Files)
  pub did_add_to_file_logger : Option (ℕ → Manager → Manager)
  pub did_archive_log_file_was_rolled : Option (Bytes → Bool → Manager → Manager)
  pub create_new_log_file : Option (Manager → Option Bytes)
  pub did_archive_log_file : Option (Bytes → Manager → Manager)
  pub did_roll_and_archive_log_file : Option (Bytes → Manager → Manager)

-- What the default class adds: how it is made, the methods to override, and the two properties that it
-- lets be set. A protection level is a text.
pub record DefaultLogFileManager (Manager : Type 0) : Type 0 where
  pub init_with_logs_directory : Option Bytes → Manager
  pub init_with_logs_directory_default_file_protection_level : Option Bytes → Bytes → Manager
  pub init : Manager
  pub new_log_file_name : Bytes → Manager → Bytes
  pub is_log_file : Bytes → Manager → Bool
  pub log_file_header : Manager → Option Bytes
  pub log_message_serializer : Manager → ℕ
  pub set_log_message_serializer : ℕ → Manager → Manager
  pub file_manager : Manager → ℕ
  pub set_file_manager : ℕ → Manager → Manager
