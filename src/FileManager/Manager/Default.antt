-- ===== src/FileManager/Manager/Default.antt =====
-- DDLogFileManagerDefault of DDFileLogger.m: its variables, its configuration, and its lists of log
-- files. The application's name, the default directory and the reading of dates are parameters, and so is
-- the test for the file protection levels that the system knows.
use cocoa_lumberjack.Base.{
  ℕ, ◌+◌, ◌*◌, Bool, true, false, List, [], ◌∷◌, ◌++◌, map, keep, Option, none, some, ◌==◌, ltb,
  length, if◌then◌else◌,
}
use cocoa_lumberjack.FileName.{Bytes, slash, last_path_component}
use cocoa_lumberjack.FileManager.Creation.{
  Creation, new_log_file_name, is_log_file, actual_file_name, create_new_log_file,
}
use cocoa_lumberjack.FileManager.Sorting.{Info, unsorted_log_file_infos, sort}
use cocoa_lumberjack.FileManager.Manager.{NewLogFile, LogFileManager, DefaultLogFileManager}

-- `kDDDefaultLogMaxNumLogFiles` and `kDDDefaultLogFilesDiskQuota`
abbrev pub default_log_max_num_log_files : ℕ
default_log_max_num_log_files = 5

abbrev pub default_log_files_disk_quota : ℕ
default_log_files_disk_quota = 20 * 1024 * 1024

-- The instance variables; `cleanups` counts the cleanups that were dispatched.
pub record Manager : Type 0 where
  pub maximum_number_of_log_files : ℕ
  pub log_files_disk_quota : ℕ
  pub logs_directory : Bytes
  pub was_added_to_logger : Bool
  pub default_file_protection_level : Bytes
  pub log_message_serializer : ℕ
  pub file_manager : ℕ
  pub cleanups : ℕ

-- The files of the logs directory; `none` is a failure to list them.
abbrev pub Directory : Type 0
Directory = Option (List Info)

-- `stringByAppendingPathComponent:`, which puts one slash between the two.
unfoldable pub front_of : Bytes → Bytes
front_of [] = []
front_of (c ∷ []) = if c == slash then slash ∷ [] else c ∷ slash ∷ []
front_of (c ∷ d ∷ ds) = c ∷ front_of (d ∷ ds)

unfoldable pub append_path_component : Bytes → Bytes → Bytes
unfolding front_of
append_path_component dir name = front_of dir ++ name

unfoldable pub did_add_to_file_logger : ℕ → Manager → Manager
did_add_to_file_logger logger m = record m { was_added_to_logger = true }

unfoldable pub delete_old_files_for_configuration_change : Manager → Manager
delete_old_files_for_configuration_change m =
    if m.was_added_to_logger then record m { cleanups = m.cleanups + 1 } else m

unfoldable pub set_log_files_disk_quota : ℕ → Manager → Manager
unfolding delete_old_files_for_configuration_change
set_log_files_disk_quota quota m =
    if m.log_files_disk_quota == quota
    then m
    else delete_old_files_for_configuration_change (record m { log_files_disk_quota = quota })

unfoldable pub set_maximum_number_of_log_files : ℕ → Manager → Manager
unfolding delete_old_files_for_configuration_change
set_maximum_number_of_log_files n m =
    if m.maximum_number_of_log_files == n
    then m
    else delete_old_files_for_configuration_change (record m { maximum_number_of_log_files = n })

module _ (default_logs_directory : Bytes) (is_known_level : Bytes → Bool) where
  -- A missing or an empty directory is replaced by the default one.
  unfoldable pub init_with_logs_directory : Option Bytes → Manager
  init_with_logs_directory directory =
      let chosen : Bytes = elim directory [
        | none ↦ default_logs_directory
        | some d ↦ if ltb 0 (length d) then d else default_logs_directory
      ] in
      record {
        maximum_number_of_log_files = default_log_max_num_log_files;
        log_files_disk_quota = default_log_files_disk_quota;
        logs_directory = chosen;
        was_added_to_logger = false;
        default_file_protection_level = [];
        log_message_serializer = 0;
        file_manager = 0;
        cleanups = 0;
      }

  unfoldable pub init_with_level : Option Bytes → Bytes → Manager
  unfolding init_with_logs_directory
  init_with_level directory level =
      let m = init_with_logs_directory directory in
      if is_known_level level then record m { default_file_protection_level = level } else m

  abbrev pub default_log_file_manager : Bytes → DefaultLogFileManager Manager
  unfolding init_with_logs_directory init_with_level
  default_log_file_manager app = record {
    init_with_logs_directory = init_with_logs_directory;
    init_with_logs_directory_default_file_protection_level = init_with_level;
    init = init_with_logs_directory none;
    new_log_file_name = λ date m. new_log_file_name app date;
    is_log_file = λ name m. is_log_file app name;
    log_file_header = λ m. none;
    log_message_serializer = λ m. m.log_message_serializer;
    set_log_message_serializer = λ s m. record m { log_message_serializer = s };
    file_manager = λ m. m.file_manager;
    set_file_manager = λ f m. record m { file_manager = f };
  }

module _ (app : Bytes) where
  -- The infos of the files whose names are those of log files.
  unfoldable pub infos : Directory → List Info
  infos none = []
  infos (some fs) = unsorted_log_file_infos app fs

  unfoldable pub unsorted_log_file_paths : Manager → Directory → List Bytes
  unsorted_log_file_paths m none = []
  unsorted_log_file_paths m (some fs) =
      map (λ f. append_path_component m.logs_directory f.file_name)
        (keep (λ f. is_log_file app f.file_name) fs)

  unfoldable pub unsorted_log_file_names : Manager → Directory → List Bytes
  unfolding unsorted_log_file_paths
  unsorted_log_file_names m d = map last_path_component (unsorted_log_file_paths m d)

  new_file : Manager → Bytes → Creation → NewLogFile
  new_file m date (Creation.created k) =
      NewLogFile.new_log_file (append_path_component m.logs_directory (actual_file_name app date k))
  new_file m date (Creation.failed e) = NewLogFile.no_log_file e
  new_file m date Creation.out_of_fuel = NewLogFile.out_of_fuel

module _ (app : Bytes) (read_date : Bytes → Option ℕ) (now : ℕ) where
  unfoldable pub sorted_infos : Directory → List Info
  unfolding infos
  sorted_infos d = sort read_date now (infos app d)

  unfoldable pub sorted_log_file_paths : Manager → Directory → List Bytes
  unfolding sorted_infos
  sorted_log_file_paths m d =
      map (λ (f : Info). append_path_component m.logs_directory f.file_name) (sorted_infos d)

  unfoldable pub sorted_log_file_names : Manager → Directory → List Bytes
  unfolding sorted_infos
  sorted_log_file_names m d = map (λ (f : Info). f.file_name) (sorted_infos d)

  abbrev pub log_file_manager : LogFileManager Manager Directory
  unfolding new_file
  log_file_manager = record {
    maximum_number_of_log_files = λ m. m.maximum_number_of_log_files;
    set_maximum_number_of_log_files = set_maximum_number_of_log_files;
    log_files_disk_quota = λ m. m.log_files_disk_quota;
    set_log_files_disk_quota = set_log_files_disk_quota;
    logs_directory = λ m. m.logs_directory;
    unsorted_log_file_paths = unsorted_log_file_paths app;
    unsorted_log_file_names = unsorted_log_file_names app;
    unsorted_log_file_infos = λ m d. infos app d;
    sorted_log_file_paths = sorted_log_file_paths;
    sorted_log_file_names = sorted_log_file_names;
    sorted_log_file_infos = λ m d. sorted_infos d;
    create_new_log_file_with_error =
        λ m date fuel write. new_file app m date (create_new_log_file fuel write);
  }
