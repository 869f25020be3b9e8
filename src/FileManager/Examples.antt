-- ===== src/FileManager/Examples.antt =====
-- Log files and names at which the theorems on the file manager apply.
use cocoa_lumberjack.Base.{
  ℕ, ◌≤◌, ◌≡◌, ◌≢◌, refl, Bool, true, false, not, List, [], ◌∷◌, arith, ◌==◌, ltb, length,
  if◌then◌else◌, none, some, inl, inr, bytes_eq, codes,
}
use cocoa_lumberjack.FileName.{Bytes}
use cocoa_lumberjack.Base.{drop, length}
use cocoa_lumberjack.FileManager.Cleanup.{LogFile, delete_old_log_files}
use cocoa_lumberjack.FileManager.Cleanup.Limits.{
  delete_old_log_files-count, delete_old_log_files-quota, delete_old_log_files-Minimal,
}
use cocoa_lumberjack.FileManager.Cleanup.Selection.{KeepsQuota, Minimal}
use cocoa_lumberjack.FileManager.Cleanup.Failures.{StopsAtFirst, delete_old_log_files-strict}
use cocoa_lumberjack.FileManager.Creation.{
  Write, written, exists, critical, create_new_log_file, is_log_file, actual_file_name,
}
use cocoa_lumberjack.FileManager.FileInfo.{
  Entry, Disk, FileInfo, init_with_file_path, creation_date, modification_date, is_symlink, age,
  since, file_size, reset,
}
use cocoa_lumberjack.FileManager.FileInfo.Snapshot.{reset-file_size}
use cocoa_lumberjack.FileManager.FileInfo.Archiving.{
  value_at, is_archived, set_is_archived, set_is_archived-is_archived,
}
use cocoa_lumberjack.FileManager.Manager.Default.{
  set_log_files_disk_quota, set_maximum_number_of_log_files,
  delete_old_files_for_configuration_change,
}
use cocoa_lumberjack.FileManager.Manager.Configuration.{
  Change, State, cleaned, change, changes, IsWithin, changes-IsWithin,
}
use cocoa_lumberjack.FileManager.Creation.Attempts.{Ends, create_new_log_file-Ends}
use cocoa_lumberjack.FileManager.Creation.Names.{actual_file_name-is_log_file}

abbrev newest : LogFile
newest = record { path = 1; size = 40; is_archived = false }

abbrev older : List LogFile
older =
    record { path = 2; size = 30; is_archived = true }
    ∷ record { path = 3; size = 50; is_archived = true }
    ∷ []

-- All files but the one at path 3.
abbrev but_third : LogFile → Bool
but_third f = not (f.path == 3)

delete_old_log_files-count_example :
    (length (delete_old_log_files true (λ f. true) 0 2 (newest ∷ older)).left ≤ 2)
    × ((delete_old_log_files true (λ f. true) 0 2 (newest ∷ older)).success ≡ true)
delete_old_log_files-count_example =
    delete_old_log_files-count true (λ f. true) (λ f. refl) 0 2 (newest ∷ older) (omega arith)

delete_old_log_files-quota_example :
    KeepsQuota 100 (delete_old_log_files true (λ f. true) 100 5 (newest ∷ older)).left
delete_old_log_files-quota_example =
    delete_old_log_files-quota true (λ f. true) (λ f. refl) 100 5 (newest ∷ older) (omega arith)
      (omega arith)

delete_old_log_files-Minimal_example :
    Minimal 100 5
      (newest ∷ older)
      (delete_old_log_files true (λ f. true) 100 5 (newest ∷ older)).left
delete_old_log_files-Minimal_example =
    delete_old_log_files-Minimal true (λ f. true) (λ f. refl) 100 5 (newest ∷ older) (omega arith)

delete_old_log_files-strict_example :
    let ideal = (delete_old_log_files false (λ f. true) 0 1 (newest ∷ older)).left in
    StopsAtFirst but_third ideal
      (drop (length ideal) (newest ∷ older))
      (delete_old_log_files true but_third 0 1 (newest ∷ older))
delete_old_log_files-strict_example = delete_old_log_files-strict but_third 0 1 (newest ∷ older)

-- The first two names exist, and the third file can be written only after an error.
abbrev busy : ℕ → ℕ → Write
busy attempt errors = if ltb attempt 3 then exists else if errors == 0 then critical 28 else written

busy-free : (a c : ℕ) → 3 ≤ a → busy a c ≢ exists
busy-free a c h = ground arith

create_new_log_file-Ends_example : Ends busy 1 (create_new_log_file 9 busy)
create_new_log_file-Ends_example = create_new_log_file-Ends busy 3 9 busy-free (omega arith)

-- "App" and "2024-01-02"
abbrev app : Bytes
app = b'A' ∷ b'p' ∷ b'p' ∷ []

abbrev date : Bytes
date = b'2' ∷ b'0' ∷ b'2' ∷ b'4' ∷ b'-' ∷ b'0' ∷ b'1' ∷ b'-' ∷ b'0' ∷ b'2' ∷ []

actual_file_name-is_log_file_example : is_log_file app (actual_file_name app date 12) ≡ true
actual_file_name-is_log_file_example = actual_file_name-is_log_file app date 12

-- A file of the list, and one that was archived by an older version.
abbrev log_entry : Entry
log_entry = record {
  attributes = record {
    creation_date = 100;
    modification_date = 120;
    size = 7;
    is_symlink = false;
  };
  extended = λ n. none;
}

abbrev log_path : Bytes
log_path = codes "Logs/App.log"

abbrev one_file : Disk
one_file path = if bytes_eq path log_path then some log_entry else none

abbrev nothing : Disk
nothing path = none

abbrev all_writable : Bytes → Bool
all_writable path = true

abbrev no_links : Bytes → Bytes
no_links path = path

set_is_archived-is_archived_example :
    let i = init_with_file_path log_path in
    let set = set_is_archived all_writable no_links true one_file i in
    ((is_archived all_writable no_links set i).0 ≡ true)
    × (value_at log_path (codes "other") set ≡ value_at log_path (codes "other") one_file)
unfolding init_with_file_path
set_is_archived-is_archived_example =
    set_is_archived-is_archived all_writable no_links true one_file (init_with_file_path log_path)
      log_entry (codes "other") log_path refl refl refl

-- The manager of a file logger whose files keep its limits.
abbrev keeping : State
keeping = record {
  manager = record {
    maximum_number_of_log_files = 5;
    log_files_disk_quota = 200;
    logs_directory = codes "Logs";
    was_added_to_logger = true;
    default_file_protection_level = [];
    log_message_serializer = 0;
    file_manager = 0;
    cleanups = 0;
  };
  files = newest ∷ older;
}

keeping-IsWithin : IsWithin keeping
keeping-IsWithin = record {
  added = refl;
  sized = omega arith;
  counted = inr (omega arith);
  spaced = inr (inl (omega arith));
}

abbrev some_changes : List Change
some_changes =
    Change.maximum 2
    ∷ Change.background
    ∷ Change.quota 50
    ∷ Change.cleanup true
    ∷ Change.maximum 1
    ∷ Change.background
    ∷ Change.background
    ∷ []

some_changes-idle : (changes (λ f. true) some_changes keeping).manager.cleanups ≡ 0
unfolding changes change cleaned set_log_files_disk_quota set_maximum_number_of_log_files
    delete_old_files_for_configuration_change
some_changes-idle = refl

changes-IsWithin_example : IsWithin (changes (λ f. true) some_changes keeping)
changes-IsWithin_example =
    changes-IsWithin (λ f. true) (λ f. refl) some_changes keeping keeping-IsWithin some_changes-idle

-- What was read of the file before it grew.
abbrev stale : FileInfo
stale = record (init_with_file_path log_path) { cached_size = 4 }

reset-file_size_example :
    ((creation_date one_file (reset stale)).0 ≡ some 100)
    × ((modification_date one_file (reset stale)).0 ≡ some 120)
    × ((is_symlink one_file (reset stale)).0 ≡ false)
    × ((age 150 one_file (reset stale)).0 ≡ since 150 (some 100))
    × ((file_size one_file (reset stale)).0 ≡ 4)
unfolding init_with_file_path
reset-file_size_example = reset-file_size 150 one_file stale log_entry refl
