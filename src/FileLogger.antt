-- ===== src/FileLogger.antt =====
-- DDFileLogger of Sources/CocoaLumberjack/DDFileLogger.m, as its internal queue runs it: the current log
-- file, its handle, the sources that watch it, and rolling. The code is that of macOS 10.15 and later,
-- where file operations return errors; a handle can always seek to the end of its file. Nobody but the
-- file manager changes the files between the events. Times are whole milliseconds.
pub mod Invariant
pub mod Opening
pub mod Contents
pub mod Deleting
pub mod Kept
pub mod Rolling
pub mod Text
pub mod Interface
pub mod Serializing
pub mod Unlimited
mod Examples
use cocoa_lumberjack.Base.{
  ℕ, zero, suc, ◌+◌, ◌<◌, Bool, true, false, not, ◌&&◌, ◌||◌, List, [], ◌∷◌, ◌++◌, Option, none,
  some, ltb, leb, ◌==◌, if◌then◌else◌, is_some, length, keep, take, drop, map,
}
use cocoa_lumberjack.FileManager.Cleanup.{LogFile, first_to_delete}
use cocoa_lumberjack.FileName.{Bytes}

-- A log file on disk with the extended attribute that marks it as archived, and whether that attribute
-- can be set.
pub record File : Type 0 where
  pub path : ℕ
  pub content : Bytes
  pub created : ℕ
  pub is_archived : Bool
  pub can_mark : Bool
  pub is_symlink : Bool

-- The instance variables, the files in the order of `sortedLogFileInfos`, newest first, and the notices
-- to the file manager: a path, and whether the file was rolled. `handle` is the path of the file that
-- is open for writing, `timer` the time at which the rolling timer fires. `deletions` counts the blocks on
-- a global queue that are to delete old files, and `deleted` has the files that were deleted or replaced,
-- newest first.
pub record FileLogger : Type 0 where
  pub maximum_file_size : ℕ
  pub rolling_frequency : ℕ
  pub do_not_reuse_log_files : Bool
  pub current : Option ℕ
  pub handle : Option ℕ
  pub vnode : Bool
  pub timer : Option ℕ
  pub disk : List File
  pub archived : List (Option ℕ × Bool)
  pub deletions : ℕ
  pub deleted : List File

-- What the surroundings do during one call: the time, the path at which the manager creates a new file
-- and what it writes there, which operations on files succeed, and the answer of the hook
-- `shouldArchiveRecentLogFileInfo:`; whether a block that deletes old files runs before the call, the
-- manager's limits, and which files it can remove.
pub record Env : Type 0 where
  pub now : ℕ
  pub create : Option ℕ
  pub header : Bytes
  pub can_open : Bool
  pub can_get_offset : Bool
  pub can_write : Bool
  pub should_archive_recent : Bool
  pub can_mark_new : Bool
  pub deletes : Bool
  pub disk_quota : ℕ
  pub max_files : ℕ
  pub can_remove : ℕ → Bool

abbrev pub rolling_leeway : ℕ
rolling_leeway = 1000

-- A change of the file at a path.
pub update_file : ℕ → (File → File) → List File → List File
update_file path change [] = []
update_file path change (f ∷ fs) =
    if f.path == path then change f ∷ fs else f ∷ update_file path change fs

-- What a DDLogFileInfo reads of the file at its path. Of a file that is not there nothing is read: no
-- attribute is set, and the age, a message to nil, is zero.
pub file_info : ℕ → ℕ → List File → File
file_info now path [] = record {
  path = path;
  content = [];
  created = now;
  is_archived = false;
  can_mark = false;
  is_symlink = false;
}
file_info now path (f ∷ fs) = if f.path == path then f else file_info now path fs

-- `setIsArchived:`
abbrev pub archive : File → File
archive f = if f.can_mark then record f { is_archived = true } else f

abbrev pub append_bytes : Bytes → File → File
append_bytes bytes f = record f { content = f.content ++ bytes }

pub lt_cleanup : FileLogger → FileLogger
lt_cleanup s = record s { handle = none; vnode = false; timer = none }

-- The rolling date is the date of creation and the frequency, which is positive.
pub lt_schedule_timer_to_roll_log_file_due_to_age : Env → FileLogger → FileLogger
lt_schedule_timer_to_roll_log_file_due_to_age env s = record s {
  timer = elim s.current [
    | none ↦ none
    | some path ↦
        if ltb 0 s.rolling_frequency
        then some ((file_info env.now path s.disk).created + s.rolling_frequency)
        else none
  ];
}

-- Marks the current file as archived and forgets it.
archive_current : FileLogger → FileLogger
archive_current s = elim s.current [
  | none ↦ record s { archived = s.archived ++ (none, true) ∷ [] }
  | some path ↦ record s {
    current = none;
    disk = update_file path archive s.disk;
    archived = s.archived ++ (some path, true) ∷ [];
  }
]

pub lt_roll_log_file_now : FileLogger → FileLogger
unfolding archive_current
lt_roll_log_file_now s =
    let rolled = record (archive_current s) { handle = none; vnode = false; timer = none } in
    if is_some s.handle then rolled else s

-- `age + leeway >= frequency`, with the age of the current file.
is_old : Env → FileLogger → Bool
is_old env s = elim s.current [
  | none ↦ leb s.rolling_frequency rolling_leeway
  | some path ↦
      leb ((file_info env.now path s.disk).created + s.rolling_frequency) (env.now + rolling_leeway)
]

pub lt_maybe_roll_log_file_due_to_age : Env → FileLogger → FileLogger
unfolding is_old
lt_maybe_roll_log_file_due_to_age env s =
    if ltb 0 s.rolling_frequency && is_old env s
    then lt_roll_log_file_now s
    else lt_schedule_timer_to_roll_log_file_due_to_age env s

-- The offset of the handle, which writes at the end, is the size of the file.
abbrev pub offset : Env → FileLogger → ℕ → ℕ
offset env s path = length (file_info env.now path s.disk).content

pub lt_maybe_roll_log_file_due_to_size : Env → FileLogger → FileLogger
lt_maybe_roll_log_file_due_to_size env s = elim s.handle [
  | none ↦ s
  | some path ↦
      if ltb 0 s.maximum_file_size
        && env.can_get_offset
        && leb s.maximum_file_size (offset env s path)
      then lt_roll_log_file_now s
      else s
]

pub lt_should_log_file_be_archived : Env → FileLogger → File → Bool
lt_should_log_file_be_archived env s f =
    env.should_archive_recent
    || (ltb 0 s.maximum_file_size && leb s.maximum_file_size (length f.content))
    || (ltb 0 s.rolling_frequency && leb (f.created + s.rolling_frequency) env.now)

-- The answer, and the state in which a file that is not resumed is archived.
pub lt_should_use_log_file : Env → File → Bool → FileLogger → Bool × FileLogger
unfolding lt_should_log_file_be_archived
lt_should_use_log_file env f is_resuming s =
    if f.is_archived
    then (false, s)
    else if f.is_symlink
    then (false, s)
    else if is_resuming && (s.do_not_reuse_log_files || lt_should_log_file_be_archived env s f)
    then (
      false,
      record s {
        disk = update_file f.path archive s.disk;
        archived = s.archived ++ (some f.path, false) ∷ [];
      },
    )
    else (true, s)

abbrev pub new_file : Env → ℕ → File
new_file env path = record {
  path = path;
  content = env.header;
  created = env.now;
  is_archived = false;
  can_mark = env.can_mark_new;
  is_symlink = false;
}

-- The manager creates a new file, which replaces one that is at its path, and dispatches a block that
-- deletes old files; or it fails.
unfoldable pub create_log_file : Env → FileLogger → FileLogger
create_log_file env s = elim env.create [
  | none ↦ record s { current = none }
  | some path ↦ record s {
    current = some path;
    disk = new_file env path ∷ keep (λ f. not (f.path == path)) s.disk;
    deletions = s.deletions + 1;
    deleted = keep (λ f. f.path == path) s.disk ++ s.deleted;
  }
]

-- What the manager reads of a file.
abbrev pub log_file : File → LogFile
log_file f = record { path = f.path; size = length f.content; is_archived = f.is_archived }

-- `deleteOldLogFilesWithError:` without a place for the error: of the files from an index on, those that
-- can be removed go.
unfoldable pub delete_files_from : (ℕ → Bool) → Option ℕ → FileLogger → FileLogger
delete_files_from can_remove none s = s
delete_files_from can_remove (some i) s = record s {
  disk = take i s.disk ++ keep (λ f. not (can_remove f.path)) (drop i s.disk);
  deleted = keep (λ f. can_remove f.path) (drop i s.disk) ++ s.deleted;
}

-- A dispatched block runs, if there is one.
pub delete_old_files : Env → FileLogger → FileLogger
unfolding delete_files_from
delete_old_files env s = elim s.deletions [
  | zero ↦ s
  | suc n ↦
      delete_files_from env.can_remove
        (first_to_delete env.disk_quota env.max_files (map log_file s.disk))
        (record s { deletions = n })
]

-- What the global queue does before a call.
pub background : Env → FileLogger → FileLogger
unfolding delete_old_files
background env s = if env.deletes then delete_old_files env s else s

pub use_or_create : Env → ℕ → Bool × FileLogger → FileLogger
unfolding create_log_file
use_or_create env path (true, s) = record s { current = some path }
use_or_create env path (false, s) = create_log_file env s

-- The file to resume with: the newest.
resume : Env → List File → FileLogger → FileLogger
unfolding use_or_create create_log_file lt_should_use_log_file
resume env [] s = create_log_file env s
resume env (f ∷ fs) s = use_or_create env f.path (lt_should_use_log_file env f true s)

-- The method sets `current`, which it returns.
pub lt_current_log_file_info : Env → FileLogger → FileLogger
unfolding resume use_or_create lt_should_use_log_file
lt_current_log_file_info env s = elim s.current [
  | none ↦ resume env s.disk s
  | some path ↦
      use_or_create env path (lt_should_use_log_file env (file_info env.now path s.disk) false s)
]

-- Opens the current file, and sets the timer and the watch on its vnode.
pub open_current : Env → FileLogger → FileLogger
unfolding lt_schedule_timer_to_roll_log_file_due_to_age
open_current env s = elim s.current [
  | none ↦ s
  | some path ↦
      if env.can_open
      then record (lt_schedule_timer_to_roll_log_file_due_to_age env
          (record s { handle = some path })) { vnode = true }
      else s
]

pub lt_current_log_file_handle : Env → FileLogger → FileLogger
unfolding lt_current_log_file_info open_current
lt_current_log_file_handle env s =
    let opened = open_current env (lt_current_log_file_info env s) in
    if is_some s.handle then s else opened

-- A write to the handle; a message to a nil handle does nothing.
pub write_data : Env → Bytes → FileLogger → FileLogger
write_data env bytes s = elim s.handle [
  | none ↦ s
  | some path ↦
      if env.can_write then record s { disk = update_file path (append_bytes bytes) s.disk } else s
]

pub lt_log_data : Env → Bytes → FileLogger → FileLogger
unfolding write_data lt_current_log_file_handle lt_maybe_roll_log_file_due_to_size
lt_log_data env [] s = s
lt_log_data env (b ∷ bs) s =
    lt_maybe_roll_log_file_due_to_size env
      (write_data env (b ∷ bs) (lt_current_log_file_handle env s))

pub set_maximum_file_size : Env → ℕ → FileLogger → FileLogger
set_maximum_file_size env n s =
    let s' = record s { maximum_file_size = n } in
    if is_some s.handle then lt_maybe_roll_log_file_due_to_size env s' else s'

pub set_rolling_frequency : Env → ℕ → FileLogger → FileLogger
set_rolling_frequency env n s =
    let s' = record s { rolling_frequency = n } in
    if is_some s.handle then lt_maybe_roll_log_file_due_to_age env s' else s'

-- What the internal queue runs, and the blocks that delete old files. A flush only synchronises the file.
pub data Event : Type 0 where
  log_data : Bytes → Event
  roll_log_file : Event
  current_log_file_info : Event
  set_max_size set_frequency : ℕ → Event
  timer_fires vnode_changes : Event
  flush will_remove_logger cleanup delete_old : Event

-- The timer's handler runs only while the timer is set, and that of the vnode only while it is watched.
pub handle_event : Env → Event → FileLogger → FileLogger
handle_event env (log_data bytes) s = lt_log_data env bytes s
handle_event env roll_log_file s = lt_roll_log_file_now s
handle_event env current_log_file_info s = lt_current_log_file_info env s
handle_event env (set_max_size n) s = set_maximum_file_size env n s
handle_event env (set_frequency n) s = set_rolling_frequency env n s
handle_event env timer_fires s =
    if is_some s.timer then lt_maybe_roll_log_file_due_to_age env s else s
handle_event env vnode_changes s = if s.vnode then lt_roll_log_file_now s else s
handle_event env flush s = s
handle_event env will_remove_logger s = lt_roll_log_file_now s
handle_event env cleanup s = lt_cleanup s
handle_event env delete_old s = delete_old_files env s
