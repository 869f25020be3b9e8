-- ===== src/FileManager/FileInfo.antt =====
-- DDLogFileInfo of include/CocoaLumberjack/DDFileLogger.h and DDFileLogger.m: what a path says of its
-- file, read on demand and kept until `reset`. The file system is a parameter of each method; the
-- older way of archiving on the simulator, by the file's name, is left out.
pub mod Snapshot
pub mod Archiving
use cocoa_lumberjack.Base.{
  ℕ, zero, suc, ◌+◌, ◌-◌, Bool, true, false, List, [], ◌∷◌, Option, none, some, ◌==◌, leb,
  if◌then◌else◌, bytes_eq, is_some,
}
use cocoa_lumberjack.FileName.{Bytes, slash, last_path_component, last_index}

-- The dictionary of attributes, as far as it is read.
pub record Attributes : Type 0 where
  pub creation_date : ℕ
  pub modification_date : ℕ
  pub size : ℕ
  pub is_symlink : Bool

pub record Entry : Type 0 where
  pub attributes : Attributes
  pub extended : Bytes → Option Bytes

-- Which file a path names.
abbrev pub Disk : Type 0
Disk = Bytes → Option Entry

-- The instance variables; `none` is nil, and a size of 0 is one that was not read.
pub record FileInfo : Type 0 where
  pub file_path : Bytes
  pub cached_name : Option Bytes
  pub cached_attributes : Option Attributes
  pub cached_creation_date : Option ℕ
  pub cached_modification_date : Option ℕ
  pub cached_size : ℕ

-- A number of seconds, `negsuc n` for -(n + 1).
pub data Interval : Type 0 where
  pos negsuc : ℕ → Interval

-- What a comparison answers: whether the first comes first, both at once, or the second first.
pub data Comparison : Type 0 where
  ascending same descending : Comparison

-- The class: creation, the properties, which may fill the cache, and the methods.
pub record LogFileInfo (Info Files : Type 0) : Type 0 where
  pub file_path : Info → Bytes
  pub file_name : Info → Bytes × Info
  pub file_attributes : Files → Info → Option Attributes × Info
  pub creation_date : Files → Info → Option ℕ × Info
  pub modification_date : Files → Info → Option ℕ × Info
  pub file_size : Files → Info → ℕ × Info
  pub age : ℕ → Files → Info → Interval × Info
  pub is_symlink : Files → Info → Bool × Info
  pub is_archived : Files → Info → Bool × Files
  pub set_is_archived : Bool → Files → Info → Files
  pub log_file_with_path : Option Bytes → Option Info
  pub init_with_file_path : Bytes → Info
  pub reset : Info → Info
  pub rename_file : Bytes → Files → Info → Info × Files
  pub has_extended_attribute_with_name : Bytes → Files → Info → Bool × Files
  pub add_extended_attribute_with_name : Bytes → Files → Info → Files
  pub remove_extended_attribute_with_name : Bytes → Files → Info → Files
  pub reverse_compare_by_creation_date : Files → Info → Info → Comparison × (Info × Info)
  pub reverse_compare_by_modification_date : Files → Info → Info → Comparison × (Info × Info)

unfoldable pub init_with_file_path : Bytes → FileInfo
init_with_file_path path = record {
  file_path = path;
  cached_name = none;
  cached_attributes = none;
  cached_creation_date = none;
  cached_modification_date = none;
  cached_size = 0;
}

unfoldable pub log_file_with_path : Option Bytes → Option FileInfo
log_file_with_path none = none
log_file_with_path (some path) = some (init_with_file_path path)

unfoldable pub file_name : FileInfo → Bytes × FileInfo
file_name i =
    let name = last_path_component i.file_path in
    elim i.cached_name [ some n ↦ (n, i) | none ↦ (name, record i { cached_name = some name }) ]

attributes_at : Disk → Bytes → Option Attributes
attributes_at disk path = elim (disk path) [ none ↦ none | some e ↦ some e.attributes ]

unfoldable pub file_attributes : Disk → FileInfo → Option Attributes × FileInfo
unfolding attributes_at
file_attributes disk i = elim i.cached_attributes [
  | some a ↦ (some a, i)
  | none ↦ (
    attributes_at disk i.file_path,
    record i { cached_attributes = attributes_at disk i.file_path },
  )
]

unfoldable pub creation_date : Disk → FileInfo → Option ℕ × FileInfo
creation_date disk i = elim i.cached_creation_date [
  | some t ↦ (some t, i)
  | none ↦
      let read = file_attributes disk i in
      let date : Option ℕ = elim read.0 [ none ↦ none | some a ↦ some a.creation_date ] in
      (date, record (read.1) { cached_creation_date = date })
]

unfoldable pub modification_date : Disk → FileInfo → Option ℕ × FileInfo
modification_date disk i = elim i.cached_modification_date [
  | some t ↦ (some t, i)
  | none ↦
      let read = file_attributes disk i in
      let date : Option ℕ = elim read.0 [ none ↦ none | some a ↦ some a.modification_date ] in
      (date, record (read.1) { cached_modification_date = date })
]

unfoldable pub file_size : Disk → FileInfo → ℕ × FileInfo
file_size disk i =
    let read = file_attributes disk i in
    let size : ℕ = elim read.0 [ none ↦ 0 | some a ↦ a.size ] in
    if i.cached_size == 0
    then (size, record (read.1) { cached_size = size })
    else (i.cached_size, i)

-- The interval since a date; a message to nil gives 0.
unfoldable pub since : ℕ → Option ℕ → Interval
since now none = Interval.pos 0
since now (some t) = if leb t now then Interval.pos (now - t) else Interval.negsuc (t - now - 1)

unfoldable pub age : ℕ → Disk → FileInfo → Interval × FileInfo
unfolding creation_date since
age now disk i = let read = creation_date disk i in (since now read.0, read.1)

unfoldable pub is_symlink : Disk → FileInfo → Bool × FileInfo
unfolding file_attributes
is_symlink disk i =
    let read = file_attributes disk i in
    (elim read.0 [ none ↦ false | some a ↦ a.is_symlink ], read.1)

-- The size that was read stays.
unfoldable pub reset : FileInfo → FileInfo
reset i = record i {
  cached_name = none;
  cached_attributes = none;
  cached_creation_date = none;
  cached_modification_date = none;
}

-- `reverseCompareDatesUs:them:`, with `compare:` of two dates.
unfoldable pub compare_dates : ℕ → ℕ → Comparison
compare_dates a b =
    if a == b
    then Comparison.same
    else if leb a b
    then Comparison.ascending
    else Comparison.descending

unfoldable pub reverse_compare : Option ℕ → Option ℕ → Comparison
unfolding compare_dates
reverse_compare none none = Comparison.same
reverse_compare none (some them) = Comparison.descending
reverse_compare (some us) none = Comparison.ascending
reverse_compare (some us) (some them) = compare_dates them us

unfoldable pub reverse_compare_by_creation_date :
    Disk → FileInfo → FileInfo → Comparison × (FileInfo × FileInfo)
unfolding creation_date reverse_compare
reverse_compare_by_creation_date disk i j =
    let us = creation_date disk i in
    let them = creation_date disk j in (reverse_compare us.0 them.0, (us.1, them.1))

unfoldable pub reverse_compare_by_modification_date :
    Disk → FileInfo → FileInfo → Comparison × (FileInfo × FileInfo)
unfolding modification_date reverse_compare
reverse_compare_by_modification_date disk i j =
    let us = modification_date disk i in
    let them = modification_date disk j in (reverse_compare us.0 them.0, (us.1, them.1))
