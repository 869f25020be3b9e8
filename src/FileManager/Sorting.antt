-- ===== src/FileManager/Sorting.antt =====
-- `sortedLogFileInfos`: the log files, newest first, by the date in the name or else the date of creation.
-- NSDateFormatter is a parameter that reads a date; `sortedArrayUsingComparator:` is a sort by
-- insertion, which gives one of the orders that it may give to files of one date.
pub mod Order
pub mod Dates
mod Examples
use cocoa_lumberjack.Base.{
  ℕ, zero, suc, ◌+◌, Bool, true, false, List, [], ◌∷◌, Option, none, some, ltb, ◌==◌, if◌then◌else◌,
  drop, keep,
}
use cocoa_lumberjack.FileName.{Bytes, dot, last_index}
use cocoa_lumberjack.FileManager.Creation.{space, log_extension, has_prefix, is_log_file}

-- A DDLogFileInfo: the name, and the date of creation unless the file is gone.
pub record Info : Type 0 where
  pub file_name : Bytes
  pub creation_date : Option ℕ

-- The last of the components separated by spaces.
pub last_component : Bytes → Bytes
last_component name = elim (last_index space name 0 none) [
  | none ↦ name
  | some i ↦ drop (i + 1) name
]

-- Every ".log" replaced by nothing; the first argument counts the characters still to be left out.
pub without_extension : ℕ → Bytes → Bytes
without_extension n [] = []
without_extension (suc n) (c ∷ cs) = without_extension n cs
without_extension zero (c ∷ cs) =
    let found = without_extension 3 cs in
    let rest = without_extension zero cs in
    if has_prefix (dot ∷ log_extension) (c ∷ cs) then found else c ∷ rest

pub string_date : Bytes → Bytes
unfolding last_component without_extension
string_date name = without_extension 0 (last_component name)

-- `date1` or `date2` of the comparator.
pub file_date : (Bytes → Option ℕ) → Info → Option ℕ
file_date read_date f = elim (read_date (string_date f.file_name)) [
  | some d ↦ some d
  | none ↦ f.creation_date
]

-- Whether the comparator says that the first is after the second: the date of the second is later than
-- that of the first, or than the present for want of one; a message to a nil date gives NSOrderedSame.
pub is_after : (Bytes → Option ℕ) → ℕ → Info → Info → Bool
is_after read_date now f g = elim (file_date read_date g) [
  | none ↦ false
  | some dg ↦ elim (file_date read_date f) [ none ↦ ltb now dg | some df ↦ ltb df dg ]
]

insert : (Bytes → Option ℕ) → ℕ → Info → List Info → List Info
unfolding is_after
insert read_date now f [] = f ∷ []
insert read_date now f (g ∷ gs) =
    let rest = insert read_date now f gs in
    if is_after read_date now f g then g ∷ rest else f ∷ g ∷ gs

pub sort : (Bytes → Option ℕ) → ℕ → List Info → List Info
unfolding insert
sort read_date now [] = []
sort read_date now (f ∷ fs) = insert read_date now f (sort read_date now fs)

-- The files of the directory that have the name of a log file.
unfoldable pub unsorted_log_file_infos : Bytes → List Info → List Info
unsorted_log_file_infos app = keep (λ f. is_log_file app f.file_name)

pub sorted_log_file_infos : Bytes → (Bytes → Option ℕ) → ℕ → List Info → List Info
unfolding sort unsorted_log_file_infos
sorted_log_file_infos app read_date now directory =
    sort read_date now (unsorted_log_file_infos app directory)
