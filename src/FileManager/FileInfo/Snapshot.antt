-- ===== src/FileManager/FileInfo/Snapshot.antt =====
-- What the cache of a DDLogFileInfo promises: the values of one moment until `reset`, and the order of
-- files by their dates.
use cocoa_lumberjack.Base.{
  ℕ, ◌+◌, ◌≡◌, List, [], ◌∷◌, Option, none, some, ◌⊎◌, ◌==◌, if◌then◌else◌, arith,
}
use cocoa_lumberjack.FileManager.FileInfo.{
  Attributes, Entry, Disk, FileInfo, file_name, file_attributes, creation_date, modification_date,
  file_size, age, since, is_symlink, reset, compare_dates, reverse_compare,
}

-- A call of one of the properties.
pub data Read : Type 0 where
  name attributes creation modification size symlink : Read
  age_at : ℕ → Read

pub after_read : Disk → Read → FileInfo → FileInfo
after_read disk Read.name i = (file_name i).1
after_read disk Read.attributes i = (file_attributes disk i).1
after_read disk Read.creation i = (creation_date disk i).1
after_read disk Read.modification i = (modification_date disk i).1
after_read disk Read.size i = (file_size disk i).1
after_read disk Read.symlink i = (is_symlink disk i).1
after_read disk (Read.age_at now) i = (age now disk i).1

-- Calls one after the other, each with the files as they are then.
pub after_reads : List (Disk × Read) → FileInfo → FileInfo
unfolding after_read
after_reads [] i = i
after_reads (r ∷ rs) i = after_reads rs (after_read r.0 r.1 i)

-- The cache holds these attributes and nothing else.
record IsSnapshot (a : Attributes) (i : FileInfo) : Type 0 where
  whole : i.cached_attributes ≡ some a
  created : (i.cached_creation_date ≡ none) ⊎ (i.cached_creation_date ≡ some a.creation_date)
  modified :
      (i.cached_modification_date ≡ none) ⊎ (i.cached_modification_date ≡ some a.modification_date)
  sized : (i.cached_size ≡ 0) ⊎ (i.cached_size ≡ a.size)

-- What the properties answer.
abbrev pub Answers : ℕ → Disk → FileInfo → Attributes → Type 0
Answers now disk i a =
    ((creation_date disk i).0 ≡ some a.creation_date)
    × ((modification_date disk i).0 ≡ some a.modification_date)
    × ((file_size disk i).0 ≡ a.size)
    × ((is_symlink disk i).0 ≡ a.is_symlink)
    × ((age now disk i).0 ≡ since now (some a.creation_date))

-- After a reset, the dates and the kind of an existing file are read anew, but the size is the one
-- that was read before, unless that was 0.
pub reset-file_size :
    (now : ℕ) (disk : Disk) (i : FileInfo) (e : Entry)
    → disk i.file_path ≡ some e
    → ((creation_date disk (reset i)).0 ≡ some e.attributes.creation_date)
      × ((modification_date disk (reset i)).0 ≡ some e.attributes.modification_date)
      × ((is_symlink disk (reset i)).0 ≡ e.attributes.is_symlink)
      × ((age now disk (reset i)).0 ≡ since now (some e.attributes.creation_date))
      × ((file_size disk (reset i)).0
          ≡ (if i.cached_size == 0 then e.attributes.size else i.cached_size))
unfolding creation_date modification_date file_attributes file_size is_symlink age reset
reset-file_size now disk i e h =
    (ground (arith, h), ground (arith, h), ground (arith, h), ground (arith, h), ground (arith, h))

-- A file without a date ranks below all others.
abbrev rank : Option ℕ → ℕ
rank none = 0
rank (some t) = t + 1

-- The comparison by date is that of the ranks, the higher one first; so it orders any files, newest
-- first and those without a date last.
pub reverse_compare-rank :
    (us them : Option ℕ) → reverse_compare us them ≡ compare_dates (rank them) (rank us)
unfolding reverse_compare compare_dates
reverse_compare-rank none none = ground arith
reverse_compare-rank none (some t) = ground arith
reverse_compare-rank (some u) none = ground arith
reverse_compare-rank (some u) (some t) = ground arith
