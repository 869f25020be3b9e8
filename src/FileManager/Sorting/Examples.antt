-- ===== src/FileManager/Sorting/Examples.antt =====
-- Directories and names at which the theorems on sorting apply.
use cocoa_lumberjack.Base.{
  ℕ, ◌≡◌, refl, true, List, [], ◌∷◌, Option, none, some, arith, codes, bytes_eq, if◌then◌else◌,
}
use cocoa_lumberjack.FileName.{Bytes}
use cocoa_lumberjack.FileManager.Creation.{new_log_file_name}
use cocoa_lumberjack.FileManager.Sorting.{
  Info, file_date, unsorted_log_file_infos, sorted_log_file_infos,
}
use cocoa_lumberjack.FileManager.Sorting.Order.{
  IsDated, IsSorted, count, All-unsorted, sorted_log_file_infos-IsSorted,
}
use cocoa_lumberjack.FileManager.Sorting.Dates.{file_date-new_log_file_name}

-- "App" and "2024-01-02"
abbrev app : Bytes
app = codes "App"

abbrev date : Bytes
date = codes "2024-01-02"

-- Reads nothing, so the files go by their dates of creation.
abbrev unread : Bytes → Option ℕ
unread s = none

abbrev directory : List Info
directory =
    record { file_name = codes "App 1.log"; creation_date = some 10 }
    ∷ record { file_name = codes "notes.txt"; creation_date = some 15 }
    ∷ record { file_name = codes "App 2.log"; creation_date = some 20 }
    ∷ []

sorted_log_file_infos-IsSorted_example :
    IsSorted unread (sorted_log_file_infos app unread 30 directory)
    × (count unread (λ f. true) (sorted_log_file_infos app unread 30 directory)
        ≡ count unread (λ f. true) (unsorted_log_file_infos app directory))
unfolding file_date
sorted_log_file_infos-IsSorted_example =
    sorted_log_file_infos-IsSorted unread app 30 directory (λ f. true)
      (All-unsorted unread (IsDated unread) app directory (refl, (refl, (refl, tt))))

-- Reads the text of the date as the day 7.
abbrev read_day : Bytes → Option ℕ
read_day s = if bytes_eq s date then some 7 else none

file_date-new_log_file_name_example :
    file_date read_day (record { file_name = new_log_file_name app date; creation_date = some 99 })
    ≡ some 7
file_date-new_log_file_name_example =
    file_date-new_log_file_name read_day app date 7 (some 99) (ground arith) (ground arith) refl
