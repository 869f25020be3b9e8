-- ===== src/FileManager/Manager/Listing.antt =====
-- The lists of log files: paths, names and infos tell of the same files, and a new log file is one of
-- them.
use cocoa_lumberjack.Base.{
  ℕ, ◌≡◌, ◌≢◌, refl, ap, Bool, List, [], ◌∷◌, map, keep, Option, some, inl, inr, ◌==◌, All, arith,
  Bool-cases,
}
use cocoa_lumberjack.FileName.{Bytes, slash, Lacks, last_path_component}
use cocoa_lumberjack.FileName.Parts.{IsFront, last_path_component-front}
use cocoa_lumberjack.FileManager.Creation.{is_log_file}
use cocoa_lumberjack.FileManager.Sorting.{Info, unsorted_log_file_infos}
use cocoa_lumberjack.FileManager.Sorting.Order.{sort-All, All-unsorted}
use cocoa_lumberjack.FileManager.Manager.Default.{
  Manager, front_of, append_path_component, infos, unsorted_log_file_paths, unsorted_log_file_names,
  sorted_infos, sorted_log_file_paths, sorted_log_file_names,
}

front_of-cons : (c : ℕ) (cs : Bytes) → front_of (c ∷ cs) ≢ []
unfolding front_of
front_of-cons c [] e = ground (arith, e)
front_of-cons c (d ∷ ds) e = ground (arith, e)

front_of-IsFront : (dir : Bytes) → IsFront (front_of dir)
unfolding front_of
front_of-IsFront [] = inl refl
front_of-IsFront (c ∷ []) = elim (Bool-cases (c == slash)) [
  | inl e ↦ inr ([], ground (arith, e))
  | inr e ↦ inr (c ∷ [], ground (arith, e))
]
front_of-IsFront (c ∷ d ∷ ds) = elim (front_of-IsFront (d ∷ ds)) [
  | inl e ↦ absurd (front_of-cons d ds e)
  | inr (dir, e) ↦ inr (c ∷ dir, ap (λ t. c ∷ t) e)
]

-- A name of a file is not empty and has no slash.
abbrev pub IsName : Info → Type 0
IsName f = Lacks slash f.file_name × (f.file_name ≢ [])

-- A name is the last component of its path in any directory.
pub last_path_component-append :
    (dir : Bytes) (f : Info)
    → IsName f
    → last_path_component (append_path_component dir f.file_name) ≡ f.file_name
unfolding append_path_component
last_path_component-append dir f h =
    last_path_component-front (front_of dir) f.file_name (front_of-IsFront dir) h.0 h.1

components :
    (dir : Bytes) (fs : List Info)
    → All IsName fs
    → map last_path_component (map (λ (f : Info). append_path_component dir f.file_name) fs)
      ≡ map (λ (f : Info). f.file_name) fs
components dir [] h = refl
components dir (f ∷ fs) h = rw (last_path_component-append dir f h.0, components dir fs h.1)

keep-All : (p : Info → Bool) (fs : List Info) → All IsName fs → All IsName (keep p fs)
keep-All p [] h = tt
keep-All p (f ∷ fs) h = ground (arith, h.0, keep-All p fs h.1)

-- The sorted files are files with names, too.
sorted-All :
    (app : Bytes) (read_date : Bytes → Option ℕ) (now : ℕ) (fs : List Info)
    → All IsName fs
    → All IsName (sorted_infos app read_date now (some fs))
unfolding sorted_infos infos
sorted-All app read_date now fs h =
    sort-All read_date IsName now (unsorted_log_file_infos app fs)
      (All-unsorted read_date IsName app fs h)

-- In a directory of files, the unsorted names are those of the unsorted infos, and of the sorted
-- paths, names and infos each has the file names of the others, in the same order.
pub log_file_names-agree :
    (app : Bytes) (read_date : Bytes → Option ℕ) (now : ℕ) (m : Manager) (fs : List Info)
    → All IsName fs
    → (unsorted_log_file_names app m (some fs)
        ≡ map (λ (f : Info). f.file_name) (infos app (some fs)))
      × (map last_path_component (sorted_log_file_paths app read_date now m (some fs))
          ≡ sorted_log_file_names app read_date now m (some fs))
unfolding unsorted_log_file_names unsorted_log_file_paths infos sorted_log_file_paths
    sorted_log_file_names unsorted_log_file_infos
log_file_names-agree app read_date now m fs h = (
  components m.logs_directory (keep (λ f. is_log_file app f.file_name) fs) (keep-All _ fs h),
  components m.logs_directory (sorted_infos app read_date now (some fs))
      (sorted-All app read_date now fs h),
)
