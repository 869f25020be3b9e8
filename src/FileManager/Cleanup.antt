-- ===== src/FileManager/Cleanup.antt =====
-- `deleteOldLogFilesWithError:`. The files come newest first, as `sortedLogFileInfos` gives them.
pub mod Selection
pub mod Limits
pub mod Failures
use cocoa_lumberjack.Base.{
  ℕ, zero, suc, ◌+◌, ◌^◌, ◌%◌, ◌<◌, Bool, true, false, not, List, [], ◌∷◌, ◌++◌, Option, none, some,
  ltb, ◌==◌, if◌then◌else◌, min, take, drop, length,
}

pub record LogFile : Type 0 where
  pub path : ℕ
  pub size : ℕ
  pub is_archived : Bool

-- The first loop: the index of the file at which the sum of the sizes, an unsigned 64-bit number,
-- exceeds the quota; none stands for NSNotFound.
pub first_over : ℕ → ℕ → ℕ → List LogFile → Option ℕ
first_over quota used i [] = none
first_over quota used i (f ∷ fs) =
    let total = (used + f.size) % 2 ^ 64 in
    let rest = first_over quota total (i + 1) fs in if ltb quota total then some i else rest

-- Both limits; 0 switches a limit off.
pub by_quota : ℕ → List LogFile → Option ℕ
by_quota zero fs = none
by_quota (suc q) fs = first_over (suc q) 0 0 fs

pub by_count : ℕ → Option ℕ → Option ℕ
by_count zero r = r
by_count (suc m) none = some (suc m)
by_count (suc m) (some i) = some (min i (suc m))

-- The file at index 0 is spared unless it is archived.
pub spare_active : List LogFile → Option ℕ → Option ℕ
spare_active fs none = none
spare_active [] (some i) = some i
spare_active (f ∷ fs) (some zero) = if f.is_archived then some 0 else some 1
spare_active (f ∷ fs) (some (suc i)) = some (suc i)

pub first_to_delete : ℕ → ℕ → List LogFile → Option ℕ
unfolding by_quota by_count spare_active
first_to_delete quota max_files fs = spare_active fs (by_count max_files (by_quota quota fs))

-- The files that are left, and the result of the method.
pub record Outcome : Type 0 where
  pub left : List LogFile
  pub success : Bool

-- The second loop. `can_remove` says for which files `removeItemAtPath:` succeeds, and `wants_error`
-- whether the caller passed a place for the error, in which case the first failure ends the loop.
pub delete_from : Bool → (LogFile → Bool) → List LogFile → Outcome
delete_from wants_error can_remove [] = record { left = []; success = true }
delete_from wants_error can_remove (f ∷ fs) =
    let rest = delete_from wants_error can_remove fs in
    if can_remove f
    then rest
    else if wants_error
    then record { left = f ∷ fs; success = false }
    else record { left = f ∷ rest.left; success = rest.success }

delete_at : Bool → (LogFile → Bool) → List LogFile → Option ℕ → Outcome
delete_at wants_error can_remove fs none = record { left = fs; success = true }
delete_at wants_error can_remove fs (some i) =
    let deleted = delete_from wants_error can_remove (drop i fs) in
    record { left = take i fs ++ deleted.left; success = deleted.success }

pub delete_old_log_files : Bool → (LogFile → Bool) → ℕ → ℕ → List LogFile → Outcome
delete_old_log_files wants_error can_remove quota max_files fs =
    delete_at wants_error can_remove fs (first_to_delete quota max_files fs)
