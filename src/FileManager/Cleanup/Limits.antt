-- ===== src/FileManager/Cleanup/Limits.antt =====
-- What the cleanup leaves when every deletion succeeds.
use cocoa_lumberjack.Base.{
  ℕ, ◌^◌, ◌≤◌, ◌<◌, ◌≡◌, ◌≢◌, refl, Bool, true, List, [], ◌∷◌, Option, none, some, arith, take,
  drop, length, append-nil,
}
use cocoa_lumberjack.FileManager.Cleanup.{
  LogFile, by_quota, first_to_delete, delete_from, delete_at, delete_old_log_files,
}
use cocoa_lumberjack.FileManager.Cleanup.Selection.{
  total_size, total_size-left, by_quota-some, KeepsQuota, left_by, by_count-length,
  by_count-KeepsQuota, Minimal, by_count-Minimal, by_quota-left,
}

module _ (wants_error : Bool) (can_remove : LogFile → Bool)
    (works : (f : LogFile) → can_remove f ≡ true) where
  delete_from-all :
      (fs : List LogFile)
      → delete_from wants_error can_remove fs ≡ record { left = []; success = true }
  unfolding delete_from
  delete_from-all [] = refl
  delete_from-all (f ∷ fs) = ground (arith, works f, delete_from-all fs)

  delete_at-left :
      (fs : List LogFile) (r : Option ℕ)
      → delete_at wants_error can_remove fs r ≡ record { left = left_by fs r; success = true }
  unfolding delete_at
  delete_at-left fs none = refl
  delete_at-left fs (some i) = ground (arith, delete_from-all (drop i fs), append-nil (take i fs))

  delete_old_log_files-left :
      (quota max_files : ℕ) (fs : List LogFile)
      → delete_old_log_files wants_error can_remove quota max_files fs
        ≡ record { left = left_by fs (first_to_delete quota max_files fs); success = true }
  unfolding delete_old_log_files
  delete_old_log_files-left quota max_files fs =
      delete_at-left fs (first_to_delete quota max_files fs)

  -- The files that are left take no more space than all files did.
  pub delete_old_log_files-size :
      (quota max_files : ℕ) (fs : List LogFile)
      → total_size (delete_old_log_files wants_error can_remove quota max_files fs).left
        ≤ total_size fs
  delete_old_log_files-size quota max_files fs =
      rw (delete_old_log_files-left quota max_files fs)
        (total_size-left fs (first_to_delete quota max_files fs))

  -- When every deletion works and there is a limit on the number of files, no more files than that
  -- are left, and the method reports success.
  pub delete_old_log_files-count :
      (quota max_files : ℕ) (fs : List LogFile)
      → max_files ≢ 0
      → let out = delete_old_log_files wants_error can_remove quota max_files fs in
        (length out.left ≤ max_files) × (out.success ≡ true)
  unfolding first_to_delete
  delete_old_log_files-count quota max_files fs h =
      rw (delete_old_log_files-left quota max_files fs)
        (by_count-length max_files (by_quota quota fs) fs h, refl)

  -- When every deletion works and there is a quota, what is left fits in the quota, or is the newest
  -- file alone, which is spared because it is not archived.
  pub delete_old_log_files-quota :
      (quota max_files : ℕ) (fs : List LogFile)
      → quota ≢ 0
      → total_size fs < 2 ^ 64
      → KeepsQuota quota (delete_old_log_files wants_error can_remove quota max_files fs).left
  unfolding first_to_delete
  delete_old_log_files-quota quota max_files fs on fits =
      rw (delete_old_log_files-left quota max_files fs) (
        by_count-KeepsQuota quota max_files (by_quota quota fs) fs (by_quota-left quota fs on fits))

  -- When every deletion works, no file is deleted needlessly: all are left, or the newest ones up to a
  -- file with which they would exceed the quota, or whose index is the limit on their number.
  pub delete_old_log_files-Minimal :
      (quota max_files : ℕ) (fs : List LogFile)
      → total_size fs < 2 ^ 64
      → Minimal quota max_files fs
          (delete_old_log_files wants_error can_remove quota max_files fs).left
  unfolding first_to_delete
  delete_old_log_files-Minimal quota max_files fs fits =
      rw (delete_old_log_files-left quota max_files fs) (
        by_count-Minimal quota max_files (by_quota quota fs) fs
          λ k e. let (on, stop) = by_quota-some quota fs k fits e in (on, omega arith))
