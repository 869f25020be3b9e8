-- ===== src/FileManager/Manager/Configuration.antt =====
-- The limits of the default log file manager: once it was added to a file logger, a change of a limit
-- dispatches a cleanup to a global queue, which runs it sooner or later. Which files can be removed is a
-- parameter.
use cocoa_lumberjack.Base.{
  ℕ, zero, suc, ◌^◌, ◌≤◌, ◌<◌, ◌≡◌, ◌≢◌, refl, Bool, true, false, List, [], ◌∷◌, ◌⊎◌, inl, inr,
  subst, sym, ◌==◌, length, arith, Bool-cases,
}
use cocoa_lumberjack.FileManager.Cleanup.{LogFile, delete_old_log_files}
use cocoa_lumberjack.FileManager.Cleanup.Selection.{total_size, KeepsQuota}
use cocoa_lumberjack.FileManager.Cleanup.Limits.{
  delete_old_log_files-count, delete_old_log_files-quota, delete_old_log_files-size,
}
use cocoa_lumberjack.FileManager.Manager.Default.{
  Manager, set_log_files_disk_quota, set_maximum_number_of_log_files,
  delete_old_files_for_configuration_change,
}

-- A call of a setter; a dispatched cleanup that runs; or `cleanupLogFilesWithError:`, with or without a
-- place for the error.
pub data Change : Type 0 where
  quota maximum : ℕ → Change
  background : Change
  cleanup : Bool → Change

-- The manager, whose `cleanups` are those that still wait, and the log files.
pub record State : Type 0 where
  pub manager : Manager
  pub files : List LogFile

unfoldable pub cleaned : (LogFile → Bool) → Bool → Manager → List LogFile → List LogFile
cleaned can_remove wants_error m fs =
    (delete_old_log_files wants_error can_remove m.log_files_disk_quota
      m.maximum_number_of_log_files fs).left

-- The limits are read when a cleanup runs.
unfoldable pub change : (LogFile → Bool) → Change → State → State
unfolding cleaned
change can_remove (Change.quota n) s = record s { manager = set_log_files_disk_quota n s.manager }
change can_remove (Change.maximum n) s = record s {
  manager = set_maximum_number_of_log_files n s.manager;
}
change can_remove Change.background s = elim s.manager.cleanups [
  | zero ↦ s
  | suc n ↦ record {
    manager = record (s.manager) { cleanups = n };
    files = cleaned can_remove false s.manager s.files;
  }
]
change can_remove (Change.cleanup wants_error) s = record s {
  files = cleaned can_remove wants_error s.manager s.files;
}

unfoldable pub changes : (LogFile → Bool) → List Change → State → State
unfolding change
changes can_remove [] s = s
changes can_remove (c ∷ cs) s = changes can_remove cs (change can_remove c s)

-- The files keep both limits, their sizes add up in 64 bits, and the manager reacts to changes.
pub record IsWithin (s : State) : Type 0 where
  pub added : s.manager.was_added_to_logger ≡ true
  pub sized : total_size s.files < 2 ^ 64
  pub counted :
      (s.manager.maximum_number_of_log_files ≡ 0)
      ⊎ (length s.files ≤ s.manager.maximum_number_of_log_files)
  pub spaced :
      (s.manager.log_files_disk_quota ≡ 0) ⊎ KeepsQuota s.manager.log_files_disk_quota s.files

zero-cases : (n : ℕ) → (n ≡ 0) ⊎ (n ≢ 0)
zero-cases zero = inl refl
zero-cases (suc n) = inr λ e. omega (arith, e)

-- Unless a cleanup waits, the files keep the limits.
record IsSettling (s : State) : Type 0 where
  added : s.manager.was_added_to_logger ≡ true
  sized : total_size s.files < 2 ^ 64
  within : s.manager.cleanups ≡ 0 → IsWithin s

module _ (can_remove : LogFile → Bool) (works : (f : LogFile) → can_remove f ≡ true) where
  cleaned-size :
      (wants_error : Bool) (m : Manager) (fs : List LogFile)
      → total_size fs < 2 ^ 64
      → total_size (cleaned can_remove wants_error m fs) < 2 ^ 64
  unfolding cleaned
  cleaned-size wants_error m fs sized = omega (
    arith,
    sized,
    delete_old_log_files-size wants_error can_remove works m.log_files_disk_quota
        m.maximum_number_of_log_files fs,
  )

  -- A cleanup makes the files keep the limits, also of a manager that differs otherwise.
  cleaned-IsWithin :
      (wants_error : Bool) (m : Manager) (n : ℕ) (fs : List LogFile)
      → m.was_added_to_logger ≡ true
      → total_size fs < 2 ^ 64
      → IsWithin (record {
        manager = record m { cleanups = n };
        files = cleaned can_remove wants_error m fs;
      })
  unfolding cleaned
  cleaned-IsWithin wants_error m n fs added sized = record {
    added = added;
    sized = cleaned-size wants_error m fs sized;
    counted = elim (zero-cases m.maximum_number_of_log_files) [
      | inl e ↦ inl e
      | inr e ↦
          inr
            (delete_old_log_files-count wants_error can_remove works m.log_files_disk_quota
              m.maximum_number_of_log_files fs e).0
    ];
    spaced = elim (zero-cases m.log_files_disk_quota) [
      | inl e ↦ inl e
      | inr e ↦ inr (
          delete_old_log_files-quota wants_error can_remove works m.log_files_disk_quota
            m.maximum_number_of_log_files fs e sized)
    ];
  }

  -- A setter that keeps the value changes nothing, and one that changes it dispatches a cleanup.
  quota-cases :
      (n : ℕ) (s : State)
      → s.manager.was_added_to_logger ≡ true
      → (change can_remove (Change.quota n) s ≡ s)
        ⊎ ((m : Manager) × (m.was_added_to_logger ≡ true)
            × (change can_remove (Change.quota n) s
                ≡ record s { manager = record m { cleanups = suc s.manager.cleanups } }))
  unfolding change set_log_files_disk_quota delete_old_files_for_configuration_change
  quota-cases n s h = elim (Bool-cases (s.manager.log_files_disk_quota == n)) [
    | inl e ↦ inl (ground (arith, e))
    | inr e ↦ inr (record (s.manager) { log_files_disk_quota = n }, h, ground (arith, e, h))
  ]

  maximum-cases :
      (n : ℕ) (s : State)
      → s.manager.was_added_to_logger ≡ true
      → (change can_remove (Change.maximum n) s ≡ s)
        ⊎ ((m : Manager) × (m.was_added_to_logger ≡ true)
            × (change can_remove (Change.maximum n) s
                ≡ record s { manager = record m { cleanups = suc s.manager.cleanups } }))
  unfolding change set_maximum_number_of_log_files delete_old_files_for_configuration_change
  maximum-cases n s h = elim (Bool-cases (s.manager.maximum_number_of_log_files == n)) [
    | inl e ↦ inl (ground (arith, e))
    | inr e ↦ inr (record (s.manager) { maximum_number_of_log_files = n }, h, ground (arith, e, h))
  ]

  set-IsSettling :
      (s t : State)
      → IsSettling s
      → (t ≡ s)
        ⊎ ((m : Manager) × (m.was_added_to_logger ≡ true)
            × (t ≡ record s { manager = record m { cleanups = suc s.manager.cleanups } }))
      → IsSettling t
  set-IsSettling s t h (inl e) = subst IsSettling (sym e) h
  set-IsSettling s t h (inr (m, a, e)) =
      subst IsSettling (sym e)
        (record { added = a; sized = h.sized; within = λ z. absurd (omega (arith, z)) })

  background-IsSettling :
      (s : State) → IsSettling s → IsSettling (change can_remove Change.background s)
  unfolding change
  background-IsSettling s h = by_cleanups s.manager.cleanups
    where
      by_cleanups :
          (k : ℕ)
          → IsSettling (elim k [
            | zero ↦ s
            | suc n ↦ record {
              manager = record (s.manager) { cleanups = n };
              files = cleaned can_remove false s.manager s.files;
            }
          ])
      by_cleanups zero = h
      by_cleanups (suc n) = record {
        added = h.added;
        sized = cleaned-size false s.manager s.files h.sized;
        within = λ z. cleaned-IsWithin false s.manager n s.files h.added h.sized;
      }

  change-IsSettling : (c : Change) (s : State) → IsSettling s → IsSettling (change can_remove c s)
  unfolding change
  change-IsSettling (Change.quota n) s h = set-IsSettling s _ h (quota-cases n s h.added)
  change-IsSettling (Change.maximum n) s h = set-IsSettling s _ h (maximum-cases n s h.added)
  change-IsSettling Change.background s h = background-IsSettling s h
  change-IsSettling (Change.cleanup wants_error) s h = record {
    added = h.added;
    sized = cleaned-size wants_error s.manager s.files h.sized;
    within = λ z. cleaned-IsWithin wants_error s.manager s.manager.cleanups s.files h.added h.sized;
  }

  changes-IsSettling :
      (cs : List Change) (s : State) → IsSettling s → IsSettling (changes can_remove cs s)
  unfolding changes
  changes-IsSettling [] s h = h
  changes-IsSettling (c ∷ cs) s h =
      changes-IsSettling cs (change can_remove c s) (change-IsSettling c s h)

  -- The manager was added to a file logger, the files keep its limits, and every deletion works. After
  -- any changes of the limits, runs of dispatched cleanups and direct cleanups, at any time at which no
  -- dispatched cleanup waits, the files keep the limits in force: no more files than the limit on their
  -- number allows, and no more space than the quota, unless the newest file, not archived, is left
  -- alone; a limit of 0 allows anything.
  pub changes-IsWithin :
      (cs : List Change) (s : State)
      → IsWithin s
      → (changes can_remove cs s).manager.cleanups ≡ 0
      → IsWithin (changes can_remove cs s)
  changes-IsWithin cs s h idle =
      let start : IsSettling s = record { added = h.added; sized = h.sized; within = λ z. h } in
      (changes-IsSettling cs s start).within idle
