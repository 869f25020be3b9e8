-- ===== src/FileLogger/Deleting.antt =====
-- What the blocks that delete old files do to the file logger: they touch only the list of files, and
-- never a newest file that is not archived.
use cocoa_lumberjack.Base.{
  ℕ, zero, suc, ◌≡◌, refl, inl, inr, ◌⊎◌, Bool, false, not, List, ◌∷◌, ◌++◌, Option, none, some,
  arith, keep, take, drop, map, Bool-cases,
}
use cocoa_lumberjack.FileManager.Cleanup.{first_to_delete}
use cocoa_lumberjack.FileManager.Cleanup.Failures.{first_to_delete-active}
use cocoa_lumberjack.FileLogger.{
  File, FileLogger, Env, log_file, delete_files_from, delete_old_files, background,
}
use cocoa_lumberjack.FileLogger.Invariant.{IsSound}

abbrev changed_files : FileLogger → List File → ℕ → List File → FileLogger
changed_files s disk n deleted = record s { disk = disk; deletions = n; deleted = deleted }

-- The files are exchanged, and nothing else.
abbrev Exchanges : FileLogger → FileLogger → Type 0
Exchanges s t =
    (disk : List File) × (n : ℕ) × (deleted : List File) × (t ≡ changed_files s disk n deleted)

delete_files_from-Exchanges :
    (can_remove : ℕ → Bool) (r : Option ℕ) (n : ℕ) (s : FileLogger)
    → Exchanges s (delete_files_from can_remove r (record s { deletions = n }))
unfolding delete_files_from
delete_files_from-Exchanges can_remove none n s = (s.disk, n, s.deleted, refl)
delete_files_from-Exchanges can_remove (some i) n s = (_, n, _, refl)

delete_old_files-Exchanges : (env : Env) (s : FileLogger) → Exchanges s (delete_old_files env s)
unfolding delete_old_files
delete_old_files-Exchanges env s = by_deletions s.deletions
  where
    by_deletions :
        (k : ℕ)
        → Exchanges s (elim k [
          | zero ↦ s
          | suc n ↦
              delete_files_from env.can_remove
                (first_to_delete env.disk_quota env.max_files (map log_file s.disk))
                (record s { deletions = n })
        ])
    by_deletions zero = (s.disk, s.deletions, s.deleted, refl)
    by_deletions (suc n) = delete_files_from-Exchanges env.can_remove _ n s

-- With a newest file that is not archived, it stays the newest.
delete_files_from-head :
    (can_remove : ℕ → Bool) (r : Option ℕ) (n : ℕ) (s : FileLogger) (f : File) (fs : List File)
    → s.disk ≡ f ∷ fs
    → (r ≡ none) ⊎ ((i : ℕ) × (r ≡ some (suc i)))
    → (gs : List File) × (deleted : List File) × (delete_files_from can_remove r
          (record s { deletions = n })
        ≡ changed_files s (f ∷ gs) n deleted)
unfolding delete_files_from
delete_files_from-head can_remove r n s f fs d (inl e) = (fs, s.deleted, ground (arith, e, d))
delete_files_from-head can_remove r n s f fs d (inr (i, e)) = (
  take i fs ++ keep (λ g. not (can_remove g.path)) (drop i fs),
  keep (λ g. can_remove g.path) (drop i fs) ++ s.deleted,
  rw (e, d) refl,
)

delete_old_files-head :
    (env : Env) (s : FileLogger) (f : File) (fs : List File)
    → s.disk ≡ f ∷ fs
    → f.is_archived ≡ false
    → (gs : List File) × (n : ℕ) × (deleted : List File) × (delete_old_files env s
        ≡ changed_files s (f ∷ gs) n deleted)
unfolding delete_old_files
delete_old_files-head env s f fs d na = by_deletions s.deletions
  where
    active :
        (first_to_delete env.disk_quota env.max_files (map log_file s.disk) ≡ none)
        ⊎ ((i : ℕ) × (first_to_delete env.disk_quota env.max_files (map log_file s.disk)
              ≡ some (suc i)))
    active =
        rw d (first_to_delete-active env.disk_quota env.max_files (log_file f) (map log_file fs) na)

    by_deletions :
        (k : ℕ)
        → (gs : List File) × (n : ℕ) × (deleted : List File) × ((elim k [
          | zero ↦ s
          | suc m ↦
              delete_files_from env.can_remove
                (first_to_delete env.disk_quota env.max_files (map log_file s.disk))
                (record s { deletions = m })
        ])
            ≡ changed_files s (f ∷ gs) n deleted)
    by_deletions zero = (fs, s.deletions, s.deleted, ground (arith, d))
    by_deletions (suc m) =
        let (gs, deleted, e) = delete_files_from-head env.can_remove _ m s f fs d active in
        (gs, m, deleted, e)

pub delete_old_files-IsSound :
    (env : Env) (s : FileLogger) → IsSound s → IsSound (delete_old_files env s)
delete_old_files-IsSound env s (inr (f, fs, o)) =
    let (gs, n, deleted, e) =
      delete_old_files-head env s f fs o.opening.on_disk o.opening.not_archived in
    rw e (inr (f, gs, ground arith))
delete_old_files-IsSound env s (inl c) = elim c.newest [
  | inl e ↦
      let (disk, n, deleted, same) = delete_old_files-Exchanges env s in
      rw same (
        inl (record {
          no_handle = c.no_handle;
          no_vnode = c.no_vnode;
          no_timer = c.no_timer;
          newest = inl e;
        }))
  | inr (f, fs, d, e, na) ↦
      let (gs, n, deleted, same) = delete_old_files-head env s f fs d na in
      rw same (
        inl (record {
          no_handle = c.no_handle;
          no_vnode = c.no_vnode;
          no_timer = c.no_timer;
          newest = inr (f, gs, refl, e, na);
        }))
]

pub background-IsSound : (env : Env) (s : FileLogger) → IsSound s → IsSound (background env s)
unfolding background
background-IsSound env s v = elim (Bool-cases env.deletes) [
  | inl e ↦ rw e (delete_old_files-IsSound env s v)
  | inr e ↦ rw e v
]
