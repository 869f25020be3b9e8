-- ===== src/FileLogger/Kept.antt =====
-- What the log files hold together with the files that were deleted.
use cocoa_lumberjack.Base.{
  ℕ, zero, suc, ◌≡◌, inl, inr, refl, sym, ap, ◌∙◌, Bool, true, false, not, List, [], ◌∷◌, ◌++◌,
  append_assoc, append-nil, Option, none, some, arith, if◌then◌else◌, Bool-cases, ◌==◌, keep, take,
  drop, map, take-append-drop, ◌<◌,
}
use cocoa_lumberjack.FileName.{Bytes}
use cocoa_lumberjack.FileManager.Cleanup.{first_to_delete}
use cocoa_lumberjack.FileLogger.{
  File, FileLogger, Env, log_file, delete_files_from, delete_old_files, background, lt_log_data,
}
use cocoa_lumberjack.FileLogger.Contents.{all_bytes, is_on_disk, IsFresh, lt_log_data-Frees}

-- The contents of the log files and, before them, of those deleted since, the oldest first.
abbrev pub everything : FileLogger → Bytes
everything s = all_bytes (s.disk ++ s.deleted)

pub all_bytes-append : (fs gs : List File) → all_bytes (fs ++ gs) ≡ all_bytes gs ++ all_bytes fs
all_bytes-append [] gs = sym (append-nil (all_bytes gs))
all_bytes-append (f ∷ fs) gs =
    ap (λ x. x ++ f.content) (all_bytes-append fs gs)
    ∙ append_assoc (all_bytes gs) (all_bytes fs) f.content

-- When a step adds data to the files and deletes none, it adds it to everything.
pub everything-grows :
    (s t : FileLogger) (d : Bytes)
    → all_bytes t.disk ≡ all_bytes s.disk ++ d
    → t.deleted ≡ s.deleted
    → everything t ≡ everything s ++ d
everything-grows s t d e kept =
    all_bytes-append t.disk t.deleted
    ∙ ap (λ x. all_bytes x ++ all_bytes t.disk) kept
    ∙ ap (λ x. all_bytes s.deleted ++ x) e
    ∙ sym (append_assoc (all_bytes s.deleted) (all_bytes s.disk) d)
    ∙ ap (λ x. x ++ d) (sym (all_bytes-append s.disk s.deleted))

module _ (can_remove : ℕ → Bool) where
  module _ (works : (p : ℕ) → can_remove p ≡ true) where
    removed-all : (fs : List File) → keep (λ f. can_remove f.path) fs ≡ fs
    removed-all [] = refl
    removed-all (f ∷ fs) = ground (arith, works f.path, removed-all fs)

    left-none : (fs : List File) → keep (λ f. not (can_remove f.path)) fs ≡ []
    left-none [] = refl
    left-none (f ∷ fs) = ground (arith, works f.path, left-none fs)

    -- Deleting moves the oldest files to those deleted.
    delete_files_from-everything :
        (r : Option ℕ) (s : FileLogger)
        → everything (delete_files_from can_remove r s) ≡ everything s
    unfolding delete_files_from
    delete_files_from-everything none s = refl
    delete_files_from-everything (some i) s = ap all_bytes (
        ap
          (λ x.
            (take i s.disk ++ x) ++ (keep (λ f. can_remove f.path) (drop i s.disk) ++ s.deleted))
          (left-none (drop i s.disk))
        ∙ ap (λ x. (take i s.disk ++ []) ++ (x ++ s.deleted)) (removed-all (drop i s.disk))
        ∙ ap (λ x. x ++ (drop i s.disk ++ s.deleted)) (append-nil (take i s.disk))
        ∙ sym (append_assoc (take i s.disk) (drop i s.disk) s.deleted)
        ∙ ap (λ x. x ++ s.deleted) (take-append-drop i s.disk))

  is_on_disk-keep :
      (p : ℕ) (fs gs : List File)
      → is_on_disk p (fs ++ gs) ≡ false
      → is_on_disk p (fs ++ keep (λ f. not (can_remove f.path)) gs) ≡ false
  unfolding is_on_disk
  is_on_disk-keep p [] [] h = h
  is_on_disk-keep p [] (g ∷ gs) h = elim (Bool-cases (g.path == p)) [
    | inl e ↦ absurd (ground (arith, e, h))
    | inr e ↦ let rest = is_on_disk-keep p [] gs (ground (arith, e, h)) in ground (arith, e, rest)
  ]
  is_on_disk-keep p (f ∷ fs) gs h = elim (Bool-cases (f.path == p)) [
    | inl e ↦ absurd (ground (arith, e, h))
    | inr e ↦ let rest = is_on_disk-keep p fs gs (ground (arith, e, h)) in ground (arith, e, rest)
  ]

  delete_files_from-free :
      (p : ℕ) (r : Option ℕ) (s : FileLogger)
      → is_on_disk p s.disk ≡ false
      → is_on_disk p (delete_files_from can_remove r s).disk ≡ false
  unfolding delete_files_from
  delete_files_from-free p none s h = h
  delete_files_from-free p (some i) s h =
      is_on_disk-keep p (take i s.disk) (drop i s.disk)
        (ap (is_on_disk p) (take-append-drop i s.disk) ∙ h)

-- Whatever holds of the deletions holds of what the global queue does before a call.
background-by :
    (env : Env) (s : FileLogger) (P : FileLogger → Type 0)
    → P s
    → ((r : Option ℕ) (n : ℕ) → P (delete_files_from env.can_remove r (record s { deletions = n })))
    → P (background env s)
unfolding background delete_old_files
background-by env s P same deletes = by_choice env.deletes s.deletions
  where
    by_choice :
        (b : Bool) (k : ℕ)
        → P (
            if b
            then elim k [
              | zero ↦ s
              | suc n ↦
                  delete_files_from env.can_remove
                    (first_to_delete env.disk_quota env.max_files (map log_file s.disk))
                    (record s { deletions = n })
            ]
            else s)
    by_choice false k = same
    by_choice true zero = same
    by_choice true (suc n) = deletes _ n

-- If files can be deleted, what the global queue does leaves everything as it was.
pub background-everything :
    (env : Env) (s : FileLogger)
    → ((p : ℕ) → env.can_remove p ≡ true)
    → everything (background env s) ≡ everything s
background-everything env s works =
    background-by env s (λ t. everything t ≡ everything s) refl
      (λ r n. delete_files_from-everything env.can_remove works r (record s { deletions = n }))

background-free :
    (env : Env) (s : FileLogger) (p : ℕ)
    → is_on_disk p s.disk ≡ false
    → is_on_disk p (background env s).disk ≡ false
background-free env s p h =
    background-by env s (λ t. is_on_disk p t.disk ≡ false) h
      (λ r n. delete_files_from-free env.can_remove p r (record s { deletions = n }) h)

-- The paths at which the surroundings from the `n`th on create files are not on disk.
abbrev pub Unused : (ℕ → Env) → ℕ → FileLogger → Type 0
Unused around n s = (m p : ℕ) → n < suc m → (around m).create ≡ some p → is_on_disk p s.disk ≡ false

-- No two surroundings create a file at the same path.
abbrev pub Distinct : (ℕ → Env) → Type 0
Distinct around = (m n p : ℕ) → (around m).create ≡ some p → (around n).create ≡ some p → m ≡ n

pub Unused-later :
    (around : ℕ → Env) (n : ℕ) (s : FileLogger) → Unused around n s → Unused around (suc n) s
Unused-later around n s u m p le = u m p (omega (arith, le))

pub Unused-background :
    (around : ℕ → Env) (env : Env) (n : ℕ) (s : FileLogger)
    → Unused around n s
    → Unused around n (background env s)
Unused-background around env n s u m p le c = background-free env s p (u m p le c)

pub Unused-IsFresh :
    (around : ℕ → Env) (n : ℕ) (s : FileLogger) → Unused around n s → IsFresh (around n) s.disk
Unused-IsFresh around n s u p c = u n p (omega arith) c

pub lt_log_data-Unused :
    (around : ℕ → Env) (n : ℕ) (d : Bytes) (s : FileLogger)
    → Distinct around
    → Unused around n s
    → Unused around (suc n) (lt_log_data (around n) d s)
lt_log_data-Unused around n d s distinct u m p le c =
    lt_log_data-Frees (around n) d s (Unused-IsFresh around n s u) p (u m p (omega (arith, le)) c)
      (λ same. omega (arith, le, distinct m n p c same))
