-- ===== src/FileManager/Sorting/Order.antt =====
-- The order of the sorted log files, and which files they are.
use cocoa_lumberjack.Base.{
  ℕ, ◌≤◌, ◌≡◌, refl, Bool, List, [], ◌∷◌, Option, none, some, arith, ltb, keep, All, Bool-cases,
  length, inl, inr,
}
use cocoa_lumberjack.FileName.{Bytes}
use cocoa_lumberjack.FileManager.Creation.{is_log_file}
use cocoa_lumberjack.FileManager.Sorting.{
  Info, file_date, is_after, insert, sort, unsorted_log_file_infos, sorted_log_file_infos,
}

module _ (read_date : Bytes → Option ℕ) where
  -- The date of a file, where it has one.
  abbrev pub date_of : Info → ℕ
  date_of f = elim (file_date read_date f) [ none ↦ 0 | some d ↦ d ]

  abbrev pub IsDated : Info → Type 0
  IsDated f = file_date read_date f ≡ some (date_of f)

  -- Each file is at least as new as all behind it.
  abbrev pub IsSorted : List Info → Type 0
  IsSorted [] = Unit {0}
  IsSorted (f ∷ fs) = All (λ g. date_of g ≤ date_of f) fs × IsSorted fs

  is_after-ltb :
      (now : ℕ) (f g : Info)
      → IsDated f
      → IsDated g
      → is_after read_date now f g ≡ ltb (date_of f) (date_of g)
  unfolding is_after
  is_after-ltb now f g hf hg = ground (arith, hf, hg)

  insert-All :
      (P : Info → Type 0) (now : ℕ) (f : Info) (fs : List Info)
      → P f
      → All P fs
      → All P (insert read_date now f fs)
  unfolding insert
  insert-All P now f [] hf h = (hf, tt)
  insert-All P now f (g ∷ gs) hf h = elim (Bool-cases (is_after read_date now f g)) [
    | inl e ↦ rw e (h.0, insert-All P now f gs hf h.1)
    | inr e ↦ rw e (hf, h)
  ]

  All-trans :
      (d e : ℕ) (fs : List Info) → e ≤ d → All (λ g. date_of g ≤ e) fs → All (λ g. date_of g ≤ d) fs
  All-trans d e [] le h = tt
  All-trans d e (g ∷ gs) le h = (omega (arith, h.0, le), All-trans d e gs le h.1)

  insert-IsSorted :
      (now : ℕ) (f : Info) (fs : List Info)
      → IsDated f
      → All IsDated fs
      → IsSorted fs
      → IsSorted (insert read_date now f fs)
  unfolding insert
  insert-IsSorted now f [] hf h s = (tt, tt)
  insert-IsSorted now f (g ∷ gs) hf h s = elim (Bool-cases (is_after read_date now f g)) [
    | inl e ↦
        let le : date_of f ≤ date_of g = ground (arith, is_after-ltb now f g hf h.0, e) in
        rw e (
          insert-All (λ x. date_of x ≤ date_of g) now f gs le s.0,
          insert-IsSorted now f gs hf h.1 s.1,
        )
    | inr e ↦
        let le : date_of g ≤ date_of f = ground (arith, is_after-ltb now f g hf h.0, e) in
        rw e ((le, All-trans (date_of f) (date_of g) gs le s.0), s)
  ]

  pub sort-All :
      (P : Info → Type 0) (now : ℕ) (fs : List Info) → All P fs → All P (sort read_date now fs)
  unfolding sort
  sort-All P now [] h = tt
  sort-All P now (f ∷ fs) h = insert-All P now f (sort read_date now fs) h.0 (sort-All P now fs h.1)

  sort-IsSorted : (now : ℕ) (fs : List Info) → All IsDated fs → IsSorted (sort read_date now fs)
  unfolding sort
  sort-IsSorted now [] h = tt
  sort-IsSorted now (f ∷ fs) h =
      insert-IsSorted now f (sort read_date now fs) h.0 (sort-All IsDated now fs h.1)
        (sort-IsSorted now fs h.1)

  pub All-unsorted :
      (P : Info → Type 0) (app : Bytes) (fs : List Info)
      → All P fs
      → All P (unsorted_log_file_infos app fs)
  unfolding unsorted_log_file_infos
  All-unsorted P app fs h = All-keep (λ f. is_log_file app f.file_name) fs h
    where
      All-keep : (p : Info → Bool) (gs : List Info) → All P gs → All P (keep p gs)
      All-keep p [] hs = tt
      All-keep p (g ∷ gs) hs = ground (arith, hs.0, All-keep p gs hs.1)

  -- How many files pass a test.
  abbrev pub count : (Info → Bool) → List Info → ℕ
  count p fs = length (keep p fs)

  insert-count :
      (p : Info → Bool) (now : ℕ) (f : Info) (fs : List Info)
      → count p (insert read_date now f fs) ≡ count p (f ∷ fs)
  unfolding insert
  insert-count p now f [] = refl
  insert-count p now f (g ∷ gs) = ground (arith, insert-count p now f gs)

  sort-count :
      (p : Info → Bool) (now : ℕ) (fs : List Info) → count p (sort read_date now fs) ≡ count p fs
  unfolding sort
  sort-count p now [] = refl
  sort-count p now (f ∷ fs) =
      ground (arith, insert-count p now f (sort read_date now fs), sort-count p now fs)

  -- The log files of a directory come out newest first, if each has a date in its name or a date of
  -- creation; and they are the files whose names are those of log files, each as often as it is there.
  pub sorted_log_file_infos-IsSorted :
      (app : Bytes) (now : ℕ) (directory : List Info) (p : Info → Bool)
      → All IsDated (unsorted_log_file_infos app directory)
      → IsSorted (sorted_log_file_infos app read_date now directory)
        × (count p (sorted_log_file_infos app read_date now directory)
            ≡ count p (unsorted_log_file_infos app directory))
  unfolding sorted_log_file_infos
  sorted_log_file_infos-IsSorted app now directory p h = (
    sort-IsSorted now (unsorted_log_file_infos app directory) h,
    sort-count p now (unsorted_log_file_infos app directory),
  )
