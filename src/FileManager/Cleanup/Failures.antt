-- ===== src/FileManager/Cleanup/Failures.antt =====
-- The cleanup of `deleteOldLogFilesWithError:` when deletions fail, and the active file.
use cocoa_lumberjack.Base.{
  ℕ, zero, suc, ◌≡◌, refl, sym, subst, ◌∙◌, ap, inl, inr, ◌⊎◌, Bool-cases, Bool, true, false, not,
  List, [], ◌∷◌, ◌++◌, Option, none, some, arith, take, drop, length, keep, All, append-nil,
}
use cocoa_lumberjack.FileManager.Cleanup.{
  LogFile, Outcome, by_quota, by_count, spare_active, first_to_delete, delete_from, delete_at,
  delete_old_log_files,
}

delete_from-tolerant :
    (can_remove : LogFile → Bool) (fs : List LogFile)
    → delete_from false can_remove fs
      ≡ record { left = keep (λ f. not (can_remove f)) fs; success = true }
unfolding delete_from
delete_from-tolerant can_remove [] = refl
delete_from-tolerant can_remove (f ∷ fs) = ground (arith, delete_from-tolerant can_remove fs)

-- How a run that ends at its first failure goes through the files that are to go: all of them are
-- removed, or exactly those before the first that cannot be.
abbrev pub StopsAtFirst : (LogFile → Bool) → List LogFile → List LogFile → Outcome → Type 0
StopsAtFirst can_remove kept going out =
    (All (λ f. can_remove f ≡ true) going × (out.left ≡ kept) × (out.success ≡ true))
    ⊎ ((gone : List LogFile) × (f : LogFile) × (rest : List LogFile) × (going ≡ gone ++ f ∷ rest)
        × All (λ g. can_remove g ≡ true) gone
        × (can_remove f ≡ false)
        × (out.left ≡ kept ++ f ∷ rest)
        × (out.success ≡ false))

delete_from-gone :
    (can_remove : LogFile → Bool) (f : LogFile) (fs : List LogFile)
    → can_remove f ≡ true
    → delete_from true can_remove (f ∷ fs) ≡ delete_from true can_remove fs
unfolding delete_from
delete_from-gone can_remove f fs gone = ground (arith, gone)

delete_from-stuck :
    (can_remove : LogFile → Bool) (f : LogFile) (fs : List LogFile)
    → can_remove f ≡ false
    → delete_from true can_remove (f ∷ fs) ≡ record { left = f ∷ fs; success = false }
unfolding delete_from
delete_from-stuck can_remove f fs stuck = ground (arith, stuck)

-- A file that can be removed goes before the others.
StopsAtFirst-later :
    (can_remove : LogFile → Bool) (kept : List LogFile) (f : LogFile) (fs : List LogFile)
    (out : Outcome)
    → can_remove f ≡ true
    → StopsAtFirst can_remove kept fs out
    → StopsAtFirst can_remove kept (f ∷ fs) out
StopsAtFirst-later can_remove kept f fs out gone (inl (all, none_left, ok)) =
    inl ((gone, all), none_left, ok)
StopsAtFirst-later can_remove kept f fs out gone
      (inr (before, g, rest, e, removed, stuck, left, bad)) =
    inr (f ∷ before, g, rest, ap (λ x. f ∷ x) e, (gone, removed), stuck, left, bad)

delete_from-strict :
    (can_remove : LogFile → Bool) (fs : List LogFile)
    → StopsAtFirst can_remove [] fs (delete_from true can_remove fs)
delete_from-strict can_remove [] = unfold delete_from in inl (tt, refl, refl)
delete_from-strict can_remove (f ∷ fs) = elim (Bool-cases (can_remove f)) [
  | inl gone ↦
      subst (StopsAtFirst can_remove [] (f ∷ fs)) (sym (delete_from-gone can_remove f fs gone)) (
        StopsAtFirst-later can_remove [] f fs (delete_from true can_remove fs) gone
          (delete_from-strict can_remove fs))
  | inr stuck ↦
      subst (StopsAtFirst can_remove [] (f ∷ fs)) (sym (delete_from-stuck can_remove f fs stuck))
        (inr ([], f, fs, refl, tt, stuck, refl, refl))
]

drop-take : {A : Type 0} (k : ℕ) (xs : List A) → drop (length (take k xs)) xs ≡ drop k xs
drop-take zero xs = refl
drop-take (suc k) [] = refl
drop-take (suc k) (x ∷ xs) = drop-take k xs

keep-none : (fs : List LogFile) → keep (λ f. not true) fs ≡ []
keep-none [] = refl
keep-none (f ∷ fs) = keep-none fs

drop-length : {A : Type 0} (xs : List A) → drop (length xs) xs ≡ []
drop-length [] = refl
drop-length (x ∷ xs) = drop-length xs

delete_at-tolerant :
    (can_remove : LogFile → Bool) (fs : List LogFile) (r : Option ℕ)
    → let ideal = (delete_at false (λ _. true) fs r).left in
      delete_at false can_remove fs r ≡ record {
        left = ideal ++ keep (λ f. not (can_remove f)) (drop (length ideal) fs);
        success = true;
      }
unfolding delete_at
delete_at-tolerant can_remove fs none = ground (arith, drop-length fs, append-nil fs)
delete_at-tolerant can_remove fs (some i) =
    let none_left = keep-none (drop i fs) in
    ground (
      arith,
      delete_from-tolerant can_remove (drop i fs),
      delete_from-tolerant (λ _. true) (drop i fs),
      none_left,
      append-nil (take i fs),
      drop-take i fs,
    )

-- Without a place for the error the cleanup goes on after a failure: it leaves what it leaves when
-- every deletion works, followed by exactly the other files that cannot be removed, in their order,
-- and reports success.
pub delete_old_log_files-tolerant :
    (can_remove : LogFile → Bool) (quota max_files : ℕ) (fs : List LogFile)
    → let ideal = (delete_old_log_files false (λ _. true) quota max_files fs).left in
      delete_old_log_files false can_remove quota max_files fs ≡ record {
        left = ideal ++ keep (λ f. not (can_remove f)) (drop (length ideal) fs);
        success = true;
      }
unfolding delete_old_log_files
delete_old_log_files-tolerant can_remove quota max_files fs =
    delete_at-tolerant can_remove fs (first_to_delete quota max_files fs)

pub first_to_delete-active :
    (quota max_files : ℕ) (f : LogFile) (fs : List LogFile)
    → f.is_archived ≡ false
    → (first_to_delete quota max_files (f ∷ fs) ≡ none)
      ⊎ ((i : ℕ) × (first_to_delete quota max_files (f ∷ fs) ≡ some (suc i)))
unfolding first_to_delete spare_active
first_to_delete-active quota max_files f fs active =
    by_cases (by_count max_files (by_quota quota (f ∷ fs)))
  where
    by_cases :
        (r : Option ℕ)
        → (spare_active (f ∷ fs) r ≡ none) ⊎ ((i : ℕ) × (spare_active (f ∷ fs) r ≡ some (suc i)))
    by_cases none = inl refl
    by_cases (some zero) = inr (0, rw active refl)
    by_cases (some (suc i)) = inr (i, refl)

-- Whatever the limits are and whichever deletions fail, a newest file that is not archived is left,
-- and stays the first.
pub delete_old_log_files-active :
    (wants_error : Bool) (can_remove : LogFile → Bool) (quota max_files : ℕ) (f : LogFile)
    (fs : List LogFile)
    → f.is_archived ≡ false
    → (rest : List LogFile) × ((delete_old_log_files wants_error can_remove quota max_files
          (f ∷ fs)).left
        ≡ f ∷ rest)
unfolding delete_old_log_files delete_at
delete_old_log_files-active wants_error can_remove quota max_files f fs active =
    elim (first_to_delete-active quota max_files f fs active) [
      | inl e ↦ (fs, rw e refl)
      | inr (i, e) ↦ (take i fs ++ (delete_from wants_error can_remove (drop i fs)).left, rw e refl)
    ]

all_removed : (fs : List LogFile) → (delete_from false (λ _. true) fs).left ≡ []
all_removed fs = ap (λ o. o.left) (delete_from-tolerant (λ _. true) fs) ∙ keep-none fs

delete_at-strict :
    (can_remove : LogFile → Bool) (fs : List LogFile) (r : Option ℕ)
    → let ideal = (delete_at false (λ _. true) fs r).left in
      StopsAtFirst can_remove ideal (drop (length ideal) fs) (delete_at true can_remove fs r)
unfolding delete_at
delete_at-strict can_remove fs none = inl (rw (drop-length fs) tt, refl, refl)
delete_at-strict can_remove fs (some i) =
    let same : take i fs ++ (delete_from false (λ _. true) (drop i fs)).left ≡ take i fs =
      ap (λ x. take i fs ++ x) (all_removed (drop i fs)) ∙ append-nil (take i fs) in
    rw (same, drop-take i fs)
      (elim (delete_from-strict can_remove (drop i fs)) [
        | inl (all, none_left, ok) ↦
            inl (all, ap (λ x. take i fs ++ x) none_left ∙ append-nil (take i fs), ok)
        | inr (gone, f, rest, e, removed, stuck, left, bad) ↦
            inr (gone, f, rest, e, removed, stuck, ap (λ x. take i fs ++ x) left, bad)
      ])

-- With a place for the error the cleanup ends at the first failure. The files that are to go are those
-- that it does not leave when every deletion works. Either all of them can be removed, the cleanup
-- leaves just the others and reports success; or it removes exactly the files before the first one that
-- cannot be removed, leaves that and all after it, and reports failure.
pub delete_old_log_files-strict :
    (can_remove : LogFile → Bool) (quota max_files : ℕ) (fs : List LogFile)
    → let ideal = (delete_old_log_files false (λ _. true) quota max_files fs).left in
      StopsAtFirst can_remove ideal
        (drop (length ideal) fs)
        (delete_old_log_files true can_remove quota max_files fs)
unfolding delete_old_log_files
delete_old_log_files-strict can_remove quota max_files fs =
    delete_at-strict can_remove fs (first_to_delete quota max_files fs)
