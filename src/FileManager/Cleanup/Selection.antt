-- ===== src/FileManager/Cleanup/Selection.antt =====
-- Which file the cleanup of `deleteOldLogFilesWithError:` begins with, and what is before it.
use native.Mathlib.Nat.{min-eq_left}
use cocoa_lumberjack.Base.{
  ℕ, zero, suc, ◌+◌, ◌^◌, ◌≤◌, ◌<◌, ◌≡◌, ◌≢◌, ◌⊎◌, inl, inr, refl, false, List, [], ◌∷◌, Option,
  none, some, arith, ltb, min, take, length, Option-cases, Bool-cases, subst, max, length-take, leb,
  leb→le,
}
use cocoa_lumberjack.FileManager.Cleanup.{LogFile, first_over, by_quota, by_count, spare_active}

abbrev pub total_size : List LogFile → ℕ
total_size [] = 0
total_size (f ∷ fs) = f.size + total_size fs

-- At index `j` the sum exceeds the quota for the first time.
abbrev Exceeds : ℕ → ℕ → List LogFile → ℕ → Type 0
Exceeds quota used fs j =
    (used + total_size (take j fs) ≤ quota)
    × (quota < used + total_size (take (suc j) fs))
    × (j < length fs)

first_over-some :
    (quota used i : ℕ) (fs : List LogFile) (k : ℕ)
    → used + total_size fs < 2 ^ 64
    → used ≤ quota
    → first_over quota used i fs ≡ some k
    → (j : ℕ) × (k ≡ i + j) × (Exceeds quota used fs j)
unfolding first_over
first_over-some quota used i [] k h u e = cc
first_over-some quota used i (f ∷ fs) k h u e = elim (Bool-cases (ltb quota (used + f.size))) [
  | inl over ↦ (0, ground arith, ground arith)
  | inr within ↦
      let (j, at, stop) =
        first_over-some quota (used + f.size) (i + 1) fs k (omega arith) (ground arith)
          (ground arith) in
      (suc j, omega arith, omega arith)
]

first_over-none :
    (quota used i : ℕ) (fs : List LogFile)
    → used + total_size fs < 2 ^ 64
    → used ≤ quota
    → first_over quota used i fs ≡ none
    → used + total_size fs ≤ quota
unfolding first_over
first_over-none quota used i [] h u e = omega arith
first_over-none quota used i (f ∷ fs) h u e =
    ground (arith, first_over-none quota (used + f.size) (i + 1) fs)

pub by_quota-some :
    (quota : ℕ) (fs : List LogFile) (k : ℕ)
    → total_size fs < 2 ^ 64
    → by_quota quota fs ≡ some k
    → (quota ≢ 0) × Exceeds quota 0 fs k
unfolding by_quota
by_quota-some zero fs k h e = cc
by_quota-some (suc q) fs k h e =
    let (j, at, stop) = first_over-some (suc q) 0 0 fs k (omega arith) (omega arith) e in
    (omega arith, subst (Exceeds (suc q) 0 fs) (omega arith) stop)

by_quota-none :
    (quota : ℕ) (fs : List LogFile)
    → quota ≢ 0
    → total_size fs < 2 ^ 64
    → by_quota quota fs ≡ none
    → total_size fs ≤ quota
unfolding by_quota
by_quota-none zero fs ne h e = absurd (ne refl)
by_quota-none (suc q) fs ne h e =
    omega (arith, first_over-none (suc q) 0 0 fs (omega arith) (omega arith) e)

total_size-take_mono :
    (i j : ℕ) (fs : List LogFile) → i ≤ j → total_size (take i fs) ≤ total_size (take j fs)
total_size-take_mono zero j fs h = omega arith
total_size-take_mono (suc i) zero fs h = absurd (omega arith)
total_size-take_mono (suc i) (suc j) [] h = omega arith
total_size-take_mono (suc i) (suc j) (f ∷ fs) h =
    omega (arith, total_size-take_mono i j fs (omega arith))

total_size-take : (i : ℕ) (fs : List LogFile) → total_size (take i fs) ≤ total_size fs
total_size-take zero fs = omega arith
total_size-take (suc i) [] = omega arith
total_size-take (suc i) (f ∷ fs) = omega (arith, total_size-take i fs)

-- Why the file at index `k` is the first to go.
abbrev pub IsNeeded : ℕ → ℕ → List LogFile → ℕ → Type 0
IsNeeded quota max_files fs k =
    ((quota ≢ 0) × (quota < total_size (take (suc k) fs))) ⊎ ((max_files ≢ 0) × (k ≡ max_files))

-- What is left keeps to the quota, or is the active file alone.
abbrev pub KeepsQuota : ℕ → List LogFile → Type 0
KeepsQuota quota left =
    (total_size left ≤ quota) ⊎ ((f : LogFile) × (left ≡ f ∷ []) × (f.is_archived ≡ false))

-- What is left when the files from an index on are deleted.
abbrev pub left_by : List LogFile → Option ℕ → List LogFile
left_by fs none = fs
left_by fs (some i) = take i fs

spare_active-length :
    (fs : List LogFile) (i : ℕ) → length (left_by fs (spare_active fs (some i))) ≤ max i 1
unfolding spare_active
spare_active-length [] zero = omega arith
spare_active-length [] (suc i) = omega arith
spare_active-length (f ∷ fs) zero = ground arith
spare_active-length (f ∷ fs) (suc i) = omega (arith, length-take i fs)

pub by_count-length :
    (max_files : ℕ) (r : Option ℕ) (fs : List LogFile)
    → max_files ≢ 0
    → length (left_by fs (spare_active fs (by_count max_files r))) ≤ max_files
unfolding by_count spare_active
by_count-length zero r fs h = absurd (h refl)
by_count-length (suc m) none fs h = ground (arith, spare_active-length fs (suc m))
by_count-length (suc m) (some i) fs h = ground (arith, spare_active-length fs (min i (suc m)))

pub total_size-left : (fs : List LogFile) (r : Option ℕ) → total_size (left_by fs r) ≤ total_size fs
total_size-left fs none = omega arith
total_size-left fs (some i) = total_size-take i fs

spare_active-KeepsQuota :
    (quota : ℕ) (fs : List LogFile) (i : ℕ)
    → total_size (take i fs) ≤ quota
    → KeepsQuota quota (left_by fs (spare_active fs (some i)))
unfolding spare_active
spare_active-KeepsQuota quota [] zero h = inl h
spare_active-KeepsQuota quota [] (suc i) h = inl h
spare_active-KeepsQuota quota (f ∷ fs) (suc i) h = inl h
spare_active-KeepsQuota quota (f ∷ fs) zero h = elim (Bool-cases f.is_archived) [
  | inl old ↦ inl (ground arith)
  | inr active ↦ inr (f, ground arith, active)
]

pub by_count-KeepsQuota :
    (quota max_files : ℕ) (r : Option ℕ) (fs : List LogFile)
    → total_size (left_by fs r) ≤ quota
    → KeepsQuota quota (left_by fs (spare_active fs (by_count max_files r)))
unfolding by_count spare_active
by_count-KeepsQuota quota zero none fs h = inl h
by_count-KeepsQuota quota zero (some i) fs h = spare_active-KeepsQuota quota fs i h
by_count-KeepsQuota quota (suc m) none fs h =
    spare_active-KeepsQuota quota fs (suc m) (omega (arith, total_size-take (suc m) fs))
by_count-KeepsQuota quota (suc m) (some i) fs h =
    spare_active-KeepsQuota quota fs (min i (suc m))
      (omega (arith, total_size-take_mono (min i (suc m)) i fs))

-- Either everything is left, or the first file that goes had to go.
abbrev pub Minimal : ℕ → ℕ → List LogFile → List LogFile → Type 0
Minimal quota max_files fs left =
    (left ≡ fs) ⊎ ((k : ℕ) × (left ≡ take k fs) × IsNeeded quota max_files fs k)

active-IsNeeded :
    (quota max_files : ℕ) (f : LogFile) (fs : List LogFile)
    → IsNeeded quota max_files (f ∷ fs) 0
    → IsNeeded quota max_files (f ∷ fs) 1
active-IsNeeded quota m f fs (inl (on, over)) = inl (on, omega arith)
active-IsNeeded quota m f fs (inr (on, e)) = absurd (omega arith)

min-IsNeeded :
    (quota max_files i : ℕ) (fs : List LogFile)
    → quota ≢ 0
    → quota < total_size (take (suc i) fs)
    → max_files ≢ 0
    → IsNeeded quota max_files fs (min i max_files)
min-IsNeeded quota m i fs on over limited = elim (Bool-cases (leb i m)) [
  | inl first ↦ rw (min-eq_left (leb→le i m first)) (inl (on, over))
  | inr last ↦ inr (limited, ground arith)
]

spare_active-Minimal :
    (quota max_files : ℕ) (fs : List LogFile) (i : ℕ)
    → IsNeeded quota max_files fs i
    → Minimal quota max_files fs (left_by fs (spare_active fs (some i)))
unfolding spare_active
spare_active-Minimal quota m [] zero h = inl refl
spare_active-Minimal quota m [] (suc i) h = inl refl
spare_active-Minimal quota m (f ∷ fs) (suc i) h = inr (suc i, refl, h)
spare_active-Minimal quota m (f ∷ fs) zero h = elim (Bool-cases f.is_archived) [
  | inl old ↦ inr (0, ground arith, h)
  | inr active ↦ inr (1, ground arith, active-IsNeeded quota m f fs h)
]

pub by_count-Minimal :
    (quota max_files : ℕ) (r : Option ℕ) (fs : List LogFile)
    → ((k : ℕ) → r ≡ some k → (quota ≢ 0) × (quota < total_size (take (suc k) fs)))
    → Minimal quota max_files fs (left_by fs (spare_active fs (by_count max_files r)))
unfolding by_count
by_count-Minimal quota zero none fs h = unfold spare_active in inl refl
by_count-Minimal quota zero (some i) fs h = spare_active-Minimal quota zero fs i (inl (h i refl))
by_count-Minimal quota (suc m) none fs h =
    spare_active-Minimal quota (suc m) fs (suc m) (inr (omega arith, refl))
by_count-Minimal quota (suc m) (some i) fs h =
    let (on, over) = h i refl in
    spare_active-Minimal quota (suc m) fs (min i (suc m))
      (min-IsNeeded quota (suc m) i fs on over (omega arith))

pub by_quota-left :
    (quota : ℕ) (fs : List LogFile)
    → quota ≢ 0
    → total_size fs < 2 ^ 64
    → total_size (left_by fs (by_quota quota fs)) ≤ quota
by_quota-left quota fs on fits = elim (Option-cases (by_quota quota fs)) [
  | inl e ↦ rw e (by_quota-none quota fs on fits e)
  | inr (k, e) ↦ rw e (omega (arith, (by_quota-some quota fs k fits e).1))
]
