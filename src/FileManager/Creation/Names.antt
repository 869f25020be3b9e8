-- ===== src/FileManager/Creation/Names.antt =====
-- The names that `createNewLogFileWithError:` tries.
use native.Mathlib.Nat.{zero-add}
use cocoa_lumberjack.Base.{
  ℕ, zero, suc, ◌+◌, ◌-◌, ◌*◌, ◌/◌, ◌%◌, ◌≤◌, ◌<◌, ◌≡◌, ◌≢◌, refl, sym, ap, ◌∙◌, true, [], ◌∷◌,
  ◌++◌, append_assoc, none, some, arith, ltb, ==_refl, if◌then◌else◌, length, length-append, drop,
  All, append-nil, bytes_eq_refl,
}
use cocoa_lumberjack.FileName.{Bytes, dot, strip_extension}
use cocoa_lumberjack.FileName.Loop.{last_index-last}
use cocoa_lumberjack.FileName.Agree.{strip_extension-dot}
use cocoa_lumberjack.FileManager.Creation.{
  space, log_extension, new_log_file_name, has_prefix, has_suffix, is_log_file, digits, decimal,
  path_extension, actual_file_name,
}

has_prefix-append : (p s : Bytes) → has_prefix p (p ++ s) ≡ true
unfolding has_prefix
has_prefix-append [] s = refl
has_prefix-append (c ∷ cs) s = ground (arith, ==_refl c, has_prefix-append cs s)

pub drop-append : (xs ys : Bytes) → drop (length xs) (xs ++ ys) ≡ ys
drop-append [] ys = refl
drop-append (x ∷ xs) ys = drop-append xs ys

drop_front : (s t : Bytes) → drop (length (s ++ t) - length t) (s ++ t) ≡ t
drop_front s t = ap (λ n. drop n (s ++ t)) (omega (arith, length-append s t)) ∙ drop-append s t

has_suffix-append : (s t : Bytes) → has_suffix t (s ++ t) ≡ true
unfolding has_suffix
has_suffix-append s t = rw drop_front (ground (arith, bytes_eq_refl t, length-append s t))

path_extension-dot :
    (base ext : Bytes) → All (λ c. c ≢ dot) ext → path_extension (base ++ dot ∷ ext) ≡ ext
unfolding path_extension
path_extension-dot base ext h =
    let found = last_index-last dot base ext 0 none h ∙ ap some (zero-add (length base)) in
    rw (found, path_extension)
      (ap (λ n. drop n (base ++ dot ∷ ext)) (omega (arith, length-append base (dot ∷ [])))
        ∙ ap (drop (length (base ++ dot ∷ []))) (sym (append_assoc base (dot ∷ []) ext))
        ∙ drop-append (base ++ dot ∷ []) ext)

-- What an attempt adds to the name before the extension.
suffix_of : ℕ → Bytes
suffix_of attempt = if ltb 1 attempt then space ∷ decimal attempt else []

log_extension-plain : All (λ c. c ≢ dot) log_extension
log_extension-plain = omega arith

actual_file_name-parts :
    (app date : Bytes) (attempt : ℕ)
    → actual_file_name app date attempt
      ≡ ((app ++ space ∷ date) ++ suffix_of attempt) ++ dot ∷ log_extension
unfolding actual_file_name new_log_file_name suffix_of
actual_file_name-parts app date attempt = ground (
  arith,
  path_extension-dot (app ++ space ∷ date) log_extension log_extension-plain,
  strip_extension-dot (app ++ space ∷ date) log_extension log_extension-plain,
  append-nil (app ++ space ∷ date),
)

-- The name of every attempt passes `isLogFile:`, whatever the application's name and the date are; so
-- the manager finds again each file that it creates.
pub actual_file_name-is_log_file :
    (app date : Bytes) (attempt : ℕ) → is_log_file app (actual_file_name app date attempt) ≡ true
unfolding is_log_file
actual_file_name-is_log_file app date attempt =
    let regroup =
      append_assoc app (space ∷ []) ((date ++ suffix_of attempt) ++ dot ∷ log_extension) in
    let parts = actual_file_name-parts app date attempt in
    ground (
      arith,
      parts,
      regroup,
      append_assoc app (space ∷ date) (suffix_of attempt),
      append_assoc app (space ∷ (date ++ suffix_of attempt)) (dot ∷ log_extension),
      has_prefix-append (app ++ space ∷ []) ((date ++ suffix_of attempt) ++ dot ∷ log_extension),
      has_suffix-append ((app ++ space ∷ date) ++ suffix_of attempt) (dot ∷ log_extension),
    )

-- The number that digits spell behind `n`.
value : ℕ → Bytes → ℕ
value n [] = n
value n (c ∷ cs) = value (n * 10 + (c - b'0')) cs

value-digits : (fuel n : ℕ) (out : Bytes) → n < fuel → value 0 (digits fuel n out) ≡ value n out
unfolding value digits
value-digits zero n out h = absurd (omega arith)
value-digits (suc fuel) n out h = ground (arith, value-digits fuel (n / 10) ((b'0' + n % 10) ∷ out))

value-decimal : (n : ℕ) → value 0 (decimal n) ≡ n
unfolding decimal value
value-decimal n = value-digits (suc n) n [] (omega arith)

decimal-injective : (m n : ℕ) → decimal m ≡ decimal n → m ≡ n
decimal-injective m n e = sym (value-decimal m) ∙ ap (value 0) e ∙ value-decimal n

tail_of : Bytes → Bytes
tail_of [] = []
tail_of (c ∷ cs) = cs

suffix_of-injective : (m n : ℕ) → 1 ≤ m → 1 ≤ n → suffix_of m ≡ suffix_of n → m ≡ n
unfolding suffix_of
suffix_of-injective m n hm hn e = ground (arith, decimal-injective m n)

actual_file_name-injective :
    (app date : Bytes) (m n : ℕ)
    → 1 ≤ m
    → 1 ≤ n
    → actual_file_name app date m ≡ actual_file_name app date n
    → m ≡ n
actual_file_name-injective app date m n hm hn e = suffix_of-injective m n hm hn (
    sym (drop-append base (suffix_of m))
    ∙ ap (drop (length base)) stems
    ∙ drop-append base (suffix_of n))
  where
    base : Bytes
    base = app ++ space ∷ date

    stem : (k : ℕ) → strip_extension (actual_file_name app date k) ≡ base ++ suffix_of k
    stem k =
        ap strip_extension (actual_file_name-parts app date k)
        ∙ strip_extension-dot (base ++ suffix_of k) log_extension log_extension-plain

    stems : base ++ suffix_of m ≡ base ++ suffix_of n
    stems = sym (stem m) ∙ ap strip_extension e ∙ stem n

-- Different attempts try different names.
pub actual_file_name-distinct :
    (app date : Bytes) (m n : ℕ)
    → 1 ≤ m
    → 1 ≤ n
    → m ≢ n
    → actual_file_name app date m ≢ actual_file_name app date n
actual_file_name-distinct app date m n hm hn ne =
    λ e. ne (actual_file_name-injective app date m n hm hn e)
