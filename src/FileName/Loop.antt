-- ===== src/FileName/Loop.antt =====
-- What the pointer loop finds, and the range that is computed from it.
use native.Mathlib.Nat.{zero-add}
use cocoa_lumberjack.Base.{
  ℕ, ◌+◌, ◌≡◌, refl, ◌∙◌, ap, [], ◌∷◌, ◌++◌, Option, none, some, arith, length,
}
use cocoa_lumberjack.FileName.{
  slash, dot, Bytes, Lacks, Scan, round, scan, last_index, extract_file_name, sub_range,
}

pub last_index-append :
    (b : ℕ) (xs ys : Bytes) (i : ℕ) (f : Option ℕ)
    → last_index b (xs ++ ys) i f ≡ last_index b ys (i + length xs) (last_index b xs i f)
unfolding last_index
last_index-append b [] ys i f = ap (λ k. last_index b ys k f) (omega arith)
last_index-append b (x ∷ xs) ys i f =
    last_index-append b xs ys (i + 1) _
    ∙ ap (λ k. last_index b ys k (last_index b (x ∷ xs) i f)) (omega arith)

pub last_index-Lacks :
    (b : ℕ) (xs : Bytes) (i : ℕ) (f : Option ℕ) → Lacks b xs → last_index b xs i f ≡ f
unfolding last_index
last_index-Lacks b [] i f h = refl
last_index-Lacks b (x ∷ xs) i f h = ground (arith, last_index-Lacks b xs (i + 1) f h.1)

-- The last such byte of a text is the one after which the text lacks it.
pub last_index-last :
    (b : ℕ) (xs ys : Bytes) (i : ℕ) (f : Option ℕ)
    → Lacks b ys
    → last_index b (xs ++ b ∷ ys) i f ≡ some (i + length xs)
unfolding last_index
last_index-last b xs ys i f h =
    last_index-append b xs (b ∷ ys) i f
    ∙ ground (arith, last_index-Lacks b ys (i + length xs + 1) (some (i + length xs)) h)

scan-last_index :
    (cs : Bytes) (s : Scan)
    → scan cs s ≡ record {
      last_slash = last_index slash cs s.p s.last_slash;
      last_dot = last_index dot cs s.p s.last_dot;
      p = s.p + length cs;
    }
unfolding scan last_index
scan-last_index [] s = ground arith
scan-last_index (c ∷ cs) s = ground (arith, scan-last_index cs (round c s))

-- The range, from the offsets of the last slash, the last dot and the end.
pub extract_file_name-scan :
    (path : Bytes)
    → extract_file_name (some path)
      ≡ some (
          sub_range (record {
            last_slash = last_index slash path 0 none;
            last_dot = last_index dot path 0 none;
            p = length path;
          }))
unfolding extract_file_name
extract_file_name-scan path =
    let all = scan-last_index path (record { last_slash = none; last_dot = none; p = 0 }) in
    rw all (
      ap
        (λ n. some (
          sub_range (record {
            last_slash = last_index slash path 0 none;
            last_dot = last_index dot path 0 none;
            p = n;
          })))
        (zero-add (length path)))
