-- ===== src/FileName/Agree.antt =====
-- When the two computations of a file's name agree.
use native.Mathlib.Nat.{zero-add}
use cocoa_lumberjack.Base.{
  ℕ, ◌+◌, ◌-◌, ◌^◌, ◌<◌, ◌≡◌, ◌≢◌, ◌⊎◌, inl, inr, sym, ◌∙◌, ap, [], ◌∷◌, ◌++◌, append_assoc, none,
  some, arith, length, length-append, take, All-append, All-append_right,
}
use cocoa_lumberjack.FileName.{
  slash, dot, Bytes, Lacks, last_index, extract_file_name, sub_range, pointer_sub, slice,
  strip_extension, message_file_name,
}
use cocoa_lumberjack.FileName.Parts.{
  IsFront, take-append, slice-append, slash-front, last_path_component-front,
}
use cocoa_lumberjack.FileName.Loop.{last_index-Lacks, last_index-last, extract_file_name-scan}

-- The path is short enough to be in memory.
abbrev pub InMemory : Bytes → Type 0
InMemory path = length path < 2 ^ 64

sub_range-dot :
    (front path : Bytes) (d : ℕ)
    → (last_index slash path 0 none ≡ none) × (length front ≡ 0)
      ⊎ ((i : ℕ) × (last_index slash path 0 none ≡ some i) × (length front ≡ i + 1))
    → last_index dot path 0 none ≡ some d
    → extract_file_name (some path) ≡ some (length front, pointer_sub d (length front))
unfolding sub_range
sub_range-dot front path d (inl (e, l)) found = rw extract_file_name-scan (ground arith)
sub_range-dot front path d (inr (i, e, l)) found = rw extract_file_name-scan (ground arith)

sub_range-plain :
    (front path : Bytes)
    → (last_index slash path 0 none ≡ none) × (length front ≡ 0)
      ⊎ ((i : ℕ) × (last_index slash path 0 none ≡ some i) × (length front ≡ i + 1))
    → last_index dot path 0 none ≡ none
    → extract_file_name (some path) ≡ some (length front, pointer_sub (length path) (length front))
unfolding sub_range
sub_range-plain front path (inl (e, l)) found = rw extract_file_name-scan (ground arith)
sub_range-plain front path (inr (i, e, l)) found = rw extract_file_name-scan (ground arith)

pointer_sub-add : (m n : ℕ) → m + n < 2 ^ 64 → pointer_sub (m + n) m ≡ n
pointer_sub-add m n h = omega arith

dot-offset :
    (front base ext : Bytes)
    → Lacks dot ext
    → last_index dot (front ++ (base ++ dot ∷ ext)) 0 none ≡ some (length front + length base)
dot-offset front base ext de = rw (← append_assoc front base (dot ∷ ext)) (
    last_index-last dot (front ++ base) ext 0 none de
    ∙ ap some (omega (arith, length-append front base)))

name-Lacks :
    (base ext : Bytes) → Lacks slash base → Lacks slash ext → Lacks slash (base ++ dot ∷ ext)
name-Lacks base ext hb he = All-append (λ c. c ≢ slash) base (dot ∷ ext) hb (omega arith, he)

strip_extension-found :
    (name : Bytes) (i : ℕ)
    → last_index dot name 0 none ≡ some i
    → strip_extension name ≡ take i name
unfolding strip_extension
strip_extension-found name i e = ground arith

pub strip_extension-dot :
    (base ext : Bytes) → Lacks dot ext → strip_extension (base ++ dot ∷ ext) ≡ base
strip_extension-dot base ext de =
    strip_extension-found (base ++ dot ∷ ext) (length base)
      (last_index-last dot base ext 0 none de ∙ ap some (zero-add (length base)))
    ∙ take-append base (dot ∷ ext)

strip_extension-Lacks : (name : Bytes) → Lacks dot name → strip_extension name ≡ name
unfolding strip_extension
strip_extension-Lacks name h = ground (arith, last_index-Lacks dot name 0 none h)

concat_ne_nil : (base ext : Bytes) → base ++ dot ∷ ext ≢ []
concat_ne_nil [] ext e = cc
concat_ne_nil (c ∷ cs) ext e = cc

pointer_sub-below : (d m : ℕ) → d + m + 2 < 2 ^ 64 → pointer_sub d (d + m + 2) ≡ 2 ^ 64 - (m + 2)
pointer_sub-below d m h = omega arith

-- A path of a directory part (possibly empty), a name, a dot and an extension without dots: the loop
-- finds exactly the range of the name, and a message of that file has the same file name.
pub extract_file_name-extension :
    (front base ext : Bytes)
    → IsFront front
    → Lacks slash base
    → Lacks slash ext
    → Lacks dot ext
    → InMemory (front ++ (base ++ dot ∷ ext))
    → let path = front ++ (base ++ dot ∷ ext) in
      (extract_file_name (some path) ≡ some (length front, length base))
      × (slice (length front, length base) path ≡ base)
      × (message_file_name path ≡ base)
unfolding message_file_name
extract_file_name-extension front base ext f hb he de fits =
    let name = base ++ dot ∷ ext in
    let clean = name-Lacks base ext hb he in
    let short : length front + length base < 2 ^ 64 =
      omega (arith, length-append front name, length-append base (dot ∷ ext)) in
    (
      sub_range-dot front (front ++ name) (length front + length base)
            (slash-front front name f clean) (dot-offset front base ext de)
          ∙ ap (λ n. some (length front, n)) (pointer_sub-add (length front) (length base) short),
      slice-append front base (dot ∷ ext),
      rw (last_path_component-front front name f clean (concat_ne_nil base ext))
          (strip_extension-dot base ext de),
    )

-- A path without any dot: the range is that of the last component, and again the message agrees.
pub extract_file_name-plain :
    (front base : Bytes)
    → IsFront front
    → Lacks slash base
    → Lacks dot (front ++ base)
    → base ≢ []
    → InMemory (front ++ base)
    → (extract_file_name (some (front ++ base)) ≡ some (length front, length base))
      × (message_file_name (front ++ base) ≡ base)
unfolding message_file_name
extract_file_name-plain front base f hb hd ne fits = (
  sub_range-plain front (front ++ base) (slash-front front base f hb)
        (last_index-Lacks dot _ 0 none hd)
      ∙ ap (λ n. some (length front, n))
          (ap (λ n. pointer_sub n (length front)) (length-append front base)
            ∙ pointer_sub-add (length front) (length base)
                (omega (arith, length-append front base))),
  rw (last_path_component-front front base f hb ne)
      (strip_extension-Lacks base (All-append_right (λ c. c ≢ dot) front base hd)),
)

-- A file without an extension in a directory whose path has a dot: the last dot lies before the last
-- slash, the difference of the pointers is negative and wraps, and the range reaches far beyond the
-- path, while the message of that file has the right name.
pub extract_file_name-overrun :
    (dir mid base : Bytes)
    → Lacks dot mid
    → Lacks dot base
    → Lacks slash base
    → base ≢ []
    → let path = (dir ++ dot ∷ (mid ++ slash ∷ [])) ++ base in
      InMemory path
      → (extract_file_name (some path)
          ≡ some (length dir + length mid + 2, 2 ^ 64 - (length mid + 2)))
        × (length path < length dir + length mid + 2 + (2 ^ 64 - (length mid + 2)))
        × (message_file_name path ≡ base)
unfolding message_file_name
extract_file_name-overrun dir mid base hm hd hs ne fits =
    let front = dir ++ dot ∷ (mid ++ slash ∷ []) in
    let f : IsFront front =
      inr (dir ++ dot ∷ mid, sym (append_assoc dir (dot ∷ mid) (slash ∷ []))) in
    let start : length front ≡ length dir + length mid + 2 =
      omega
        (arith, length-append dir (dot ∷ (mid ++ slash ∷ [])), length-append mid (slash ∷ [])) in
    let no_dot : Lacks dot ((mid ++ slash ∷ []) ++ base) =
      All-append (λ c. c ≢ dot) (mid ++ slash ∷ []) base
        (All-append (λ c. c ≢ dot) mid (slash ∷ []) hm (omega arith)) hd in
    let at_dot : last_index dot (front ++ base) 0 none ≡ some (length dir) =
      rw (append_assoc dir (dot ∷ (mid ++ slash ∷ [])) base) (
        last_index-last dot dir ((mid ++ slash ∷ []) ++ base) 0 none no_dot
        ∙ ap some (zero-add (length dir))) in
    let all : length (front ++ base) ≡ length front + length base = length-append front base in
    (
      sub_range-dot front (front ++ base) (length dir) (slash-front front base f hs) at_dot
          ∙ rw start (
              ap (λ n. some (length dir + length mid + 2, n))
                (pointer_sub-below (length dir) (length mid) (omega arith))),
      omega arith,
      rw (last_path_component-front front base f hs ne) (strip_extension-Lacks base hd),
    )
