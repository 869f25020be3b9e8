-- ===== src/FileName/Parts.antt =====
-- The parts of a path, and the Foundation methods on them.
use native.Mathlib.Nat.{zero-add}
use cocoa_lumberjack.Base.{
  ℕ, ◌+◌, ◌≡◌, ◌≢◌, ◌⊎◌, inl, inr, refl, sym, ◌∙◌, ap, [], ◌∷◌, ◌++◌, append_assoc, append-nil,
  none, some, arith, length, length-append, take, drop, ◌==◌, if◌then◌else◌,
}
use cocoa_lumberjack.FileName.{
  slash, Bytes, Lacks, last_index, slice, last_part, strip_slashes, component_of,
  last_path_component,
}
use cocoa_lumberjack.FileName.Loop.{last_index-Lacks, last_index-last}

-- The directory part of a path: none, or a text that ends in a slash.
abbrev pub IsFront : Bytes → Type 0
IsFront front = (front ≡ []) ⊎ ((dir : Bytes) × (front ≡ dir ++ slash ∷ []))

drop-append : (xs ys : Bytes) → drop (length xs) (xs ++ ys) ≡ ys
drop-append [] ys = refl
drop-append (x ∷ xs) ys = drop-append xs ys

pub take-append : (xs ys : Bytes) → take (length xs) (xs ++ ys) ≡ xs
take-append [] ys = refl
take-append (x ∷ xs) ys = ap (λ t. x ∷ t) (take-append xs ys)

pub slice-append :
    (front base rest : Bytes) → slice (length front, length base) (front ++ (base ++ rest)) ≡ base
slice-append front base rest = rw (drop-append front (base ++ rest)) (take-append base rest)

-- The start of the range is behind the directory part.
pub slash-front :
    (front name : Bytes)
    → IsFront front
    → Lacks slash name
    → (last_index slash (front ++ name) 0 none ≡ none) × (length front ≡ 0)
      ⊎ ((i : ℕ) × (last_index slash (front ++ name) 0 none ≡ some i) × (length front ≡ i + 1))
slash-front front name (inl e) h = inl (rw e (last_index-Lacks slash name 0 none h), rw e refl)
slash-front front name (inr (dir, e)) h = inr (
  length dir,
  rw (e, append_assoc) (last_index-last slash dir name 0 none h ∙ ap some (zero-add (length dir))),
  rw e (omega (arith, length-append dir (slash ∷ []))),
)

strip-Lacks : (c : ℕ) (cs : Bytes) → Lacks slash (c ∷ cs) → strip_slashes (c ∷ cs) ≡ c ∷ cs
unfolding strip_slashes
strip-Lacks c [] h = ground arith
strip-Lacks c (d ∷ ds) h = ground (arith, strip-Lacks d ds h.1)

strip-append :
    (xs : Bytes) (c : ℕ) (cs : Bytes)
    → Lacks slash (c ∷ cs)
    → strip_slashes (xs ++ c ∷ cs) ≡ xs ++ c ∷ cs
unfolding strip_slashes
strip-append [] c cs h = strip-Lacks c cs h
strip-append (x ∷ []) c cs h = ground (arith, strip-Lacks c cs h)
strip-append (x ∷ y ∷ ys) c cs h = ground (arith, strip-append (y ∷ ys) c cs h)

last_part-Lacks : (cur name : Bytes) → Lacks slash name → last_part cur name ≡ cur ++ name
unfolding last_part
last_part-Lacks cur [] h = sym (append-nil cur)
last_part-Lacks cur (c ∷ cs) h =
    ground (arith, last_part-Lacks (cur ++ c ∷ []) cs h.1, append_assoc cur (c ∷ []) cs)

last_part-slash :
    (cur dir name : Bytes) → Lacks slash name → last_part cur (dir ++ slash ∷ name) ≡ name
unfolding last_part
last_part-slash cur [] name h = ground (arith, last_part-Lacks [] name h)
last_part-slash cur (c ∷ dir) name h =
    last_part-slash (if c == slash then [] else cur ++ c ∷ []) dir name h

component_of-cons :
    (xs : Bytes) (c : ℕ) (cs path : Bytes)
    → component_of (xs ++ c ∷ cs) path ≡ last_part [] (xs ++ c ∷ cs)
unfolding component_of
component_of-cons [] c cs path = refl
component_of-cons (x ∷ xs) c cs path = refl

last_part-front :
    (front name : Bytes) → IsFront front → Lacks slash name → last_part [] (front ++ name) ≡ name
last_part-front front name (inl e) h = rw e (last_part-Lacks [] name h)
last_part-front front name (inr (dir, e)) h = rw (e, append_assoc) (last_part-slash [] dir name h)

pub last_path_component-front :
    (front name : Bytes)
    → IsFront front
    → Lacks slash name
    → name ≢ []
    → last_path_component (front ++ name) ≡ name
unfolding last_path_component
last_path_component-front front [] f h ne = absurd (ne refl)
last_path_component-front front (c ∷ cs) f h ne =
    rw (strip-append front c cs h)
      (component_of-cons front c cs (front ++ c ∷ cs) ∙ last_part-front front (c ∷ cs) f h)
