-- ===== src/FileName.antt =====
-- The name of a source file without its extension, computed twice by the program: by the pointer loop
-- of DDExtractFileNameWithoutExtension (Sources/CocoaLumberjack/DDLog.m), and by Foundation's string
-- methods in the initialiser of DDLogMessage. A path is its bytes; both look only for `/` and `.`.
pub mod Loop
pub mod Parts
pub mod Agree
mod Examples
use cocoa_lumberjack.Base.{
  ℕ, ◌+◌, ◌-◌, ◌^◌, ◌%◌, List, [], ◌∷◌, ◌++◌, Option, none, some, ◌==◌, if◌then◌else◌, length, take,
  drop, All, ◌≢◌,
}

abbrev pub slash : ℕ
slash = b'/'

abbrev pub dot : ℕ
dot = b'.'

abbrev pub Bytes : Type 0
Bytes = List ℕ

abbrev pub Lacks : ℕ → Bytes → Type 0
Lacks b = All (λ c. c ≢ b)

-- The loop variables: the pointers `lastSlash` and `lastDot`, and `p`, as offsets.
pub record Scan : Type 0 where
  pub last_slash : Option ℕ
  pub last_dot : Option ℕ
  pub p : ℕ

-- One round of the loop, at the byte `*p`.
abbrev pub round : ℕ → Scan → Scan
round c s =
    if c == slash
    then record s { last_slash = some s.p; p = s.p + 1 }
    else if c == dot
    then record s { last_dot = some s.p; p = s.p + 1 }
    else record s { p = s.p + 1 }

-- `while (*p != '\0')`: the bytes up to the terminator are those of the list.
pub scan : Bytes → Scan → Scan
scan [] s = s
scan (c ∷ cs) s = scan cs (round c s)

-- A difference of pointers, cast to NSUInteger.
abbrev pub pointer_sub : ℕ → ℕ → ℕ
pointer_sub a b = (a + 2 ^ 64 - b) % 2 ^ 64

-- `subStr`, as an offset, and `subLen`.
abbrev pub Range : Type 0
Range = ℕ × ℕ

pub sub_range : Scan → Range
sub_range s = elim s.last_slash [
  | some i ↦ elim s.last_dot [
    | some d ↦ (i + 1, pointer_sub d (i + 1))
    | none ↦ (i + 1, pointer_sub s.p (i + 1))
  ]
  | none ↦ elim s.last_dot [ some d ↦ (0, pointer_sub d 0) | none ↦ (0, pointer_sub s.p 0) ]
]

-- The range of bytes of which DDExtractFileNameWithoutExtension makes a string; nil for NULL.
pub extract_file_name : Option Bytes → Option Range
unfolding scan sub_range
extract_file_name none = none
extract_file_name (some path) =
    some (sub_range (scan path (record { last_slash = none; last_dot = none; p = 0 })))

-- The bytes in a range.
abbrev pub slice : Range → Bytes → Bytes
slice r path = take r.1 (drop r.0 path)

-- The part behind the last slash, with `cur` before the bytes to come.
last_part : Bytes → Bytes → Bytes
last_part cur [] = cur
last_part cur (c ∷ cs) = last_part (if c == slash then [] else cur ++ c ∷ []) cs

-- The path without the slashes at its end.
strip_slashes : Bytes → Bytes
strip_slashes [] = []
strip_slashes (c ∷ cs) =
    let rest = strip_slashes cs in
    elim rest [ [] ↦ if c == slash then [] else c ∷ [] | d ∷ ds ↦ c ∷ d ∷ ds ]

component_of : Bytes → Bytes → Bytes
component_of (d ∷ ds) path = last_part [] (d ∷ ds)
component_of [] [] = []
component_of [] (c ∷ cs) = slash ∷ []

-- NSString's lastPathComponent; the path of the root is its own last component.
unfoldable pub last_path_component : Bytes → Bytes
unfolding last_part strip_slashes component_of
last_path_component path = component_of (strip_slashes path) path

-- The offset of the last such byte, as `rangeOfString:options:NSBackwardsSearch` finds it.
pub last_index : ℕ → Bytes → ℕ → Option ℕ → Option ℕ
last_index b [] i found = found
last_index b (c ∷ cs) i found = last_index b cs (i + 1) (if c == b then some i else found)

-- The name up to its last dot, if it has one.
pub strip_extension : Bytes → Bytes
unfolding last_index
strip_extension name = elim (last_index dot name 0 none) [ none ↦ name | some i ↦ take i name ]

-- `_fileName` of a DDLogMessage.
unfoldable pub message_file_name : Bytes → Bytes
message_file_name path = strip_extension (last_path_component path)
