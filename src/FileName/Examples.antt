-- ===== src/FileName/Examples.antt =====
-- Paths at which the theorems on file names apply.
use cocoa_lumberjack.Base.{◌+◌, ◌-◌, ◌<◌, ◌^◌, ◌≡◌, inr, refl, [], ◌∷◌, some, arith}
use cocoa_lumberjack.FileName.{slash, dot, Bytes, extract_file_name, slice, message_file_name}
use cocoa_lumberjack.FileName.Parts.{IsFront}
use cocoa_lumberjack.FileName.Agree.{extract_file_name-extension, extract_file_name-overrun}

-- "a/"
abbrev folder : Bytes
folder = b'a' ∷ slash ∷ []

abbrev folder-IsFront : IsFront folder
folder-IsFront = inr (b'a' ∷ [], refl)

-- "a/b.m"
extract_file_name-extension_example :
    (extract_file_name (some (b'a' ∷ slash ∷ b'b' ∷ dot ∷ b'm' ∷ [])) ≡ some (2, 1))
    × (slice (2, 1) (b'a' ∷ slash ∷ b'b' ∷ dot ∷ b'm' ∷ []) ≡ b'b' ∷ [])
    × (message_file_name (b'a' ∷ slash ∷ b'b' ∷ dot ∷ b'm' ∷ []) ≡ b'b' ∷ [])
extract_file_name-extension_example =
    extract_file_name-extension folder (b'b' ∷ []) (b'm' ∷ []) folder-IsFront (omega arith, tt)
      (omega arith, tt) (omega arith, tt) (omega arith)

-- "a.b/c"
extract_file_name-overrun_example :
    (extract_file_name (some (b'a' ∷ dot ∷ b'b' ∷ slash ∷ b'c' ∷ [])) ≡ some (4, 2 ^ 64 - 3))
    × (5 < 4 + (2 ^ 64 - 3))
    × (message_file_name (b'a' ∷ dot ∷ b'b' ∷ slash ∷ b'c' ∷ []) ≡ b'c' ∷ [])
extract_file_name-overrun_example =
    extract_file_name-overrun (b'a' ∷ []) (b'b' ∷ []) (b'c' ∷ []) (omega arith, tt)
      (omega arith, tt) (omega arith, tt) (λ e. cc) (omega arith)
