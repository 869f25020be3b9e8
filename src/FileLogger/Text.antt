-- ===== src/FileLogger/Text.antt =====
-- `lt_dataForMessage:` and `logMessage:` of DDFileLogger: the line that a message becomes. A text is its
-- bytes in UTF-8, and the serializer is that of plain text.
use cocoa_lumberjack.Base.{
  ℕ, ◌≡◌, ◌⊎◌, refl, Bool, true, false, not, ◌&&◌, ◌||◌, [], ◌∷◌, ◌++◌, Option, none, some, ◌==◌,
  if◌then◌else◌,
}
use cocoa_lumberjack.FileName.{Bytes}
use cocoa_lumberjack.FileLogger.{FileLogger, Env, lt_log_data}

abbrev pub newline : ℕ
newline = b'\n'

unfoldable pub ends_in_newline : Bytes → Bool
ends_in_newline [] = false
ends_in_newline (c ∷ []) = c == newline
ends_in_newline (c ∷ d ∷ ds) = ends_in_newline (d ∷ ds)

-- What `formatLogMessage:` returns: nil, the very string of the message, or another one.
pub data Formatted : Type 0 where
  dropped unchanged : Formatted
  changed : Bytes → Formatted

-- The string after the formatter, if the logger has one, and whether it is another object.
abbrev pub formatted_text : Option Formatted → Bytes → Bytes
formatted_text none message = message
formatted_text (some dropped) message = []
formatted_text (some unchanged) message = message
formatted_text (some (changed text)) message = text

abbrev pub is_formatted : Option Formatted → Bool
is_formatted none = false
is_formatted (some dropped) = true
is_formatted (some unchanged) = false
is_formatted (some (changed text)) = true

-- The first argument is `automaticallyAppendNewlineForCustomFormatters`.
unfoldable pub with_newline : Bool → Bytes → Option Bytes
unfolding ends_in_newline
with_newline should_format [] = none
with_newline should_format (c ∷ cs) =
    some
      (if should_format && not (ends_in_newline (c ∷ cs)) then (c ∷ cs) ++ newline ∷ [] else c ∷ cs)

unfoldable pub lt_data_for_message : Bool → Option Formatted → Bytes → Option Bytes
unfolding with_newline
lt_data_for_message append_newline r message =
    with_newline (not (is_formatted r) || append_newline) (formatted_text r message)

pub log_message : Env → Bool → Option Formatted → Bytes → FileLogger → FileLogger
log_message env append_newline r message s = elim (lt_data_for_message append_newline r message) [
  | none ↦ s
  | some bytes ↦ lt_log_data env bytes s
]

pub ends_in_newline-append : (s : Bytes) → ends_in_newline (s ++ newline ∷ []) ≡ true
unfolding ends_in_newline
ends_in_newline-append [] = refl
ends_in_newline-append (c ∷ []) = refl
ends_in_newline-append (c ∷ d ∷ ds) = ends_in_newline-append (d ∷ ds)

-- The text as it is, or with a line end that it lacked.
abbrev pub IsLine : Bytes → Bytes → Type 0
IsLine text line = (line ≡ text) ⊎ ((line ≡ text ++ newline ∷ []) × (ends_in_newline text ≡ false))
