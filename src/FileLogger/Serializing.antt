-- ===== src/FileLogger/Serializing.antt =====
-- The serializers, the formatter that a file logger has at first, and the methods that other files of
-- the library use: the protocol DDFileLogMessageSerializer and the classes
-- DDFileLogPlainTextMessageSerializer and DDLogFileFormatterDefault of
-- include/CocoaLumberjack/DDFileLogger.h, DDFileLogger+Internal.h, and their methods in DDFileLogger.m. A
-- date formatter is a function; a text is its bytes in UTF-8.
use cocoa_lumberjack.Base.{
  ℕ, ◌≡◌, refl, Bool, true, not, ◌&&◌, [], ◌∷◌, ◌++◌, Option, none, some, if◌then◌else◌, codes,
  arith, ap, Bool-cases, inl, inr,
}
use cocoa_lumberjack.FileName.{Bytes}
use cocoa_lumberjack.FileLogger.{FileLogger, Env, lt_log_data}
use cocoa_lumberjack.FileLogger.Text.{
  Formatted, changed, newline, ends_in_newline, lt_data_for_message, with_newline,
  ends_in_newline-append,
}

-- The message is missing where the text is a header.
pub record FileLogMessageSerializer (Message : Type 0) : Type 0 where
  pub data_for_string : Bytes → Option Message → Bytes

abbrev pub plain_text_message_serializer : {Message : Type 0} → FileLogMessageSerializer Message
plain_text_message_serializer = record { data_for_string = λ string message. string }

-- DDLogFileFormatterDefault, by its date formatter; a missing one is nil.
pub record LogFileFormatterDefault (Formatter : Type 0) : Type 0 where
  pub init_with_date_formatter : Option (ℕ → Bytes) → Formatter
  pub init : Formatter
  pub format_log_message : ℕ → Bytes → Formatter → Bytes

-- The standard date formatter is the one with the format `yyyy/MM/dd HH:mm:ss:SSS`.
abbrev pub log_file_formatter_default : (ℕ → Bytes) → LogFileFormatterDefault (ℕ → Bytes)
log_file_formatter_default standard = record {
  init_with_date_formatter = λ f. elim f [ some date ↦ date | none ↦ standard ];
  init = standard;
  format_log_message = λ timestamp message date. date timestamp ++ (codes "  " ++ message);
}

-- The internal methods, on the state of the logger's queue.
pub record FileLoggerInternal (Logger Surroundings Message : Type 0) : Type 0 where
  pub log_data : Surroundings → Bytes → Logger → Logger
  pub lt_log_data : Surroundings → Bytes → Logger → Logger
  pub lt_data_for_message : Message → Logger → Option Bytes

with_newline-long :
    (append_newline : Bool) (date : Bytes) (c : ℕ) (rest : Bytes)
    → let line = date ++ c ∷ rest in
      with_newline append_newline line
      ≡ some (if append_newline && not (ends_in_newline line) then line ++ newline ∷ [] else line)
unfolding with_newline
with_newline-long append_newline [] c rest = refl
with_newline-long append_newline (d ∷ date) c rest = refl

module _ {Message : Type 0} where
  -- `lt_logFileSerializer`: that of the file manager, if it has one.
  unfoldable pub lt_log_file_serializer :
      Option (FileLogMessageSerializer Message) → FileLogMessageSerializer Message
  lt_log_file_serializer none = plain_text_message_serializer
  lt_log_file_serializer (some s) = s

  -- The data of a line of a message, or of a line of a header.
  abbrev serialized :
      FileLogMessageSerializer Message → Option Message → Option Bytes → Option Bytes
  serialized s message none = none
  serialized s message (some line) = some (s.data_for_string line message)

  -- `logFileHeaderData` for the header that a subclass gives.
  unfoldable pub log_file_header_data :
      FileLogMessageSerializer Message → Option Bytes → Option Bytes
  log_file_header_data s none = none
  log_file_header_data s (some []) = none
  log_file_header_data s (some (c ∷ cs)) =
      let line = if not (ends_in_newline (c ∷ cs)) then (c ∷ cs) ++ newline ∷ [] else c ∷ cs in
      some (s.data_for_string line none)

  -- `lt_dataForMessage:` with the serializer of the file manager.
  unfoldable pub data_for_message :
      Option (FileLogMessageSerializer Message)
      → Bool
      → Option Formatted
      → Bytes
      → Message
      → Option Bytes
  unfolding lt_log_file_serializer
  data_for_message s append_newline r text message =
      serialized (lt_log_file_serializer s) (some message)
        (lt_data_for_message append_newline r text)

  abbrev pub file_logger_internal :
      Option (FileLogMessageSerializer Message)
      → Bool
      → (Message → Option Formatted)
      → (Message → Bytes)
      → FileLoggerInternal FileLogger Env Message
  unfolding data_for_message
  file_logger_internal s append_newline format text = record {
    log_data = lt_log_data;
    lt_log_data = lt_log_data;
    lt_data_for_message = λ m l. data_for_message s append_newline (format m) (text m) m;
  }

  -- A message that the default formatter makes is always written, as the date, two spaces and the text,
  -- and with a line end if line ends are appended to custom formats and it has none.
  pub data_for_message-default :
      (standard : ℕ → Bytes) (append_newline : Bool) (timestamp : ℕ) (text : Bytes)
      (message : Message)
      → let formatter = log_file_formatter_default standard in
        let line = formatter.format_log_message timestamp text formatter.init in
        data_for_message none append_newline (some (changed line)) text message
        ≡ some (if append_newline && not (ends_in_newline line) then line ++ newline ∷ [] else line)
  unfolding data_for_message lt_log_file_serializer lt_data_for_message
  data_for_message-default standard append_newline timestamp text message =
      ap (serialized plain_text_message_serializer (some message))
        (with_newline-long append_newline (standard timestamp) 32 (codes " " ++ text))

  -- The data of a header is missing if the subclass gives none or an empty one, and otherwise it is that
  -- of a line that ends in a line end.
  pub log_file_header_data-line :
      (s : FileLogMessageSerializer Message) (header : Bytes) (c : ℕ)
      → (log_file_header_data s none ≡ none)
        × (log_file_header_data s (some []) ≡ none)
        × ((line : Bytes) × (log_file_header_data s (some (c ∷ header))
              ≡ some (s.data_for_string line none))
            × (ends_in_newline line ≡ true))
  unfolding log_file_header_data
  log_file_header_data-line s header c = (
    refl,
    refl,
    elim (Bool-cases (ends_in_newline (c ∷ header))) [
      | inl e ↦ (c ∷ header, ground (arith, e), e)
      | inr e ↦
          ((c ∷ header) ++ newline ∷ [], ground (arith, e), ends_in_newline-append (c ∷ header))
    ],
  )
