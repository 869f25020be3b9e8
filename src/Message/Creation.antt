-- ===== src/Message/Creation.antt =====
-- The initialisers and the properties of DDLogMessage in include/CocoaLumberjack/DDLog.h and DDLog.m. A
-- string of the caller is an object whose text may change; a copy keeps the text that it was made of.
-- Formatting with arguments, the clock, the thread and the queue are parameters.
use Prim.Native.Nat.{bit_or}
use cocoa_lumberjack.Base.{
  ℕ, ◌^◌, ◌≡◌, refl, Bool, true, false, not, Option, none, some, ◌==◌, if◌then◌else◌, bit_and,
  codes, ap, ◌∙◌, Bool-cases, inl, inr, ◌⊎◌,
}
use cocoa_lumberjack.FileName.{Bytes, message_file_name}
use cocoa_lumberjack.Message.{LogMessage}

-- DDLogMessageOptions, a mask.
pub data LogMessageOptions : Type 0 where
  copy_file copy_function dont_copy_message : LogMessageOptions

abbrev pub option_bits : LogMessageOptions → ℕ
option_bits copy_file = 2 ^ 0
option_bits copy_function = 2 ^ 1
option_bits dont_copy_message = 2 ^ 2

unfoldable pub has_option : ℕ → LogMessageOptions → Bool
has_option options o = not (bit_and options (option_bits o) == 0)

-- A pointer to a string of the caller, or a copy.
pub data StringRef : Type 0 where
  object : ℕ → StringRef
  copied : Bytes → StringRef

-- The texts of the caller's strings at a time.
abbrev pub Texts : Type 0
Texts = ℕ → Bytes

abbrev pub read : Texts → StringRef → Bytes
read texts (object p) = texts p
read texts (copied s) = s

abbrev copy_if : Bool → Texts → StringRef → StringRef
copy_if b texts s = if b then copied (read texts s) else s

abbrev pub read_nullable : Texts → Option StringRef → Option Bytes
read_nullable texts none = none
read_nullable texts (some s) = some (read texts s)

abbrev copy_nullable : Bool → Texts → Option StringRef → Option StringRef
copy_nullable b texts none = none
copy_nullable b texts (some s) = some (copy_if b texts s)

copy-read :
    (b : Bool) (before now : Texts) (s : StringRef)
    → read now (copy_if b before s) ≡ read (if b then before else now) s
copy-read true before now s = refl
copy-read false before now s = refl

keep-read :
    (b : Bool) (before now : Texts) (s : StringRef)
    → read now (copy_if (not b) before s) ≡ read (if b then now else before) s
keep-read true before now s = refl
keep-read false before now s = refl

copy-read_nullable :
    (b : Bool) (before now : Texts) (s : Option StringRef)
    → read_nullable now (copy_nullable b before s) ≡ read_nullable (if b then before else now) s
copy-read_nullable b before now none = refl
copy-read_nullable b before now (some s) = ap some (copy-read b before now s)

copy-same :
    (b : Bool) (texts : Texts) (s : StringRef) → read texts (copy_if b texts s) ≡ read texts s
copy-same true texts s = refl
copy-same false texts s = refl

copied-read :
    (b : Bool) (before now : Texts) (s : Bytes) → read now (copy_if b before (copied s)) ≡ s
copied-read true before now s = refl
copied-read false before now s = refl

-- What an initialiser is given, but for the message; a missing timestamp is nil.
pub record InitArguments (Object : Type 0) : Type 0 where
  pub message_format : StringRef
  pub level : ℕ
  pub flag : ℕ
  pub context : ℕ
  pub file : StringRef
  pub function : Option StringRef
  pub line : ℕ
  pub tag : Option Object
  pub options : ℕ
  pub timestamp : Option ℕ

-- The time, and what the system says of the current thread and queue; the number of the thread, as a
-- text, may not be known.
pub record Surroundings : Type 0 where
  pub now : ℕ
  pub thread_id : Option Bytes
  pub thread_name : Bytes
  pub queue_label : Bytes
  pub qos : ℕ

-- The instance variables, with the strings that may be those of the caller.
pub record StoredMessage (Object : Type 0) : Type 0 where
  pub message : StringRef
  pub message_format : StringRef
  pub file : StringRef
  pub function : Option StringRef
  pub values : LogMessage Object

-- The three initialisers with arguments; the first takes the formatted message, and the second the
-- arguments of the format.
pub record MessageInit (Object Values : Type 0) : Type 0 where
  pub init_with_format_formatted :
      Surroundings → Texts → StringRef → InitArguments Object → StoredMessage Object
  pub init_with_format_args :
      Surroundings → Texts → Values → InitArguments Object → StoredMessage Object
  pub init_with_message : Surroundings → Texts → InitArguments Object → StoredMessage Object

-- The properties, read while the caller's strings have some texts.
pub record MessageProperties (Object : Type 0) : Type 0 where
  pub message : Texts → StoredMessage Object → Bytes
  pub message_format : Texts → StoredMessage Object → Bytes
  pub level : StoredMessage Object → ℕ
  pub flag : StoredMessage Object → ℕ
  pub context : StoredMessage Object → ℕ
  pub file : Texts → StoredMessage Object → Bytes
  pub file_name : StoredMessage Object → Bytes
  pub function : Texts → StoredMessage Object → Option Bytes
  pub line : StoredMessage Object → ℕ
  pub tag : StoredMessage Object → Option Object
  pub represented_object : StoredMessage Object → Option Object
  pub options : StoredMessage Object → ℕ
  pub timestamp : StoredMessage Object → ℕ
  pub thread_id : StoredMessage Object → Bytes
  pub thread_name : StoredMessage Object → Bytes
  pub queue_label : StoredMessage Object → Bytes
  pub qos : StoredMessage Object → ℕ

module _ {Object : Type 0} where
  -- What is read of the variables.
  abbrev pub view : Texts → StoredMessage Object → LogMessage Object
  view texts m = record (m.values) {
    message = read texts m.message;
    message_format = read texts m.message_format;
    file = read texts m.file;
    function = read_nullable texts m.function;
  }

  unfoldable pub init_with_format_formatted :
      Surroundings → Texts → StringRef → InitArguments Object → StoredMessage Object
  unfolding has_option
  init_with_format_formatted env texts message a =
      let copy_message = not (has_option a.options dont_copy_message) in
      let file = copy_if (has_option a.options copy_file) texts a.file in
      let function = copy_nullable (has_option a.options copy_function) texts a.function in
      record {
        message = copy_if copy_message texts message;
        message_format = copy_if copy_message texts a.message_format;
        file = file;
        function = function;
        values = record {
          message = read texts message;
          message_format = read texts a.message_format;
          level = a.level;
          flag = a.flag;
          context = a.context;
          file = read texts file;
          file_name = message_file_name (read texts file);
          function = read_nullable texts function;
          line = a.line;
          represented_object = a.tag;
          options = a.options;
          timestamp = elim a.timestamp [ none ↦ env.now | some t ↦ t ];
          thread_id = elim env.thread_id [ none ↦ codes "N/A" | some t ↦ t ];
          thread_name = env.thread_name;
          queue_label = env.queue_label;
          qos = env.qos;
        };
      }

  unfoldable pub init_with_message :
      Surroundings → Texts → InitArguments Object → StoredMessage Object
  unfolding init_with_format_formatted
  init_with_message env texts a = init_with_format_formatted env texts a.message_format a

  abbrev pub message_properties : MessageProperties Object
  message_properties = record {
    message = λ texts m. (view texts m).message;
    message_format = λ texts m. (view texts m).message_format;
    level = λ m. m.values.level;
    flag = λ m. m.values.flag;
    context = λ m. m.values.context;
    file = λ texts m. (view texts m).file;
    file_name = λ m. m.values.file_name;
    function = λ texts m. (view texts m).function;
    line = λ m. m.values.line;
    tag = λ m. m.values.represented_object;
    represented_object = λ m. m.values.represented_object;
    options = λ m. m.values.options;
    timestamp = λ m. m.values.timestamp;
    thread_id = λ m. m.values.thread_id;
    thread_name = λ m. m.values.thread_name;
    queue_label = λ m. m.values.queue_label;
    qos = λ m. m.values.qos;
  }

  -- Whatever becomes of the caller's strings, the format, the message, the file and the function of a
  -- message are those of its creation, each exactly if the options say that it is copied, and else
  -- those that the caller's strings have now; the name of the file is that of the creation.
  pub init_with_format_formatted-view :
      (env : Surroundings) (before now : Texts) (message : StringRef) (a : InitArguments Object)
      → let m = init_with_format_formatted env before message a in
        let shared = has_option a.options dont_copy_message in
        let file = if has_option a.options copy_file then before else now in
        let function = if has_option a.options copy_function then before else now in
        ((view now m).message ≡ read (if shared then now else before) message)
        × ((view now m).message_format ≡ read (if shared then now else before) a.message_format)
        × ((view now m).file ≡ read file a.file)
        × ((view now m).function ≡ read_nullable function a.function)
        × ((view now m).file_name ≡ message_file_name (read before a.file))
  unfolding init_with_format_formatted has_option
  init_with_format_formatted-view env before now message a =
      let shared = has_option a.options dont_copy_message in
      (
        keep-read shared before now message,
        keep-read shared before now a.message_format,
        copy-read (has_option a.options copy_file) before now a.file,
        copy-read_nullable (has_option a.options copy_function) before now a.function,
        ap message_file_name (copy-same (has_option a.options copy_file) before a.file),
      )

module _ {Object Values : Type 0} (format_string : Bytes → Values → Bytes) where
  -- The format is copied first, unless the options forbid it, and the message is a new string.
  unfoldable pub init_with_format_args :
      Surroundings → Texts → Values → InitArguments Object → StoredMessage Object
  unfolding init_with_format_formatted has_option
  init_with_format_args env texts values a =
      let format = copy_if (not (has_option a.options dont_copy_message)) texts a.message_format in
      init_with_format_formatted env texts (copied (format_string (read texts format) values))
        (record a {
          message_format = format;
          options = bit_or a.options (option_bits dont_copy_message);
        })

  -- A message that is made of a format and its arguments keeps the text that they gave, whatever becomes
  -- of the caller's strings and whatever the options are; unless the options forbid the copy, it keeps
  -- the format, too.
  pub init_with_format_args-view :
      (env : Surroundings) (before now : Texts) (values : Values) (a : InitArguments Object)
      → let m = init_with_format_args env before values a in
        ((view now m).message ≡ format_string (read before a.message_format) values)
        × ((has_option a.options dont_copy_message ≡ true)
            ⊎ ((view now m).message_format ≡ read before a.message_format))
  unfolding init_with_format_args init_with_format_formatted has_option
  init_with_format_args-view env before now values a =
      let options = bit_or a.options (option_bits dont_copy_message) in
      let shared = has_option options dont_copy_message in
      let format = copy_if (not (has_option a.options dont_copy_message)) before a.message_format in
      (
        copied-read (not shared) before now (format_string (read before format) values)
            ∙ ap (λ s. format_string s values)
                (copy-same (not (has_option a.options dont_copy_message)) before a.message_format),
        elim (Bool-cases (has_option a.options dont_copy_message)) [
          | inl e ↦ inl e
          | inr e ↦ inr (rw e (copied-read (not shared) before now (read before a.message_format)))
        ],
      )

  abbrev pub message_init : MessageInit Object Values
  unfolding init_with_format_formatted init_with_format_args init_with_message
  message_init = record {
    init_with_format_formatted = init_with_format_formatted;
    init_with_format_args = init_with_format_args;
    init_with_message = init_with_message;
  }
