-- ===== src/Message/Examples.antt =====
-- Messages at which the theorems apply.
use cocoa_lumberjack.Base.{
  ℕ, ◌≡◌, refl, false, none, some, ◌==◌, ==_refl, ==_iff, [], ◌∷◌, if◌then◌else◌,
}
use cocoa_lumberjack.Message.{
  Objects, LogMessage, nullable_strings_equal, represented_equal, is_equal, hash,
}
use cocoa_lumberjack.FileName.{message_file_name}
use cocoa_lumberjack.Message.Creation.{
  Texts, Surroundings, InitArguments, object, read, read_nullable, has_option, option_bits,
  copy_file, copy_function, dont_copy_message, init_with_format_formatted, view,
  init_with_format_formatted-view,
}
use cocoa_lumberjack.Message.Equality.{is_equal-hash}

-- Numbers as objects, and the first byte of a string as its hash.
abbrev numbers : Objects
numbers = record {
  Object = ℕ;
  is_equal_object = λ a b. a == b;
  object_hash = λ a. a;
  string_hash = λ s. elim s [ [] ↦ 0 | c ∷ cs ↦ c ];
  is_equal_object_refl = λ a. ==_refl a;
  is_equal_object-hash = λ a b h. (==_iff a b).0 h;
}

abbrev greeting : LogMessage ℕ
greeting = record {
  message = 72 ∷ 105 ∷ [];
  message_format = 37 ∷ 64 ∷ [];
  level = 31;
  flag = 4;
  context = 7;
  file = 97 ∷ [];
  file_name = 97 ∷ [];
  function = none;
  line = 12;
  represented_object = some 3;
  options = 0;
  timestamp = 1000;
  thread_id = 49 ∷ [];
  thread_name = [];
  queue_label = 113 ∷ [];
  qos = 21;
}

-- Another object, with other options.
abbrev other_greeting : LogMessage ℕ
other_greeting = record greeting { options = 1 }

is_equal-hash_example : hash numbers other_greeting ≡ hash numbers greeting
unfolding is_equal nullable_strings_equal represented_equal
is_equal-hash_example = is_equal-hash numbers false other_greeting greeting (λ e. cc) refl

-- The caller's strings, before and after they changed.
abbrev old_texts : Texts
old_texts p = 65 ∷ []

abbrev new_texts : Texts
new_texts p = 66 ∷ []

abbrev surroundings : Surroundings
surroundings = record {
  now = 1000;
  thread_id = none;
  thread_name = [];
  queue_label = 113 ∷ [];
  qos = 21;
}

-- The file is copied, and the function is not.
abbrev arguments : InitArguments ℕ
arguments = record {
  message_format = object 1;
  level = 31;
  flag = 4;
  context = 0;
  file = object 2;
  function = some (object 3);
  line = 12;
  tag = none;
  options = option_bits copy_file;
  timestamp = none;
}

init_with_format_formatted-view_example :
    let m = init_with_format_formatted surroundings old_texts (object 4) arguments in
    let shared = has_option arguments.options dont_copy_message in
    let file = if has_option arguments.options copy_file then old_texts else new_texts in
    let function = if has_option arguments.options copy_function then old_texts else new_texts in
    ((view new_texts m).message ≡ read (if shared then new_texts else old_texts) (object 4))
    × ((view new_texts m).message_format
        ≡ read (if shared then new_texts else old_texts) arguments.message_format)
    × ((view new_texts m).file ≡ read file arguments.file)
    × ((view new_texts m).function ≡ read_nullable function arguments.function)
    × ((view new_texts m).file_name ≡ message_file_name (read old_texts arguments.file))
init_with_format_formatted-view_example =
    init_with_format_formatted-view surroundings old_texts new_texts (object 4) arguments
