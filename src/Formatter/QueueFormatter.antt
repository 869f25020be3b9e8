-- ===== src/Formatter/QueueFormatter.antt =====
-- DDDispatchQueueLogFormatter of include/CocoaLumberjack/DDDispatchQueueLogFormatter.h: its names of
-- qualities of service, its line, its configuration, and the deprecated counter. A date formatter, which
-- makes the text of a date, is a parameter.
use cocoa_lumberjack.Base.{
  ℕ, ◌+◌, ◌-◌, ◌%◌, ◌^◌, ◌<◌, ◌≡◌, ◌≢◌, refl, List, [], ◌∷◌, ◌++◌, Option, none, some, ◌==◌,
  if◌then◌else◌, codes, bytes_eq, arith, All,
}
use cocoa_lumberjack.FileName.{Bytes}
use cocoa_lumberjack.Formatter.QueueLabel.{
  Origin, replacement_for, set_replacement, queue_thread_label, set_replacement-replacement_for,
}

pub data LogFormatterMode : Type 0 where
  shareable non_shareable : LogFormatterMode

-- The qualities of service that have a name; any other number is unspecified.
pub data QualityOfService : Type 0 where
  user_interactive user_initiated default utility background unspecified : QualityOfService

abbrev pub quality_of_service_name : QualityOfService → Bytes
quality_of_service_name user_interactive = codes "UI"
quality_of_service_name user_initiated = codes "IN"
quality_of_service_name default = codes "DF"
quality_of_service_name utility = codes "UT"
quality_of_service_name background = codes "BG"
quality_of_service_name unspecified = codes "UN"

-- The values of `qos_class_t`, which the system's header fixes.
abbrev pub qos_class : QualityOfService → ℕ
qos_class user_interactive = 33
qos_class user_initiated = 25
qos_class default = 21
qos_class utility = 17
qos_class background = 9
qos_class unspecified = 0

-- `_qos_name`
pub qos_name : ℕ → Bytes
qos_name qos =
    if qos == qos_class user_interactive
    then quality_of_service_name user_interactive
    else if qos == qos_class user_initiated
    then quality_of_service_name user_initiated
    else if qos == qos_class default
    then quality_of_service_name default
    else if qos == qos_class utility
    then quality_of_service_name utility
    else if qos == qos_class background
    then quality_of_service_name background
    else quality_of_service_name unspecified

-- The class: two ways to make it, the minimum and the maximum of the label's length, and the short
-- forms of labels.
pub record QueueFormatter (Formatter : Type 0) : Type 0 where
  pub init : Formatter
  pub init_with_mode : LogFormatterMode → Formatter
  pub min_queue_length : Formatter → ℕ
  pub set_min_queue_length : ℕ → Formatter → Formatter
  pub max_queue_length : Formatter → ℕ
  pub set_max_queue_length : ℕ → Formatter → Formatter
  pub replacement_string_for_queue_label : Bytes → Formatter → Option Bytes
  pub set_replacement_string : Option Bytes → Bytes → Formatter → Formatter

-- The methods that a subclass may override. A configuration is the format of dates.
pub record OverridableMethods (Formatter : Type 0) : Type 0 where
  pub configure_date_formatter : Bytes
  pub string_from_date : ℕ → Formatter → Bytes
  pub queue_thread_label_for_log_message : Origin → Formatter → Bytes

-- DDAtomicCountable, whose numbers are 32 bits.
pub record AtomicCountable (Counter : Type 0) : Type 0 where
  pub init_with_default_value : ℕ → Counter
  pub increment : Counter → ℕ × Counter
  pub decrement : Counter → ℕ × Counter
  pub value : Counter → ℕ

pub record FormatterState : Type 0 where
  pub min_queue_length : ℕ
  pub max_queue_length : ℕ
  pub replacements : List (Bytes × Bytes)

abbrev pub initial_formatter : FormatterState
initial_formatter = record {
  min_queue_length = 0;
  max_queue_length = 0;
  replacements = (codes "com.apple.main-thread", codes "main") ∷ [];
}

abbrev pub queue_formatter : QueueFormatter FormatterState
queue_formatter = record {
  init = initial_formatter;
  init_with_mode = λ mode. initial_formatter;
  min_queue_length = λ f. f.min_queue_length;
  set_min_queue_length = λ n f. record f { min_queue_length = n };
  max_queue_length = λ f. f.max_queue_length;
  set_max_queue_length = λ n f. record f { max_queue_length = n };
  replacement_string_for_queue_label = λ label f. replacement_for label f.replacements;
  set_replacement_string =
      λ short label f. record f { replacements = set_replacement short label f.replacements };
}

abbrev pub label_of : Origin → FormatterState → Bytes
label_of m f = queue_thread_label f.replacements f.min_queue_length f.max_queue_length m

module _ (string_from_date : ℕ → Bytes) where
  abbrev pub overridable_methods : OverridableMethods FormatterState
  overridable_methods = record {
    configure_date_formatter = codes "yyyy-MM-dd HH:mm:ss:SSS";
    string_from_date = λ date f. string_from_date date;
    queue_thread_label_for_log_message = label_of;
  }

  -- `"%@ [%@ (QOS:%@)] %@"`
  pub format_log_message : ℕ → Origin → ℕ → Bytes → FormatterState → Bytes
  unfolding qos_name
  format_log_message timestamp m qos message f =
      string_from_date timestamp
      ++ codes " ["
      ++ label_of m f
      ++ codes " (QOS:"
      ++ qos_name qos
      ++ codes ")] "
      ++ message

-- A number of 32 bits, wrapping around.
abbrev wrap : ℕ → ℕ
wrap n = n % 2 ^ 32

abbrev pub atomic_counter : AtomicCountable ℕ
atomic_counter = record {
  init_with_default_value = wrap;
  increment = λ n. (wrap (n + 1), wrap (n + 1));
  decrement = λ n. (wrap (n + (2 ^ 32 - 1)), wrap (n + (2 ^ 32 - 1)));
  value = λ n. n;
}

-- The
-- short form of a label is the one that was set last for it, by default "main" for the label
-- "com.apple.main-thread" and none for any other label.
pub queue_formatter-replacements :
    (label other : Bytes) (short : Option Bytes) (f : FormatterState)
    → (queue_formatter.replacement_string_for_queue_label other
          (queue_formatter.set_replacement_string short label f)
        ≡ (if bytes_eq label other
            then short
            else queue_formatter.replacement_string_for_queue_label other f))
      × (queue_formatter.replacement_string_for_queue_label other queue_formatter.init
          ≡ (if bytes_eq (codes "com.apple.main-thread") other then some (codes "main") else none))
unfolding replacement_for
queue_formatter-replacements label other short f =
    (set_replacement-replacement_for short label other f.replacements, refl)

-- Counting up and down again, in either order, comes back to the value, also where 32 bits overflow.
pub atomic_counter-round :
    (n : ℕ)
    → n < 2 ^ 32
    → ((atomic_counter.decrement (atomic_counter.increment n).1).0 ≡ n)
      × ((atomic_counter.increment (atomic_counter.decrement n).1).0 ≡ n)
atomic_counter-round n h = (omega (arith, h), omega (arith, h))

-- The five classes with a name of their own.
abbrev named_classes : List QualityOfService
named_classes = user_interactive ∷ user_initiated ∷ default ∷ utility ∷ background ∷ []

-- Each quality of service is shown by its own two letters, and every number that is none of the five
-- named classes as unspecified.
pub qos_name-class :
    (q : QualityOfService) (qos : ℕ)
    → All (λ c. qos ≢ qos_class c) named_classes
    → (qos_name (qos_class q) ≡ quality_of_service_name q)
      × (qos_name qos ≡ quality_of_service_name unspecified)
unfolding qos_name
qos_name-class user_interactive qos h = (refl, ground (arith, h))
qos_name-class user_initiated qos h = (refl, ground (arith, h))
qos_name-class default qos h = (refl, ground (arith, h))
qos_name-class utility qos h = (refl, ground (arith, h))
qos_name-class background qos h = (refl, ground (arith, h))
qos_name-class unspecified qos h = (refl, ground (arith, h))
