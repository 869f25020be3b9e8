-- ===== src/Message.antt =====
-- DDLogMessage of Sources/CocoaLumberjack/DDLog.m: equality, hash and copies. Strings are their bytes; what
-- the message represents is an object of the application, with the methods of NSObject.
pub mod Equality
pub mod Creation
mod Examples
use cocoa_lumberjack.Base.{
  ℕ, ◌≡◌, Bool, true, false, ◌&&◌, ◌||◌, Option, none, some, ◌==◌, bytes_eq, bit_xor, if◌then◌else◌,
}
use cocoa_lumberjack.FileName.{Bytes}

-- Objects with `isEqual:` and `hash`, by their documented contract, and the hash of a string.
pub record Objects : Type 1 where
  pub Object : Type 0
  pub is_equal_object : Object → Object → Bool
  pub object_hash : Object → ℕ
  pub string_hash : Bytes → ℕ
  pub is_equal_object_refl : (o : Object) → is_equal_object o o ≡ true
  pub is_equal_object-hash :
      (a b : Object) → is_equal_object a b ≡ true → object_hash a ≡ object_hash b

-- The instance variables. The context is the bits of an NSInteger.
pub record LogMessage (Object : Type 0) : Type 0 where
  pub message : Bytes
  pub message_format : Bytes
  pub level : ℕ
  pub flag : ℕ
  pub context : ℕ
  pub file : Bytes
  pub file_name : Bytes
  pub function : Option Bytes
  pub line : ℕ
  pub represented_object : Option Object
  pub options : ℕ
  pub timestamp : ℕ
  pub thread_id : Bytes
  pub thread_name : Bytes
  pub queue_label : Bytes
  pub qos : ℕ

pub nullable_strings_equal : Option Bytes → Option Bytes → Bool
nullable_strings_equal none none = true
nullable_strings_equal none (some s) = false
nullable_strings_equal (some s) none = false
nullable_strings_equal (some s) (some t) = bytes_eq s t

module _ (objects : Objects) where
  open objects use {Object, is_equal_object, object_hash, string_hash}

  -- `isEqual:` of the first object, or the same pointer. Equal pointers are to equal objects, and no
  -- object is equal to nil.
  pub represented_equal : Option Object → Option Object → Bool
  represented_equal none none = true
  represented_equal none (some b) = false
  represented_equal (some a) none = false
  represented_equal (some a) (some b) = is_equal_object a b

  abbrev same_fields : LogMessage Object → LogMessage Object → Bool
  same_fields other m =
      bytes_eq other.message m.message
      && bytes_eq other.message_format m.message_format
      && other.level == m.level
      && other.flag == m.flag
      && other.context == m.context
      && bytes_eq other.file m.file
      && nullable_strings_equal other.function m.function
      && other.line == m.line
      && represented_equal other.represented_object m.represented_object
      && other.timestamp == m.timestamp
      && bytes_eq other.thread_id m.thread_id
      && bytes_eq other.queue_label m.queue_label
      && other.qos == m.qos

  -- The first argument says whether `other` is the very object; `none` is nil or an object of another
  -- class.
  pub is_equal : Bool → Option (LogMessage Object) → LogMessage Object → Bool
  is_equal true other m = true
  is_equal false none m = false
  is_equal false (some other) m = same_fields other m

  nullable_hash : Option Bytes → ℕ
  nullable_hash none = 0
  nullable_hash (some s) = string_hash s

  represented_hash : Option Object → ℕ
  represented_hash none = 0
  represented_hash (some o) = object_hash o

  pub hash : LogMessage Object → ℕ
  unfolding nullable_hash represented_hash
  hash m =
      let a = bit_xor (string_hash m.message) (string_hash m.message_format) in
      let b = bit_xor (bit_xor (bit_xor a m.level) m.flag) m.context in
      let c = bit_xor (bit_xor b (string_hash m.file)) (nullable_hash m.function) in
      let d = bit_xor (bit_xor c m.line) (represented_hash m.represented_object) in
      let e = bit_xor (bit_xor d m.timestamp) (string_hash m.thread_id) in
      bit_xor (bit_xor e (string_hash m.queue_label)) m.qos

-- `copyWithZone:`, which sets every variable of a new message.
pub copy : {Object : Type 0} → LogMessage Object → LogMessage Object
copy m = record {
  message_format = m.message_format;
  message = m.message;
  level = m.level;
  flag = m.flag;
  context = m.context;
  file = m.file;
  file_name = m.file_name;
  function = m.function;
  line = m.line;
  represented_object = m.represented_object;
  options = m.options;
  timestamp = m.timestamp;
  thread_id = m.thread_id;
  thread_name = m.thread_name;
  queue_label = m.queue_label;
  qos = m.qos;
}
