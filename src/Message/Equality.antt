-- ===== src/Message/Equality.antt =====
-- The equality of messages, their hashes and their copies.
use cocoa_lumberjack.Base.{
  ℕ, ◌≡◌, refl, ap, Bool, true, false, Option, none, some, arith, ◌==◌, ==_iff, bytes_eq_refl,
  bytes_eq→≡,
}
use cocoa_lumberjack.FileName.{Bytes}
use cocoa_lumberjack.Message.{
  Objects, LogMessage, nullable_strings_equal, represented_equal, same_fields, is_equal,
  nullable_hash, represented_hash, hash, copy,
}

nullable_strings_equal_refl : (s : Option Bytes) → nullable_strings_equal s s ≡ true
unfolding nullable_strings_equal
nullable_strings_equal_refl none = refl
nullable_strings_equal_refl (some s) = bytes_eq_refl s

module _ (objects : Objects) where
  open objects use {Object, is_equal_object, is_equal_object_refl, is_equal_object-hash}

  represented_equal_refl : (o : Option Object) → represented_equal objects o o ≡ true
  unfolding represented_equal
  represented_equal_refl none = refl
  represented_equal_refl (some o) = is_equal_object_refl o

  nullable-hash :
      (s t : Option Bytes)
      → nullable_strings_equal s t ≡ true
      → nullable_hash objects s ≡ nullable_hash objects t
  unfolding nullable_strings_equal nullable_hash
  nullable-hash none none h = refl
  nullable-hash none (some t) h = cc
  nullable-hash (some s) none h = cc
  nullable-hash (some s) (some t) h = ap objects.string_hash (bytes_eq→≡ s t h)

  represented-hash :
      (a b : Option Object)
      → represented_equal objects a b ≡ true
      → represented_hash objects a ≡ represented_hash objects b
  unfolding represented_equal represented_hash
  represented-hash none none h = refl
  represented-hash none (some b) h = cc
  represented-hash (some a) none h = cc
  represented-hash (some a) (some b) h = is_equal_object-hash a b h

  -- What equal messages have in common of what the hash reads.
  record Agree (other m : LogMessage Object) : Type 0 where
    same_message : other.message ≡ m.message
    same_format : other.message_format ≡ m.message_format
    same_level : other.level ≡ m.level
    same_flag : other.flag ≡ m.flag
    same_context : other.context ≡ m.context
    same_file : other.file ≡ m.file
    same_function : nullable_hash objects other.function ≡ nullable_hash objects m.function
    same_line : other.line ≡ m.line
    same_object :
        represented_hash objects other.represented_object
        ≡ represented_hash objects m.represented_object
    same_timestamp : other.timestamp ≡ m.timestamp
    same_thread : other.thread_id ≡ m.thread_id
    same_queue : other.queue_label ≡ m.queue_label
    same_qos : other.qos ≡ m.qos

  eq_nat : (a b : ℕ) → (a == b) ≡ true → a ≡ b
  eq_nat a b h = (==_iff a b).0 h

  same_fields-Agree :
      (other m : LogMessage Object) → same_fields objects other m ≡ true → Agree other m
  same_fields-Agree other m h = record {
    same_message = bytes_eq→≡ other.message m.message (ground (arith, h));
    same_format = bytes_eq→≡ other.message_format m.message_format (ground (arith, h));
    same_level = eq_nat other.level m.level (ground (arith, h));
    same_flag = eq_nat other.flag m.flag (ground (arith, h));
    same_context = eq_nat other.context m.context (ground (arith, h));
    same_file = bytes_eq→≡ other.file m.file (ground (arith, h));
    same_function = nullable-hash other.function m.function (ground (arith, h));
    same_line = eq_nat other.line m.line (ground (arith, h));
    same_object =
        represented-hash other.represented_object m.represented_object (ground (arith, h));
    same_timestamp = eq_nat other.timestamp m.timestamp (ground (arith, h));
    same_thread = bytes_eq→≡ other.thread_id m.thread_id (ground (arith, h));
    same_queue = bytes_eq→≡ other.queue_label m.queue_label (ground (arith, h));
    same_qos = eq_nat other.qos m.qos (ground (arith, h));
  }

  hash-Agree : (other m : LogMessage Object) → Agree other m → hash objects other ≡ hash objects m
  unfolding hash
  hash-Agree other m v =
      rw
        (
          v.same_message, v.same_format, v.same_level, v.same_flag, v.same_context, v.same_file,
          v.same_function, v.same_line, v.same_object, v.same_timestamp, v.same_thread,
          v.same_queue, v.same_qos,
        )
        refl

  same_fields_refl : (m : LogMessage Object) → same_fields objects m m ≡ true
  same_fields_refl m = ground (
    arith,
    bytes_eq_refl m.message,
    bytes_eq_refl m.message_format,
    bytes_eq_refl m.file,
    bytes_eq_refl m.thread_id,
    bytes_eq_refl m.queue_label,
    nullable_strings_equal_refl m.function,
    represented_equal_refl m.represented_object,
  )

  -- Equal messages have equal hashes, if the argument which says that both are one object is true only of
  -- one message, and the represented objects keep their contract.
  pub is_equal-hash :
      (same : Bool) (other m : LogMessage Object)
      → (same ≡ true → other ≡ m)
      → is_equal objects same (some other) m ≡ true
      → hash objects other ≡ hash objects m
  unfolding is_equal
  is_equal-hash true other m one h = ap (hash objects) (one refl)
  is_equal-hash false other m one h = hash-Agree other m (same_fields-Agree other m h)

  -- A copy is equal to its original though it is another object, has the same hash, and also shares the
  -- name of the file, the name of the thread and the options, which equality does not read.
  pub copy-is_equal :
      (m : LogMessage Object)
      → (is_equal objects false (some (copy m)) m ≡ true)
        × (hash objects (copy m) ≡ hash objects m)
        × (copy m ≡ m)
  unfolding copy is_equal
  copy-is_equal m = (same_fields_refl m, refl, refl)
