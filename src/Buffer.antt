-- ===== src/Buffer.antt =====
-- DDBufferedProxy of Sources/CocoaLumberjack/Extensions/DDFileLogger+Buffering.m: a buffer in memory in
-- front of a file logger.
pub mod Transparent
pub mod Files
pub mod Wrapping
mod Examples
use cocoa_lumberjack.Base.{
  ℕ, ◌+◌, ◌≡◌, Bool, true, false, ◌&&◌, List, [], ◌∷◌, ◌++◌, Option, none, some, leb, ◌==◌,
  if◌then◌else◌, length, min,
}
use cocoa_lumberjack.FileName.{Bytes, slash}

-- What the buffer needs of the file logger behind it: a method that takes data, and what has arrived.
pub record Sink : Type 1 where
  pub State : Type 0
  pub IsGood : State → Type 0
  pub log_data : Bytes → State → State
  pub received : State → Bytes
  pub log_data-IsGood : (d : Bytes) (s : State) → IsGood s → IsGood (log_data d s)
  pub received-log_data :
      (d : Bytes) (s : State) → IsGood s → received (log_data d s) ≡ received s ++ d

abbrev pub default_buffer_size : ℕ
default_buffer_size = 4096

abbrev pub max_buffer_size : ℕ
max_buffer_size = 1048576

-- An entry of `getmntinfo`: where the file system is mounted, `f_iosize` and `f_bsize`.
pub record Mount : Type 0 where
  pub name : Bytes
  pub iosize : ℕ
  pub bsize : ℕ

-- `strnlen(name, 2) == 1 && *name == '/'`
is_root : Bytes → Bool
is_root [] = false
is_root (c ∷ []) = c == slash
is_root (c ∷ d ∷ ds) = false

pub buffer_size_bytes : Bool → List Mount → ℕ
unfolding is_root
buffer_size_bytes max [] = if max then max_buffer_size else default_buffer_size
buffer_size_bytes max (m ∷ ms) =
    let rest = buffer_size_bytes max ms in
    if is_root m.name then (if max then m.iosize else m.bsize) else rest

pub record Buffer (S : Type 0) : Type 0 where
  pub file_logger : S
  pub buffer : Bytes
  pub max_buffer_size_bytes : ℕ
  pub current_buffer_size_bytes : ℕ

module _ (sink : Sink) where
  open sink use {State, log_data}

  pub flush_buffer : Buffer State → Buffer State
  flush_buffer b = record b { buffer = []; current_buffer_size_bytes = 0 }

  pub init_with_file_logger : List Mount → State → Buffer State
  init_with_file_logger mounts s = record {
    file_logger = s;
    buffer = [];
    max_buffer_size_bytes = buffer_size_bytes false mounts;
    current_buffer_size_bytes = 0;
  }

  pub lt_send_buffered_data : Buffer State → Buffer State
  unfolding flush_buffer
  lt_send_buffered_data b =
      flush_buffer (record b { file_logger = log_data b.buffer b.file_logger })

  -- One range of bytes of the message's data.
  pub append_range : Bytes → Buffer State → Buffer State
  append_range bytes b =
      let b' = record b {
        buffer = b.buffer ++ bytes;
        current_buffer_size_bytes = b.current_buffer_size_bytes + length bytes;
      } in
      if leb b.max_buffer_size_bytes b'.current_buffer_size_bytes
      then lt_send_buffered_data b'
      else b'

  pub log_ranges : List Bytes → Buffer State → Buffer State
  log_ranges [] b = b
  log_ranges (r ∷ rs) b = log_ranges rs (append_range r b)

  -- The file logger's own flush only synchronises the file.
  pub flush : Buffer State → Buffer State
  flush b = lt_send_buffered_data b

  pub set_max_buffer_size_bytes : List Mount → ℕ → Buffer State → Buffer State
  set_max_buffer_size_bytes mounts n b = record b {
    max_buffer_size_bytes = min n (buffer_size_bytes true mounts);
  }

-- A call on the proxy. The data of a message comes in ranges of bytes.
pub data Call : Type 0 where
  log_bytes : List Bytes → Call
  flush_all : Call
  set_max_buffer_size : List Mount → ℕ → Call

pub run_call : (sink : Sink) → Call → Buffer sink.State → Buffer sink.State
run_call sink (log_bytes ranges) b = log_ranges sink ranges b
run_call sink flush_all b = flush sink b
run_call sink (set_max_buffer_size mounts n) b = set_max_buffer_size_bytes sink mounts n b

pub run_calls : (sink : Sink) → List Call → Buffer sink.State → Buffer sink.State
run_calls sink [] b = b
run_calls sink (c ∷ cs) b = run_calls sink cs (run_call sink c b)
