-- ===== src/Buffer/Wrapping.antt =====
-- The category Buffering of DDFileLogger in include/CocoaLumberjack/DDFileLogger+Buffering.h, with both
-- implementations of its methods in Extensions/DDFileLogger+Buffering.m, and the end of a proxy.
use cocoa_lumberjack.Base.{◌≡◌, refl, List, ◌++◌}
use cocoa_lumberjack.Buffer.{
  Sink, Mount, Buffer, flush_buffer, init_with_file_logger, lt_send_buffered_data,
}

-- The methods, on the objects that have the type DDFileLogger; a new proxy asks for the mounts.
pub record Buffering (Object : Type 0) : Type 0 where
  pub wrap_with_buffer : List Mount → Object → Object
  pub unwrap_from_buffer : Object → Object

module _ (sink : Sink) where
  -- A file logger, or a proxy in front of one.
  pub data Wrapped : Type 0 where
    plain : sink.State → Wrapped
    proxy : Buffer sink.State → Wrapped

  unfoldable pub wrap_with_buffer : List Mount → Wrapped → Wrapped
  wrap_with_buffer mounts (plain s) = proxy (init_with_file_logger sink mounts s)
  wrap_with_buffer mounts (proxy b) = proxy b

  unfoldable pub unwrap_from_buffer : Wrapped → Wrapped
  unwrap_from_buffer (plain s) = plain s
  unwrap_from_buffer (proxy b) = plain b.file_logger

  abbrev pub buffering : Buffering Wrapped
  unfolding wrap_with_buffer unwrap_from_buffer
  buffering = record {
    wrap_with_buffer = wrap_with_buffer;
    unwrap_from_buffer = unwrap_from_buffer;
  }

  -- What the file logger is once nobody holds the proxy any more.
  unfoldable pub dealloc : Buffer sink.State → sink.State
  dealloc b = (lt_send_buffered_data sink b).file_logger

  -- Wrapping twice is wrapping once, and unwrapping a new proxy gives the file logger; and when a proxy
  -- goes, the file logger gets what was in its buffer.
  pub wrap-unwrap :
      (mounts others : List Mount) (w : Wrapped) (s : sink.State) (b : Buffer sink.State)
      → sink.IsGood b.file_logger
      → (wrap_with_buffer others (wrap_with_buffer mounts w) ≡ wrap_with_buffer mounts w)
        × (unwrap_from_buffer (wrap_with_buffer mounts (plain s)) ≡ plain s)
        × (sink.received (dealloc b) ≡ sink.received b.file_logger ++ b.buffer)
  unfolding wrap_with_buffer unwrap_from_buffer dealloc lt_send_buffered_data flush_buffer
      init_with_file_logger
  wrap-unwrap mounts others (plain t) s b g =
      (refl, refl, sink.received-log_data b.buffer b.file_logger g)
  wrap-unwrap mounts others (proxy c) s b g =
      (refl, refl, sink.received-log_data b.buffer b.file_logger g)
