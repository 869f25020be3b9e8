-- ===== src/Buffer/Examples.antt =====
-- A buffer in front of a file logger at which the theorems apply.
use cocoa_lumberjack.Base.{
  ℕ, suc, arith, sym, ◌∙◌, ◌≡◌, inl, refl, true, false, List, [], ◌∷◌, none, some,
}
use cocoa_lumberjack.FileName.{slash}
use cocoa_lumberjack.FileLogger.{FileLogger, Env}
use cocoa_lumberjack.FileLogger.Invariant.{IsSound}
use cocoa_lumberjack.FileLogger.Contents.{is_on_disk}
use cocoa_lumberjack.FileLogger.Kept.{everything, Unused}
use cocoa_lumberjack.Buffer.{
  Sink, Mount, Buffer, Call, log_bytes, set_max_buffer_size, init_with_file_logger, run_calls,
  flush,
}
use cocoa_lumberjack.Buffer.Files.{Works, Reliable, file_sink, buffered_complete}

-- Each new file has its own path.
abbrev around : ℕ → Env
around n = record {
  now = n;
  create = some (suc n);
  header = [];
  can_open = true;
  can_get_offset = true;
  can_write = true;
  should_archive_recent = false;
  can_mark_new = true;
  deletes = true;
  disk_quota = 5;
  max_files = 3;
  can_remove = λ p. true;
}

around-Works : (n : ℕ) → Works (around n)
around-Works n = record {
  creates = refl;
  opens = refl;
  writes = refl;
  no_header = refl;
  removes = λ p. refl;
}

around-Reliable : Reliable around
around-Reliable = record { works = around-Works; distinct = λ m n p c d. ground (arith, c ∙ sym d) }

abbrev files : Sink
files = file_sink around around-Reliable

abbrev fresh : FileLogger
fresh = record {
  maximum_file_size = 4;
  rolling_frequency = 0;
  do_not_reuse_log_files = false;
  current = none;
  handle = none;
  vnode = false;
  timer = none;
  disk = [];
  archived = [];
  deletions = 0;
  deleted = [];
}

fresh-Unused : Unused around 0 fresh
unfolding is_on_disk
fresh-Unused m p le c = refl

fresh-IsSound : IsSound fresh
fresh-IsSound =
    inl (record { no_handle = refl; no_vnode = refl; no_timer = refl; newest = inl refl })

abbrev buffered : Buffer (ℕ × FileLogger)
buffered = record {
  file_logger = (0, fresh);
  buffer = 65 ∷ [];
  max_buffer_size_bytes = 3;
  current_buffer_size_bytes = 1;
}

abbrev session : List Call
session =
    log_bytes ((66 ∷ []) ∷ (67 ∷ 68 ∷ []) ∷ [])
    ∷ set_max_buffer_size [] 2
    ∷ log_bytes ((69 ∷ []) ∷ [])
    ∷ []

abbrev mounts : List Mount
mounts = record { name = slash ∷ []; iosize = 8192; bsize = 4096 } ∷ []

buffered_complete_example :
    let b = run_calls files session (init_with_file_logger files mounts (0, fresh)) in
    everything (flush files b).file_logger.1 ≡ 66 ∷ 67 ∷ 68 ∷ 69 ∷ []
buffered_complete_example =
    buffered_complete around around-Reliable mounts fresh session fresh-IsSound fresh-Unused
