-- ===== src/Pipeline/Examples.antt =====
-- A file logger behind DDLog at which the theorem applies.
use cocoa_lumberjack.Base.{
  ℕ, suc, arith, sym, ◌∙◌, ◌≡◌, refl, true, false, [], ◌∷◌, none, some, inl,
}
use cocoa_lumberjack.FileName.{Bytes}
use cocoa_lumberjack.Log.Registry.{LogMessage}
use cocoa_lumberjack.Log.System.{on_queue}
use cocoa_lumberjack.Log.System.Order.{sequential}
use cocoa_lumberjack.Log.System.Examples.{finished, finished-Reach}
use cocoa_lumberjack.FileLogger.{FileLogger, Env}
use cocoa_lumberjack.FileLogger.Invariant.{IsSound}
use cocoa_lumberjack.FileLogger.Contents.{is_on_disk}
use cocoa_lumberjack.FileLogger.Kept.{everything, Unused}
use cocoa_lumberjack.Buffer.Files.{Works, Reliable}
use cocoa_lumberjack.Pipeline.{run_blocks}
use cocoa_lumberjack.Pipeline.Delivery.{data_of_blocks, run_blocks-data_of_blocks}

-- The line of a message, here its number and a line end.
abbrev line : LogMessage → Bytes
line m = m.ident ∷ 10 ∷ []

abbrev around : ℕ → Env
around n = record {
  now = n;
  create = some (suc n);
  header = [];
  can_open = true;
  can_get_offset = true;
  can_write = true;
  should_archive_recent = false;
  can_mark_new = true;
  deletes = true;
  disk_quota = 5;
  max_files = 3;
  can_remove = λ p. true;
}

around-Works : (n : ℕ) → Works (around n)
around-Works n = record {
  creates = refl;
  opens = refl;
  writes = refl;
  no_header = refl;
  removes = λ p. refl;
}

around-Reliable : Reliable around
around-Reliable = record { works = around-Works; distinct = λ m n p c d. ground (arith, c ∙ sym d) }

abbrev fresh : FileLogger
fresh = record {
  maximum_file_size = 4;
  rolling_frequency = 0;
  do_not_reuse_log_files = false;
  current = none;
  handle = none;
  vnode = false;
  timer = none;
  disk = [];
  archived = [];
  deletions = 0;
  deleted = [];
}

fresh-Unused : Unused around 0 fresh
unfolding is_on_disk
fresh-Unused m p le c = refl

fresh-IsSound : IsSound fresh
fresh-IsSound =
    inl (record { no_handle = refl; no_vnode = refl; no_timer = refl; newest = inl refl })

run_blocks-data_of_blocks_example :
    everything (run_blocks 7 line around 0 (on_queue 3 finished.done) fresh)
    ≡ data_of_blocks 7 line (on_queue 3 (sequential finished).sent)
run_blocks-data_of_blocks_example =
    run_blocks-data_of_blocks 7 line around around-Reliable 3 fresh finished-Reach refl
      fresh-IsSound fresh-Unused
