-- ===== src/Pipeline.antt =====
-- A DDFileLogger behind DDLog: what its queue makes of the blocks that DDLog.m dispatches to it.
pub mod Delivery
mod Examples
use cocoa_lumberjack.Base.{ℕ, zero, suc, List, [], ◌∷◌, ◌==◌, if◌then◌else◌}
use cocoa_lumberjack.FileName.{Bytes}
use cocoa_lumberjack.Log.Registry.{
  LogMessage, Block, Call, did_add_in_queue, did_add, will_remove, flush, log_message,
}
use cocoa_lumberjack.FileLogger.{FileLogger, Env, background, lt_log_data, lt_roll_log_file_now}

-- The logger has the identity `logger`, and `text m` is what `lt_dataForMessage:` makes of `m`. A block
-- that calls another logger does nothing to it, nor does an added logger's notice.
pub run_block : ℕ → (LogMessage → Bytes) → Env → Block → FileLogger → FileLogger
run_block logger text env b s = elim b.call [
  | did_add_in_queue x ↦ s
  | did_add x ↦ s
  | will_remove x ↦ if x == logger then lt_roll_log_file_now s else s
  | flush x ↦ s
  | log_message x m ↦ if x == logger then lt_log_data env (text m) s else s
]

-- Each block runs in surroundings of its own, numbered from `n`; a block of the global queue that deletes
-- old files may run before it.
pub run_blocks : ℕ → (LogMessage → Bytes) → (ℕ → Env) → ℕ → List Block → FileLogger → FileLogger
unfolding run_block
run_blocks logger text around n [] s = s
run_blocks logger text around n (b ∷ bs) s =
    run_blocks logger text around (suc n) bs
      (run_block logger text (around n) b (background (around n) s))
