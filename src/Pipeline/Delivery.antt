-- ===== src/Pipeline/Delivery.antt =====
-- From the calls of DDLog to the contents of the log files.
use cocoa_lumberjack.Base.{
  ℕ, suc, ◌≡◌, refl, sym, ap, ◌∙◌, List, [], ◌∷◌, ◌++◌, append_assoc, append-nil, ◌==◌, keep,
  if◌then◌else◌, Bool-cases, inl, inr,
}
use cocoa_lumberjack.FileName.{Bytes}
use cocoa_lumberjack.Log.Registry.{
  LogMessage, Block, Call, did_add_in_queue, did_add, will_remove, flush, log_message, in_group,
  group_size,
}
use cocoa_lumberjack.Log.System.{System, Reach, initial, on_queue}
use cocoa_lumberjack.Log.System.Order.{sequential, Reach-flushed}
use cocoa_lumberjack.FileLogger.{FileLogger, Env, background, lt_roll_log_file_now}
use cocoa_lumberjack.FileLogger.Invariant.{IsSound, roll-IsSound}
use cocoa_lumberjack.FileLogger.Contents.{all_bytes, Same-roll}
use cocoa_lumberjack.FileLogger.Kept.{everything, everything-grows, Unused, Unused-later}
use cocoa_lumberjack.Buffer.Files.{Reliable, IsReady, background-IsReady, log_data-IsReady}
use cocoa_lumberjack.Pipeline.{run_block, run_blocks}

-- The data of the messages that a block hands to the logger.
abbrev pub data_of_call : ℕ → (LogMessage → Bytes) → Call → Bytes
data_of_call logger text (did_add_in_queue x) = []
data_of_call logger text (did_add x) = []
data_of_call logger text (will_remove x) = []
data_of_call logger text (flush x) = []
data_of_call logger text (log_message x m) = if x == logger then text m else []

abbrev pub data_of_blocks : ℕ → (LogMessage → Bytes) → List Block → Bytes
data_of_blocks logger text [] = []
data_of_blocks logger text (b ∷ bs) =
    data_of_call logger text b.call ++ data_of_blocks logger text bs

module _ (logger : ℕ) (text : LogMessage → Bytes) where
  -- Only the blocks of logging calls hand over data.
  data_of_blocks-in_group :
      (bs : List Block)
      → data_of_blocks logger text (keep in_group bs) ≡ data_of_blocks logger text bs
  data_of_blocks-in_group [] = refl
  data_of_blocks-in_group (b ∷ bs) = by_call b.call (data_of_blocks-in_group bs)
    where
      by_call :
          (c : Call)
          → data_of_blocks logger text (keep in_group bs) ≡ data_of_blocks logger text bs
          → data_of_blocks logger text (
              if in_group (record { queue = b.queue; call = c })
              then record { queue = b.queue; call = c } ∷ keep in_group bs
              else keep in_group bs)
            ≡ data_of_call logger text c ++ data_of_blocks logger text bs
      by_call (did_add_in_queue x) e = e
      by_call (did_add x) e = e
      by_call (will_remove x) e = e
      by_call (flush x) e = e
      by_call (log_message x m) e = ap (λ r. (if x == logger then text m else []) ++ r) e

  module _ (around : ℕ → Env) (reliable : Reliable around) where
    -- A state in which a step adds data to the files, and is ready for the next.
    abbrev Adds : ℕ → FileLogger → FileLogger → Bytes → Type 0
    Adds n s t d = IsReady around (suc n) t × (everything t ≡ everything s ++ d)

    idle-Adds : (n : ℕ) (s : FileLogger) → IsReady around n s → Adds n s s []
    idle-Adds n s v = ((v.0, Unused-later around n s v.1), sym (append-nil (everything s)))

    roll-Adds : (n : ℕ) (s : FileLogger) → IsReady around n s → Adds n s (lt_roll_log_file_now s) []
    roll-Adds n s v =
        let (all, kept, paths) = Same-roll s in
        (
          (roll-IsSound s v.0, λ m p le c. paths p ∙ Unused-later around n s v.1 m p le c),
          everything-grows s (lt_roll_log_file_now s) [] (all ∙ sym (append-nil (all_bytes s.disk)))
              kept,
        )

    -- A block adds its data to the files.
    run_block-Adds :
        (n : ℕ) (b : Block) (s : FileLogger)
        → IsReady around n s
        → Adds n s (run_block logger text (around n) b s) (data_of_call logger text b.call)
    unfolding run_block
    run_block-Adds n b s v = by_call b.call
      where
        by_call :
            (c : Call)
            → Adds n s
                (run_block logger text (around n) (record { queue = b.queue; call = c }) s)
                (data_of_call logger text c)
        by_call (did_add_in_queue x) = idle-Adds n s v
        by_call (did_add x) = idle-Adds n s v
        by_call (will_remove x) = elim (Bool-cases (x == logger)) [
          | inl e ↦ rw e (roll-Adds n s v)
          | inr e ↦ rw e (idle-Adds n s v)
        ]
        by_call (flush x) = idle-Adds n s v
        by_call (log_message x m) = elim (Bool-cases (x == logger)) [
          | inl e ↦ rw e (log_data-IsReady around reliable n (text m) s v)
          | inr e ↦ rw e (idle-Adds n s v)
        ]

    run_blocks-bytes :
        (n : ℕ) (bs : List Block) (s : FileLogger)
        → IsReady around n s
        → everything (run_blocks logger text around n bs s)
          ≡ everything s ++ data_of_blocks logger text bs
    unfolding run_blocks
    run_blocks-bytes n [] s v = sym (append-nil (everything s))
    run_blocks-bytes n (b ∷ bs) s v =
        let s' = background (around n) s in
        let (ready, same) = background-IsReady around reliable n s v in
        let (v', e) = run_block-Adds n b s' ready in
        run_blocks-bytes (suc n) bs (run_block logger text (around n) b s') v'
        ∙ ap (λ x. x ++ data_of_blocks logger text bs)
            (e ∙ ap (λ x. x ++ data_of_call logger text b.call) same)
        ∙ append_assoc (everything s) (data_of_call logger text b.call)
            (data_of_blocks logger text bs)

    -- From the calls to the files: a sound file logger runs the blocks that DDLog put on its queue, and
    -- files can be created, opened, written to and deleted, without headers and at unused paths, each
    -- different from the others. Whatever order the queues ran in, when no block of a logging or
    -- flushing call waits, as after a flush, the log files together with those that the manager deleted
    -- since hold, the oldest first, what they held and then the data of exactly those messages that the
    -- calls, one after the other, send to this logger.
    pub run_blocks-data_of_blocks :
        {s : System} (queue : ℕ) (start : FileLogger)
        → Reach initial s
        → group_size s.pending ≡ 0
        → IsSound start
        → Unused around 0 start
        → everything (run_blocks logger text around 0 (on_queue queue s.done) start)
          ≡ everything start ++ data_of_blocks logger text (on_queue queue (sequential s).sent)
    run_blocks-data_of_blocks {s} queue start r idle v u =
        let ran = on_queue queue s.done in
        let sent = on_queue queue (sequential s).sent in
        let same : data_of_blocks logger text ran ≡ data_of_blocks logger text sent =
          sym (data_of_blocks-in_group ran)
          ∙ ap (data_of_blocks logger text) (Reach-flushed queue r idle)
          ∙ data_of_blocks-in_group sent in
        run_blocks-bytes 0 ran start (v, u) ∙ ap (λ d. everything start ++ d) same
