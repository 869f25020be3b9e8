-- ===== src/Log/System/Examples.antt =====
-- A run of the logging system on one logger, at which the theorems apply.
use cocoa_lumberjack.Base.{ℕ, ◌≡◌, ◌≤◌, refl, true, false, List, [], ◌∷◌, ◌++◌, some, length, keep}
use cocoa_lumberjack.Log.Level.{is_enabled}
use cocoa_lumberjack.Log.Registry.{
  Logger, LogMessage, Node, Block, did_add, log_message, in_group, group_size, lt_add_logger,
  is_added, queue_for, fresh_after, added_notice, log_blocks, lt_log,
}
use cocoa_lumberjack.Log.System.{
  Task, Request, System, Reach, here, next, call, begin, run, initial, begin_task, enqueue, perform,
  on_queue,
}
use cocoa_lumberjack.Log.System.Order.{Reach-order, Reach-flushed, sequential}
use cocoa_lumberjack.Log.System.Backlog.{Reach-backlog}

abbrev tty : Logger
tty = record {
  ident = 7;
  own_queue = some 3;
  has_did_add_in_queue = false;
  has_did_add = true;
  has_will_remove = false;
  has_flush = true;
}

abbrev failure : LogMessage
failure = record { ident = 5; flag = 1 }

abbrev tty_node : ℕ → Node
tty_node level = record { logger = tty; level = level; queue = 3 }

abbrev add_tty : Task
add_tty = Task.add_logger tty 3

abbrev log_failure : Task
log_failure = Task.log failure

abbrev queued : System
queued = record initial { tasks = add_tty ∷ log_failure ∷ [] }

abbrev both_begun : System
both_begun = begin_task log_failure [] (begin_task add_tty (log_failure ∷ []) queued)

abbrev blocks : List Block
blocks =
    record { queue = 3; call = did_add 7 } ∷ record { queue = 3; call = log_message 7 failure } ∷ []

abbrev pub finished : System
finished = record both_begun { pending = []; done = blocks }

both_begun-Reach : Reach initial both_begun
unfolding enqueue perform lt_add_logger is_added queue_for fresh_after added_notice
both_begun-Reach =
    next
      (next
        (next (next here (call (Request.add_logger (some tty) 3) refl))
          (call (Request.log (some failure)) refl))
        (begin add_tty (log_failure ∷ []) refl refl refl))
      (begin log_failure [] refl refl refl)

both_begun-pending : both_begun.pending ≡ blocks
unfolding enqueue perform lt_add_logger is_added queue_for fresh_after added_notice lt_log
    log_blocks is_enabled
both_begun-pending = refl

pub finished-Reach : Reach initial finished
finished-Reach =
    next
      (next both_begun-Reach (
        run [] (record { queue = 3; call = did_add 7 })
          (record { queue = 3; call = log_message 7 failure } ∷ []) both_begun-pending tt refl))
      (run [] (record { queue = 3; call = log_message 7 failure }) [] refl tt refl)

Reach-order_example :
    (on_queue 3 finished.done ++ on_queue 3 finished.pending
      ≡ on_queue 3 (sequential finished).sent)
    × (finished.registry.nodes ≡ (sequential finished).nodes)
Reach-order_example = Reach-order 3 finished-Reach

Reach-flushed_example :
    keep in_group (on_queue 3 finished.done) ≡ keep in_group (on_queue 3 (sequential finished).sent)
Reach-flushed_example = Reach-flushed 3 finished-Reach refl

Reach-backlog_example : group_size both_begun.pending ≤ length both_begun.registry.nodes
Reach-backlog_example = Reach-backlog both_begun-Reach
