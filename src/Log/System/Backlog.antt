-- ===== src/Log/System/Backlog.antt =====
-- How much waits in the loggers' queues.
use cocoa_lumberjack.Base.{◌≤◌, refl, sym, ap, subst, ◌∷◌, ◌++◌, List, arith, length}
use cocoa_lumberjack.Log.Registry.{Registry, Block, group_size}
use cocoa_lumberjack.Log.Registry.Group.{
  Fits, group_size-append, lt_add_logger-Fits, lt_remove_logger-Fits, lt_remove_all_loggers-Fits,
  lt_log-Fits, lt_flush-Fits,
}
use cocoa_lumberjack.Log.System.{
  Task, System, Step, call, begin, run, Reach, here, next, perform, initial, clear_sent,
}

perform-Fits : (t : Task) (r : Registry) → Fits (perform t (clear_sent r))
unfolding perform
perform-Fits (Task.add_logger l level) r = lt_add_logger-Fits (clear_sent r) refl l level
perform-Fits (Task.remove_logger l) r = lt_remove_logger-Fits (clear_sent r) refl l
perform-Fits Task.remove_all_loggers r = lt_remove_all_loggers-Fits (clear_sent r) refl
perform-Fits (Task.log m) r = lt_log-Fits (clear_sent r) refl m
perform-Fits Task.flush_log r = lt_flush-Fits (clear_sent r) refl

abbrev IsBounded : System → Type 0
IsBounded s = group_size s.pending ≤ length s.registry.nodes

group_size-skip :
    (pre : List Block) (b : Block) (post : List Block)
    → group_size (pre ++ post) ≤ group_size (pre ++ b ∷ post)
group_size-skip pre b post =
    ground (arith, group_size-append pre post, group_size-append pre (b ∷ post))

Step-IsBounded : {s u : System} → Step s u → IsBounded s → IsBounded u
Step-IsBounded (call r e) v = subst IsBounded (sym e) v
Step-IsBounded {s} (begin t rest e idle eq) v = subst IsBounded (sym eq) (
    omega (
      arith,
      group_size-append s.pending (perform t (clear_sent s.registry)).sent,
      perform-Fits t s.registry,
    ))
Step-IsBounded {s} (run pre b post e first eq) v =
    subst IsBounded (sym eq) (omega (arith, ap group_size e, group_size-skip pre b post))

-- At most as many blocks with messages or flushes wait in all the loggers' queues together as there
-- are loggers, however many messages wait in the logging queue.
pub Reach-backlog : {s : System} → Reach initial s → group_size s.pending ≤ length s.registry.nodes
Reach-backlog here = omega arith
Reach-backlog (next r st) = Step-IsBounded st (Reach-backlog r)
