-- ===== src/Log/System.antt =====
-- The public methods of DDLog and the queues behind them. They put blocks on the serial logging
-- queue; the logging queue runs the `lt_` methods one at a time, and does not go on while a block of
-- its dispatch group is waiting; the loggers' queues run side by side, each in order. The steps are
-- those of a machine with several processors, where `lt_log` dispatches to all loggers and then waits;
-- on one processor the blocks run one after the other, which is one of the orders of these steps. The
-- methods are called by code that is not itself on the logging queue.
pub mod Order
pub mod Backlog
pub mod Members
pub mod Progress
pub mod Examples
use cocoa_lumberjack.Base.{ℕ, ◌≡◌, ◌≢◌, List, [], ◌∷◌, ◌++◌, Option, none, some, ◌==◌, All, keep}
use cocoa_lumberjack.Log.Registry.{
  Logger, LogMessage, Block, group_size, Registry, lt_add_logger, lt_remove_logger,
  lt_remove_all_loggers, lt_log, lt_flush,
}

-- A block on the logging queue.
pub data Task : Type 0 where
  add_logger : Logger → ℕ → Task
  remove_logger : Logger → Task
  remove_all_loggers : Task
  log : LogMessage → Task
  flush_log : Task

-- A call of a public method; `none` is nil.
pub data Request : Type 0 where
  add_logger : Option Logger → ℕ → Request
  remove_logger : Option Logger → Request
  remove_all_loggers flush_log : Request
  log : Option LogMessage → Request

-- What the method puts on the logging queue: nothing for a nil logger or a nil format.
unfoldable pub enqueue : Request → List Task → List Task
enqueue (Request.add_logger none level) ts = ts
enqueue (Request.add_logger (some l) level) ts = ts ++ Task.add_logger l level ∷ []
enqueue (Request.remove_logger none) ts = ts
enqueue (Request.remove_logger (some l)) ts = ts ++ Task.remove_logger l ∷ []
enqueue Request.remove_all_loggers ts = ts ++ Task.remove_all_loggers ∷ []
enqueue Request.flush_log ts = ts ++ Task.flush_log ∷ []
enqueue (Request.log none) ts = ts
enqueue (Request.log (some m)) ts = ts ++ Task.log m ∷ []

-- The method that a block of the logging queue calls.
unfoldable pub perform : Task → Registry → Registry
perform (Task.add_logger l level) r = lt_add_logger l level r
perform (Task.remove_logger l) r = lt_remove_logger l r
perform Task.remove_all_loggers r = lt_remove_all_loggers r
perform (Task.log m) r = lt_log m r
perform Task.flush_log r = lt_flush r

unfoldable pub perform_all : List Task → Registry → Registry
perform_all [] r = r
perform_all (t ∷ ts) r = perform_all ts (perform t r)

abbrev pub on_queue : ℕ → List Block → List Block
on_queue q = keep (λ b. b.queue == q)

-- `sent` of the table holds what the last task dispatched. `executed` records the tasks that the
-- logging queue has begun, and `done` the blocks that the loggers' queues have run.
pub record System : Type 0 where
  pub tasks : List Task
  pub executed : List Task
  pub registry : Registry
  pub pending : List Block
  pub done : List Block

abbrev pub empty_registry : Registry
empty_registry = record { nodes = []; next_queue = 0; sent = [] }

abbrev pub initial : System
initial = record { tasks = []; executed = []; registry = empty_registry; pending = []; done = [] }

abbrev pub clear_sent : Registry → Registry
clear_sent r = record r { sent = [] }

-- The logging queue begins its first task.
abbrev pub begin_task : Task → List Task → System → System
begin_task t rest s =
    let r = perform t (clear_sent s.registry) in
    record s {
      tasks = rest;
      executed = s.executed ++ t ∷ [];
      registry = r;
      pending = s.pending ++ r.sent;
    }

-- One step: a method is called, the logging queue begins a task, or a logger's queue runs its first
-- block.
pub data Step (s u : System) : Type 0 where
  call : (r : Request) → u ≡ record s { tasks = enqueue r s.tasks } → Step s u
  begin :
      (t : Task) (rest : List Task)
      → s.tasks ≡ t ∷ rest
      → group_size s.pending ≡ 0
      → u ≡ begin_task t rest s
      → Step s u
  run :
      (pre : List Block) (b : Block) (post : List Block)
      → s.pending ≡ pre ++ b ∷ post
      → All (λ c. c.queue ≢ b.queue) pre
      → u ≡ record s { pending = pre ++ post; done = s.done ++ b ∷ [] }
      → Step s u

pub data Reach (s : System) : System → Type 0 where
  here : Reach s s
  next : {t u : System} → Reach s t → Step t u → Reach s u
