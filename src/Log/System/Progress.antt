-- ===== src/Log/System/Progress.antt =====
-- How the work that waits in the queues can be finished.
use cocoa_lumberjack.Base.{◌≡◌, [], ◌++◌, List}
use cocoa_lumberjack.Log.Registry.{Block}
use cocoa_lumberjack.Log.System.{Task, System, Reach}

abbrev after_pending : List Block → System → System
after_pending bs s = record s { pending = []; done = s.done ++ bs }

abbrev Settled : System → System → List Task → Type 0
Settled s u ts = Reach s u × (u.tasks ≡ []) × (u.pending ≡ []) × (u.executed ≡ s.executed ++ ts)
