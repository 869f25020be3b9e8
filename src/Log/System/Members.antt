-- ===== src/Log/System/Members.antt =====
-- The table of loggers under any sequence of calls.
use cocoa_lumberjack.Base.{ℕ, ◌≡◌, ◌≢◌, refl, ◌∙◌, [], ◌∷◌, List, none, All}
use cocoa_lumberjack.Log.Registry.{Registry, find_node}
use cocoa_lumberjack.Log.Registry.Members.{
  IsDistinct, lt_add_logger-IsDistinct, lt_remove_logger-IsDistinct,
  lt_remove_all_loggers-IsDistinct, lt_log-IsDistinct, lt_flush-IsDistinct, Ignores, calls_to,
  lt_add_logger-Ignores, lt_remove_logger-Ignores, lt_remove_all_loggers-Ignores, lt_log-Ignores,
  lt_flush-Ignores,
}
use cocoa_lumberjack.Log.System.{Task, perform, perform_all}

perform-IsDistinct : (t : Task) (r : Registry) → IsDistinct r.nodes → IsDistinct (perform t r).nodes
unfolding perform
perform-IsDistinct (Task.add_logger l level) r d = lt_add_logger-IsDistinct l level r d
perform-IsDistinct (Task.remove_logger l) r d = lt_remove_logger-IsDistinct l r d
perform-IsDistinct Task.remove_all_loggers r d = lt_remove_all_loggers-IsDistinct r
perform-IsDistinct (Task.log m) r d = lt_log-IsDistinct m r d
perform-IsDistinct Task.flush_log r d = lt_flush-IsDistinct r d

-- No sequence of calls puts a logger into the table twice at the same level.
pub perform_all-IsDistinct :
    (ts : List Task) (r : Registry) → IsDistinct r.nodes → IsDistinct (perform_all ts r).nodes
unfolding perform_all
perform_all-IsDistinct [] r d = d
perform_all-IsDistinct (t ∷ ts) r d =
    perform_all-IsDistinct ts (perform t r) (perform-IsDistinct t r d)

-- The task does not add the logger `x`.
abbrev pub IsNotAdding : ℕ → Task → Type 0
IsNotAdding x (Task.add_logger l level) = l.ident ≢ x
IsNotAdding x t = Unit {0}

perform-Ignores :
    (x : ℕ) (t : Task) (r : Registry)
    → find_node x r.nodes ≡ none
    → IsNotAdding x t
    → Ignores x r (perform t r)
unfolding perform
perform-Ignores x (Task.add_logger l level) r out ne = lt_add_logger-Ignores x r out l level ne
perform-Ignores x (Task.remove_logger l) r out ne = lt_remove_logger-Ignores x r out l
perform-Ignores x Task.remove_all_loggers r out ne = lt_remove_all_loggers-Ignores x r out
perform-Ignores x (Task.log m) r out ne = lt_log-Ignores x r out m
perform-Ignores x Task.flush_log r out ne = lt_flush-Ignores x r out

-- A logger that is not in the table gets no call of any kind from any sequence of calls that does not
-- add it.
pub perform_all-ignores :
    (x : ℕ) (ts : List Task) (r : Registry)
    → find_node x r.nodes ≡ none
    → All (IsNotAdding x) ts
    → calls_to x (perform_all ts r).sent ≡ calls_to x r.sent
unfolding perform_all
perform_all-ignores x [] r out h = refl
perform_all-ignores x (t ∷ ts) r out h =
    let (out', same) = perform-Ignores x t r out h.0 in
    perform_all-ignores x ts (perform t r) out' h.1 ∙ same
