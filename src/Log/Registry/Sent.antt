-- ===== src/Log/Registry/Sent.antt =====
-- What the `lt_` methods of the logger table dispatch, and what was dispatched before.
use cocoa_lumberjack.Base.{ℕ, ◌≡◌, refl, [], ◌++◌, append-nil, List, arith}
use cocoa_lumberjack.Log.Registry.{
  Logger, LogMessage, Block, Registry, lt_add_logger, lt_remove_logger, lt_remove_all_loggers,
  lt_log, lt_flush,
}

-- The table with blocks put before those that it sent.
abbrev pub sent_after : List Block → Registry → Registry
sent_after bs r = record r { sent = bs ++ r.sent }

abbrev pub unsent : Registry → Registry
unsent r = record r { sent = [] }

pub lt_add_logger-unsent :
    (l : Logger) (level : ℕ) (r : Registry)
    → lt_add_logger l level r ≡ sent_after r.sent (lt_add_logger l level (unsent r))
unfolding lt_add_logger
lt_add_logger-unsent l level r = ground (arith, append-nil r.sent)

pub lt_remove_logger-unsent :
    (l : Logger) (r : Registry)
    → lt_remove_logger l r ≡ sent_after r.sent (lt_remove_logger l (unsent r))
unfolding lt_remove_logger
lt_remove_logger-unsent l r = ground (arith, append-nil r.sent)

pub lt_remove_all_loggers-unsent :
    (r : Registry) → lt_remove_all_loggers r ≡ sent_after r.sent (lt_remove_all_loggers (unsent r))
unfolding lt_remove_all_loggers
lt_remove_all_loggers-unsent r = refl

pub lt_log-unsent :
    (m : LogMessage) (r : Registry) → lt_log m r ≡ sent_after r.sent (lt_log m (unsent r))
unfolding lt_log
lt_log-unsent m r = refl

pub lt_flush-unsent : (r : Registry) → lt_flush r ≡ sent_after r.sent (lt_flush (unsent r))
unfolding lt_flush
lt_flush-unsent r = refl
