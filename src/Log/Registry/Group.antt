-- ===== src/Log/Registry/Group.antt =====
-- How many blocks an `lt_` method of DDLog adds to the dispatch group.
use cocoa_lumberjack.Base.{
  ℕ, ◌+◌, ◌≤◌, ◌≡◌, ap, [], ◌∷◌, ◌++◌, List, arith, length, length-append, keep, keep-append,
}
use cocoa_lumberjack.Log.Registry.{
  Logger, LogMessage, Node, Block, Registry, lt_add_logger, lt_remove_logger, lt_remove_all_loggers,
  lt_log, lt_flush, log_blocks, flush_blocks, removed_notices, removed_notice, in_group, group_size,
}

pub group_size-append : (xs ys : List Block) → group_size (xs ++ ys) ≡ group_size xs + group_size ys
group_size-append xs ys = omega (
  arith,
  ap length (keep-append in_group xs ys),
  length-append (keep in_group xs) (keep in_group ys),
)

group_size-log : (m : LogMessage) (ns : List Node) → group_size (log_blocks m ns) ≤ length ns
unfolding log_blocks
group_size-log m [] = omega arith
group_size-log m (n ∷ ns) = ground (arith, group_size-log m ns)

group_size-flush : (ns : List Node) → group_size (flush_blocks ns) ≤ length ns
unfolding flush_blocks
group_size-flush [] = omega arith
group_size-flush (n ∷ ns) = ground (arith, group_size-flush ns)

group_size-removed : (ns : List Node) → group_size (removed_notices ns) ≡ 0
unfolding removed_notices removed_notice
group_size-removed [] = omega arith
group_size-removed (n ∷ ns) = ground (arith, group_size-removed ns)

abbrev pub Fits : Registry → Type 0
Fits r = group_size r.sent ≤ length r.nodes

module _ (r : Registry) (fresh : r.sent ≡ []) where
  pub lt_add_logger-Fits : (l : Logger) (level : ℕ) → Fits (lt_add_logger l level r)
  unfolding lt_add_logger
  lt_add_logger-Fits l level = ground arith

  pub lt_remove_logger-Fits : (l : Logger) → Fits (lt_remove_logger l r)
  unfolding lt_remove_logger
  lt_remove_logger-Fits l = ground arith

  pub lt_remove_all_loggers-Fits : Fits (lt_remove_all_loggers r)
  unfolding lt_remove_all_loggers
  lt_remove_all_loggers-Fits = ground (arith, group_size-removed r.nodes)

  pub lt_log-Fits : (m : LogMessage) → Fits (lt_log m r)
  unfolding lt_log
  lt_log-Fits m = ground (arith, group_size-log m r.nodes)

  pub lt_flush-Fits : Fits (lt_flush r)
  unfolding lt_flush
  lt_flush-Fits = ground (arith, group_size-flush r.nodes)
