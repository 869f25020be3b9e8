-- ===== src/Log/Registry.antt =====
-- The logger nodes of a DDLog instance and the `lt_` methods that the logging queue runs on them
-- (DDLog.m, "Logging Thread"). What a method dispatches to the loggers' queues is the list `sent`, in
-- order of dispatch: blocks on one queue run in that order.
pub mod Sent
pub mod Group
pub mod Members
use cocoa_lumberjack.Base.{
  ℕ, ◌+◌, Bool, true, false, ◌&&◌, List, [], ◌∷◌, ◌++◌, map, Option, none, some, ◌==◌, keep, length,
  if◌then◌else◌,
}
use cocoa_lumberjack.Log.Level.{is_enabled}

-- An object that implements the DDLogger protocol: who it is, the queue that it provides, if it does,
-- and which optional methods it responds to.
pub record Logger : Type 0 where
  pub ident : ℕ
  pub own_queue : Option ℕ
  pub has_did_add_in_queue : Bool
  pub has_did_add : Bool
  pub has_will_remove : Bool
  pub has_flush : Bool

pub record Node : Type 0 where
  pub logger : Logger
  pub level : ℕ
  pub queue : ℕ

-- What the table reads of a DDLogMessage.
pub record LogMessage : Type 0 where
  pub ident : ℕ
  pub flag : ℕ

-- A call of a logger's method, which a block makes.
pub data Call : Type 0 where
  did_add_in_queue did_add will_remove flush : ℕ → Call
  log_message : ℕ → LogMessage → Call

-- A block on a logger's queue.
pub record Block : Type 0 where
  pub queue : ℕ
  pub call : Call

-- The blocks that `lt_log` and `lt_flush` wait for; the notices are not in the group.
abbrev pub in_group : Block → Bool
in_group b = elim b.call [ log_message _ _ ↦ true | flush _ ↦ true | _ ↦ false ]

abbrev pub group_size : List Block → ℕ
group_size bs = length (keep in_group bs)

pub record Registry : Type 0 where
  pub nodes : List Node
  pub next_queue : ℕ
  pub sent : List Block

abbrev pub send : Block → Registry → Registry
send b r = record r { sent = r.sent ++ b ∷ [] }

-- The search of `lt_addLogger`: the same logger at the same level.
unfoldable pub is_added : ℕ → ℕ → List Node → Bool
is_added logger level [] = false
is_added logger level (n ∷ ns) =
    if n.logger.ident == logger && n.level == level then true else is_added logger level ns

-- The queue that the logger provides, or a new one.
unfoldable pub queue_for : Logger → ℕ → ℕ
queue_for l fresh = elim l.own_queue [ some q ↦ q | none ↦ fresh ]

unfoldable pub fresh_after : Logger → ℕ → ℕ
fresh_after l fresh = elim l.own_queue [ some q ↦ fresh | none ↦ fresh + 1 ]

-- The notice to a logger that was added.
unfoldable pub added_notice : Logger → ℕ → List Block
added_notice l q =
    if l.has_did_add_in_queue
    then record { queue = q; call = did_add_in_queue l.ident } ∷ []
    else if l.has_did_add
    then record { queue = q; call = did_add l.ident } ∷ []
    else []

unfoldable pub lt_add_logger : Logger → ℕ → Registry → Registry
unfolding queue_for fresh_after added_notice
lt_add_logger l level r =
    if is_added l.ident level r.nodes
    then r
    else let q = queue_for l r.next_queue in
      record {
        nodes = r.nodes ++ record { logger = l; level = level; queue = q } ∷ [];
        next_queue = fresh_after l r.next_queue;
        sent = r.sent ++ added_notice l q;
      }

-- The search of `lt_removeLogger`: the first node of the logger.
unfoldable pub find_node : ℕ → List Node → Option Node
find_node logger [] = none
find_node logger (n ∷ ns) = if n.logger.ident == logger then some n else find_node logger ns

-- `removeObject:` of the node that was found; a node is in the array once.
unfoldable pub remove_node : ℕ → List Node → List Node
remove_node logger [] = []
remove_node logger (n ∷ ns) = if n.logger.ident == logger then ns else n ∷ remove_node logger ns

-- The notice to a logger that is removed.
removed_notice : Logger → ℕ → List Block
removed_notice l q =
    if l.has_will_remove then record { queue = q; call = will_remove l.ident } ∷ [] else []

unfoldable pub lt_remove_logger : Logger → Registry → Registry
unfolding removed_notice
lt_remove_logger l r = elim (find_node l.ident r.nodes) [
  | none ↦ r
  | some n ↦ record r {
    nodes = remove_node l.ident r.nodes;
    sent = r.sent ++ removed_notice l n.queue;
  }
]

removed_notices : List Node → List Block
removed_notices [] = []
removed_notices (n ∷ ns) = removed_notice n.logger n.queue ++ removed_notices ns

unfoldable pub lt_remove_all_loggers : Registry → Registry
unfolding removed_notices removed_notice
lt_remove_all_loggers r = record r { nodes = []; sent = r.sent ++ removed_notices r.nodes }

unfoldable pub lt_all_loggers : Registry → List Logger
lt_all_loggers r = map (λ n. n.logger) r.nodes

unfoldable pub lt_all_loggers_with_level : Registry → List (Logger × ℕ)
lt_all_loggers_with_level r = map (λ n. (n.logger, n.level)) r.nodes

-- The loop of `lt_log` over the nodes, which skips the loggers whose level lacks the flag. It is the
-- same on one processor, where each block is dispatched synchronously, and on several, where the
-- blocks form a group on which `lt_log` waits.
unfoldable pub log_blocks : LogMessage → List Node → List Block
unfolding is_enabled
log_blocks m [] = []
log_blocks m (n ∷ ns) =
    if is_enabled m.flag n.level
    then record { queue = n.queue; call = log_message n.logger.ident m } ∷ log_blocks m ns
    else log_blocks m ns

unfoldable pub lt_log : LogMessage → Registry → Registry
lt_log m r = record r { sent = r.sent ++ log_blocks m r.nodes }

pub flush_blocks : List Node → List Block
flush_blocks [] = []
flush_blocks (n ∷ ns) =
    if n.logger.has_flush
    then record { queue = n.queue; call = flush n.logger.ident } ∷ flush_blocks ns
    else flush_blocks ns

unfoldable pub lt_flush : Registry → Registry
lt_flush r = record r { sent = r.sent ++ flush_blocks r.nodes }
