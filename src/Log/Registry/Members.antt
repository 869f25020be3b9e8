-- ===== src/Log/Registry/Members.antt =====
-- Who is in the table of loggers, and who is called.
use cocoa_lumberjack.Base.{
  ℕ, ◌≡◌, ◌≢◌, refl, true, false, ◌&&◌, not, List, [], ◌∷◌, ◌++◌, none, arith, ◌==◌, if◌then◌else◌,
  keep, keep-append, append-nil, Option-cases, inl, inr,
}
use cocoa_lumberjack.Log.Registry.{
  Logger, Node, LogMessage, Block, Call, did_add_in_queue, did_add, will_remove, flush, log_message,
  Registry, is_added, find_node, remove_node, lt_add_logger, lt_remove_logger,
  lt_remove_all_loggers, lt_log, lt_flush, log_blocks, flush_blocks, removed_notices,
  removed_notice, added_notice, queue_for,
}

-- No logger is in the table twice at one level.
abbrev pub IsDistinct : List Node → Type 0
IsDistinct [] = Unit {0}
IsDistinct (n ∷ ns) = (is_added n.logger.ident n.level ns ≡ false) × IsDistinct ns

is_added-append :
    (x l : ℕ) (ns : List Node) (n : Node)
    → is_added x l (ns ++ n ∷ [])
      ≡ (if is_added x l ns then true else n.logger.ident == x && n.level == l)
unfolding is_added
is_added-append x l [] n = ground arith
is_added-append x l (m ∷ ns) n = ground (arith, is_added-append x l ns n)

append-IsDistinct :
    (ns : List Node) (n : Node)
    → is_added n.logger.ident n.level ns ≡ false
    → IsDistinct ns
    → IsDistinct (ns ++ n ∷ [])
unfolding is_added
append-IsDistinct [] n h d = (refl, tt)
append-IsDistinct (m ∷ ns) n h d =
    ground (arith, append-IsDistinct ns n, is_added-append m.logger.ident m.level ns n)

is_added-remove :
    (x l y : ℕ) (ns : List Node) → is_added x l ns ≡ false → is_added x l (remove_node y ns) ≡ false
unfolding is_added remove_node
is_added-remove x l y [] h = refl
is_added-remove x l y (m ∷ ns) h = ground (arith, is_added-remove x l y ns)

remove-IsDistinct : (y : ℕ) (ns : List Node) → IsDistinct ns → IsDistinct (remove_node y ns)
unfolding remove_node
remove-IsDistinct y [] d = tt
remove-IsDistinct y (m ∷ ns) d =
    ground (arith, remove-IsDistinct y ns d.1, is_added-remove m.logger.ident m.level y ns)

pub lt_add_logger-IsDistinct :
    (l : Logger) (level : ℕ) (r : Registry)
    → IsDistinct r.nodes
    → IsDistinct (lt_add_logger l level r).nodes
unfolding lt_add_logger
lt_add_logger-IsDistinct l level r d = ground (
  arith,
  append-IsDistinct r.nodes
      (record { logger = l; level = level; queue = queue_for l r.next_queue }),
)

pub lt_remove_logger-IsDistinct :
    (l : Logger) (r : Registry) → IsDistinct r.nodes → IsDistinct (lt_remove_logger l r).nodes
unfolding lt_remove_logger
lt_remove_logger-IsDistinct l r d = ground (arith, remove-IsDistinct l.ident r.nodes)

pub lt_remove_all_loggers-IsDistinct : (r : Registry) → IsDistinct (lt_remove_all_loggers r).nodes
unfolding lt_remove_all_loggers
lt_remove_all_loggers-IsDistinct r = tt

pub lt_log-IsDistinct :
    (m : LogMessage) (r : Registry) → IsDistinct r.nodes → IsDistinct (lt_log m r).nodes
unfolding lt_log
lt_log-IsDistinct m r d = d

pub lt_flush-IsDistinct : (r : Registry) → IsDistinct r.nodes → IsDistinct (lt_flush r).nodes
unfolding lt_flush
lt_flush-IsDistinct r d = d

-- The nodes of one logger, and those of the others.
abbrev pub nodes_of : ℕ → List Node → List Node
nodes_of x = keep (λ n. n.logger.ident == x)

abbrev pub nodes_but : ℕ → List Node → List Node
nodes_but x = keep (λ n. not (n.logger.ident == x))

abbrev tail_of : List Node → List Node
tail_of [] = []
tail_of (n ∷ ns) = ns

remove_node-nodes :
    (x : ℕ) (ns : List Node)
    → (nodes_of x (remove_node x ns) ≡ tail_of (nodes_of x ns))
      × (nodes_but x (remove_node x ns) ≡ nodes_but x ns)
unfolding remove_node
remove_node-nodes x [] = (refl, refl)
remove_node-nodes x (n ∷ ns) = ground (arith, remove_node-nodes x ns)

find_node-none : (x : ℕ) (ns : List Node) → find_node x ns ≡ none → nodes_of x ns ≡ []
unfolding find_node
find_node-none x [] h = refl
find_node-none x (n ∷ ns) h = ground (arith, find_node-none x ns)

-- Removing a logger takes exactly its oldest node out of the table, if it has one. So a logger that
-- was added at two levels is still there after one removal, and the nodes of all other loggers stay.
pub lt_remove_logger-nodes :
    (l : Logger) (r : Registry)
    → (nodes_of l.ident (lt_remove_logger l r).nodes ≡ tail_of (nodes_of l.ident r.nodes))
      × (nodes_but l.ident (lt_remove_logger l r).nodes ≡ nodes_but l.ident r.nodes)
unfolding lt_remove_logger
lt_remove_logger-nodes l r =
    ground (arith, remove_node-nodes l.ident r.nodes, find_node-none l.ident r.nodes)

-- The logger that a block calls.
abbrev pub callee : Call → ℕ
callee (did_add_in_queue x) = x
callee (did_add x) = x
callee (will_remove x) = x
callee (flush x) = x
callee (log_message x m) = x

abbrev pub calls_to : ℕ → List Block → List Block
calls_to x = keep (λ b. callee b.call == x)

-- A logger without a node stays without one and is not called.
abbrev pub Ignores : ℕ → Registry → Registry → Type 0
Ignores x r r' = (find_node x r'.nodes ≡ none) × (calls_to x r'.sent ≡ calls_to x r.sent)

find_node-append :
    (x : ℕ) (ns : List Node) (n : Node)
    → find_node x ns ≡ none
    → n.logger.ident ≢ x
    → find_node x (ns ++ n ∷ []) ≡ none
unfolding find_node
find_node-append x [] n h ne = ground arith
find_node-append x (m ∷ ns) n h ne = ground (arith, find_node-append x ns n)

find_node-remove :
    (x y : ℕ) (ns : List Node) → find_node x ns ≡ none → find_node x (remove_node y ns) ≡ none
unfolding find_node remove_node
find_node-remove x y [] h = refl
find_node-remove x y (m ∷ ns) h = ground (arith, find_node-remove x y ns)

calls_to-log :
    (x : ℕ) (m : LogMessage) (ns : List Node)
    → find_node x ns ≡ none
    → calls_to x (log_blocks m ns) ≡ []
unfolding find_node log_blocks
calls_to-log x m [] h = refl
calls_to-log x m (n ∷ ns) h = ground (arith, calls_to-log x m ns)

calls_to-flush :
    (x : ℕ) (ns : List Node) → find_node x ns ≡ none → calls_to x (flush_blocks ns) ≡ []
unfolding find_node flush_blocks
calls_to-flush x [] h = refl
calls_to-flush x (n ∷ ns) h = ground (arith, calls_to-flush x ns)

calls_to-removed :
    (x : ℕ) (ns : List Node) → find_node x ns ≡ none → calls_to x (removed_notices ns) ≡ []
unfolding find_node removed_notices removed_notice
calls_to-removed x [] h = refl
calls_to-removed x (n ∷ ns) h = ground (arith, calls_to-removed x ns)

calls_to-append :
    (x : ℕ) (old new : List Block) → calls_to x new ≡ [] → calls_to x (old ++ new) ≡ calls_to x old
calls_to-append x old new e =
    ground (arith, keep-append (λ b. callee b.call == x) old new, append-nil (calls_to x old))

calls_to-notice : (x : ℕ) (l : Logger) (q : ℕ) → l.ident ≢ x → calls_to x (removed_notice l q) ≡ []
unfolding removed_notice
calls_to-notice x l q ne = ground arith

module _ (x : ℕ) (r : Registry) (out : find_node x r.nodes ≡ none) where
  pub lt_add_logger-Ignores :
      (l : Logger) (level : ℕ) → l.ident ≢ x → Ignores x r (lt_add_logger l level r)
  unfolding lt_add_logger
  lt_add_logger-Ignores l level ne =
      let q = queue_for l r.next_queue in
      ground (
        arith,
        find_node-append x r.nodes (record { logger = l; level = level; queue = q }),
        calls_to-append x r.sent (added_notice l q),
      )

  pub lt_remove_logger-Ignores : (l : Logger) → Ignores x r (lt_remove_logger l r)
  unfolding lt_remove_logger
  lt_remove_logger-Ignores l = elim (Option-cases (find_node l.ident r.nodes)) [
    | inl e ↦ rw (e, lt_remove_logger) (out, refl)
    | inr (n, e) ↦ ground (
      arith,
      find_node-remove x l.ident r.nodes,
      calls_to-append x r.sent (removed_notice l n.queue),
      calls_to-notice x l n.queue,
    )
  ]

  pub lt_remove_all_loggers-Ignores : Ignores x r (lt_remove_all_loggers r)
  unfolding lt_remove_all_loggers find_node
  lt_remove_all_loggers-Ignores =
      (refl, calls_to-append x r.sent (removed_notices r.nodes) (calls_to-removed x r.nodes out))

  pub lt_log-Ignores : (m : LogMessage) → Ignores x r (lt_log m r)
  unfolding lt_log
  lt_log-Ignores m =
      (out, calls_to-append x r.sent (log_blocks m r.nodes) (calls_to-log x m r.nodes out))

  pub lt_flush-Ignores : Ignores x r (lt_flush r)
  unfolding lt_flush
  lt_flush-Ignores =
      (out, calls_to-append x r.sent (flush_blocks r.nodes) (calls_to-flush x r.nodes out))
