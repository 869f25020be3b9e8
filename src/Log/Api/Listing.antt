-- ===== src/Log/Api/Listing.antt =====
-- The listing of the loggers of an instance: what the requests of DDLog.m, through the one logging queue,
-- do to the lists of all instances.
use cocoa_lumberjack.Base.{
  ℕ, ◌≡◌, refl, sym, ap, ◌∙◌, true, false, Bool-cases, inl, inr, ◌==◌, if◌then◌else◌, List, [], ◌∷◌,
  ◌++◌, map, map-append, Option, none, some, arith,
}
use cocoa_lumberjack.Log.Level.{Level, level_bits}
use cocoa_lumberjack.Log.Registry.{
  Logger, Node, Registry, is_added, lt_add_logger, lt_remove_logger, lt_remove_all_loggers,
  lt_flush, find_node, remove_node, lt_all_loggers, lt_all_loggers_with_level,
}
use cocoa_lumberjack.Log.System.{Task, Request, enqueue, perform, perform_all}
use cocoa_lumberjack.Log.Api.{is_listed, listed, unlist, unlisted, ChangesList, IsLoggerManagement}
use cocoa_lumberjack.Log.Api.Instances.{
  Process, perform_block, perform_blocks, blocks_of, dispatch_async, dispatch_sync, table,
  add_logger_with_level, add_logger, remove_logger, remove_all_loggers, flush_log, all_loggers,
  all_loggers_with_level, logger_management,
}

-- The table that a request leaves, when it puts one task, or none, on the logging queue.
after : Request → Registry → Registry
after r t = perform_all (enqueue r []) t

pub perform_blocks-append :
    (bs cs : List (ℕ × Task)) (registries : ℕ → Registry)
    → perform_blocks (bs ++ cs) registries ≡ perform_blocks cs (perform_blocks bs registries)
unfolding perform_blocks
perform_blocks-append [] cs registries = refl
perform_blocks-append (b ∷ bs) cs registries =
    perform_blocks-append bs cs (perform_block b registries)

perform_blocks-own :
    (d e : ℕ) (ts : List Task) (registries : ℕ → Registry)
    → (e == d) ≡ true
    → perform_blocks (map (λ t. (d, t)) ts) registries e ≡ perform_all ts (registries e)
unfolding perform_blocks perform_block perform_all
perform_blocks-own d e [] registries own = refl
perform_blocks-own d e (t ∷ ts) registries own =
    perform_blocks-own d e ts (perform_block (d, t) registries) own
    ∙ ap (λ b. perform_all ts (if b then perform t (registries e) else registries e)) own

perform_blocks-others :
    (d e : ℕ) (ts : List Task) (registries : ℕ → Registry)
    → (e == d) ≡ false
    → perform_blocks (map (λ t. (d, t)) ts) registries e ≡ registries e
unfolding perform_blocks perform_block
perform_blocks-others d e [] registries other = refl
perform_blocks-others d e (t ∷ ts) registries other =
    perform_blocks-others d e ts (perform_block (d, t) registries) other
    ∙ ap (λ b. if b then perform t (registries e) else registries e) other

-- A request of an instance, whether it waits or has run, changes the table of that instance only.
table-own :
    (d e : ℕ) (r : Request) (p : Process)
    → (e == d) ≡ true
    → table e (dispatch_async (blocks_of d r) p) ≡ after r (table e p)
unfolding table dispatch_async blocks_of after
table-own d e r p own =
    ap (λ f. f e) (perform_blocks-append p.waiting (blocks_of d r) p.registries)
    ∙ perform_blocks-own d e (enqueue r []) (perform_blocks p.waiting p.registries) own

table-others :
    (d e : ℕ) (r : Request) (p : Process)
    → (e == d) ≡ false
    → table e (dispatch_async (blocks_of d r) p) ≡ table e p
unfolding table dispatch_async blocks_of
table-others d e r p other =
    ap (λ f. f e) (perform_blocks-append p.waiting (blocks_of d r) p.registries)
    ∙ perform_blocks-others d e (enqueue r []) (perform_blocks p.waiting p.registries) other

table-sync :
    (d e : ℕ) (r : Request) (p : Process)
    → table e (dispatch_sync (blocks_of d r) p) ≡ table e (dispatch_async (blocks_of d r) p)
unfolding table dispatch_async dispatch_sync
table-sync d e r p = refl

levels-add :
    (l : Logger) (level : ℕ) (ns : List Node)
    → is_listed l.ident level (map (λ n. (n.logger, n.level)) ns) ≡ is_added l.ident level ns
unfolding is_listed is_added
levels-add l level [] = refl
levels-add l level (n ∷ ns) = rw (levels-add l level ns)

levels-remove :
    (x : ℕ) (ns : List Node)
    → map (λ n. (n.logger, n.level)) (remove_node x ns)
      ≡ unlist x (map (λ n. (n.logger, n.level)) ns)
unfolding remove_node unlist
levels-remove x [] = refl
levels-remove x (n ∷ ns) = ground (arith, levels-remove x ns)

unlist-unfound : (x : ℕ) (ns : List Node) → find_node x ns ≡ none → remove_node x ns ≡ ns
unfolding find_node remove_node
unlist-unfound x [] h = refl
unlist-unfound x (n ∷ ns) h = ground (arith, unlist-unfound x ns)

lt_add_logger-listed :
    (l : Option Logger) (level : ℕ) (r : Registry)
    → lt_all_loggers_with_level (after (Request.add_logger l level) r)
      ≡ listed l level (lt_all_loggers_with_level r)
unfolding after enqueue perform_all perform lt_add_logger lt_all_loggers_with_level listed
lt_add_logger-listed none level r = refl
lt_add_logger-listed (some l) level r = grind (arith, levels-add l level r.nodes, map-append)

lt_remove_logger-unlisted :
    (l : Option Logger) (r : Registry)
    → lt_all_loggers_with_level (after (Request.remove_logger l) r)
      ≡ unlisted l (lt_all_loggers_with_level r)
unfolding after enqueue perform_all perform lt_remove_logger lt_all_loggers_with_level unlisted
lt_remove_logger-unlisted none r = refl
lt_remove_logger-unlisted (some l) r =
    ground (arith, levels-remove l.ident r.nodes, unlist-unfound l.ident r.nodes)

-- What a request does to the list of its instance, it does to the lists of the process.
changes-async :
    (d : ℕ) (r : Request) (effect : List (Logger × ℕ) → List (Logger × ℕ))
    → ((t : Registry)
        → lt_all_loggers_with_level (after r t) ≡ effect (lt_all_loggers_with_level t))
    → ChangesList logger_management d (dispatch_async (blocks_of d r)) effect
unfolding all_loggers_with_level
changes-async d r effect does e p = elim (Bool-cases (e == d)) [
  | inl own ↦
      ap lt_all_loggers_with_level (table-own d e r p own)
      ∙ does (table e p)
      ∙ ap
          (λ b.
            if b
            then effect (lt_all_loggers_with_level (table e p))
            else lt_all_loggers_with_level (table e p))
          (sym own)
  | inr other ↦
      ap lt_all_loggers_with_level (table-others d e r p other)
      ∙ ap
          (λ b.
            if b
            then effect (lt_all_loggers_with_level (table e p))
            else lt_all_loggers_with_level (table e p))
          (sym other)
]

removing_all : (t : Registry) → lt_all_loggers_with_level (after Request.remove_all_loggers t) ≡ []
unfolding after enqueue perform_all perform lt_all_loggers_with_level lt_remove_all_loggers
removing_all t = refl

flushing :
    (t : Registry)
    → lt_all_loggers_with_level (after Request.flush_log t) ≡ lt_all_loggers_with_level t
unfolding after enqueue perform_all perform lt_all_loggers_with_level lt_flush
flushing t = refl

map_fst :
    (ns : List Node)
    → map (λ n. n.logger) ns ≡ map (λ (e : Logger × ℕ). e.0) (map (λ n. (n.logger, n.level)) ns)
map_fst [] = refl
map_fst (n ∷ ns) = rw (map_fst ns)

listing : (d : ℕ) (p : Process) → all_loggers d p ≡ map (λ e. e.0) (all_loggers_with_level d p)
unfolding all_loggers all_loggers_with_level lt_all_loggers lt_all_loggers_with_level
listing d p = map_fst (table d p).nodes

adding :
    (d : ℕ) (l : Option Logger) (level : ℕ)
    → ChangesList logger_management d (add_logger_with_level d l level) (listed l level)
unfolding add_logger_with_level
adding d l level =
    changes-async d (Request.add_logger l level) (listed l level) (lt_add_logger-listed l level)

removing :
    (d : ℕ) (l : Option Logger) → ChangesList logger_management d (remove_logger d l) (unlisted l)
unfolding remove_logger
removing d l = changes-async d (Request.remove_logger l) (unlisted l) (lt_remove_logger-unlisted l)

flushing_log : (d : ℕ) → ChangesList logger_management d (flush_log d) (λ es. es)
unfolding flush_log all_loggers_with_level
flushing_log d e p =
    ap lt_all_loggers_with_level (table-sync d e Request.flush_log p)
    ∙ changes-async d Request.flush_log (λ es. es) flushing e p

-- What managing loggers does to the lists of all instances, which a listing finds once the blocks that
-- wait on the one logging queue have run: adding a logger, at a level or at all levels, appends it to the
-- list of the instance unless it is there at that level; removing a logger takes away only its first
-- entry, and leaves one at another level; removing all leaves none; a nil logger and a flush change
-- nothing; the lists of all other instances stay as they are, and without the levels the list is that
-- of loggers.
pub logger_management-IsLoggerManagement :
    IsLoggerManagement (level_bits Level.all) logger_management
unfolding add_logger remove_all_loggers
logger_management-IsLoggerManagement = record {
  all_loggers-all_loggers_with_level = λ d p. listing d p;
  add_logger-listed = λ d l. adding d l (level_bits Level.all);
  add_logger_with_level-listed = λ d l level. adding d l level;
  remove_logger-unlisted = λ d l. removing d l;
  remove_all_loggers-empty =
      λ d. changes-async d Request.remove_all_loggers (λ es. []) removing_all;
  flush_log-kept = λ d. flushing_log d;
}
