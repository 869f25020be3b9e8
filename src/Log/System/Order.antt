-- ===== src/Log/System/Order.antt =====
-- The order in which the loggers' queues run their blocks, and the order of the calls.
use cocoa_lumberjack.Base.{
  ℕ, ◌≡◌, ◌≢◌, refl, sym, ap, subst, length, ◌∙◌, Bool, List, [], ◌∷◌, ◌++◌, append-nil,
  append_assoc, arith, keep, inl, inr, Bool-cases, ◌==◌, keep-append, ==_iff, All,
}
use cocoa_lumberjack.Log.Registry.{Registry, Block, group_size, in_group}
use cocoa_lumberjack.Log.Registry.Sent.{
  sent_after, lt_add_logger-unsent, lt_remove_logger-unsent, lt_remove_all_loggers-unsent,
  lt_log-unsent, lt_flush-unsent,
}
use cocoa_lumberjack.Log.System.{
  Task, System, Step, call, begin, run, Reach, here, next, perform, perform_all, on_queue, initial,
  empty_registry, clear_sent, begin_task,
}

perform-unsent :
    (t : Task) (r : Registry) → perform t r ≡ sent_after r.sent (perform t (clear_sent r))
unfolding perform
perform-unsent (Task.add_logger l level) r = lt_add_logger-unsent l level r
perform-unsent (Task.remove_logger l) r = lt_remove_logger-unsent l r
perform-unsent Task.remove_all_loggers r = lt_remove_all_loggers-unsent r
perform-unsent (Task.log m) r = lt_log-unsent m r
perform-unsent Task.flush_log r = lt_flush-unsent r

pub perform_all-append :
    (ts : List Task) (t : Task) (r : Registry)
    → perform_all (ts ++ t ∷ []) r ≡ perform t (perform_all ts r)
unfolding perform_all
perform_all-append [] t r = refl
perform_all-append (x ∷ ts) t r = perform_all-append ts t (perform x r)

on_queue-nil : (q : ℕ) (bs : List Block) → All (λ c. c.queue ≢ q) bs → on_queue q bs ≡ []
on_queue-nil q [] h = refl
on_queue-nil q (b ∷ bs) h = ground (arith, on_queue-nil q bs h.1)

-- The table that the calls leave when each runs to its end before the next begins.
abbrev pub sequential : System → Registry
sequential s = perform_all s.executed empty_registry

record Inv (s : System) : Type 0 where
  fifo : (q : ℕ) → on_queue q s.done ++ on_queue q s.pending ≡ on_queue q (sequential s).sent
  same : clear_sent s.registry ≡ clear_sent (sequential s)

sequential-begin :
    (s : System) (t : Task) (rest : List Task)
    → Inv s
    → sequential (begin_task t rest s)
      ≡ sent_after (sequential s).sent (perform t (clear_sent s.registry))
sequential-begin s t rest v =
    rw (v.same) (perform_all-append s.executed t empty_registry ∙ perform-unsent t (sequential s))

begin-Inv : (s : System) (t : Task) (rest : List Task) → Inv s → Inv (begin_task t rest s)
begin-Inv s t rest v = record {
  fifo = λ q.
      rw (sequential-begin s t rest v, keep-append, keep-append, ← v.fifo q)
        (sym (
          append_assoc (on_queue q s.done) (on_queue q s.pending)
            (on_queue q (perform t (clear_sent s.registry)).sent)));
  same = rw (sequential-begin s t rest v);
}

on_queue-skip :
    (q : ℕ) (done pre : List Block) (b : Block) (post : List Block)
    → All (λ c. c.queue ≢ b.queue) pre
    → on_queue q (done ++ b ∷ []) ++ on_queue q (pre ++ post)
      ≡ on_queue q done ++ on_queue q (pre ++ b ∷ post)
on_queue-skip q done pre b post first = elim (Bool-cases (b.queue == q)) [
  | inl own ↦
      let front : on_queue q pre ≡ [] =
        on_queue-nil q pre (rw (sym ((==_iff b.queue q).0 own)) first) in
      ground (
        arith,
        front,
        keep-append (λ c. c.queue == q) done (b ∷ []),
        keep-append (λ c. c.queue == q) pre post,
        keep-append (λ c. c.queue == q) pre (b ∷ post),
        append_assoc (on_queue q done) (b ∷ []) (on_queue q post),
      )
  | inr other ↦ ground (
    arith,
    keep-append (λ c. c.queue == q) done (b ∷ []),
    keep-append (λ c. c.queue == q) pre post,
    keep-append (λ c. c.queue == q) pre (b ∷ post),
    append-nil (on_queue q done),
  )
]

run-Inv :
    (s : System) (pre : List Block) (b : Block) (post : List Block)
    → s.pending ≡ pre ++ b ∷ post
    → All (λ c. c.queue ≢ b.queue) pre
    → Inv s
    → Inv (record s { pending = pre ++ post; done = s.done ++ b ∷ [] })
run-Inv s pre b post e first v = record {
  fifo = λ q.
      on_queue-skip q s.done pre b post first
      ∙ ap (λ bs. on_queue q s.done ++ on_queue q bs) (sym e)
      ∙ v.fifo q;
  same = v.same;
}

Step-Inv : {s u : System} → Step s u → Inv s → Inv u
Step-Inv (call r e) v = subst Inv (sym e) (record { fifo = v.fifo; same = v.same })
Step-Inv {s} (begin t rest e idle eq) v = subst Inv (sym eq) (begin-Inv s t rest v)
Step-Inv {s} (run pre b post e first eq) v = subst Inv (sym eq) (run-Inv s pre b post e first v)

Reach-Inv : {s : System} → Reach initial s → Inv s
unfolding perform_all
Reach-Inv here = record { fifo = λ q. refl; same = refl }
Reach-Inv (next r st) = Step-Inv st (Reach-Inv r)

-- Whatever order the queues run in, the blocks that a logger's queue has run, followed by those that
-- still wait for it, are those that the begun calls send to it when each call ends before the next
-- one begins, in the same order; and the table of loggers is the one that those calls leave.
pub Reach-order :
    {s : System} (q : ℕ)
    → Reach initial s
    → (on_queue q s.done ++ on_queue q s.pending ≡ on_queue q (sequential s).sent)
      × (s.registry.nodes ≡ (sequential s).nodes)
Reach-order q r = let v = Reach-Inv r in (v.fifo q, ap (λ g. g.nodes) v.same)

keep-keep-nil {ℓ} :
    {A : Type ℓ} (p r : A → Bool) (xs : List A) → length (keep p xs) ≡ 0 → keep p (keep r xs) ≡ []
keep-keep-nil p r [] h = refl
keep-keep-nil p r (x ∷ xs) h = ground (arith, keep-keep-nil p r xs)

-- When no block of a logging or flushing call waits, as when the logging queue goes on after a flush
-- and `flushLog` returns, each logger's queue has run all the blocks of that kind that the begun calls
-- send to it, in the order of the calls.
pub Reach-flushed :
    {s : System} (q : ℕ)
    → Reach initial s
    → group_size s.pending ≡ 0
    → keep in_group (on_queue q s.done) ≡ keep in_group (on_queue q (sequential s).sent)
Reach-flushed {s} q r idle = ground (
  arith,
  ap (keep in_group) (Reach-order q r).0,
  keep-append in_group (on_queue q s.done) (on_queue q s.pending),
  keep-keep-nil in_group (λ b. b.queue == q) s.pending idle,
  append-nil (keep in_group (on_queue q s.done)),
)
