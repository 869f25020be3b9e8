-- ===== src/Log/AbstractLogger/Ordering.antt =====
-- Formatters are set in order with the messages: over the logging queue and the logger's queue, each
-- first in, first out.
use cocoa_lumberjack.Base.{
  ℕ, subst, Option-cases, ◌≡◌, refl, sym, ◌∙◌, ap, List, [], ◌∷◌, ◌++◌, append_assoc, append-nil,
  Option, none, some, arith,
}
use cocoa_lumberjack.Log.AbstractLogger.{
  LogFormatter, Logging, name_of, is_same, set_log_formatter, log_message,
}

module _ (Message : Type 0) where
  -- A block on its way to the logger.
  pub data Work : Type 0 where
    log : Message → Work
    set_formatter : Option (LogFormatter Message) → Work

  -- `calls` records the calls, and `executed` the blocks that the logger's queue has run.
  pub record Queues : Type 0 where
    pub calls : List Work
    pub global : List Work
    pub internal : List Work
    pub executed : List Work
    pub logger : Logging Message

  pub execute : Work → Logging Message → Logging Message
  execute (log m) s = log_message m s
  execute (set_formatter f) s = set_log_formatter f s

  abbrev pub idle : ℕ → Queues
  idle queue = record {
    calls = [];
    global = [];
    internal = [];
    executed = [];
    logger = record { formatter = none; queue = queue; logged = []; notices = [] };
  }

  -- A call puts a block on the logging queue, which passes it on to the logger's queue, which runs it.
  pub data Step (s u : Queues) : Type 0 where
    call :
        (w : Work)
        → u ≡ record s { calls = s.calls ++ w ∷ []; global = s.global ++ w ∷ [] }
        → Step s u
    pass :
        (w : Work) (rest : List Work)
        → s.global ≡ w ∷ rest
        → u ≡ record s { global = rest; internal = s.internal ++ w ∷ [] }
        → Step s u
    run :
        (w : Work) (rest : List Work)
        → s.internal ≡ w ∷ rest
        → u ≡ record s {
          internal = rest;
          executed = s.executed ++ w ∷ [];
          logger = execute w s.logger;
        }
        → Step s u

  pub data Reach (queue : ℕ) : Queues → Type 0 where
    here : Reach queue (idle queue)
    next : {t u : Queues} → Reach queue t → Step t u → Reach queue u

  -- The messages of some calls, each with the formatter that was set last before it.
  pub formatted : Option ℕ → List Work → List (Message × Option ℕ)
  formatted f [] = []
  formatted f (log m ∷ ws) = (m, f) ∷ formatted f ws
  formatted f (set_formatter g ∷ ws) = formatted (name_of g) ws

  last_set : Option ℕ → List Work → Option ℕ
  last_set f [] = f
  last_set f (log m ∷ ws) = last_set f ws
  last_set f (set_formatter g ∷ ws) = last_set (name_of g) ws

  formatted-append :
      (f : Option ℕ) (vs ws : List Work)
      → formatted f (vs ++ ws) ≡ formatted f vs ++ formatted (last_set f vs) ws
  unfolding formatted last_set
  formatted-append f [] ws = refl
  formatted-append f (log m ∷ vs) ws = ap (λ t. (m, f) ∷ t) (formatted-append f vs ws)
  formatted-append f (set_formatter g ∷ vs) ws = formatted-append (name_of g) vs ws

  last_set-append :
      (f : Option ℕ) (vs ws : List Work) → last_set f (vs ++ ws) ≡ last_set (last_set f vs) ws
  unfolding last_set
  last_set-append f [] ws = refl
  last_set-append f (log m ∷ vs) ws = last_set-append f vs ws
  last_set-append f (set_formatter g ∷ vs) ws = last_set-append (name_of g) vs ws

  set-name :
      (f : Option (LogFormatter Message)) (s : Logging Message)
      → (name_of (set_log_formatter f s).formatter ≡ name_of f)
        × ((set_log_formatter f s).logged ≡ s.logged)
  unfolding set_log_formatter is_same
  set-name none s = ground (arith, Option-cases s.formatter)
  set-name (some f) s = ground (arith, Option-cases s.formatter)

  -- The blocks are in the order of the calls, and the logger is as the blocks that ran left it.
  record Inv (s : Queues) : Type 0 where
    fifo : s.executed ++ (s.internal ++ s.global) ≡ s.calls
    named : name_of s.logger.formatter ≡ last_set none s.executed
    paired : s.logger.logged ≡ formatted none s.executed

  call_fifo : (xs ys zs ws : List Work) → xs ++ (ys ++ (zs ++ ws)) ≡ (xs ++ (ys ++ zs)) ++ ws
  call_fifo xs ys zs ws = simp append_assoc

  pass_fifo :
      (xs ys : List Work) (w : Work) (zs : List Work)
      → xs ++ ((ys ++ w ∷ []) ++ zs) ≡ xs ++ (ys ++ w ∷ zs)
  pass_fifo xs ys w zs = ap (λ t. xs ++ t) (append_assoc ys (w ∷ []) zs)

  run_fifo :
      (xs : List Work) (w : Work) (ys zs : List Work)
      → (xs ++ w ∷ []) ++ (ys ++ zs) ≡ xs ++ ((w ∷ ys) ++ zs)
  run_fifo xs w ys zs = append_assoc xs (w ∷ []) (ys ++ zs)

  run-Inv :
      (s : Queues) (w : Work) (rest : List Work)
      → s.internal ≡ w ∷ rest
      → Inv s
      → Inv (record s {
        internal = rest;
        executed = s.executed ++ w ∷ [];
        logger = execute w s.logger;
      })
  unfolding execute formatted last_set log_message
  run-Inv s (log m) rest q h = record {
    fifo =
        run_fifo s.executed (log m) rest s.global
        ∙ ap (λ t. s.executed ++ (t ++ s.global)) (sym q)
        ∙ h.fifo;
    named = h.named ∙ sym (last_set-append none s.executed (log m ∷ []));
    paired = rw (formatted-append none s.executed (log m ∷ []), h.named, h.paired);
  }
  run-Inv s (set_formatter f) rest q h = record {
    fifo =
        run_fifo s.executed (set_formatter f) rest s.global
        ∙ ap (λ t. s.executed ++ (t ++ s.global)) (sym q)
        ∙ h.fifo;
    named = (set-name f s.logger).0 ∙ sym (last_set-append none s.executed (set_formatter f ∷ []));
    paired =
        (set-name f s.logger).1
        ∙ h.paired
        ∙ sym (append-nil (formatted none s.executed))
        ∙ sym (formatted-append none s.executed (set_formatter f ∷ []));
  }

  Step-Inv : {s u : Queues} → Step s u → Inv s → Inv u
  Step-Inv {s} (call w e) h = subst Inv (sym e) (record {
    fifo = call_fifo s.executed s.internal s.global (w ∷ []) ∙ ap (λ t. t ++ w ∷ []) h.fifo;
    named = h.named;
    paired = h.paired;
  })
  Step-Inv {s} (pass w rest q e) h = subst Inv (sym e) (record {
    fifo =
        pass_fifo s.executed s.internal w rest
        ∙ ap (λ t. s.executed ++ (s.internal ++ t)) (sym q)
        ∙ h.fifo;
    named = h.named;
    paired = h.paired;
  })
  Step-Inv {s} (run w rest q e) h = subst Inv (sym e) (run-Inv s w rest q h)

  Reach-Inv : {queue : ℕ} {s : Queues} → Reach queue s → Inv s
  unfolding formatted last_set
  Reach-Inv here = record { fifo = refl; named = refl; paired = refl }
  Reach-Inv (next r st) = Step-Inv st (Reach-Inv r)

  -- However the two queues ran, the blocks that the logger's queue has run are the first of the calls,
  -- in their order, and every message among them was logged with the formatter that was set last before
  -- it was logged by a call.
  pub Reach-formatted :
      {queue : ℕ} {s : Queues}
      → Reach queue s
      → (s.executed ++ (s.internal ++ s.global) ≡ s.calls)
        × (s.logger.logged ≡ formatted none s.executed)
  Reach-formatted r = let h = Reach-Inv r in (h.fifo, h.paired)
