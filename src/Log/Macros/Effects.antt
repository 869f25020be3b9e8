-- ===== src/Log/Macros/Effects.antt =====
-- What a use of a logging macro does to the DDLog instances of a process, through the logging primitives
-- of DDLog.
use cocoa_lumberjack.Base.{
  ℕ, ◌≡◌, refl, ap, ◌∙◌, Bool, true, false, List, [], ◌∷◌, ◌++◌, ◌==◌, none, ltb, if◌then◌else◌,
}
use cocoa_lumberjack.FileName.{Bytes}
use cocoa_lumberjack.Log.Level.{Flag, flag_bits, Level, level_bits, severity, let_through}
use cocoa_lumberjack.Log.Registry.{LogMessage, Registry, lt_log}
use cocoa_lumberjack.Log.System.{Task, enqueue, perform}
use cocoa_lumberjack.Log.Api.Listing.{perform_blocks-append}
use cocoa_lumberjack.Log.Api.{Arguments}
use cocoa_lumberjack.Log.Api.Instances.{
  Process, shared_instance, perform_block, perform_blocks, blocks_of, dispatch_async, dispatch_sync,
  queue_log_message, log_args, log_format, logging_primitives,
}
use cocoa_lumberjack.Log.Macros.{
  Site, class, instance_of, LogCall, macro_call, dd_log, dd_log_to_ddlog, dd_logv, legacy_dd_log,
}
use cocoa_lumberjack.Log.Macros.Families.{
  at_level, async_site, is_async, expansion, macros-expansion,
}

-- A message is logged with the table of an instance; the other tables stay.
abbrev logged_with : ℕ → LogMessage → (ℕ → Registry) → ℕ → Registry
logged_with d m registries e = if e == d then lt_log m (registries e) else registries e

-- A message waits behind the other blocks; or it is logged at once; or after the blocks that wait.
abbrev pub logging : ℕ → Bool → LogMessage → Process → Process
logging d asynchronous m p =
    if asynchronous
    then record p { waiting = p.waiting ++ (d, Task.log m) ∷ [] }
    else if p.on_logging_queue
    then record p { registries = logged_with d m p.registries }
    else record p {
      waiting = [];
      registries = logged_with d m (perform_blocks p.waiting p.registries);
    }

perform_last :
    (d : ℕ) (m : LogMessage) (bs : List (ℕ × Task)) (registries : ℕ → Registry)
    → perform_blocks (bs ++ (d, Task.log m) ∷ []) registries
      ≡ logged_with d m (perform_blocks bs registries)
unfolding perform_blocks perform_block perform
perform_last d m bs registries = perform_blocks-append bs ((d, Task.log m) ∷ []) registries

queue_log_message-logging :
    (d : ℕ) (asynchronous : Bool) (m : LogMessage) (p : Process)
    → queue_log_message d asynchronous m p ≡ logging d asynchronous m p
unfolding queue_log_message blocks_of enqueue dispatch_async dispatch_sync
queue_log_message-logging d true m p = refl
queue_log_message-logging d false m p =
    ap
      (λ rs.
        if p.on_logging_queue
        then record p { registries = rs.0 }
        else record p { waiting = []; registries = rs.1 })
      (pair (perform_last d m [] p.registries) (perform_last d m p.waiting p.registries))
  where
    pair :
        {x y u v : ℕ → Registry}
        → x ≡ y
        → u ≡ v
        → Path ((ℕ → Registry) × (ℕ → Registry)) (x, u) (y, v)
    pair {x} {y} {u} {v} a b = ap (λ z. (z, u)) a ∙ ap (λ z. (y, z)) b

module _ {Object Values : Type 0} (make : Bytes → Values → Arguments Object → LogMessage) where
  -- The call by its receiver and by the form of its values.
  pub perform_call : LogCall Object Values → Process → Process
  unfolding log_args log_format
  perform_call c p =
      let api = logging_primitives make in
      elim c.receiver [
        | class ↦
            if c.has_arg_list
            then api.class_log_args c.asynchronous c.arguments c.values p
            else api.class_log c.asynchronous c.arguments c.values p
        | instance_of d ↦
            if c.has_arg_list
            then api.log_args d c.asynchronous c.arguments c.values p
            else api.log d c.asynchronous c.arguments c.values p
      ]

  pub perform_calls : List (LogCall Object Values) → Process → Process
  perform_calls [] p = p
  perform_calls (c ∷ cs) p = perform_calls cs (perform_call c p)

  perform_calls-if :
      (b : Bool) (c : LogCall Object Values) (p : Process)
      → perform_calls (if b then c ∷ [] else []) p ≡ (if b then perform_call c p else p)
  unfolding perform_calls
  perform_calls-if true c p = refl
  perform_calls-if false c p = refl

  -- The message of a macro: its level, flag, file, function and line, with no context and no tag.
  abbrev pub macro_message : Flag → Level → Site → Bytes → Values → LogMessage
  macro_message f l s frmt v =
      make frmt v
        (macro_call {Object = Object} s class false false (level_bits l) (flag_bits f) 0 none
          s.pretty_function frmt v).arguments

  -- The message is logged if the level lets its severity through: asynchronously unless it is an error
  -- or the file switched asynchronous logging off.
  abbrev pub logged : ℕ → Flag → Level → Site → Bytes → Values → Process → Process
  logged d f l s frmt v p =
      if ltb (severity f) (let_through l)
      then logging d (is_async f s) (macro_message f l s frmt v) p
      else p

  class-logged :
      (has_arg_list : Bool) (f : Flag) (l : Level) (s : Site) (frmt : Bytes) (v : Values)
      (p : Process)
      → perform_calls (expansion class has_arg_list f l s frmt v) p
        ≡ logged shared_instance f l s frmt v p
  unfolding perform_call log_args log_format
  class-logged true f l s frmt v p =
      perform_calls-if (ltb (severity f) (let_through l)) _ p
      ∙ ap (λ q. if ltb (severity f) (let_through l) then q else p)
          (queue_log_message-logging shared_instance (is_async f s) (macro_message f l s frmt v) p)
  class-logged false f l s frmt v p =
      perform_calls-if (ltb (severity f) (let_through l)) _ p
      ∙ ap (λ q. if ltb (severity f) (let_through l) then q else p)
          (queue_log_message-logging shared_instance (is_async f s) (macro_message f l s frmt v) p)

  instance-logged :
      (d : ℕ) (f : Flag) (l : Level) (s : Site) (frmt : Bytes) (v : Values) (p : Process)
      → perform_calls (expansion (instance_of d) false f l s frmt v) p ≡ logged d f l s frmt v p
  unfolding perform_call log_args log_format
  instance-logged d f l s frmt v p =
      perform_calls-if (ltb (severity f) (let_through l)) _ p
      ∙ ap (λ q. if ltb (severity f) (let_through l) then q else p)
          (queue_log_message-logging d (is_async f s) (macro_message f l s frmt v) p)

  -- Where the level is one of the seven, a macro of any of the four families makes the same message and
  -- logs it with the shared instance or with the instance that is given, if the level lets the severity of
  -- its flag through, and otherwise leaves the process as it is. It logs asynchronously, by putting a
  -- block on the one logging queue, unless the message is an error or, but for the older macros, the file
  -- switched that off; then the blocks that wait run first, or, on the logging queue, the message
  -- is logged at once.
  pub macros-logged :
      (f : Flag) (l : Level) (s : Site) (d : ℕ) (frmt : Bytes) (v : Values) (p : Process)
      → (perform_calls (dd_log f (at_level l s) frmt v) p ≡ logged shared_instance f l s frmt v p)
        × (perform_calls (dd_log_to_ddlog f d (at_level l s) frmt v) p ≡ logged d f l s frmt v p)
        × (perform_calls (dd_logv f (at_level l s) frmt v) p
            ≡ logged shared_instance f l s frmt v p)
        × (perform_calls (legacy_dd_log f (at_level l s) frmt v) p
            ≡ logged shared_instance f l (async_site s) frmt v p)
  macros-logged f l s d frmt v p =
      let calls = macros-expansion {Object = Object} f l s d frmt v in
      (
        ap (λ cs. perform_calls cs p) calls.0 ∙ class-logged false f l s frmt v p,
        ap (λ cs. perform_calls cs p) calls.1 ∙ instance-logged d f l s frmt v p,
        ap (λ cs. perform_calls cs p) calls.2 ∙ class-logged true f l s frmt v p,
        ap (λ cs. perform_calls cs p) calls.3 ∙ class-logged false f l (async_site s) frmt v p,
      )
