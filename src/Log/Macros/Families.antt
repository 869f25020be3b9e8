-- ===== src/Log/Macros/Families.antt =====
-- What the families of logging macros expand to, and what their calls do to a process.
use cocoa_lumberjack.Base.{
  ℕ, ◌≡◌, refl, ap, ◌∙◌, Bool, true, false, not, List, [], ◌∷◌, none, ◌==◌, ltb, bit_and,
  if◌then◌else◌,
}
use cocoa_lumberjack.FileName.{Bytes}
use cocoa_lumberjack.Log.Level.{Flag, flag_bits, Level, level_bits, severity, let_through, passes}
use cocoa_lumberjack.Log.Macros.{
  Site, Receiver, class, instance_of, LogCall, macro_call, log_macro, log_maybe, dd_log,
  dd_log_to_ddlog, logv_macro, logv_maybe, dd_logv, log_objc_maybe, legacy_dd_log,
}

-- A place where `ddLogLevel` is one of the levels, and a place where LOG_ASYNC_ENABLED is YES.
abbrev pub at_level : Level → Site → Site
at_level l s = record s { log_level_def = level_bits l }

abbrev pub async_site : Site → Site
async_site s = record s { log_async_enabled = true }

-- Errors are logged synchronously, all else as LOG_ASYNC_ENABLED says.
abbrev pub is_async : Flag → Site → Bool
is_async Flag.error s = false
is_async Flag.warning s = s.log_async_enabled
is_async Flag.info s = s.log_async_enabled
is_async Flag.debug s = s.log_async_enabled
is_async Flag.verbose s = s.log_async_enabled

if_not : {A : Type 0} (b : Bool) (x y : A) → (if b then x else y) ≡ (if not b then y else x)
if_not true x y = refl
if_not false x y = refl

module _ {Object Values : Type 0} where
  -- One call with no context and no tag, if the severity of the flag is one that the level lets
  -- through, and nothing otherwise.
  abbrev pub expansion :
      Receiver → Bool → Flag → Level → Site → Bytes → Values → List (LogCall Object Values)
  expansion r has_arg_list f l s frmt v =
      if ltb (severity f) (let_through l)
      then macro_call s r has_arg_list (is_async f s) (level_bits l) (flag_bits f) 0 none
          s.pretty_function frmt v
        ∷ []
      else []

  log_maybe-passes :
      (r : Receiver) (f : Flag) (l : Level) (s : Site) (frmt : Bytes) (v : Values)
      → log_maybe {Object = Object} s r
          (is_async f s)
          (level_bits l)
          (flag_bits f)
          0
          none
          s.pretty_function
          frmt
          v
        ≡ expansion r false f l s frmt v
  unfolding log_maybe log_macro
  log_maybe-passes r f l s frmt v =
      ap
        (λ b.
          if b
          then macro_call s r false (is_async f s) (level_bits l) (flag_bits f) 0 none
              s.pretty_function frmt v
            ∷ []
          else [])
        (passes f l).1

  logv_maybe-passes :
      (f : Flag) (l : Level) (s : Site) (frmt : Bytes) (v : Values)
      → logv_maybe {Object = Object} s
          (is_async f s)
          (level_bits l)
          (flag_bits f)
          0
          none
          s.pretty_function
          frmt
          v
        ≡ expansion class true f l s frmt v
  unfolding logv_maybe logv_macro
  logv_maybe-passes f l s frmt v =
      if_not (bit_and (level_bits l) (flag_bits f) == 0) _ _
      ∙ ap
          (λ b.
            if b
            then macro_call s class true (is_async f s) (level_bits l) (flag_bits f) 0 none
                s.pretty_function frmt v
              ∷ []
            else [])
          (passes f l).1

  -- Where the level is one of the seven, a macro of any of the four families (by class, by instance,
  -- with a va_list, or legacy) for any of the five flags expands to one call if the severity of the flag
  -- is one that the level lets through, and to nothing otherwise; the call is synchronous for errors, and
  -- as LOG_ASYNC_ENABLED says for the others, which the legacy family takes to be YES.
  pub macros-expansion :
      (f : Flag) (l : Level) (s : Site) (d : ℕ) (frmt : Bytes) (v : Values)
      → (dd_log {Object = Object} f (at_level l s) frmt v ≡ expansion class false f l s frmt v)
        × (dd_log_to_ddlog {Object = Object} f d (at_level l s) frmt v
            ≡ expansion (instance_of d) false f l s frmt v)
        × (dd_logv {Object = Object} f (at_level l s) frmt v ≡ expansion class true f l s frmt v)
        × (legacy_dd_log {Object = Object} f (at_level l s) frmt v
            ≡ expansion class false f l (async_site s) frmt v)
  unfolding dd_log dd_log_to_ddlog dd_logv legacy_dd_log log_objc_maybe log_maybe log_macro
  macros-expansion Flag.error l s d frmt v = (
    log_maybe-passes class Flag.error l s frmt v,
    log_maybe-passes (instance_of d) Flag.error l s frmt v,
    logv_maybe-passes Flag.error l s frmt v,
    log_maybe-passes class Flag.error l (async_site s) frmt v,
  )
  macros-expansion Flag.warning l s d frmt v = (
    log_maybe-passes class Flag.warning l s frmt v,
    log_maybe-passes (instance_of d) Flag.warning l s frmt v,
    logv_maybe-passes Flag.warning l s frmt v,
    log_maybe-passes class Flag.warning l (async_site s) frmt v,
  )
  macros-expansion Flag.info l s d frmt v = (
    log_maybe-passes class Flag.info l s frmt v,
    log_maybe-passes (instance_of d) Flag.info l s frmt v,
    logv_maybe-passes Flag.info l s frmt v,
    log_maybe-passes class Flag.info l (async_site s) frmt v,
  )
  macros-expansion Flag.debug l s d frmt v = (
    log_maybe-passes class Flag.debug l s frmt v,
    log_maybe-passes (instance_of d) Flag.debug l s frmt v,
    logv_maybe-passes Flag.debug l s frmt v,
    log_maybe-passes class Flag.debug l (async_site s) frmt v,
  )
  macros-expansion Flag.verbose l s d frmt v = (
    log_maybe-passes class Flag.verbose l s frmt v,
    log_maybe-passes (instance_of d) Flag.verbose l s frmt v,
    logv_maybe-passes Flag.verbose l s frmt v,
    log_maybe-passes class Flag.verbose l (async_site s) frmt v,
  )
