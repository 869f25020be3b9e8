-- ===== src/Log/Macros.antt =====
-- The logging macros of include/CocoaLumberjack/DDLogMacros.h, DDLog+LOGV.h and DDAssertMacros.h and of
-- Supporting Files/DDLegacyMacros.h: what a use of a macro
-- calls. A function that stands for several macros has one clause for each.
pub mod Families
pub mod Effects
use Prim.Native.Nat.{bit_or}
use cocoa_lumberjack.Base.{
  ℕ, ◌^◌, Bool, true, false, not, ◌&&◌, List, [], ◌∷◌, Option, none, some, ◌==◌, bit_and,
  if◌then◌else◌,
}
use cocoa_lumberjack.FileName.{Bytes}
use cocoa_lumberjack.Log.Level.{Flag, flag_bits, Level, level_bits, is_enabled}
use cocoa_lumberjack.Log.Api.{Arguments}

-- Where a macro is used: the level `ddLogLevel` there, LOG_ASYNC_ENABLED, and what the compiler knows.
pub record Site : Type 0 where
  pub log_level_def : ℕ
  pub log_async_enabled : Bool
  pub file : Bytes
  pub pretty_function : Bytes
  pub line : ℕ

-- A call of a logging primitive: of the class, or of an instance; with the arguments themselves, or in a
-- va_list.
pub data Receiver : Type 0 where
  class : Receiver
  instance_of : ℕ → Receiver

pub record LogCall (Object Values : Type 0) : Type 0 where
  pub receiver : Receiver
  pub has_arg_list : Bool
  pub asynchronous : Bool
  pub arguments : Arguments Object
  pub values : Values

-- What an assertion does: its calls, and whether it fails. The format is `"%@"`, and the value is the
-- description.
pub record Assertion (Object Values : Type 0) : Type 0 where
  pub calls : List (LogCall Object Values)
  pub fails : Bool

module _ {Object Values : Type 0} where
  abbrev pub macro_call :
      Site
      → Receiver
      → Bool
      → Bool
      → ℕ
      → ℕ
      → ℕ
      → Option Object
      → Bytes
      → Bytes
      → Values
      → LogCall Object Values
  macro_call site receiver has_arg_list asynchronous lvl flg ctx atag fnct frmt values = record {
    receiver = receiver;
    has_arg_list = has_arg_list;
    asynchronous = asynchronous;
    arguments = record {
      level = lvl;
      flag = flg;
      context = ctx;
      file = site.file;
      function = some fnct;
      line = site.line;
      tag = atag;
      format = some frmt;
    };
    values = values;
  }

  -- LOG_MACRO and LOG_MACRO_TO_DDLOG.
  unfoldable pub log_macro :
      Site
      → Receiver
      → Bool
      → ℕ
      → ℕ
      → ℕ
      → Option Object
      → Bytes
      → Bytes
      → Values
      → LogCall Object Values
  log_macro site receiver asynchronous lvl flg ctx atag fnct frmt values =
      macro_call site receiver false asynchronous lvl flg ctx atag fnct frmt values

  -- LOG_MAYBE and LOG_MAYBE_TO_DDLOG.
  unfoldable pub log_maybe :
      Site
      → Receiver
      → Bool
      → ℕ
      → ℕ
      → ℕ
      → Option Object
      → Bytes
      → Bytes
      → Values
      → List (LogCall Object Values)
  unfolding log_macro
  log_maybe site receiver async lvl flg ctx tag fnct frmt values =
      if not (bit_and lvl flg == 0)
      then log_macro site receiver async lvl flg ctx tag fnct frmt values ∷ []
      else []

  -- DDLogError, DDLogWarn, DDLogInfo, DDLogDebug and DDLogVerbose.
  unfoldable pub dd_log : Flag → Site → Bytes → Values → List (LogCall Object Values)
  unfolding log_maybe
  dd_log Flag.error s frmt v =
      log_maybe s class false s.log_level_def (flag_bits Flag.error) 0 none s.pretty_function frmt v
  dd_log Flag.warning s frmt v =
      log_maybe s class s.log_async_enabled s.log_level_def (flag_bits Flag.warning) 0 none
        s.pretty_function frmt v
  dd_log Flag.info s frmt v =
      log_maybe s class s.log_async_enabled s.log_level_def (flag_bits Flag.info) 0 none
        s.pretty_function frmt v
  dd_log Flag.debug s frmt v =
      log_maybe s class s.log_async_enabled s.log_level_def (flag_bits Flag.debug) 0 none
        s.pretty_function frmt v
  dd_log Flag.verbose s frmt v =
      log_maybe s class s.log_async_enabled s.log_level_def (flag_bits Flag.verbose) 0 none
        s.pretty_function frmt v

  -- DDLogErrorToDDLog and the four others, with an instance.
  unfoldable pub dd_log_to_ddlog : Flag → ℕ → Site → Bytes → Values → List (LogCall Object Values)
  unfolding log_maybe
  dd_log_to_ddlog Flag.error d s frmt v =
      log_maybe s (instance_of d) false s.log_level_def (flag_bits Flag.error) 0 none
        s.pretty_function frmt v
  dd_log_to_ddlog Flag.warning d s frmt v =
      log_maybe s (instance_of d) s.log_async_enabled s.log_level_def (flag_bits Flag.warning) 0
        none s.pretty_function frmt v
  dd_log_to_ddlog Flag.info d s frmt v =
      log_maybe s (instance_of d) s.log_async_enabled s.log_level_def (flag_bits Flag.info) 0 none
        s.pretty_function frmt v
  dd_log_to_ddlog Flag.debug d s frmt v =
      log_maybe s (instance_of d) s.log_async_enabled s.log_level_def (flag_bits Flag.debug) 0 none
        s.pretty_function frmt v
  dd_log_to_ddlog Flag.verbose d s frmt v =
      log_maybe s (instance_of d) s.log_async_enabled s.log_level_def (flag_bits Flag.verbose) 0
        none s.pretty_function frmt v

  -- LOGV_MACRO.
  unfoldable pub logv_macro :
      Site → Bool → ℕ → ℕ → ℕ → Option Object → Bytes → Bytes → Values → LogCall Object Values
  logv_macro site asynchronous lvl flg ctx atag fnct frmt avalist =
      macro_call site class true asynchronous lvl flg ctx atag fnct frmt avalist

  -- LOGV_MAYBE.
  unfoldable pub logv_maybe :
      Site
      → Bool
      → ℕ
      → ℕ
      → ℕ
      → Option Object
      → Bytes
      → Bytes
      → Values
      → List (LogCall Object Values)
  unfolding logv_macro
  logv_maybe site async lvl flg ctx tag fnct frmt avalist =
      if bit_and lvl flg == 0
      then []
      else logv_macro site async lvl flg ctx tag fnct frmt avalist ∷ []

  -- DDLogVError and the four others.
  unfoldable pub dd_logv : Flag → Site → Bytes → Values → List (LogCall Object Values)
  unfolding logv_maybe
  dd_logv Flag.error s frmt v =
      logv_maybe s false s.log_level_def (flag_bits Flag.error) 0 none s.pretty_function frmt v
  dd_logv Flag.warning s frmt v =
      logv_maybe s s.log_async_enabled s.log_level_def (flag_bits Flag.warning) 0 none
        s.pretty_function frmt v
  dd_logv Flag.info s frmt v =
      logv_maybe s s.log_async_enabled s.log_level_def (flag_bits Flag.info) 0 none
        s.pretty_function frmt v
  dd_logv Flag.debug s frmt v =
      logv_maybe s s.log_async_enabled s.log_level_def (flag_bits Flag.debug) 0 none
        s.pretty_function frmt v
  dd_logv Flag.verbose s frmt v =
      logv_maybe s s.log_async_enabled s.log_level_def (flag_bits Flag.verbose) 0 none
        s.pretty_function frmt v

  -- The legacy LOG_MAYBE and LOG_OBJC_MAYBE, whose LOG_ASYNC_ENABLED is always YES, and DDLogError and the
  -- four others of the legacy header.
  unfoldable pub log_objc_maybe :
      Site → Bool → ℕ → ℕ → ℕ → Bytes → Values → List (LogCall Object Values)
  unfolding log_macro
  log_objc_maybe s async lvl flg ctx frmt v =
      if not (bit_and lvl flg == 0)
      then log_macro s class async lvl flg ctx none s.pretty_function frmt v ∷ []
      else []

  unfoldable pub legacy_dd_log : Flag → Site → Bytes → Values → List (LogCall Object Values)
  unfolding log_objc_maybe
  legacy_dd_log Flag.error s frmt v =
      log_objc_maybe s (false && true) s.log_level_def (flag_bits Flag.error) 0 frmt v
  legacy_dd_log Flag.warning s frmt v =
      log_objc_maybe s (true && true) s.log_level_def (flag_bits Flag.warning) 0 frmt v
  legacy_dd_log Flag.info s frmt v =
      log_objc_maybe s (true && true) s.log_level_def (flag_bits Flag.info) 0 frmt v
  legacy_dd_log Flag.debug s frmt v =
      log_objc_maybe s (true && true) s.log_level_def (flag_bits Flag.debug) 0 frmt v
  legacy_dd_log Flag.verbose s frmt v =
      log_objc_maybe s (true && true) s.log_level_def (flag_bits Flag.verbose) 0 frmt v

  -- DDAssert and DDAssertionFailure.
  unfoldable pub dd_assert : Bool → Site → Bytes → Values → Assertion Object Values
  unfolding dd_log
  dd_assert condition s frmt description =
      if condition
      then record { calls = []; fails = false }
      else record { calls = dd_log Flag.error s frmt description; fails = true }

  unfoldable pub dd_assertion_failure : Site → Bytes → Values → Assertion Object Values
  unfolding dd_assert
  dd_assertion_failure s frmt description = dd_assert false s frmt description
