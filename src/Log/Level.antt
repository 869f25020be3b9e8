-- ===== src/Log/Level.antt =====
-- DDLogFlag and DDLogLevel of include/CocoaLumberjack/DDLog.h, 64-bit masks, and the test by which
-- `lt_log` and the logging macros select messages.
use Prim.Native.Nat.{bit_or}
use cocoa_lumberjack.Base.{ℕ, ◌^◌, ◌-◌, ◌≡◌, refl, Bool, not, ◌==◌, ltb, bit_and}

pub data Flag : Type 0 where
  error warning info debug verbose : Flag

pub data Level : Type 0 where
  off error warning info debug verbose all : Level

-- The bit of a flag.
abbrev pub flag_bits : Flag → ℕ
flag_bits Flag.error = 2 ^ 0
flag_bits Flag.warning = 2 ^ 1
flag_bits Flag.info = 2 ^ 2
flag_bits Flag.debug = 2 ^ 3
flag_bits Flag.verbose = 2 ^ 4

abbrev error_bits : ℕ
error_bits = flag_bits Flag.error

abbrev warning_bits : ℕ
warning_bits = bit_or error_bits (flag_bits Flag.warning)

abbrev info_bits : ℕ
info_bits = bit_or warning_bits (flag_bits Flag.info)

abbrev debug_bits : ℕ
debug_bits = bit_or info_bits (flag_bits Flag.debug)

-- The mask of a level: each level is the one before it with one more flag.
abbrev pub level_bits : Level → ℕ
level_bits Level.off = 0
level_bits Level.error = error_bits
level_bits Level.warning = warning_bits
level_bits Level.info = info_bits
level_bits Level.debug = debug_bits
level_bits Level.verbose = bit_or debug_bits (flag_bits Flag.verbose)
level_bits Level.all = 2 ^ 64 - 1

-- `logMessage->_flag & (DDLogFlag)(loggerNode->_level)`, as a truth value.
unfoldable pub is_enabled : ℕ → ℕ → Bool
is_enabled flag level = not (bit_and flag level == 0)

-- How far down the list of severities a flag stands, and how many of them a level lets through.
abbrev pub severity : Flag → ℕ
severity Flag.error = 0
severity Flag.warning = 1
severity Flag.info = 2
severity Flag.debug = 3
severity Flag.verbose = 4

abbrev pub let_through : Level → ℕ
let_through Level.off = 0
let_through Level.error = 1
let_through Level.warning = 2
let_through Level.info = 3
let_through Level.debug = 4
let_through Level.verbose = 5
let_through Level.all = 5

-- The bits of a flag and of a level meet, whichever is written first, exactly if the severity of the flag
-- is among those that the level lets through.
pub passes :
    (f : Flag) (l : Level)
    → (not (bit_and (flag_bits f) (level_bits l) == 0) ≡ ltb (severity f) (let_through l))
      × (not (bit_and (level_bits l) (flag_bits f) == 0) ≡ ltb (severity f) (let_through l))
passes Flag.error Level.off = (refl, refl)
passes Flag.error Level.error = (refl, refl)
passes Flag.error Level.warning = (refl, refl)
passes Flag.error Level.info = (refl, refl)
passes Flag.error Level.debug = (refl, refl)
passes Flag.error Level.verbose = (refl, refl)
passes Flag.error Level.all = (refl, refl)
passes Flag.warning Level.off = (refl, refl)
passes Flag.warning Level.error = (refl, refl)
passes Flag.warning Level.warning = (refl, refl)
passes Flag.warning Level.info = (refl, refl)
passes Flag.warning Level.debug = (refl, refl)
passes Flag.warning Level.verbose = (refl, refl)
passes Flag.warning Level.all = (refl, refl)
passes Flag.info Level.off = (refl, refl)
passes Flag.info Level.error = (refl, refl)
passes Flag.info Level.warning = (refl, refl)
passes Flag.info Level.info = (refl, refl)
passes Flag.info Level.debug = (refl, refl)
passes Flag.info Level.verbose = (refl, refl)
passes Flag.info Level.all = (refl, refl)
passes Flag.debug Level.off = (refl, refl)
passes Flag.debug Level.error = (refl, refl)
passes Flag.debug Level.warning = (refl, refl)
passes Flag.debug Level.info = (refl, refl)
passes Flag.debug Level.debug = (refl, refl)
passes Flag.debug Level.verbose = (refl, refl)
passes Flag.debug Level.all = (refl, refl)
passes Flag.verbose Level.off = (refl, refl)
passes Flag.verbose Level.error = (refl, refl)
passes Flag.verbose Level.warning = (refl, refl)
passes Flag.verbose Level.info = (refl, refl)
passes Flag.verbose Level.debug = (refl, refl)
passes Flag.verbose Level.verbose = (refl, refl)
passes Flag.verbose Level.all = (refl, refl)

-- A message of each of the five flags passes the test of each of the seven levels exactly when its
-- severity is among those that the level lets through.
is_enabled-iff-severity :
    (f : Flag) (l : Level)
    → is_enabled (flag_bits f) (level_bits l) ≡ ltb (severity f) (let_through l)
unfolding is_enabled
is_enabled-iff-severity f l = (passes f l).0
