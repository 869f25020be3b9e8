-- ===== src/SystemLog/Capture.antt =====
-- DDASLLogCapture of include/CocoaLumberjack/DDASLLogCapture.h and DDASLLogCapture.m: the messages of asl
-- become messages of DDLog. A handler is told when asl has new messages and searches for them; the
-- search is a parameter, as the messages that it finds.
use cocoa_lumberjack.Base.{
  ℕ, zero, suc, ◌+◌, ◌≡◌, refl, Bool, true, false, not, List, [], ◌∷◌, ◌++◌, Option, none, some,
  ◌==◌, ltb, if◌then◌else◌, bytes_eq, arith, append_assoc, append-nil, ap, ◌∙◌, ◌&&◌, All,
  Bool-cases, inl, inr,
}
use cocoa_lumberjack.FileName.{Bytes}
use cocoa_lumberjack.Log.Level.{Flag, flag_bits, Level, level_bits, is_enabled}
use cocoa_lumberjack.FileLogger.Text.{Formatted, dropped, unchanged, changed}
use cocoa_lumberjack.SystemLog.{capture_file}
use cocoa_lumberjack.SystemLog.Asl.{
  AslMessage, asl_dd_log_value, asl_log_level, sent_message, log_message,
}

-- The class methods.
pub record AslLogCapture (State : Type 0) : Type 0 where
  pub start : State → State
  pub stop : State → State
  pub capture_level : State → ℕ
  pub set_capture_level : ℕ → State → State

-- A message for DDLog: whether it is logged asynchronously, its flag and its text; its file is that of
-- the capture.
pub record Captured : Type 0 where
  pub asynchronous : Bool
  pub flag : ℕ
  pub text : Bytes
  pub file : Bytes

-- The static variables, how many handlers are registered, and what was logged.
pub record Capture : Type 0 where
  pub cancel : Bool
  pub level : ℕ
  pub handlers : ℕ
  pub logged : List Captured

abbrev pub initial_capture : Capture
initial_capture = record {
  cancel = true;
  level = level_bits Level.verbose;
  handlers = 0;
  logged = [];
}

-- The block that registers the handler runs at once here.
unfoldable pub start : Capture → Capture
start s = if s.cancel then record s { cancel = false; handlers = s.handlers + 1 } else s

unfoldable pub stop : Capture → Capture
stop s = record s { cancel = true }

abbrev pub asl_log_capture : AslLogCapture Capture
unfolding start stop
asl_log_capture = record {
  start = start;
  stop = stop;
  capture_level = λ s. s.level;
  set_capture_level = λ level s. record s { level = level };
}

-- The flag of a level of asl.
unfoldable pub flag_of_asl_level : ℕ → Flag
flag_of_asl_level n =
    if ltb n 3
    then Flag.error
    else if n == 3
    then Flag.warning
    else if n == 4
    then Flag.info
    else if n == 5
    then Flag.debug
    else Flag.verbose

-- `aslMessageReceived:`
unfoldable pub asl_message_received : ℕ → AslMessage → List Captured
unfolding flag_of_asl_level
asl_message_received level m =
    let flag = flag_bits (flag_of_asl_level m.level) in
    if is_enabled level flag
    then record {
      asynchronous = not (ltb m.level 3);
      flag = flag;
      text = m.text;
      file = capture_file;
    }
      ∷ []
    else []

-- `configureAslQuery:` on the Mac: the query asks for the levels up to that of debugging, leaves out the
-- messages that this library sent, and asks for those of this process.
unfoldable pub is_queried : ℕ → AslMessage → Bool
is_queried process m =
    ltb m.level 8
    && elim m.dd_log [ none ↦ true | some v ↦ not (bytes_eq v asl_dd_log_value) ]
    && m.pid == process

unfoldable pub received : ℕ → ℕ → List AslMessage → List Captured
unfolding asl_message_received is_queried
received process level [] = []
received process level (m ∷ ms) =
    let rest = received process level ms in
    if is_queried process m then asl_message_received level m ++ rest else rest

-- A handler runs on new messages: they are logged, and then it goes if the capture was stopped.
unfoldable pub handle_notification : ℕ → List AslMessage → Capture → Capture
unfolding received
handle_notification process ms s =
    let seen = record s { logged = s.logged ++ received process s.level ms } in
    elim s.handlers [ zero ↦ s | suc n ↦ if s.cancel then record seen { handlers = n } else seen ]

-- The flag of a message that was sent to asl is read back, but for a verbose message, which comes back
-- as one for debugging.
pub flag_of_asl_level-asl_log_level :
    (f : Flag)
    → flag_bits (flag_of_asl_level (asl_log_level (flag_bits f)))
      ≡ (if flag_bits f == flag_bits Flag.verbose then flag_bits Flag.debug else flag_bits f)
unfolding flag_of_asl_level asl_log_level
flag_of_asl_level-asl_log_level Flag.error = refl
flag_of_asl_level-asl_log_level Flag.warning = refl
flag_of_asl_level-asl_log_level Flag.info = refl
flag_of_asl_level-asl_log_level Flag.debug = refl
flag_of_asl_level-asl_log_level Flag.verbose = refl

received-append :
    (process level : ℕ) (xs ys : List AslMessage)
    → received process level (xs ++ ys) ≡ received process level xs ++ received process level ys
unfolding received
received-append process level [] ys = refl
received-append process level (x ∷ xs) ys =
    grind (arith, append_assoc, received-append process level xs ys)

-- A message with the library's key is not captured.
own-unqueried :
    (process level : ℕ) (m : AslMessage)
    → m.dd_log ≡ some asl_dd_log_value
    → received process level (m ∷ []) ≡ []
unfolding received is_queried
own-unqueried process level m h = ground (arith, h)

received-own :
    (process level : ℕ) (log : List AslMessage) (m : AslMessage)
    → m.dd_log ≡ some asl_dd_log_value
    → received process level (log ++ m ∷ []) ≡ received process level log
received-own process level log m h =
    received-append process level log (m ∷ [])
    ∙ ap (λ x. received process level log ++ x) (own-unqueried process level m h)
    ∙ append-nil (received process level log)

skipped-own :
    (skipped : Bool) (process level : ℕ) (log : List AslMessage) (m : AslMessage)
    → m.dd_log ≡ some asl_dd_log_value
    → received process level (if skipped then log else log ++ m ∷ []) ≡ received process level log
skipped-own true process level log m h = refl
skipped-own false process level log m h = received-own process level log m h

-- What the logger for asl sends is not captured, whatever process it is in.
sent-uncaptured :
    (process level : ℕ) (r : Option Formatted) (file_name : Bytes) (flag : ℕ) (text : Bytes)
    (uid pid : ℕ) (log : List AslMessage)
    → received process level (log_message r file_name flag text uid pid log)
      ≡ received process level log
unfolding log_message
sent-uncaptured process level none file_name flag text uid pid log =
    skipped-own (bytes_eq file_name capture_file) process level log (sent_message flag text uid pid)
      refl
sent-uncaptured process level (some dropped) file_name flag text uid pid log = ground arith
sent-uncaptured process level (some unchanged) file_name flag text uid pid log =
    skipped-own (bytes_eq file_name capture_file) process level log (sent_message flag text uid pid)
      refl
sent-uncaptured process level (some (changed t)) file_name flag text uid pid log =
    skipped-own (bytes_eq file_name capture_file) process level log (sent_message flag t uid pid)
      refl

-- The logger for asl sends nothing for a message, whatever its formatter makes of it.
abbrev pub IsUnsent : Captured → Type 0
IsUnsent c =
    (r : Option Formatted) (uid pid : ℕ) (log : List AslMessage)
    → log_message r c.file c.flag c.text uid pid log ≡ log

received-IsUnsent :
    (process level : ℕ) (ms : List AslMessage) → All IsUnsent (received process level ms)
unfolding received asl_message_received log_message
received-IsUnsent process level [] = tt
received-IsUnsent process level (m ∷ ms) =
    let rest = received-IsUnsent process level ms in
    elim (Bool-cases (is_queried process m)) [
      | inr e ↦ rw e rest
      | inl e ↦ elim (Bool-cases (is_enabled level (flag_bits (flag_of_asl_level m.level)))) [
        | inr d ↦ rw (e, d) rest
        | inl d ↦ rw (e, d) ((λ r uid pid log. refl), rest)
      ]
    ]

-- No message goes round: nothing that the logger for asl sends, for any message of DDLog, is captured, so
-- that a search finds just what it finds without it; and for no captured message, each of which is logged
-- with its file, does that logger send anything.
pub capture_no_echo :
    (process level : ℕ) (r : Option Formatted) (file_name : Bytes) (flag : ℕ) (text : Bytes)
    (uid pid : ℕ) (log : List AslMessage)
    → (received process level (log_message r file_name flag text uid pid log)
        ≡ received process level log)
      × All IsUnsent (received process level log)
capture_no_echo process level r file_name flag text uid pid log = (
  sent-uncaptured process level r file_name flag text uid pid log,
  received-IsUnsent process level log,
)

-- Starting, stopping and starting again before a handler has run leaves two handlers, each of which logs
-- all new messages.
pub start-stop-start :
    (process : ℕ) (ms : List AslMessage)
    → let s = start (stop (start initial_capture)) in
      let all = received process (level_bits Level.verbose) ms in
      (s.handlers ≡ 2)
      × ((handle_notification process ms (handle_notification process ms s)).logged ≡ all ++ all)
unfolding start stop handle_notification
start-stop-start process ms = (refl, refl)
