-- ===== src/SystemLog/Examples.antt =====
-- Messages of asl and flags at which the theorems apply.
use cocoa_lumberjack.Base.{◌≡◌, All, List, [], ◌∷◌, none, codes}
use cocoa_lumberjack.SystemLog.Asl.{AslMessage, log_message}
use cocoa_lumberjack.SystemLog.Capture.{received, IsUnsent, capture_no_echo}

-- A message that the process with the number 77 sent by itself, and one of another process.
abbrev found : List AslMessage
found =
    record { level = 4; text = codes "hello"; read_uid = 501; pid = 77; dd_log = none }
    ∷ record { level = 3; text = codes "other"; read_uid = 501; pid = 78; dd_log = none }
    ∷ []

capture_no_echo_example :
    (received 77 31 (log_message none (codes "main") 4 (codes "text") 501 77 found)
      ≡ received 77 31 found)
    × All IsUnsent (received 77 31 found)
capture_no_echo_example = capture_no_echo 77 31 none (codes "main") 4 (codes "text") 501 77 found
