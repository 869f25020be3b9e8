-- ===== src/SystemLog.antt =====
-- The loggers for the system's logs: DDOSLogger, DDASLLogger and DDASLLogCapture of
-- Sources/CocoaLumberjack, and the names of loggers.
pub mod Os
pub mod Asl
pub mod Capture
mod Examples
use cocoa_lumberjack.Base.{codes}
use cocoa_lumberjack.FileName.{Bytes}

-- DDLoggerName: the names that the loggers of the library give.
pub data LoggerName : Type 0 where
  os file tty asl : LoggerName

abbrev pub logger_name : LoggerName → Bytes
logger_name os = codes "cocoa.lumberjack.osLogger"
logger_name file = codes "cocoa.lumberjack.fileLogger"
logger_name tty = codes "cocoa.lumberjack.ttyLogger"
logger_name asl = codes "cocoa.lumberjack.aslLogger"

-- The name of the file of captured messages.
abbrev pub capture_file : Bytes
capture_file = codes "DDASLLogCapture"
