-- ===== src/Log.antt =====
-- Sources/CocoaLumberjack/DDLog.m: the log levels, the table of loggers that the logging queue owns,
-- the queues over which messages reach the loggers, and the interface of the class.
pub mod Level
pub mod Registry
pub mod System
pub mod Api
pub mod AbstractLogger
pub mod Macros
mod Examples
