-- ===== src/FileManager.antt =====
-- DDLogFileManagerDefault of Sources/CocoaLumberjack/DDFileLogger.m: which log files are kept, and how
-- a new one is named and created.
pub mod Cleanup
pub mod Creation
pub mod Sorting
pub mod FileInfo
pub mod Manager
mod Examples
