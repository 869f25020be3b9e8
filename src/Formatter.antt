-- ===== src/Formatter.antt =====
-- The formatters of Sources/CocoaLumberjack/Extensions.
pub mod Context
pub mod Filters
pub mod Chain
pub mod QueueLabel
pub mod QueueFormatter
mod Examples
