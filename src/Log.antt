-- ===== src/Log.antt =====
-- The logging front end and back end of log/.
pub mod Calendar
pub mod Format
pub mod Stream
pub mod Async
pub mod Record
pub mod Logger
pub mod Appender
pub mod Init
mod Examples
