-- ===== src/Logger.antt =====
-- src/src/logger.h and src/src/logger.cpp: the loggers. A text is its bytes.
pub mod Levels
pub mod Pattern
pub mod Split
pub mod Printed
pub mod Loggers
pub mod Delivered
pub mod Served
pub mod Config
pub mod Defined
pub mod Lookup
pub mod Configured
mod Tests
