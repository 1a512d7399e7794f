-- ===== src/Log.antt =====
-- core/include/warlib/WarLog.h and core/src/WarLog.cpp: the logging library, one module for each
-- class or group of functions.
pub mod Level
pub mod Filter
pub mod Message
pub mod Engine
pub mod Output
pub mod File
pub mod FunctionCall
mod Tests
