-- ===== src/Logging.antt =====
-- src/threading/async_log.cpp: the asynchronous logger.
pub mod AsyncLog
