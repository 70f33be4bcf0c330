-- ===== src/Base.antt =====
-- mudou/base: the reader of configuration files, and the log that a thread of its own writes.
pub mod ConfigFileReader
pub mod AsyncLog
pub mod CountDownLatch
pub mod Timestamp
