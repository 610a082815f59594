-- ===== src/AccessLog.antt =====
-- pkg/accesslog: the way of an access log from the queue of the collectors to the backend.
pub mod Queue
pub mod Batch
pub mod Sender
pub mod Resolution
pub mod Runner
