-- ===== src/Fetch.antt =====
-- pkg/fetch: requests over HTTP, and those that wait in a queue.
pub mod Async
pub mod Request
