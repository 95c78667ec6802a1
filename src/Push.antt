-- ===== src/Push.antt =====
-- Package push: what is kept of the records that are sent, the counters, and the client.
pub mod RingBuffer
pub mod History
pub mod ShardedHistory
pub mod Metric
pub mod Metrics
pub mod ShardedMetrics
pub mod Client
pub mod Timer
pub mod Pool
pub mod Facade
