-- ===== src/Batch.antt =====
-- src/routerbot/core/batch: the queue of asynchronous jobs, its workers, and batches of requests.
pub mod JobQueue
pub mod WorkerPool
pub mod BatchManager
