-- ===== src/JobQueue.antt =====
-- web_service/job_queue.py: dispatch of a job, the refund of a failed one, and the sweep.
pub mod World
pub mod Dispatch
pub mod Refunds
pub mod FreeJobs
pub mod Sweep
pub mod Statuses
