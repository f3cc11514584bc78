-- ===== src/Jobs.antt =====
-- core/jobs/job-queue.ts: jobs that wait for a worker in this process.
pub mod Queue
pub mod Steps
pub mod Soundness
pub mod History
pub mod Result
mod Tests
