-- ===== src/JobStore.antt =====
-- web_service/job_store.py: the table of conversion jobs.
pub mod Schema
pub mod Store
pub mod Children
pub mod Migrations
pub mod Frames
