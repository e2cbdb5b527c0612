-- ===== src/Tests.antt =====
-- The theorems at concrete inputs.
mod Fixtures
mod Formats
mod Tokens
mod Jobs
mod Kindle
mod Payments
mod Filer
mod Shelves
mod Page
mod Tools
