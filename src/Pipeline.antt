-- ===== src/Pipeline.antt =====
-- web_service/pipeline_runner.py. A path is its name in the job's directory; what a subprocess does to
-- the files there, and how it ends, is a function (Host.run). Times are nanoseconds, costs
-- micro-dollars, and the output of the tools is ASCII.
pub mod Tools
pub mod Outputs
pub mod Telemetry
pub mod Runs
pub mod Delivered
