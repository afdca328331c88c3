-- ===== src/Examples.antt =====
-- Each property at a concrete input.
mod Samples
mod Requests
mod Results
mod Runs
mod Parts
mod Services
mod Selection
mod Documents
