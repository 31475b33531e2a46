-- ===== src/Tests.antt =====
-- Runs of the definitions at concrete inputs, and the theorems at such inputs.
mod Sample
mod Strings
mod Counts
mod Calls
mod Jobs
mod Shared
mod Office
mod Processes
mod Schedulers
mod Monitors
mod Files
