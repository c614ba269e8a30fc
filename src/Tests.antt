-- ===== src/Tests.antt =====
-- Runs of the models at concrete inputs, and the theorems at inputs where their hypotheses hold.
mod Fixtures
mod Store
mod Reopen
mod Crashes
mod Restarts
mod Processes
mod Tables
mod Logs
mod Buffers
