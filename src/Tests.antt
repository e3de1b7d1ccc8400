-- ===== src/Tests.antt =====
-- The theorems at concrete inputs: a delivered notification beside a new one, a star on `arch:vim`.
mod Batches
mod Policies
mod Scans
mod Watches
mod Wires
mod Files
mod Generations
mod Commands
mod Dispatches
