-- ===== src/Examples.antt =====
-- The theorems at concrete inputs.
mod Fragments
mod Frames
mod Tasks
mod Reports
mod Calls
mod Managers
mod Bodies
mod Commands
mod Messages
