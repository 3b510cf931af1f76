-- ===== src/Tests.antt =====
-- Sample inputs, what the program does on them, and the theorems at them.
mod Samples
mod Graphs
mod Schedules
mod Slots
mod Voices
mod Storage
mod Texts
mod Patches
mod Lang
mod Queues
