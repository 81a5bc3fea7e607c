-- ===== src/Tests.antt =====
-- Runs at concrete data, and the theorems at inputs that meet their hypotheses.
mod Data
mod Collecting
mod Digests
mod Tables
mod Heaps
mod Memories
mod Channels
mod Sessions
mod Rebuilds
mod Scans
mod Synths
mod Stores
mod CommandLines
mod Programs
