-- ===== src/Tests.antt =====
-- The theorems at concrete data: one system, whose socket takes two bytes at a time, and small states.
mod World
mod Tasks
mod Sending
mod Buffers
mod Loop
mod Addresses
mod Endpoints
mod Sessions
mod Windows
mod Datagrams
mod Records
mod Threads
mod Attached
mod Printing
mod Construction
