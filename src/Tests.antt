-- ===== src/Tests.antt =====
-- The theorems at concrete inputs.
mod Forms
mod Requests
mod Connections
mod Dates
mod Processes
mod Data
mod Sites
mod Maps
mod Service
mod Threads
mod Lifetimes
