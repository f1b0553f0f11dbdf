-- ===== src/Tests.antt =====
-- The theorems at concrete inputs.
mod Samples
mod Filters
mod Servers
mod Streams
mod Clients
mod Events
mod Calls
mod Services
mod Races
mod Resumes
mod Sessions
