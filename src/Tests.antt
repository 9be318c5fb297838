-- ===== src/Tests.antt =====
-- Examples: concrete inputs for the theorems of the other files.
mod Data
mod Text
mod Trees
mod Registry
mod Requests
mod Stream
mod Messages
mod Discovery
mod Reports
mod Commit
mod Daemon
