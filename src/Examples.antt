-- ===== src/Examples.antt =====
-- The theorems at concrete inputs.
mod Fixtures
mod Queue
mod Wires
mod Table
mod Handlers
mod Media
mod Listener
mod Browser
mod Events
mod Notices
mod Log
mod Start
mod Proxy
mod Round
