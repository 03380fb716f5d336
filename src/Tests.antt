-- ===== src/Tests.antt =====
-- The theorems at concrete inputs, over a concrete library that has the laws.
mod SampleQt
mod SampleFiles
mod Server
mod WebSocket
mod Users
mod Daemon
mod Commands
mod Post
mod UserFile
mod Config
mod Service
mod Host
mod Switches
mod Pages
