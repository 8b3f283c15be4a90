-- ===== src/Tests.antt =====
-- The theorems at concrete inputs, in one module for each part of the program.
mod Disk
mod Http
mod Cloud
mod Outside
mod Config
mod Tunnels
mod Requests
mod Manager
mod Proxy
mod Desktop
mod Channel
