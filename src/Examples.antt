-- ===== src/Examples.antt =====
-- A small database, cache and signing library, and the theorems at concrete inputs.
mod Database
mod Cache
mod Signing
mod Rows
mod Content
mod Owners
mod Members
mod Threads
mod Sessions
mod Site
mod Uploads
mod Requests
mod Startup
mod Migrations
mod Processes
mod Bodies
