-- ===== src/Tests.antt =====
-- Runs of the development's functions at concrete inputs.
mod Requests
mod Memory
mod Caching
mod Concurrency
mod Calm
mod Remote
mod Web
mod Delivery
mod Startup
mod Commands
