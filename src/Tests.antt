-- ===== src/Tests.antt =====
-- Runs of the model at concrete inputs, and the instances of the theorems.
mod Protocol
mod Containers
mod Caching
mod Sharing
mod Locks
mod Handlers
mod Hosting
mod Waiting
mod Streaming
mod Pool
mod Starting
mod Answering
mod Blocking
mod Reading
mod Logging
