-- ===== src/Handle.antt =====
-- src/protocol/handle.h and handle.c: the requests and responses that the relay handles.
pub mod State
pub mod ReadCache
pub mod Query
pub mod Response
pub mod Relay
pub mod Cached
pub mod Records
pub mod Aliases
pub mod Outcomes
pub mod Messages
pub mod System
pub mod Overlap
pub mod Wire
pub mod Stream
pub mod Answer
pub mod Repeat
pub mod Poison
pub mod Blocked
pub mod Race
