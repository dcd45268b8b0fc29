-- ===== src/Music.antt =====
-- services/music: the playlist policy of the cities and the worker that keeps their queues filled.
pub mod Rules
pub mod Resolve
pub mod Checks
pub mod Policy
pub mod Buffer
pub mod Worker
pub mod Fill
pub mod Yandex
pub mod StreamCache
mod Examples
