-- ===== src/Injector.antt =====
-- services/injector: the queues of the cities and the endpoint that fills them.
pub mod Requests
pub mod Answered
pub mod Fanout
pub mod Queue
pub mod Upkeep
pub mod Counts
pub mod Cap
pub mod Targets
pub mod Safety
pub mod Delivery
pub mod Purge
mod Examples
pub mod Service
