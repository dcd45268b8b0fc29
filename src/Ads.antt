-- ===== src/Ads.antt =====
-- services/ads: the operators' voice ads, from the upload to the injector's queues.
pub mod Records
pub mod Client
pub mod Submit
pub mod Routes
pub mod Outcomes
pub mod Requests
mod Examples
