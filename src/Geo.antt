-- ===== src/Geo.antt =====
-- services/geo: the registry of the cities and the detection of a listener's city.
pub mod Registry
pub mod Detect
pub mod Names
pub mod Listed
pub mod Called
pub mod Answers
pub mod Places
mod Examples
