-- ===== src/News.antt =====
-- services/news: from fetched articles to news on the air.
pub mod Clock
pub mod Items
pub mod Selection
pub mod Rotation
pub mod Slip
pub mod Guard
pub mod Pipeline
pub mod Air
pub mod Ingest
pub mod Feeds
pub mod Sources
pub mod Speech
