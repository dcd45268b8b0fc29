-- ===== src/Metadata.antt =====
-- services/metadata: what plays now, what is queued, and the health of the parts.
pub mod NowPlaying
pub mod Queue
pub mod Preview
pub mod Remaining
pub mod Health
pub mod Status
mod Examples
