-- ===== src/Bot.antt =====
-- services/bot: who may use the bot, the pending voice of a conversation, and the handlers of its
-- commands and buttons.
pub mod Conversation
pub mod Taps
pub mod Auth
pub mod Entry
pub mod Order
pub mod Playlist
pub mod City
mod Examples
