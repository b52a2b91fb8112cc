-- ===== src/Playback.antt =====
-- internal/playback: the listing of what can be played back.
pub mod Listing
pub mod Bounds
pub mod Coverage
