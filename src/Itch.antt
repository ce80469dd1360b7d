-- ===== src/Itch.antt =====
-- ITCH 5.0: the message types, the decoded forms, the decoder and the framing (src/itch).
pub mod MessageType
pub mod Messages
pub mod Decoder
pub mod Framing
mod Examples
