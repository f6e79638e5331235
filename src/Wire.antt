-- ===== src/Wire.antt =====
-- memnode/protocol.py: framing and messages.
pub mod Frame
pub mod Frames
pub mod Limits
pub mod Message
pub mod Messages
