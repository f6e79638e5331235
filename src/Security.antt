-- ===== src/Security.antt =====
-- memnode/security.py: the anti-replay window, the key schedule, the encrypted channel and the handshake.
pub mod ReplayWindow
pub mod Channel
pub mod Handshake
