-- ===== src/Peers.antt =====
-- memnode/peers.py: the trust store, the consent to a connection, and the registry of peers.
pub mod Trust
pub mod Consent
pub mod Registry
pub mod Incoming
