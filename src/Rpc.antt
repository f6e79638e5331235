-- ===== src/Rpc.antt =====
-- memnode/rpc.py and memnode/rpcauth.py: the control plane for local clients.
pub mod Auth
pub mod Dispatch
pub mod Storage
pub mod Client
pub mod Gate
pub mod Turns
