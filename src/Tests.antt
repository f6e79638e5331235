-- ===== src/Tests.antt =====
-- Runs of the model on concrete inputs, and the theorems at inputs that meet their hypotheses.
mod Replay
mod BlockStore
mod Handshakes
mod Writer
mod Framing
mod Sealing
mod Transfers
mod Devices
mod Coordination
mod Greetings
mod Clients
mod Connections
