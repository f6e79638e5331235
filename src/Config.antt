-- ===== src/Config.antt =====
-- memnode/config.py: the limits that the other modules check. Sizes are in bytes, times in
-- milliseconds (the source has seconds as floats).
use peer_memory.Prelude.{ℕ, ◌*◌}
use peer_memory.Prelude.Text.{Bytes}
use mathlib.Core.List.{[], ◌∷◌}

abbrev pub max_frame_size : ℕ
max_frame_size = 16 * 1024 * 1024

abbrev pub max_block_size : ℕ
max_block_size = 64 * 1024 * 1024

abbrev pub max_rpc_message_size : ℕ
max_rpc_message_size = 8 * 1024 * 1024

abbrev pub protocol_version : ℕ
protocol_version = 1

abbrev pub rekey_interval_messages : ℕ
rekey_interval_messages = 100000

abbrev pub max_rekey_epoch_skip : ℕ
max_rekey_epoch_skip = 64

abbrev pub max_inbound_streams : ℕ
max_inbound_streams = 64

abbrev pub inbound_stream_timeout : ℕ
inbound_stream_timeout = 120000

-- b"MNB1"
abbrev pub rpc_msgpack_magic : Bytes
rpc_msgpack_magic = b'M' ∷ b'N' ∷ b'B' ∷ b'1' ∷ []

abbrev pub replay_window_size : ℕ
replay_window_size = 1024

abbrev pub rekey_interval : ℕ
rekey_interval = 900 * 1000

abbrev pub sas_digits : ℕ
sas_digits = 6
