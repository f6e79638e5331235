-- ===== src/Lib.antt =====
-- Peer Memory (memnode): a model of the daemon's core, and what holds of it.
--
-- A memnode daemon keeps blocks of bytes in memory, under a quota, for local clients and for its
-- peers. A peer connection is accepted by a guard against floods (memnode/ratelimit.py), runs over
-- a secure channel that refuses replayed frames (memnode/security.py), and carries the messages of
-- several streams in turn (memnode/mux.py), each message in a frame (memnode/protocol.py). A large
-- payload travels in chunks (memnode/replication.py). What arrives ends in the block store
-- (memnode/blocks.py).
--
--   Prelude    tests, lists, dicts as association lists, results, strings
--   Bits       the bits of numbers, for the replay window
--   Config     memnode/config.py: the limits that the other parts read
--   Security   memnode/security.py: ReplayWindow (`check_and_update` of class ReplayWindow, in
--              the two steps `slide` and `mark`), and Channel (class SecureChannel: `send`,
--              and `recv_frame`, one turn of the loop of recv()), and Handshake
--              (`perform_handshake`, the constructor `new_channel`); the primitives are parameters
--   Blocks     memnode/blocks.py, class BlockManager: State (the records and counters), Evict
--              (`evict_to_free`), Store (`store`, `load`, `load_by_key`, `free`, `free_by_key`,
--              `stats`); Accounts, Quota and Contents hold the proofs
--   RateLimit  memnode/ratelimit.py: `acquire`, `release`, `evict_if_needed` of HandshakeGuard and
--              the slot's `slot_enter` and `slot_exit`
--   Mux        memnode/mux.py, class ChannelMux: `send`, and the writer's loop in the parts between
--              which other tasks run: `write` (up to the await of channel.send_msg) and `finish`
--   Wire       memnode/protocol.py: Frame (`read_frame`, `write_frame`), Message (`Message`, `encode`,
--              `decode`, `stream_id`, `recv_message`, `send_message`); a reader is the bytes that the
--              peer sends until it closes, and msgpack is a parameter
--   Replication  memnode/replication.py: the chunks of one transfer (`split`, `handle_chunk`); Payload
--              (`extract_payload` and the reading of a body's fields); Coordinator (the state of class
--              ReplicationCoordinator, `gc_buffers`, `abort_buffer`), Stores (`serve_store_block`,
--              `receive_chunk`), Dispatch (`serve_request_block`, `serve_free_block`,
--              `handle_message`), Requests (`store_remote`, `load_remote`, and the parts of
--              free_remote before and after the await); the other files hold the proofs
--   Peers      memnode/peers.py: Trust (class TrustStore: `open_store`, `save`, `trust`,
--              `mark_verified`, `revoke`; Warnings has `identity_conflicts`), Consent
--              (`check_consent`), Registry (the dict of peers: `register`, `start_loop`, `end_loop`,
--              `best_peer_for_store`, and `resolve_peer` of memnode/rpc.py), Incoming
--              (`handle_incoming`)
--   Tls        memnode/tlsmode.py: `validate`, the two contexts, `enforce_pin`
--   Rpc        memnode/rpc.py and memnode/rpcauth.py: Auth (`verify_response`, `is_loopback`,
--              `start`), Client (`read_frame`, `authenticate`, `handle_client`), Dispatch (`dispatch` with
--              its operations); Gate, Turns and Storage hold the proofs
--   Tests      the theorems at concrete inputs, and runs of the model
--
-- State is passed and returned: a method is a function from the state and its arguments to the new
-- state and a result, and an exception is a value of the result. All of the code runs on one asyncio
-- event loop, so a method is one step between two awaits that can really suspend. The locks of
-- memnode/blocks.py are never held across such an await, so each method of BlockManager is one
-- step. In memnode/mux.py the await of a slot and the await of the channel do suspend: an
-- `Event` is one step, and a theorem about a list of events speaks of every interleaving.
--
-- What the code takes from outside is an argument: the clock, Python's hash of a key, and the random
-- orders of the stripes and of the victims. A hypothesis on one of these says what Python documents:
-- a shuffle of a range holds numbers of the range. The cipher is any pair of functions that is an
-- AEAD (`IsAead`: the text comes back, and the tag has 16 bytes), the key derivation any function,
-- Ed25519 accepts what it signed, the two ends of X25519 compute one secret, and msgpack is any pair of
-- functions that unpacks what it packed. Times are whole milliseconds where the source has
-- seconds as floats; a comparison of a time with a difference is written as a sum. Python's
-- integers have no bound and are natural numbers where they cannot be negative. Loops run along a list
-- or count down; the sender's loop over a payload has fuel, the payload's length, which is
-- enough since each turn takes a byte or more, and so has the loop over a client's requests, the
-- length of what the client sends and five, since each turn but the first takes four bytes or more.
--
-- The parts meet in the messages: Replication.Dispatch takes the messages of Wire, in the order in which
-- Mux hands them over, and calls the methods of Blocks. Peers.Registry chooses where a block goes.
--
-- What a peer sends as its name and its quota is any value; Python's == on names is an argument, and so
-- is whether the disk takes the file of the trust store. best_peer_for_store is modelled for quotas
-- that are natural numbers, as this code sends them: on another value its comparison may raise. Of the
-- messages between peers those are modelled whose req_id and key are text, null or absent, as this code
-- writes them: the coordinator also keeps a transfer under a number or under bytes, and nothing is said
-- of such messages.
--
-- Not modelled: the sockets, the tasks and the timeouts of memnode/peers.py and memnode/rpc.py, which
-- join the parts; connect_to of memnode/peers.py; the operations connect, trusted, verify_peer and
-- pair of memnode/rpc.py and the token file. The command line, the daemon's start, mDNS discovery and
-- the benchmarks are input and output around these parts.
pub mod Prelude
pub mod Bits
pub mod Config
pub mod Security
pub mod Blocks
pub mod RateLimit
pub mod Mux
pub mod Wire
pub mod Replication
pub mod Peers
pub mod Rpc
pub mod Tls
mod Tests
