-- ===== src/Replication/Coordinator.antt =====
-- memnode/replication.py: class ReplicationCoordinator, the messages that come from peers.
--
-- A handler is one step: between two sends nothing of the coordinator's state is read again. Its result has the messages
-- that it sends, in their order. To a peer that is gone they are dropped, and a transfer ends there. `failed` says that it
-- raised; the multiplexer logs this and goes on. The text in a Nack and the log are left out. A future is what it was set to.
-- The total_size of a chunked reply is taken to be a natural number.
use peer_memory.Prelude.{
  ℕ, ◌+◌, Bool, true, false, Option, none, some, List, [], ◌∷◌, ltb, if◌then◌else◌, nat_eq, list_eq,
}
use peer_memory.Prelude.Dict.{Dict, get, put, remove}
use peer_memory.Prelude.Text.{Str, Bytes}
use peer_memory.Prelude.{ℤ, pos, option_eq}
use peer_memory.Prelude.Text.{codes}
use peer_memory.Config.{inbound_stream_timeout}
use peer_memory.Wire.Message.{
  Value, nil_value, text, dictionary, Fields, no_fields, field_then, MsgType, Message, nack,
}
use peer_memory.Blocks.State.{BlockManager}
use peer_memory.Replication.{ChunkBuffer, open_buffer}

-- `mode` with `meta`, where the mode is "store"
pub data Mode : Type 0 where
  store_mode : Option Value → Option Str → Mode
  pull_mode : Mode

-- class _ChunkBuffer
pub record Buffer : Type 0 where
  pub mode : Mode
  pub contents : ChunkBuffer
  pub started_at : ℕ
  pub peer : Str

-- The future of a transfer that was asked for.
pub data Pull : Type 0 where
  unresolved failed_pull : Pull
  pulled : Bytes → Pull

-- `replies` has the futures of `_pending` that are set but not awaited yet.
pub record Coordinator : Type 0 where
  pub block_manager : BlockManager
  pub chunk_size : ℕ
  pub chunk_threshold : ℕ
  pub pending : Dict Str Unit
  pub replies : Dict Str Message
  pub buffers : Dict (Option Str) Buffer
  pub pulls : Dict (Option Str) Pull
  pub next_stream : ℕ

unfoldable pub init : BlockManager → ℕ → ℕ → Coordinator
init blocks chunk_size chunk_threshold = record {
  block_manager = blocks;
  chunk_size = chunk_size;
  chunk_threshold = chunk_threshold;
  pending = [];
  replies = [];
  buffers = [];
  pulls = [];
  next_stream = 1;
}

pub record Handled : Type 0 where
  pub state : Coordinator
  pub sent : List (Str × Message)
  pub failed : Bool

unfoldable pub quiet : Coordinator → Handled
quiet c = record { state = c; sent = []; failed = false }

unfoldable pub reply : Coordinator → Str → MsgType → Fields → Handled
reply c peer type body = record {
  state = c;
  sent = (peer, record { type = type; body = dictionary body }) ∷ [];
  failed = false;
}

-- {"req_id": req_id, ...}
unfoldable pub with_req_id : Option Str → Fields → Fields
with_req_id none rest = field_then (codes "req_id") nil_value rest
with_req_id (some req_id) rest = field_then (codes "req_id") (text req_id) rest

unfoldable pub refuse : Coordinator → Str → Option Str → Handled
refuse c peer req_id = reply c peer nack (with_req_id req_id no_fields)

-- future.set_result or set_exception, if it is not done
unfoldable pub settled :
    Option Pull → Pull → Dict (Option Str) Pull → Option Str → Dict (Option Str) Pull
settled (some unresolved) outcome pulls req_id = put pulls req_id outcome
settled _ outcome pulls req_id = pulls

unfoldable pub settle : Coordinator → Option Str → Mode → Pull → Coordinator
settle c req_id (store_mode _ _) outcome = c
settle c req_id pull_mode outcome = record c {
  pulls = settled (get c.pulls req_id) outcome c.pulls req_id;
}

unfoldable pub stale : ℕ → Dict (Option Str) Buffer → List (Option Str)
stale now [] = []
stale now ((req_id, buf) ∷ d) =
    let rest = stale now d in
    if ltb (buf.started_at + inbound_stream_timeout) now then req_id ∷ rest else rest

unfoldable pub settle_popped : Coordinator → Option Str → Option Buffer → Pull → Coordinator
settle_popped c req_id none outcome = c
settle_popped c req_id (some buf) outcome = settle c req_id buf.mode outcome

-- self._buffers.pop(req_id), and the exception for who waits
unfoldable pub drop_buffer : Coordinator → Option Str → Coordinator
drop_buffer c req_id =
    settle_popped (record c { buffers = remove c.buffers req_id }) req_id (get c.buffers req_id)
      failed_pull

-- The loop of _gc_buffers(), whose log line takes a slice of the name: without a name it raises.
unfoldable pub drop_stale : Coordinator → List (Option Str) → Coordinator × Bool
drop_stale c [] = (c, true)
drop_stale c (none ∷ rest) = (record c { buffers = remove c.buffers none }, false)
drop_stale c (some req_id ∷ rest) = drop_stale (drop_buffer c (some req_id)) rest

-- _gc_buffers(): false where it raises
unfoldable pub gc_buffers : ℕ → Coordinator → Coordinator × Bool
gc_buffers now c = drop_stale c (stale now c.buffers)

unfoldable pub pull_size : Option ℤ → ℕ
pull_size (some (pos n)) = n
pull_size _ = 0

unfoldable pub add_pull : ℕ → Coordinator → Str → Option Str → Option ℤ → Coordinator
add_pull now c peer req_id size = record c {
  buffers = put c.buffers req_id (record {
    mode = pull_mode;
    contents = open_buffer (pull_size size);
    started_at = now;
    peer = peer;
  });
  pulls = put c.pulls req_id unresolved;
}

-- _open_pull_buffer()
unfoldable pub open_pull_buffer : ℕ → Coordinator → Str → Option Str → Option ℤ → Coordinator × Bool
open_pull_buffer now c peer req_id size =
    let (c', done) = gc_buffers now c in
    (if done then add_pull now c' peer req_id size else c', done)

-- _abort_buffer(): the request of a message, if it has one
unfoldable pub abort_buffer : Coordinator → Option Str → Coordinator
abort_buffer c none = c
abort_buffer c (some req_id) = drop_buffer c (some req_id)
