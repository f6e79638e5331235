-- ===== src/Replication/Stores.antt =====
-- memnode/replication.py: the chunks and the stores that a peer sends.
use peer_memory.Prelude.{
  ℕ, Bool, true, false, ◌&&◌, Option, none, some, [], ◌∷◌, ltb, leb, if◌then◌else◌, nat_eq, list_eq,
  Result, ok, raise, length,
}
use peer_memory.Prelude.Dict.{get, put, remove}
use peer_memory.Prelude.Text.{Str, Bytes}
use peer_memory.Prelude.{ℤ, pos, option_eq}
use peer_memory.Prelude.Text.{codes}
use peer_memory.Config.{max_block_size, max_inbound_streams}
use peer_memory.Wire.Message.{integer, Fields, no_fields, field_then, field_at, block_data}
use peer_memory.Blocks.State.{BlockManager, BlockError, Durability}
use peer_memory.Blocks.Evict.{Shuffles}
use peer_memory.Blocks.Store.{store}
use peer_memory.Replication.{open_buffer, Transfer, waiting, overran, complete, handle_chunk}
use peer_memory.Replication.Payload.{extract_payload, truth, text_of, size_value, durability_of}
use peer_memory.Replication.Coordinator.{
  Mode, store_mode, pull_mode, Buffer, pulled, failed_pull, Coordinator, Handled, quiet, reply,
  with_req_id, refuse, settle, gc_buffers, abort_buffer,
}

-- The answer to a store.
unfoldable pub stored_reply :
    Coordinator → Str → Option Str → BlockManager × Result BlockError ℕ → Handled
stored_reply c peer req_id (b, ok block_id) =
    reply (record c { block_manager = b }) peer block_data
      (with_req_id req_id (field_then (codes "block_id") (integer (pos block_id)) no_fields))
stored_reply c peer req_id (b, raise _) = refuse (record c { block_manager = b }) peer req_id

unfoldable pub refuse_overrun : Coordinator → Str → Option Str → Mode → Handled
refuse_overrun c peer req_id (store_mode _ _) = refuse c peer req_id
refuse_overrun c peer req_id pull_mode = quiet (settle c req_id pull_mode failed_pull)

-- self._buffers.get(req_id) if req_id else None
unfoldable pub find_buffer : Coordinator → Option Str → Option Buffer
find_buffer c none = none
find_buffer c (some []) = none
find_buffer c (some (x ∷ xs)) = get c.buffers (some (x ∷ xs))

-- The size of a push that is accepted.
unfoldable pub accepted_size : Option ℤ → Option ℕ
accepted_size (some (pos n)) = if ltb 0 n && leb n max_block_size then some n else none
accepted_size _ = none

unfoldable pub add_push : ℕ → Coordinator → Str → Option Str → ℕ → Fields → Coordinator
add_push now c peer req_id size body = record c {
  buffers = put c.buffers req_id (record {
    mode = store_mode (field_at body (codes "durability")) (text_of (field_at body (codes "key")));
    contents = open_buffer size;
    started_at = now;
    peer = peer;
  });
}

-- The start of a push, after _gc_buffers().
unfoldable pub admit_push : ℕ → Coordinator × Bool → Str → Option Str → ℕ → Fields → Handled
admit_push now (c, false) peer req_id size body = record { state = c; sent = []; failed = true }
admit_push now (c, true) peer req_id size body =
    if leb max_inbound_streams (length c.buffers)
    then refuse c peer req_id
    else quiet (add_push now c peer req_id size body)

unfoldable pub start_push : ℕ → Coordinator → Str → Option Str → Option ℕ → Fields → Handled
start_push now c peer req_id none body = refuse c peer req_id
start_push now c peer req_id (some size) body =
    admit_push now (gc_buffers now c) peer req_id size body

module _ (hash : Str → ℕ) where
  unfoldable pub commit :
      Shuffles → ℕ → Coordinator → Str → Option Str → Bytes → Durability → Option Str → Handled
  commit shuffles now c peer req_id content durability key =
      stored_reply c peer req_id (store hash shuffles now c.block_manager content durability key)

  -- The last chunk of a push: a durability that is none of the two raises, since only two exceptions are caught.
  unfoldable pub commit_push :
      Shuffles
      → ℕ
      → Coordinator
      → Str
      → Option Str
      → Bytes
      → Option Durability
      → Option Str
      → Handled
  commit_push shuffles now c peer req_id content none key = record {
    state = c;
    sent = [];
    failed = true;
  }
  commit_push shuffles now c peer req_id content (some durability) key =
      commit shuffles now c peer req_id content durability key

  unfoldable pub finish_transfer :
      Shuffles → ℕ → Coordinator → Str → Option Str → Mode → Bytes → Handled
  finish_transfer shuffles now c peer req_id pull_mode content =
      quiet (settle c req_id pull_mode (pulled content))
  finish_transfer shuffles now c peer req_id (store_mode durability key) content =
      commit_push shuffles now c peer req_id content (durability_of durability) key

  -- What the buffer made of the chunk.
  unfoldable pub after_chunk :
      Shuffles → ℕ → Coordinator → Str → Option Str → Buffer → Transfer → Handled
  after_chunk shuffles now c peer req_id buf (waiting contents) =
      quiet (record c { buffers = put c.buffers req_id (record buf { contents = contents }) })
  after_chunk shuffles now c peer req_id buf overran =
      refuse_overrun (record c { buffers = remove c.buffers req_id }) peer req_id buf.mode
  after_chunk shuffles now c peer req_id buf (complete content) =
      finish_transfer shuffles now (record c { buffers = remove c.buffers req_id }) peer req_id
        buf.mode content

  unfoldable pub receive_chunk :
      Shuffles → ℕ → Coordinator → Str → Option Str → Option Buffer → Option Bytes → Bool → Handled
  receive_chunk shuffles now c peer req_id none chunk final = quiet c
  receive_chunk shuffles now c peer req_id (some buf) none final = quiet (abort_buffer c req_id)
  receive_chunk shuffles now c peer req_id (some buf) (some chunk) final =
      after_chunk shuffles now c peer req_id buf
        (handle_chunk buf.contents (record { seq = 0; chunk = chunk; final = final }))

  -- The store of a body that has the payload: without one, or with a wrong durability, it is a bad request.
  unfoldable pub store_body :
      Shuffles
      → ℕ
      → Coordinator
      → Str
      → Option Str
      → Option Bytes
      → Option Durability
      → Option Str
      → Handled
  store_body shuffles now c peer req_id (some content) (some durability) key =
      commit shuffles now c peer req_id content durability key
  store_body shuffles now c peer req_id (some content) none key = refuse c peer req_id
  store_body shuffles now c peer req_id none durability key = refuse c peer req_id

  -- _serve_store_block()
  unfoldable pub serve_store_block :
      Shuffles → ℕ → Coordinator → Str → Option Str → Fields → Handled
  serve_store_block shuffles now c peer req_id body =
      if truth (field_at body (codes "chunked"))
      then start_push now c peer req_id
          (accepted_size (size_value (field_at body (codes "total_size")))) body
      else store_body shuffles now c peer req_id (extract_payload body (codes "data"))
          (durability_of (field_at body (codes "durability")))
          (text_of (field_at body (codes "key")))
