-- ===== src/Replication/Dispatch.antt =====
-- memnode/replication.py: handle_message(), with the loads and the frees that a peer sends.
use peer_memory.Prelude.{
  ℕ, ◌+◌, Bool, true, false, ◌&&◌, ◌||◌, Option, none, some, List, [], ◌∷◌, ◌++◌, leb,
  if◌then◌else◌, nat_eq, list_eq, length,
}
use peer_memory.Prelude.Dict.{get, put, remove}
use peer_memory.Prelude.Text.{Str, Bytes}
use peer_memory.Prelude.{pos, option_eq}
use peer_memory.Prelude.Text.{codes}
use peer_memory.Wire.Message.{
  Value, boolean, integer, binary, dictionary, Fields, no_fields, field_then, field_at, MsgType,
  Message, store_block, request_block, block_data, block_not_found, ping, pong, free_block, freed,
  block_chunk, stream_abort,
}
use peer_memory.Blocks.State.{BlockManager}
use peer_memory.Blocks.Evict.{Shuffles}
use peer_memory.Blocks.Store.{load, load_by_key, free}
use peer_memory.Replication.{Chunk, split}
use peer_memory.Replication.Payload.{
  extract_payload, truth, text_of, size_value, BlockRef, absent, unknown, id_of, block_ref,
}
use peer_memory.Replication.Coordinator.{
  Coordinator, Handled, quiet, reply, with_req_id, open_pull_buffer, abort_buffer,
}
use peer_memory.Replication.Stores.{find_buffer, receive_chunk, serve_store_block}

-- The body of a chunk message.
unfoldable pub chunk_body : Option Str → ℕ → Chunk → Fields
chunk_body req_id stream chunk = with_req_id req_id (
    field_then (codes "stream_id") (integer (pos stream)) (
      field_then (codes "seq") (integer (pos chunk.seq)) (
        field_then (codes "chunk") (binary chunk.chunk)
          (field_then (codes "final") (boolean chunk.final) no_fields))))

-- _send_chunks()
unfoldable pub chunk_messages : Option Str → ℕ → List Chunk → List Message
chunk_messages req_id stream [] = []
chunk_messages req_id stream (chunk ∷ chunks) =
    record { type = block_chunk; body = dictionary (chunk_body req_id stream chunk) }
    ∷ chunk_messages req_id stream chunks

unfoldable pub addressed : Str → List Message → List (Str × Message)
addressed peer [] = []
addressed peer (msg ∷ msgs) = (peer, msg) ∷ addressed peer msgs

unfoldable pub header_body : Option Str → ℕ → ℕ → Fields
header_body req_id size stream = with_req_id req_id (
    field_then (codes "chunked") (boolean true) (
      field_then (codes "total_size") (integer (pos size))
        (field_then (codes "stream_id") (integer (pos stream)) no_fields)))

-- A large answer: the header, then the chunks, on a stream of its own.
unfoldable pub stream_block : Coordinator → Str → Option Str → Bytes → Handled
stream_block c peer req_id content = record {
  state = record c { next_stream = c.next_stream + 1 };
  sent =
      (
        peer,
        record {
          type = block_data;
          body = dictionary (header_body req_id (length content) c.next_stream);
        },
      )
      ∷ addressed peer (chunk_messages req_id c.next_stream (split c.chunk_size content));
  failed = false;
}

unfoldable pub loaded_reply : Coordinator → Str → Option Str → BlockManager × Option Bytes → Handled
loaded_reply c peer req_id (b, none) =
    reply (record c { block_manager = b }) peer block_not_found (with_req_id req_id no_fields)
loaded_reply c peer req_id (b, some content) =
    if leb (length content) c.chunk_threshold
    then reply (record c { block_manager = b }) peer block_data
        (with_req_id req_id (field_then (codes "data") (binary content) no_fields))
    else stream_block (record c { block_manager = b }) peer req_id content

unfoldable pub freed_reply : Coordinator → Str → Option Str → BlockManager × Bool → Handled
freed_reply c peer req_id (b, done) =
    reply (record c { block_manager = b }) peer freed
      (with_req_id req_id (field_then (codes "freed") (boolean done) no_fields))

unfoldable pub waited_for : Option (Unit {0}) → Bool
waited_for none = false
waited_for (some _) = true

unfoldable pub is_pending : Coordinator → Option Str → Bool
is_pending c none = false
is_pending c (some req_id) = waited_for (get c.pending req_id)

unfoldable pub resolve : Coordinator → Option Str → Message → Coordinator
resolve c none msg = c
resolve c (some req_id) msg = record c {
  pending = remove c.pending req_id;
  replies = put c.replies req_id msg;
}

unfoldable pub resolve_after : Coordinator × Bool → Option Str → Message → Handled
resolve_after (c, false) req_id msg = record { state = c; sent = []; failed = true }
resolve_after (c, true) req_id msg = quiet (resolve c req_id msg)

unfoldable pub is_block_data : MsgType → Bool
is_block_data block_data = true
is_block_data _ = false

-- The answer to a request of this node.
unfoldable pub take_answer : ℕ → Coordinator → Str → Option Str → Fields → Message → Handled
take_answer now c peer req_id body msg =
    if is_block_data msg.type && truth (field_at body (codes "chunked"))
    then resolve_after
        (open_pull_buffer now c peer req_id (size_value (field_at body (codes "total_size"))))
        req_id msg
    else quiet (resolve c req_id msg)

unfoldable pub followed : Handled → Handled → Handled
followed first rest = record {
  state = rest.state;
  sent = first.sent ++ rest.sent;
  failed = first.failed || rest.failed;
}

module _ (hash : Str → ℕ) where
  -- load_by_key(None) finds nothing, since no block is stored under None.
  unfoldable pub load_named : ℕ → BlockManager → Option Str → BlockManager × Option Bytes
  load_named now b none = (b, none)
  load_named now b (some key) = load_by_key hash now b key

  unfoldable pub load_ref : ℕ → BlockManager → BlockRef → Option Str → BlockManager × Option Bytes
  load_ref now b absent key = load_named now b key
  load_ref now b unknown key = (b, none)
  load_ref now b (id_of block_id) key = load now b block_id

  -- _serve_request_block()
  unfoldable pub serve_request_block : ℕ → Coordinator → Str → Option Str → Fields → Handled
  serve_request_block now c peer req_id body = loaded_reply c peer req_id (
      load_ref now c.block_manager (block_ref (field_at body (codes "block_id")))
        (text_of (field_at body (codes "key"))))

  unfoldable pub free_ref : BlockManager → BlockRef → BlockManager × Bool
  free_ref b absent = (b, false)
  free_ref b unknown = (b, false)
  free_ref b (id_of block_id) = free hash b block_id true

  -- _serve_free_block()
  unfoldable pub serve_free_block : Coordinator → Str → Option Str → Fields → Handled
  serve_free_block c peer req_id body =
      freed_reply c peer req_id
        (free_ref c.block_manager (block_ref (field_at body (codes "block_id"))))

  -- A request of a peer; an answer that nobody awaits is dropped.
  unfoldable pub serve : Shuffles → ℕ → Coordinator → Str → Option Str → Fields → MsgType → Handled
  serve shuffles now c peer req_id body store_block =
      serve_store_block hash shuffles now c peer req_id body
  serve shuffles now c peer req_id body request_block = serve_request_block now c peer req_id body
  serve shuffles now c peer req_id body free_block = serve_free_block c peer req_id body
  serve shuffles now c peer req_id body ping = reply c peer pong (with_req_id req_id no_fields)
  serve shuffles now c peer req_id body _ = quiet c

  unfoldable pub handle_other :
      Shuffles → ℕ → Coordinator → Str → Option Str → Fields → Message → Handled
  handle_other shuffles now c peer req_id body msg =
      if is_pending c req_id
      then take_answer now c peer req_id body msg
      else serve shuffles now c peer req_id body msg.type

  unfoldable pub handle_type :
      Shuffles → ℕ → Coordinator → Str → Option Str → Fields → Message → MsgType → Handled
  handle_type shuffles now c peer req_id body msg block_chunk =
      receive_chunk hash shuffles now c peer req_id (find_buffer c req_id)
        (extract_payload body (codes "chunk")) (truth (field_at body (codes "final")))
  handle_type shuffles now c peer req_id body msg stream_abort = quiet (abort_buffer c req_id)
  handle_type shuffles now c peer req_id body msg _ =
      handle_other shuffles now c peer req_id body msg

  unfoldable pub handle_body : Shuffles → ℕ → Coordinator → Str → Message → Value → Handled
  handle_body shuffles now c peer msg (dictionary body) =
      handle_type shuffles now c peer (text_of (field_at body (codes "req_id"))) body msg msg.type
  handle_body shuffles now c peer msg _ = record { state = c; sent = []; failed = true }

  -- handle_message(), where a body that is no map raises
  unfoldable pub handle_message : Shuffles → ℕ → Coordinator → Str → Message → Handled
  handle_message shuffles now c peer msg = handle_body shuffles now c peer msg msg.body

  -- Messages of a peer one after the other, as ChannelMux.run() hands them over.
  unfoldable pub handle_all : Shuffles → ℕ → Coordinator → Str → List Message → Handled
  handle_all shuffles now c peer [] = quiet c
  handle_all shuffles now c peer (msg ∷ msgs) =
      let first = handle_message shuffles now c peer msg in
      followed first (handle_all shuffles now first.state peer msgs)
