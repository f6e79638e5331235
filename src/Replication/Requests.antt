-- ===== src/Replication/Requests.antt =====
-- memnode/replication.py: the requests that this node sends to a peer, each in its part before the answer is awaited and
-- its part after. An answer that is none stands for a timeout or a peer that is gone.
use peer_memory.Prelude.{
  ℕ, ◌+◌, Bool, true, Option, none, some, List, [], ◌∷◌, ltb, if◌then◌else◌, nat_eq, list_eq,
  Result, ok, raise, length,
}
use peer_memory.Prelude.Dict.{get, put, remove}
use peer_memory.Prelude.Text.{Str, Bytes}
use peer_memory.Prelude.{pos, option_eq}
use peer_memory.Prelude.Text.{codes}
use peer_memory.Wire.Message.{
  Value, boolean, integer, binary, text, dictionary, Fields, no_fields, field_then, field_at,
  MsgType, Message, store_block, request_block, block_not_found, nack, free_block,
}
use peer_memory.Blocks.State.{Durability}
use peer_memory.Blocks.Evict.{Shuffles}
use peer_memory.Replication.{split}
use peer_memory.Replication.Payload.{extract_payload, truth}
use peer_memory.Replication.Payload.{durability_value}
use peer_memory.Replication.Coordinator.{Pull, pulled, Coordinator, with_req_id}
use peer_memory.Replication.Dispatch.{chunk_messages, handle_all, handle_message}

pub data RemoteError : Type 0 where
  remote_operation_failed remote_out_of_memory remote_key_error remote_body_error : RemoteError

-- _register_pending()
unfoldable pub register_pending : Coordinator → Str → Coordinator
register_pending c req_id = record c {
  pending = put c.pending req_id tt;
  replies = remove c.replies req_id;
}

unfoldable pub with_text : Str → Option Str → Fields → Fields
with_text name none rest = rest
with_text name (some t) rest = field_then name (text t) rest

unfoldable pub with_id : Option ℕ → Fields → Fields
with_id none rest = rest
with_id (some block_id) rest = field_then (codes "block_id") (integer (pos block_id)) rest

unfoldable pub store_start : Str → Durability → Option Str → Fields → Fields
store_start req_id durability key rest = with_req_id (some req_id) (
    field_then (codes "durability") (durability_value durability)
      (with_text (codes "key") key rest))

unfoldable pub plain_store : Str → Bytes → Durability → Option Str → Message
plain_store req_id content durability key = record {
  type = store_block;
  body =
      dictionary
        (store_start req_id durability key (field_then (codes "data") (binary content) no_fields));
}

unfoldable pub push_body : Str → Bytes → Durability → Option Str → ℕ → Fields
push_body req_id content durability key stream = store_start req_id durability key (
    field_then (codes "chunked") (boolean true) (
      field_then (codes "total_size") (integer (pos (length content)))
        (field_then (codes "stream_id") (integer (pos stream)) no_fields)))

unfoldable pub push_header : Str → Bytes → Durability → Option Str → ℕ → Message
push_header req_id content durability key stream = record {
  type = store_block;
  body = dictionary (push_body req_id content durability key stream);
}

-- store_remote(), up to the await of the answer: the messages are one, or a header and the chunks.
unfoldable pub begin_store :
    Coordinator → Str → Bytes → Durability → Option Str → Coordinator × List Message
begin_store c req_id content durability key =
    if ltb c.chunk_threshold (length content)
    then (
      register_pending (record c { next_stream = c.next_stream + 1 }) req_id,
      push_header req_id content durability key c.next_stream
          ∷ chunk_messages (some req_id) c.next_stream (split c.chunk_size content),
    )
    else (register_pending c req_id, plain_store req_id content durability key ∷ [])

-- reply.body[name]
unfoldable pub item : Option Value → Result RemoteError Value
item none = raise remote_key_error
item (some value) = ok value

unfoldable pub body_item : Value → Str → Result RemoteError Value
body_item (dictionary fields) name = item (field_at fields name)
body_item _ name = raise remote_body_error

unfoldable pub store_answer : MsgType → Value → Result RemoteError Value
store_answer nack body = raise remote_out_of_memory
store_answer _ body = body_item body (codes "block_id")

unfoldable pub store_result : Option Message → Result RemoteError Value
store_result none = raise remote_operation_failed
store_result (some msg) = store_answer msg.type msg.body

-- The end of store_remote(), with its `finally`.
unfoldable pub finish_store : Coordinator → Str → Coordinator × Result RemoteError Value
finish_store c req_id = (
  record c { pending = remove c.pending req_id; replies = remove c.replies req_id },
  store_result (get c.replies req_id),
)

unfoldable pub messages_of : List (Str × Message) → List Message
messages_of [] = []
messages_of ((_, msg) ∷ rest) = msg ∷ messages_of rest

-- store_remote() with the peer that serves it: what the peer is afterwards, and the result. Nothing else is sent meanwhile,
-- and the answer comes in time.
unfoldable pub store_remote :
    (Str → ℕ)
    → Shuffles
    → ℕ
    → Coordinator
    → Coordinator
    → Str
    → Str
    → Str
    → Bytes
    → Durability
    → Option Str
    → Coordinator × Coordinator × Result RemoteError Value
store_remote hash shuffles now s c sender peer req_id content durability key =
    let (s', msgs) = begin_store s req_id content durability key in
    let served = handle_all hash shuffles now c sender msgs in
    let answered = handle_all hash shuffles now s' peer (messages_of served.sent) in
    let (s'', result) = finish_store answered.state req_id in (served.state, s'', result)

-- load_remote(), up to the await of the answer
unfoldable pub begin_load : Coordinator → Str → Option ℕ → Option Str → Coordinator × Message
begin_load c req_id block_id key = (
  register_pending c req_id,
  record {
    type = request_block;
    body =
        dictionary
          (with_req_id (some req_id) (with_id block_id (with_text (codes "key") key no_fields)));
  },
)

-- The second await: the future of the transfer.
unfoldable pub collected : Option Pull → Result RemoteError (Option Bytes)
collected (some (pulled content)) = ok (some content)
collected _ = raise remote_operation_failed

unfoldable pub carried : Option Bytes → Result RemoteError (Option Bytes)
carried none = raise remote_operation_failed
carried (some content) = ok (some content)

unfoldable pub load_body : Option Pull → Value → Result RemoteError (Option Bytes)
load_body pull (dictionary body) =
    if truth (field_at body (codes "chunked"))
    then collected pull
    else carried (extract_payload body (codes "data"))
load_body pull _ = raise remote_body_error

unfoldable pub load_answer : Option Pull → MsgType → Value → Result RemoteError (Option Bytes)
load_answer pull block_not_found body = ok none
load_answer pull nack body = raise remote_operation_failed
load_answer pull _ body = load_body pull body

unfoldable pub load_result : Option Pull → Option Message → Result RemoteError (Option Bytes)
load_result pull none = raise remote_operation_failed
load_result pull (some msg) = load_answer pull msg.type msg.body

-- The end of load_remote(), with its `finally`.
unfoldable pub finish_load : Coordinator → Str → Coordinator × Result RemoteError (Option Bytes)
finish_load c req_id = (
  record c {
    pending = remove c.pending req_id;
    replies = remove c.replies req_id;
    buffers = remove c.buffers (some req_id);
    pulls = remove c.pulls (some req_id);
  },
  load_result (get c.pulls (some req_id)) (get c.replies req_id),
)

-- load_remote() with the peer that serves it: what the peer is afterwards, and the result. Nothing else is sent meanwhile,
-- and the answer comes in time.
unfoldable pub load_remote :
    (Str → ℕ)
    → Shuffles
    → ℕ
    → Coordinator
    → Coordinator
    → Str
    → Str
    → Str
    → Option ℕ
    → Option Str
    → Coordinator × Coordinator × Result RemoteError (Option Bytes)
load_remote hash shuffles now s c sender peer req_id block_id key =
    let (s', msg) = begin_load s req_id block_id key in
    let served = handle_message hash shuffles now c sender msg in
    let answered = handle_all hash shuffles now s' peer (messages_of served.sent) in
    let (s'', result) = finish_load answered.state req_id in (served.state, s'', result)

-- load_remote_by_key_anywhere(): the first hit among the peers' answers
unfoldable pub first_hit : List (Result RemoteError (Option Bytes)) → Option Bytes
first_hit [] = none
first_hit (raise _ ∷ rest) = first_hit rest
first_hit (ok none ∷ rest) = first_hit rest
first_hit (ok (some content) ∷ rest) = some content

-- free_remote(), up to the await of the answer
unfoldable pub begin_free : Coordinator → Str → ℕ → Coordinator × Message
begin_free c req_id block_id = (
  register_pending c req_id,
  record {
    type = free_block;
    body = dictionary (with_req_id (some req_id) (with_id (some block_id) no_fields));
  },
)

unfoldable pub free_body : Value → Result RemoteError Bool
free_body (dictionary body) = ok (truth (field_at body (codes "freed")))
free_body _ = raise remote_body_error

unfoldable pub free_result : Option Message → Result RemoteError Bool
free_result none = raise remote_operation_failed
free_result (some msg) = free_body msg.body

unfoldable pub finish_free : Coordinator → Str → Coordinator × Result RemoteError Bool
finish_free c req_id = (
  record c { pending = remove c.pending req_id; replies = remove c.replies req_id },
  free_result (get c.replies req_id),
)

pub record CoordinatorStats : Type 0 where
  pub pending_requests : ℕ
  pub active_transfers : ℕ
  pub pending_pulls : ℕ
  pub chunk_size : ℕ
  pub chunk_threshold : ℕ

unfoldable pub stats : Coordinator → CoordinatorStats
stats c = record {
  pending_requests = length c.pending;
  active_transfers = length c.buffers;
  pending_pulls = length c.pulls;
  chunk_size = c.chunk_size;
  chunk_threshold = c.chunk_threshold;
}
