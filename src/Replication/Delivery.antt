-- ===== src/Replication/Delivery.antt =====
-- A store over the network, from the messages of one coordinator of memnode/replication.py to the block store of another.
use peer_memory.Prelude.{
  ℕ, ◌<◌, ◌≡◌, refl, sym, ap, ◌∙◌, inl, inr, true, false, Option, none, some, [], ◌∷◌, ltb, nat_eq,
  list_eq, ==_refl, Result, ok, raise, length, arith, Bool-cases, ltb→lt,
}
use peer_memory.Prelude.Dict.{Dict, get, put, get-put}
use peer_memory.Prelude.Text.{Str, Bytes}
use mathlib.Core.Path.{subst}
use peer_memory.Prelude.{append-nil}
use peer_memory.Prelude.{pos, option_eq}
use peer_memory.Prelude.Text.{codes}
use peer_memory.Config.{max_inbound_streams}
use peer_memory.Wire.Message.{
  Value, integer, dictionary, no_fields, field_then, field_at, Message, block_data, nack,
}
use peer_memory.Blocks.State.{BlockError, Durability}
use peer_memory.Blocks.Evict.{Shuffles}
use peer_memory.Blocks.Store.{store}
use peer_memory.Replication.Payload.{truth, text_of}
use peer_memory.Replication.Coordinator.{Coordinator, quiet, with_req_id, stale}
use peer_memory.Replication.Stores.{stored_reply}
use peer_memory.Replication.Dispatch.{
  followed, handle_all, handle_message, handle_body, handle_type, handle_other, is_pending,
  waited_for, take_answer, is_block_data, resolve,
}
use peer_memory.Replication.Requests.{
  begin_store, messages_of, store_remote, finish_store, store_result, store_answer, body_item, item,
  RemoteError, remote_out_of_memory, register_pending,
}
use peer_memory.Replication.Pushes.{answer, Stores, stored_reply-Stores}
use peer_memory.Replication.PushStart.{handle_message-plain, handle_all-push}

-- The messages of a store at the peer.
handle_all-begin_store :
    (hash : Str → ℕ) (shuffles : Shuffles) (now : ℕ) (s c : Coordinator) (peer : Str) (x : ℕ)
    (xs : Str) (content : Bytes) (d : Durability) (key : Option Str)
    → 0 < s.chunk_size
    → is_pending c (some (x ∷ xs)) ≡ false
    → get c.buffers (some (x ∷ xs)) ≡ none
    → stale now c.buffers ≡ []
    → length c.buffers < max_inbound_streams
    → Stores
        (handle_all hash shuffles now c peer (begin_store s (x ∷ xs) content d key).1)
        peer
        (some (x ∷ xs))
        (store hash shuffles now c.block_manager content d key)
unfolding begin_store handle_all followed quiet
handle_all-begin_store hash shuffles now s c peer x xs content d key some_size new free_name fresh
      room =
    let r = store hash shuffles now c.block_manager content d key in
    elim (Bool-cases (ltb s.chunk_threshold (length content))) [
      | inl chunked ↦ rw chunked (
          handle_all-push hash shuffles now peer x xs s.next_stream c s.chunk_size content d key
            some_size (omega (arith, ltb→lt s.chunk_threshold (length content) chunked)) new
            free_name fresh room)
      | inr plain ↦ rw plain (
          subst (λ h. Stores (followed h (quiet h.state)) peer (some (x ∷ xs)) r)
            (sym
              (handle_message-plain hash shuffles now peer x xs s.next_stream c content d key new))
            (let w = stored_reply-Stores c peer (some (x ∷ xs)) r in
              (w.0, append-nil (stored_reply c peer (some (x ∷ xs)) r).sent ∙ w.1)))
    ]

-- What store_remote() makes of the result at the peer.
abbrev pub told : Result BlockError ℕ → Result RemoteError Value
told (ok block_id) = ok (integer (pos block_id))
told (raise _) = raise remote_out_of_memory

pub begin_store-pending :
    (s : Coordinator) (req_id : Str) (content : Bytes) (d : Durability) (key : Option Str)
    → is_pending (begin_store s req_id content d key).0 (some req_id) ≡ true
unfolding begin_store register_pending is_pending waited_for
begin_store-pending s req_id content d key =
    elim (Bool-cases (ltb s.chunk_threshold (length content))) [
      | inl chunked ↦ rw (chunked, get-put s.pending req_id req_id tt, ==_refl req_id) refl
      | inr plain ↦ rw (plain, get-put s.pending req_id req_id tt, ==_refl req_id) refl
    ]

pub put_read :
    (d : Dict Str Message) (req_id : Str) (msg : Message) → get (put d req_id msg) req_id ≡ some msg
put_read d req_id msg = get-put d req_id req_id msg ∙ rw (==_refl req_id) refl

-- The answer reaches the future of the request.
finish_store-answer :
    (hash : Str → ℕ) (shuffles : Shuffles) (now : ℕ) (s : Coordinator) (sender peer : Str)
    (req_id : Str) (r : Result BlockError ℕ)
    → is_pending s (some req_id) ≡ true
    → (finish_store
        (handle_all hash shuffles now s peer (messages_of (answer sender (some req_id) r))).state
        req_id).1
      ≡ told r
unfolding handle_all messages_of followed quiet handle_message handle_body handle_type handle_other
    take_answer is_block_data with_req_id field_at text_of truth resolve finish_store store_result
    store_answer body_item item
finish_store-answer hash shuffles now s sender peer req_id (ok block_id) waits = rw waits (
    ap store_result (
      put_read s.replies req_id (record {
        type = block_data;
        body = dictionary (
            with_req_id (some req_id)
              (field_then (codes "block_id") (integer (pos block_id)) no_fields));
      })))
finish_store-answer hash shuffles now s sender peer req_id (raise e) waits = rw waits (
    ap store_result (
      put_read s.replies req_id
        (record { type = nack; body = dictionary (with_req_id (some req_id) no_fields) })))

-- A store at a peer, sent in one message or as a header with chunks, does to the peer's block store exactly what a store of
-- the payload there does, and returns the id that it gave, or raises where it raised, if a chunk has a byte or more, and the
-- peer awaits no answer and holds no transfer of this name, and has a transfer to spare and none to abandon.
pub store_remote_lem :
    (hash : Str → ℕ) (shuffles : Shuffles) (now : ℕ) (s c : Coordinator) (sender peer : Str) (x : ℕ)
    (xs : Str) (content : Bytes) (d : Durability) (key : Option Str)
    → 0 < s.chunk_size
    → is_pending c (some (x ∷ xs)) ≡ false
    → get c.buffers (some (x ∷ xs)) ≡ none
    → stale now c.buffers ≡ []
    → length c.buffers < max_inbound_streams
    → ((store_remote hash shuffles now s c sender peer (x ∷ xs) content d key).0.block_manager
        ≡ (store hash shuffles now c.block_manager content d key).0)
      × ((store_remote hash shuffles now s c sender peer (x ∷ xs) content d key).2
          ≡ told (store hash shuffles now c.block_manager content d key).1)
unfolding store_remote
store_remote_lem hash shuffles now s c sender peer x xs content d key some_size new free_name fresh
      room =
    let r = store hash shuffles now c.block_manager content d key in
    let s' = (begin_store s (x ∷ xs) content d key).0 in
    let w =
      handle_all-begin_store hash shuffles now s c sender x xs content d key some_size new free_name
        fresh room in
    (
      w.0,
      ap
            (λ sent.
              (finish_store (handle_all hash shuffles now s' peer (messages_of sent)).state
                (x ∷ xs)).1)
            w.1
          ∙ finish_store-answer hash shuffles now s' sender peer (x ∷ xs) r.1
              (begin_store-pending s (x ∷ xs) content d key),
    )
