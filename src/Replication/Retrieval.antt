-- ===== src/Replication/Retrieval.antt =====
-- A load over the network, from the block store of one coordinator of memnode/replication.py to the caller at another.
use peer_memory.Prelude.{
  ℕ, ◌<◌, ◌≡◌, refl, ap, ◌∙◌, inl, inr, true, false, Option, none, some, [], ◌∷◌, leb, nat_eq,
  list_eq, ==_refl, ok, length, arith, Bool-cases,
}
use peer_memory.Prelude.Dict.{get, get-put}
use peer_memory.Prelude.Text.{Str, Bytes}
use mathlib.Core.Path.{subst}
use peer_memory.Prelude.{if_both}
use peer_memory.Prelude.{option_eq}
use peer_memory.Prelude.Text.{codes}
use peer_memory.Wire.Message.{
  binary, dictionary, no_fields, field_then, field_at, block_data, block_not_found,
}
use peer_memory.Blocks.State.{BlockManager}
use peer_memory.Blocks.Evict.{Shuffles}
use peer_memory.Replication.{split}
use peer_memory.Replication.Payload.{
  extract_payload, payload, truth, text_of, BlockRef, absent, id_of, block_ref,
}
use peer_memory.Replication.Coordinator.{Coordinator, Handled, quiet, reply, with_req_id, stale}
use peer_memory.Replication.Dispatch.{
  chunk_messages, stream_block, loaded_reply, load_ref, serve_request_block, followed, handle_all,
  handle_message, handle_body, handle_type, handle_other, is_pending, waited_for, serve,
  take_answer, is_block_data, resolve,
}
use peer_memory.Replication.Requests.{
  register_pending, with_text, with_id, begin_load, carried, load_body, load_answer, load_result,
  finish_load, messages_of, load_remote,
}
use peer_memory.Replication.Delivery.{put_read}
use peer_memory.Replication.Pulls.{header, messages_of-addressed, handle_all-large}

-- The block that a request names.
abbrev pub ref_of : Option ℕ → BlockRef
ref_of none = absent
ref_of (some block_id) = id_of block_id

handle_message-begin_load :
    (hash : Str → ℕ) (shuffles : Shuffles) (now : ℕ) (s c : Coordinator) (sender req_id : Str)
    (block_id : Option ℕ) (key : Option Str)
    → is_pending c (some req_id) ≡ false
    → handle_message hash shuffles now c sender (begin_load s req_id block_id key).1
      ≡ loaded_reply c sender
          (some req_id)
          (load_ref hash now c.block_manager (ref_of block_id) key)
unfolding begin_load handle_message handle_body handle_type handle_other serve serve_request_block
    with_req_id with_id with_text field_at text_of block_ref
handle_message-begin_load hash shuffles now s c sender req_id none none new = rw new refl
handle_message-begin_load hash shuffles now s c sender req_id none (some key) new = rw new refl
handle_message-begin_load hash shuffles now s c sender req_id (some block_id) none new = rw new refl
handle_message-begin_load hash shuffles now s c sender req_id (some block_id) (some key) new =
    rw new refl

begin_load-pending :
    (s : Coordinator) (req_id : Str) (block_id : Option ℕ) (key : Option Str)
    → is_pending (begin_load s req_id block_id key).0 (some req_id) ≡ true
unfolding begin_load register_pending is_pending waited_for
begin_load-pending s req_id block_id key =
    rw (get-put s.pending req_id req_id tt, ==_refl req_id) refl

begin_load-stale :
    (now : ℕ) (s : Coordinator) (req_id : Str) (block_id : Option ℕ) (key : Option Str)
    → stale now (begin_load s req_id block_id key).0.buffers ≡ stale now s.buffers
unfolding begin_load register_pending
begin_load-stale now s req_id block_id key = refl

-- A small answer, or that there is none, reaches the caller.
finish_load-small :
    (hash : Str → ℕ) (shuffles : Shuffles) (now : ℕ) (s c : Coordinator) (sender peer : Str)
    (req_id : Str) (b : BlockManager) (r : Option Bytes)
    → is_pending s (some req_id) ≡ true
    → ((content : Bytes) → r ≡ some content → leb (length content) c.chunk_threshold ≡ true)
    → (finish_load
        (handle_all hash shuffles now s peer
          (messages_of (loaded_reply c sender (some req_id) (b, r)).sent)).state
        req_id).1
      ≡ ok r
unfolding loaded_reply reply messages_of handle_all followed quiet handle_message handle_body
    handle_type handle_other take_answer is_block_data with_req_id field_at text_of truth resolve
    finish_load load_result load_answer load_body carried extract_payload payload
finish_load-small hash shuffles now s c sender peer req_id b none waits small = rw waits (
    ap (load_result (get s.pulls (some req_id))) (
      put_read s.replies req_id (record {
        type = block_not_found;
        body = dictionary (with_req_id (some req_id) no_fields);
      })))
finish_load-small hash shuffles now s c sender peer req_id b (some content) waits small =
    rw (small content refl, waits)
      (ap (load_result (get s.pulls (some req_id))) (
        put_read s.replies req_id (record {
          type = block_data;
          body =
              dictionary
                (with_req_id (some req_id) (field_then (codes "data") (binary content) no_fields));
        })))

finish_load-large :
    (hash : Str → ℕ) (shuffles : Shuffles) (now : ℕ) (s c : Coordinator) (sender peer : Str) (x : ℕ)
    (xs : Str) (b : BlockManager) (content : Bytes)
    → 0 < c.chunk_size
    → is_pending s (some (x ∷ xs)) ≡ true
    → stale now s.buffers ≡ []
    → leb (length content) c.chunk_threshold ≡ false
    → (finish_load
        (handle_all hash shuffles now s peer
          (messages_of (loaded_reply c sender (some (x ∷ xs)) (b, some content)).sent)).state
        (x ∷ xs)).1
      ≡ ok (some content)
unfolding loaded_reply stream_block messages_of
finish_load-large hash shuffles now s c sender peer x xs b content some_size waits fresh large =
    let msgs = chunk_messages (some (x ∷ xs)) c.next_stream (split c.chunk_size content) in
    rw large (
      ap
        (λ ms.
          (finish_load
            (handle_all hash shuffles now s peer
              (header hash shuffles now peer x xs c.next_stream (length content) ∷ ms)).state
            (x ∷ xs)).1)
        (messages_of-addressed hash shuffles now peer x xs c.next_stream sender msgs)
      ∙ handle_all-large hash shuffles now peer x xs c.next_stream s c.chunk_size content some_size
          (ground (arith, large)) waits fresh)

finish_load-loaded_reply :
    (hash : Str → ℕ) (shuffles : Shuffles) (now : ℕ) (s c : Coordinator) (sender peer : Str) (x : ℕ)
    (xs : Str) (r : BlockManager × Option Bytes)
    → 0 < c.chunk_size
    → is_pending s (some (x ∷ xs)) ≡ true
    → stale now s.buffers ≡ []
    → (finish_load
        (handle_all hash shuffles now s peer
          (messages_of (loaded_reply c sender (some (x ∷ xs)) r).sent)).state
        (x ∷ xs)).1
      ≡ ok r.1
finish_load-loaded_reply hash shuffles now s c sender peer x xs (b, none) some_size waits fresh =
    finish_load-small hash shuffles now s c sender peer (x ∷ xs) b none waits
      (λ content h. absurd (let f : ⊥ = ground (arith, h) in f))
finish_load-loaded_reply hash shuffles now s c sender peer x xs (b, some content) some_size waits
      fresh =
    elim (Bool-cases (leb (length content) c.chunk_threshold)) [
      | inl small ↦
          finish_load-small hash shuffles now s c sender peer (x ∷ xs) b (some content) waits
            (λ other h.
              subst (λ l. leb (length l) c.chunk_threshold ≡ true)
                (let q : content ≡ other = ground (arith, h) in q) small)
      | inr large ↦
          finish_load-large hash shuffles now s c sender peer x xs b content some_size waits fresh
            large
    ]

loaded_reply-block_manager :
    (c : Coordinator) (peer : Str) (k : Option Str) (r : BlockManager × Option Bytes)
    → (loaded_reply c peer k r).state.block_manager ≡ r.0
unfolding loaded_reply stream_block reply
loaded_reply-block_manager c peer k (b, none) = refl
loaded_reply-block_manager c peer k (b, some content) =
    if_both (λ (h : Handled). h.state.block_manager ≡ b) (leb (length content) c.chunk_threshold)
      refl refl

-- A load from a peer, answered in one message or in chunks, by an id or by a key, does to the peer's block store exactly what
-- the load there does and returns exactly what it finds, if the peer cuts in chunks of some size and awaits no answer of this
-- name, and this node has no transfer to abandon.
pub load_remote_lem :
    (hash : Str → ℕ) (shuffles : Shuffles) (now : ℕ) (s c : Coordinator) (sender peer : Str) (x : ℕ)
    (xs : Str) (block_id : Option ℕ) (key : Option Str)
    → 0 < c.chunk_size
    → is_pending c (some (x ∷ xs)) ≡ false
    → stale now s.buffers ≡ []
    → ((load_remote hash shuffles now s c sender peer (x ∷ xs) block_id key).0.block_manager
        ≡ (load_ref hash now c.block_manager (ref_of block_id) key).0)
      × ((load_remote hash shuffles now s c sender peer (x ∷ xs) block_id key).2
          ≡ ok (load_ref hash now c.block_manager (ref_of block_id) key).1)
unfolding load_remote
load_remote_lem hash shuffles now s c sender peer x xs block_id key some_size new fresh =
    let r = load_ref hash now c.block_manager (ref_of block_id) key in
    let s' = (begin_load s (x ∷ xs) block_id key).0 in
    let served = handle_message-begin_load hash shuffles now s c sender (x ∷ xs) block_id key new in
    (
      ap (λ (h : Handled). h.state.block_manager) served
          ∙ loaded_reply-block_manager c sender (some (x ∷ xs)) r,
      ap
            (λ (h : Handled).
              (finish_load (handle_all hash shuffles now s' peer (messages_of h.sent)).state
                (x ∷ xs)).1)
            served
          ∙ finish_load-loaded_reply hash shuffles now s' c sender peer x xs r some_size
              (begin_load-pending s (x ∷ xs) block_id key)
              (begin_load-stale now s (x ∷ xs) block_id key ∙ fresh),
    )
