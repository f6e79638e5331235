-- ===== src/Replication/Pushes.antt =====
-- The chunks of a push at the peer of memnode/replication.py that receives it.
use peer_memory.Prelude.{
  ℕ, ◌≡◌, refl, sym, ap, ◌∙◌, Option, none, some, List, [], ◌∷◌, nat_eq, list_eq, ==_refl, Result,
  ok, raise, arith,
}
use peer_memory.Prelude.Dict.{get, put, remove, get-put, get-remove}
use peer_memory.Prelude.Text.{Str, Bytes}
use mathlib.Core.Path.{subst}
use peer_memory.Prelude.{append-nil}
use peer_memory.Prelude.{pos, option_eq}
use peer_memory.Prelude.Text.{codes}
use peer_memory.Wire.Message.{
  Value, integer, dictionary, no_fields, field_then, field_at, Message, block_data, nack,
  block_chunk,
}
use peer_memory.Blocks.State.{BlockManager, BlockError, Durability}
use peer_memory.Blocks.Evict.{Shuffles}
use peer_memory.Blocks.Store.{store}
use peer_memory.Replication.{Chunk, Transfer, waiting, overran, complete, handle_chunk}
use peer_memory.Replication.Payload.{extract_payload, truth, text_of, durability_of}
use peer_memory.Replication.{handle_chunks}
use peer_memory.Replication.Payload.{payload}
use peer_memory.Replication.Coordinator.{
  store_mode, Buffer, Coordinator, Handled, quiet, reply, with_req_id, refuse,
}
use peer_memory.Replication.Stores.{
  stored_reply, commit, commit_push, finish_transfer, after_chunk, find_buffer, receive_chunk,
}
use peer_memory.Replication.Dispatch.{
  chunk_body, chunk_messages, followed, handle_all, handle_message, handle_body, handle_type,
}

-- What a peer is told of the result of a store.
abbrev pub answer : Str → Option Str → Result BlockError ℕ → List (Str × Message)
answer peer req_id (ok block_id) =
    (
      peer,
      record {
        type = block_data;
        body =
            dictionary (
              with_req_id req_id
                (field_then (codes "block_id") (integer (pos block_id)) no_fields));
      },
    )
    ∷ []
answer peer req_id (raise _) =
    (peer, record { type = nack; body = dictionary (with_req_id req_id no_fields) }) ∷ []

-- The block store is as after the store, and the sender has its answer and no other message.
abbrev pub Stores : Handled → Str → Option Str → BlockManager × Result BlockError ℕ → Type 0
Stores h peer req_id (b, r) = (h.state.block_manager ≡ b) × (h.sent ≡ answer peer req_id r)

pub stored_reply-Stores :
    (c : Coordinator) (peer : Str) (req_id : Option Str) (r : BlockManager × Result BlockError ℕ)
    → Stores (stored_reply c peer req_id r) peer req_id r
unfolding stored_reply reply refuse
stored_reply-Stores c peer req_id (b, ok block_id) = (refl, refl)
stored_reply-Stores c peer req_id (b, raise e) = (refl, refl)

module _ (hash : Str → ℕ) (shuffles : Shuffles) (now : ℕ) (peer : Str) (x : ℕ) (xs : Str)
    (stream : ℕ) where
  abbrev pub rid : Option Str
  rid = some (x ∷ xs)

  abbrev pub chunk_message : Chunk → Message
  chunk_message chunk = record {
    type = block_chunk;
    body = dictionary (chunk_body rid stream chunk);
  }

  abbrev pub rest_after : List Chunk → Handled → Handled
  rest_after chunks h =
      followed h (handle_all hash shuffles now h.state peer (chunk_messages rid stream chunks))

  pub handle_message-chunk :
      (c : Coordinator) (chunk : Chunk)
      → handle_message hash shuffles now c peer (chunk_message chunk)
        ≡ receive_chunk hash shuffles now c peer rid
            (get c.buffers rid)
            (some chunk.chunk)
            chunk.final
  unfolding handle_message handle_body handle_type chunk_body with_req_id field_at text_of
      find_buffer extract_payload payload truth receive_chunk
  handle_message-chunk c chunk = refl

  pub handle_all-chunk :
      (c : Coordinator) (chunk : Chunk) (chunks : List Chunk)
      → handle_all hash shuffles now c peer (chunk_messages rid stream (chunk ∷ chunks))
        ≡ rest_after chunks (
            receive_chunk hash shuffles now c peer rid
              (get c.buffers rid)
              (some chunk.chunk)
              chunk.final)
  unfolding handle_all chunk_messages followed
  handle_all-chunk c chunk chunks = ap (rest_after chunks) (handle_message-chunk c chunk)

  -- Chunks of a transfer that is over change nothing and are not answered.
  pub ignored_chunks :
      (c : Coordinator) (chunks : List Chunk)
      → get c.buffers rid ≡ none
      → handle_all hash shuffles now c peer (chunk_messages rid stream chunks) ≡ quiet c
  unfolding handle_all chunk_messages receive_chunk quiet followed
  ignored_chunks c [] gone = refl
  ignored_chunks c (chunk ∷ chunks) gone =
      handle_all-chunk c chunk chunks
      ∙ ap
          (λ b.
            rest_after chunks
              (receive_chunk hash shuffles now c peer rid b (some chunk.chunk) chunk.final))
          gone
      ∙ ap (followed (quiet c)) (ignored_chunks c chunks gone)

  pub overran_stays :
      (chunks : List Chunk) (content : Bytes) → handle_chunks overran chunks ≡ complete content → ⊥
  unfolding handle_chunks
  overran_stays [] content h = ground (arith, h)
  overran_stays (chunk ∷ chunks) content h = ground (arith, h)

  pub complete_stays :
      (chunks : List Chunk) (a b : Bytes) → handle_chunks (complete a) chunks ≡ complete b → a ≡ b
  unfolding handle_chunks
  complete_stays [] a b h = ground (arith, h)
  complete_stays (chunk ∷ chunks) a b h = ground (arith, h)

  -- A coordinator that waits for the chunks of a push, with these settings.
  abbrev pub Awaits : Coordinator → Buffer → Option Value → Option Str → Type 0
  Awaits c buf durability key =
      (get c.buffers rid ≡ some buf) × (buf.mode ≡ store_mode durability key)

  pub alone :
      (h : Handled) (chunks : List Chunk) (r : BlockManager × Result BlockError ℕ)
      → Stores h peer rid r
      → get h.state.buffers rid ≡ none
      → Stores (rest_after chunks h) peer rid r
  unfolding followed quiet
  alone h chunks r s gone = rw (ignored_chunks h.state chunks gone) (s.0, append-nil h.sent ∙ s.1)

  pub stored_reply-buffers :
      (c : Coordinator) (r : BlockManager × Result BlockError ℕ)
      → (stored_reply c peer rid r).state.buffers ≡ c.buffers
  unfolding stored_reply reply refuse
  stored_reply-buffers c (b, ok block_id) = refl
  stored_reply-buffers c (b, raise e) = refl

  -- What the buffer made of one chunk, and what follows for the rest.
  pub after_chunk-Stores :
      (c : Coordinator) (buf : Buffer) (durability : Option Value) (key : Option Str)
      (d : Durability) (chunks : List Chunk) (content : Bytes) (t : Transfer)
      → Awaits c buf durability key
      → durability_of durability ≡ some d
      → handle_chunks t chunks ≡ complete content
      → ((c' : Coordinator) (buf' : Buffer)
          → Awaits c' buf' durability key
          → c'.block_manager ≡ c.block_manager
          → handle_chunks (waiting buf'.contents) chunks ≡ complete content
          → Stores
              (handle_all hash shuffles now c' peer (chunk_messages rid stream chunks))
              peer
              rid
              (store hash shuffles now c.block_manager content d key))
      → Stores
          (rest_after chunks (after_chunk hash shuffles now c peer rid buf t))
          peer
          rid
          (store hash shuffles now c.block_manager content d key)
  unfolding after_chunk followed quiet finish_transfer commit_push commit
  after_chunk-Stores c buf durability key d chunks content (waiting contents) w valid h next =
      let buf' : Buffer = record buf { contents = contents } in
      next (record c { buffers = put c.buffers rid buf' }) buf'
        (get-put c.buffers rid rid buf' ∙ rw (==_refl rid) refl, w.1) refl h
  after_chunk-Stores c buf durability key d chunks content overran w valid h next =
      absurd (overran_stays chunks content h)
  after_chunk-Stores c buf durability key d chunks content (complete whole) w valid h next =
      let c' : Coordinator = record c { buffers = remove c.buffers rid } in
      let r = store hash shuffles now c.block_manager content d key in
      let gone : get c'.buffers rid ≡ none = get-remove c.buffers rid rid ∙ rw (==_refl rid) refl in
      let q : after_chunk hash shuffles now c peer rid buf (complete whole)
          ≡ stored_reply c' peer rid r =
        ap (λ m. finish_transfer hash shuffles now c' peer rid m whole) w.1
        ∙ ap (λ o. commit_push hash shuffles now c' peer rid whole o key) valid
        ∙ ap (λ a. commit hash shuffles now c' peer rid a d key)
            (complete_stays chunks whole content h) in
      subst (λ k. Stores (rest_after chunks k) peer rid r) (sym q)
        (alone (stored_reply c' peer rid r) chunks r (stored_reply-Stores c' peer rid r)
          (ap (λ b. get b rid) (stored_reply-buffers c' r) ∙ gone))

  -- The chunks of a push end in the store of what they were cut from.
  pub handle_all-chunks :
      (c : Coordinator) (buf : Buffer) (durability : Option Value) (key : Option Str)
      (d : Durability) (b : BlockManager) (chunks : List Chunk) (content : Bytes)
      → Awaits c buf durability key
      → c.block_manager ≡ b
      → durability_of durability ≡ some d
      → handle_chunks (waiting buf.contents) chunks ≡ complete content
      → Stores
          (handle_all hash shuffles now c peer (chunk_messages rid stream chunks))
          peer
          rid
          (store hash shuffles now b content d key)
  unfolding handle_chunks receive_chunk handle_chunk
  handle_all-chunks c buf durability key d b [] content w same valid h =
      absurd (let f : ⊥ = ground (arith, h) in f)
  handle_all-chunks c buf durability key d b (chunk ∷ chunks) content w same valid h =
      let t = handle_chunk buf.contents chunk in
      let q : handle_all hash shuffles now c peer (chunk_messages rid stream (chunk ∷ chunks))
          ≡ rest_after chunks (after_chunk hash shuffles now c peer rid buf t) =
        handle_all-chunk c chunk chunks
        ∙ ap
            (λ o.
              rest_after chunks
                (receive_chunk hash shuffles now c peer rid o (some chunk.chunk) chunk.final))
            w.0 in
      subst (λ k. Stores k peer rid (store hash shuffles now b content d key)) (sym q)
        (subst
          (λ m.
            Stores (rest_after chunks (after_chunk hash shuffles now c peer rid buf t)) peer rid
              (store hash shuffles now m content d key))
          same
          (after_chunk-Stores c buf durability key d chunks content t w valid h
            (λ c' buf' w' same' h'.
              handle_all-chunks c' buf' durability key d c.block_manager chunks content w' same'
                valid h')))
