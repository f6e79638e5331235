-- ===== src/Replication/PushStart.antt =====
-- The messages of a store at the peer of memnode/replication.py that receives it.
use peer_memory.Prelude.{
  ℕ, ◌<◌, ◌≡◌, refl, sym, ap, ◌∙◌, inl, inr, true, false, Option, none, some, [], ◌∷◌, ltb, leb,
  nat_eq, list_eq, ==_refl, raise, length, arith, Bool-cases,
}
use peer_memory.Prelude.Dict.{get, get-put}
use peer_memory.Prelude.Text.{Str, Bytes}
use mathlib.Core.Path.{subst}
use peer_memory.Prelude.{pos, option_eq}
use peer_memory.Config.{max_block_size, max_inbound_streams}
use peer_memory.Wire.Message.{Fields, field_at}
use peer_memory.Blocks.State.{BlockManager, block_too_large, Durability, pinned, cache}
use peer_memory.Blocks.Evict.{Shuffles}
use peer_memory.Blocks.Store.{store}
use peer_memory.Replication.{split, open_buffer, waiting}
use peer_memory.Replication.Payload.{extract_payload, truth, text_of, size_value, durability_of}
use peer_memory.Replication.{handle_chunks}
use peer_memory.Replication.Reassembly.{handle_chunks-split}
use peer_memory.Replication.Payload.{payload, durability_value}
use peer_memory.Replication.Coordinator.{
  store_mode, Buffer, Coordinator, quiet, reply, with_req_id, refuse, gc_buffers, drop_stale, stale,
}
use peer_memory.Replication.Stores.{
  stored_reply, commit, add_push, admit_push, start_push, accepted_size, store_body,
  serve_store_block,
}
use peer_memory.Replication.Dispatch.{
  chunk_messages, followed, handle_all, handle_message, handle_body, handle_type, handle_other,
  is_pending, serve,
}
use peer_memory.Replication.Requests.{
  plain_store, push_header, push_body, store_start, with_text, push_body,
}
use peer_memory.Replication.Pushes.{Stores, rid, rest_after, Awaits, alone, handle_all-chunks}

module _ (hash : Str → ℕ) (shuffles : Shuffles) (now : ℕ) (peer : Str) (x : ℕ) (xs : Str)
    (stream : ℕ) where
  pub durability_of-durability_value :
      (d : Durability) → durability_of (some (durability_value d)) ≡ some d
  unfolding durability_of durability_value
  durability_of-durability_value pinned = refl
  durability_of-durability_value cache = refl

  pub store-too_large :
      (b : BlockManager) (content : Bytes) (d : Durability) (key : Option Str)
      → ltb max_block_size (length content) ≡ true
      → store hash shuffles now b content d key ≡ (b, raise block_too_large)
  unfolding store
  store-too_large b content d key large = rw large refl

  pub handle_message-plain :
      (c : Coordinator) (content : Bytes) (d : Durability) (key : Option Str)
      → is_pending c (rid hash shuffles now peer x xs stream) ≡ false
      → handle_message hash shuffles now c peer (plain_store (x ∷ xs) content d key)
        ≡ stored_reply c peer
            (rid hash shuffles now peer x xs stream)
            (store hash shuffles now c.block_manager content d key)
  unfolding handle_message handle_body handle_type handle_other serve serve_store_block plain_store
      store_start with_text with_req_id field_at text_of truth extract_payload payload store_body
      commit
  handle_message-plain c content d none new = rw (new, durability_of-durability_value d) refl
  handle_message-plain c content d (some key) new = rw (new, durability_of-durability_value d) refl

  pub handle_message-header :
      (c : Coordinator) (content : Bytes) (d : Durability) (key : Option Str)
      → is_pending c (rid hash shuffles now peer x xs stream) ≡ false
      → handle_message hash shuffles now c peer (push_header (x ∷ xs) content d key stream)
        ≡ start_push now c peer
            (rid hash shuffles now peer x xs stream)
            (accepted_size (some (pos (length content))))
            (push_body (x ∷ xs) content d key stream)
  unfolding handle_message handle_body handle_type handle_other serve serve_store_block push_header
      push_body store_start with_text with_req_id field_at text_of truth size_value
  handle_message-header c content d none new = rw new refl
  handle_message-header c content d (some key) new = rw new refl

  pub add_push-Awaits :
      (c : Coordinator) (content : Bytes) (d : Durability) (key : Option Str)
      → (buf : Buffer) × Awaits hash shuffles now peer x xs stream
          (add_push now c peer
            (rid hash shuffles now peer x xs stream)
            (length content)
            (push_body (x ∷ xs) content d key stream))
          buf
          (some (durability_value d))
          key
        × (buf.contents ≡ open_buffer (length content))
  unfolding add_push push_body store_start with_text with_req_id field_at text_of
  add_push-Awaits c content d none =
      let buf : Buffer = record {
        mode = store_mode (some (durability_value d)) none;
        contents = open_buffer (length content);
        started_at = now;
        peer = peer;
      } in
      (
        buf,
        (
          get-put c.buffers (rid hash shuffles now peer x xs stream)
                (rid hash shuffles now peer x xs stream) buf
              ∙ rw (==_refl (rid hash shuffles now peer x xs stream)) refl,
          refl,
        ),
        refl,
      )
  add_push-Awaits c content d (some key) =
      let buf : Buffer = record {
        mode = store_mode (some (durability_value d)) (some key);
        contents = open_buffer (length content);
        started_at = now;
        peer = peer;
      } in
      (
        buf,
        (
          get-put c.buffers (rid hash shuffles now peer x xs stream)
                (rid hash shuffles now peer x xs stream) buf
              ∙ rw (==_refl (rid hash shuffles now peer x xs stream)) refl,
          refl,
        ),
        refl,
      )

  pub add_push-block_manager :
      (c : Coordinator) (size : ℕ) (body : Fields)
      → (add_push now c peer (rid hash shuffles now peer x xs stream) size body).block_manager
        ≡ c.block_manager
  unfolding add_push
  add_push-block_manager c size body = refl

  pub start_push-accepted :
      (c : Coordinator) (size : ℕ) (body : Fields)
      → 0 < size
      → leb size max_block_size ≡ true
      → stale now c.buffers ≡ []
      → length c.buffers < max_inbound_streams
      → start_push now c peer
          (rid hash shuffles now peer x xs stream)
          (accepted_size (some (pos size)))
          body
        ≡ quiet (add_push now c peer (rid hash shuffles now peer x xs stream) size body)
  unfolding start_push accepted_size admit_push gc_buffers drop_stale
  start_push-accepted c size body some_size fits fresh room =
      let positive : ltb 0 size ≡ true = ground (arith, some_size) in
      let not_full : leb max_inbound_streams (length c.buffers) ≡ false = ground (arith, room) in
      let q : accepted_size (some (pos size)) ≡ some size = rw (positive, fits) refl in
      let g : gc_buffers now c ≡ (c, true) = ap (drop_stale c) fresh in
      ap (λ o. start_push now c peer (rid hash shuffles now peer x xs stream) o body) q
      ∙ ap (λ p. admit_push now p peer (rid hash shuffles now peer x xs stream) size body) g
      ∙ rw not_full refl

  pub start_push-refused :
      (c : Coordinator) (size : ℕ) (body : Fields)
      → leb size max_block_size ≡ false
      → start_push now c peer
          (rid hash shuffles now peer x xs stream)
          (accepted_size (some (pos size)))
          body
        ≡ refuse c peer (rid hash shuffles now peer x xs stream)
  unfolding start_push accepted_size
  start_push-refused c size body large =
      let q : accepted_size (some (pos size)) ≡ none = elim (Bool-cases (ltb 0 size)) [
        | inl p ↦ rw (p, large) refl
        | inr z ↦ rw z refl
      ] in
      ap (λ o. start_push now c peer (rid hash shuffles now peer x xs stream) o body) q

  pub refuse-Stores :
      (c : Coordinator)
      → Stores
          (refuse c peer (rid hash shuffles now peer x xs stream))
          peer
          (rid hash shuffles now peer x xs stream)
          (c.block_manager, raise block_too_large)
  unfolding refuse reply
  refuse-Stores c = (refl, refl)

  -- The header and the chunks of a push.
  pub handle_all-push :
      (c : Coordinator) (chunk_size : ℕ) (content : Bytes) (d : Durability) (key : Option Str)
      → 0 < chunk_size
      → 0 < length content
      → is_pending c (rid hash shuffles now peer x xs stream) ≡ false
      → get c.buffers (rid hash shuffles now peer x xs stream) ≡ none
      → stale now c.buffers ≡ []
      → length c.buffers < max_inbound_streams
      → Stores
          (handle_all hash shuffles now c peer (
            push_header (x ∷ xs) content d key stream
            ∷ chunk_messages
                (rid hash shuffles now peer x xs stream)
                stream
                (split chunk_size content)))
          peer
          (rid hash shuffles now peer x xs stream)
          (store hash shuffles now c.block_manager content d key)
  unfolding handle_all followed quiet refuse reply
  handle_all-push c chunk_size content d key some_size some_content new free_name fresh room =
      let r = store hash shuffles now c.block_manager content d key in
      let chunks = split chunk_size content in
      let body = push_body (x ∷ xs) content d key stream in
      let first =
        ap (rest_after hash shuffles now peer x xs stream chunks)
          (handle_message-header c content d key new) in
      subst (λ h. Stores h peer (rid hash shuffles now peer x xs stream) r) (sym first)
        (elim (Bool-cases (leb (length content) max_block_size)) [
          | inl fits ↦
              let c' =
                add_push now c peer (rid hash shuffles now peer x xs stream) (length content)
                  body in
              let (buf, awaits, whole) = add_push-Awaits c content d key in
              subst
                (λ h.
                  Stores (rest_after hash shuffles now peer x xs stream chunks h) peer
                    (rid hash shuffles now peer x xs stream) r)
                (sym (start_push-accepted c (length content) body some_content fits fresh room))
                (handle_all-chunks hash shuffles now peer x xs stream c' buf
                  (some (durability_value d)) key d c.block_manager chunks content awaits
                  (add_push-block_manager c (length content) body)
                  (durability_of-durability_value d)
                  (ap (λ b. handle_chunks (waiting b) chunks) whole
                    ∙ handle_chunks-split chunk_size content some_size some_content))
          | inr large ↦
              subst
                (λ h.
                  Stores (rest_after hash shuffles now peer x xs stream chunks h) peer
                    (rid hash shuffles now peer x xs stream) r)
                (sym (start_push-refused c (length content) body large))
                (subst
                  (λ q.
                    Stores
                      (rest_after hash shuffles now peer x xs stream chunks
                        (refuse c peer (rid hash shuffles now peer x xs stream)))
                      peer (rid hash shuffles now peer x xs stream) q)
                  (sym (
                    store-too_large c.block_manager content d key (
                      let k : ltb max_block_size (length content) ≡ true = ground (arith, large) in
                      k)))
                  (alone hash shuffles now peer x xs stream
                    (refuse c peer (rid hash shuffles now peer x xs stream)) chunks
                    (c.block_manager, raise block_too_large) (refuse-Stores c) free_name))
        ])
