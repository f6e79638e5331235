-- ===== src/Replication/Pulls.antt =====
-- An answer in chunks at the coordinator of memnode/replication.py that asked for it.
use peer_memory.Prelude.{
  ℕ, ◌<◌, ◌≡◌, refl, sym, ap, ◌∙◌, true, none, some, List, [], ◌∷◌, nat_eq, list_eq, ==_refl, ok,
  length, arith,
}
use peer_memory.Prelude.Dict.{Dict, get, put, remove, get-put, get-remove}
use peer_memory.Prelude.Text.{Str, Bytes}
use mathlib.Core.Path.{subst}
use peer_memory.Prelude.{pos, option_eq}
use peer_memory.Wire.Message.{dictionary, field_at, Message, block_data}
use peer_memory.Blocks.Evict.{Shuffles}
use peer_memory.Replication.{
  Chunk, split, open_buffer, Transfer, waiting, overran, complete, handle_chunk, handle_chunks,
}
use peer_memory.Replication.Reassembly.{handle_chunks-split}
use peer_memory.Replication.Payload.{truth, text_of, size_value}
use peer_memory.Replication.Coordinator.{
  pull_mode, Buffer, unresolved, pulled, Coordinator, Handled, quiet, with_req_id, settled, settle,
  stale, drop_stale, gc_buffers, add_pull, pull_size, open_pull_buffer,
}
use peer_memory.Replication.Stores.{finish_transfer, after_chunk, receive_chunk}
use peer_memory.Replication.Dispatch.{
  chunk_messages, addressed, header_body, followed, handle_all, handle_message, handle_body,
  handle_type, handle_other, is_pending, take_answer, is_block_data, resolve, resolve_after,
}
use peer_memory.Replication.Requests.{
  collected, load_body, load_answer, load_result, finish_load, messages_of,
}
use peer_memory.Replication.Pushes.{
  rest_after, handle_all-chunk, ignored_chunks, overran_stays, complete_stays,
}
use peer_memory.Replication.Delivery.{put_read}

module _ (hash : Str → ℕ) (shuffles : Shuffles) (now : ℕ) (peer : Str) (x : ℕ) (xs : Str)
    (stream : ℕ) where
  -- The transfer is over and its future has the content; the answers are as they were.
  abbrev pub Collects : Handled → Coordinator → Bytes → Type 0
  Collects h c content =
      (get h.state.pulls (some (x ∷ xs)) ≡ some (pulled content)) × (h.state.replies ≡ c.replies)

  abbrev pub Pulling : Coordinator → Buffer → Type 0
  Pulling c buf =
      (get c.buffers (some (x ∷ xs)) ≡ some buf)
      × (buf.mode ≡ pull_mode)
      × (get c.pulls (some (x ∷ xs)) ≡ some unresolved)

  pub settle-pulled :
      (c : Coordinator) (content : Bytes)
      → get c.pulls (some (x ∷ xs)) ≡ some unresolved
      → settle c (some (x ∷ xs)) pull_mode (pulled content)
        ≡ record c { pulls = put c.pulls (some (x ∷ xs)) (pulled content) }
  unfolding settle settled
  settle-pulled c content h =
      ap (λ o. record c { pulls = settled o (pulled content) c.pulls (some (x ∷ xs)) }) h

  pub after_chunk-Collects :
      (c : Coordinator) (buf : Buffer) (chunks : List Chunk) (content : Bytes) (t : Transfer)
      → Pulling c buf
      → handle_chunks t chunks ≡ complete content
      → ((c' : Coordinator) (buf' : Buffer)
          → Pulling c' buf'
          → c'.replies ≡ c.replies
          → handle_chunks (waiting buf'.contents) chunks ≡ complete content
          → Collects
              (handle_all hash shuffles now c' peer (chunk_messages (some (x ∷ xs)) stream chunks))
              c
              content)
      → Collects
          (rest_after hash shuffles now peer x xs stream chunks
            (after_chunk hash shuffles now c peer (some (x ∷ xs)) buf t))
          c
          content
  unfolding after_chunk followed quiet finish_transfer
  after_chunk-Collects c buf chunks content (waiting contents) w h next =
      let buf' : Buffer = record buf { contents = contents } in
      next (record c { buffers = put c.buffers (some (x ∷ xs)) buf' }) buf'
        (
          get-put c.buffers (some (x ∷ xs)) (some (x ∷ xs)) buf'
              ∙ rw (==_refl (some (x ∷ xs))) refl,
          w.1,
          w.2,
        )
        refl h
  after_chunk-Collects c buf chunks content overran w h next =
      absurd (overran_stays hash shuffles now peer x xs stream chunks content h)
  after_chunk-Collects c buf chunks content (complete whole) w h next =
      let k = some (x ∷ xs) in
      let c' : Coordinator = record c { buffers = remove c.buffers k } in
      let c'' : Coordinator = record c' { pulls = put c.pulls k (pulled content) } in
      let gone : get c''.buffers k ≡ none = get-remove c.buffers k k ∙ rw (==_refl k) refl in
      let q : after_chunk hash shuffles now c peer k buf (complete whole) ≡ quiet c'' =
        ap (λ m. finish_transfer hash shuffles now c' peer k m whole) w.1
        ∙ ap (λ a. quiet (settle c' k pull_mode (pulled a)))
            (complete_stays hash shuffles now peer x xs stream chunks whole content h)
        ∙ ap quiet (settle-pulled c' content w.2) in
      subst (λ a. Collects (rest_after hash shuffles now peer x xs stream chunks a) c content)
        (sym q)
        (rw (ignored_chunks hash shuffles now peer x xs stream c'' chunks gone)
          (get-put c.pulls k k (pulled content) ∙ rw (==_refl k) refl, refl))

  -- The chunks of an answer end in its future.
  pub handle_all-pulled :
      (c : Coordinator) (buf : Buffer) (replies : Dict Str Message) (chunks : List Chunk)
      (content : Bytes)
      → Pulling c buf
      → c.replies ≡ replies
      → handle_chunks (waiting buf.contents) chunks ≡ complete content
      → (get
            (handle_all hash shuffles now c peer
              (chunk_messages (some (x ∷ xs)) stream chunks)).state.pulls
            (some (x ∷ xs))
          ≡ some (pulled content))
        × ((handle_all hash shuffles now c peer
              (chunk_messages (some (x ∷ xs)) stream chunks)).state.replies
            ≡ replies)
  unfolding handle_chunks receive_chunk handle_chunk
  handle_all-pulled c buf replies [] content w same h = absurd (let f : ⊥ = ground (arith, h) in f)
  handle_all-pulled c buf replies (chunk ∷ chunks) content w same h =
      let t = handle_chunk buf.contents chunk in
      let q : handle_all hash shuffles now c peer
            (chunk_messages (some (x ∷ xs)) stream (chunk ∷ chunks))
          ≡ rest_after hash shuffles now peer x xs stream chunks
              (after_chunk hash shuffles now c peer (some (x ∷ xs)) buf t) =
        handle_all-chunk hash shuffles now peer x xs stream c chunk chunks
        ∙ ap
            (λ o. rest_after hash shuffles now peer x xs stream chunks (
              receive_chunk hash shuffles now c peer (some (x ∷ xs)) o (some chunk.chunk)
                chunk.final))
            w.0 in
      let r =
        after_chunk-Collects c buf chunks content t w h
          (λ c' buf' w' same' h'. handle_all-pulled c' buf' c.replies chunks content w' same' h') in
      subst
        (λ (a : Handled).
          (get a.state.pulls (some (x ∷ xs)) ≡ some (pulled content)) × (a.state.replies ≡ replies))
        (sym q) (r.0, r.1 ∙ same)

  -- The header of a large answer, as it is sent.
  abbrev pub header : ℕ → Message
  header size = record {
    type = block_data;
    body = dictionary (header_body (some (x ∷ xs)) size stream);
  }

  -- What the header makes of a coordinator that waits for the answer.
  abbrev pub after_header : Coordinator → ℕ → Coordinator
  after_header s size =
      resolve (add_pull now s peer (some (x ∷ xs)) (some (pos size))) (some (x ∷ xs)) (header size)

  pub handle_message-answer_header :
      (s : Coordinator) (size : ℕ)
      → is_pending s (some (x ∷ xs)) ≡ true
      → stale now s.buffers ≡ []
      → handle_message hash shuffles now s peer (header size) ≡ quiet (after_header s size)
  unfolding handle_message handle_body handle_type handle_other take_answer is_block_data
      header_body with_req_id field_at text_of truth size_value resolve_after open_pull_buffer
      gc_buffers drop_stale
  handle_message-answer_header s size waits fresh = rw (waits, fresh) refl

  pub after_header-Pulling :
      (s : Coordinator) (size : ℕ)
      → (buf : Buffer) × Pulling (after_header s size) buf × (buf.contents ≡ open_buffer size)
  unfolding resolve add_pull pull_size
  after_header-Pulling s size =
      let k = some (x ∷ xs) in
      let buf : Buffer = record {
        mode = pull_mode;
        contents = open_buffer size;
        started_at = now;
        peer = peer;
      } in
      (
        buf,
        (
          get-put s.buffers k k buf ∙ rw (==_refl k) refl,
          refl,
          get-put s.pulls k k unresolved ∙ rw (==_refl k) refl,
        ),
        refl,
      )

  pub messages_of-addressed :
      (to : Str) (msgs : List Message) → messages_of (addressed to msgs) ≡ msgs
  unfolding messages_of addressed
  messages_of-addressed to [] = refl
  messages_of-addressed to (msg ∷ msgs) = ap (λ ms. msg ∷ ms) (messages_of-addressed to msgs)

  pub large_result :
      (size : ℕ) (content : Bytes)
      → load_result (some (pulled content)) (some (header size)) ≡ ok (some content)
  unfolding load_result load_answer load_body collected header_body with_req_id field_at truth
  large_result size content = refl

  -- The whole of a large answer.
  pub handle_all-large :
      (s : Coordinator) (chunk_size : ℕ) (content : Bytes)
      → 0 < chunk_size
      → 0 < length content
      → is_pending s (some (x ∷ xs)) ≡ true
      → stale now s.buffers ≡ []
      → (finish_load
          (handle_all hash shuffles now s peer (
            header (length content)
            ∷ chunk_messages (some (x ∷ xs)) stream (split chunk_size content))).state
          (x ∷ xs)).1
        ≡ ok (some content)
  unfolding handle_all finish_load followed quiet resolve add_pull
  handle_all-large s chunk_size content some_size some_content waits fresh =
      let size = length content in
      let chunks = split chunk_size content in
      let s' = after_header s size in
      let (buf, pulling, opened) = after_header-Pulling s size in
      let q =
        ap (rest_after hash shuffles now peer x xs stream chunks)
          (handle_message-answer_header s size waits fresh) in
      let (pull, kept) = handle_all-pulled s' buf s'.replies chunks content pulling refl (
        ap (λ b. handle_chunks (waiting b) chunks) opened
        ∙ handle_chunks-split chunk_size content some_size some_content) in
      let k = some (x ∷ xs) in
      let done = handle_all hash shuffles now s' peer (chunk_messages k stream chunks) in
      ap (λ (h : Handled). load_result (get h.state.pulls k) (get h.state.replies (x ∷ xs))) q
      ∙ ap (λ o. load_result o (get done.state.replies (x ∷ xs))) pull
      ∙ ap (λ rs. load_result (some (pulled content)) (get rs (x ∷ xs))) kept
      ∙ ap (load_result (some (pulled content))) (put_read s.replies (x ∷ xs) (header size))
      ∙ large_result size content
