-- ===== src/Replication/Handlers.antt =====
-- The handlers of memnode/replication.py keep the table of buffers within its bounds.
use peer_memory.Prelude.{
  ℕ, ◌≤◌, ◌<◌, ◌≡◌, refl, sym, ap, inl, inr, Bool, true, false, ◌&&◌, Option, none, some, [], ◌∷◌,
  ltb, leb, nat_eq, list_eq, Result, ok, raise, length, arith, Bool-cases,
}
use peer_memory.Prelude.Dict.{get, remove, at_key}
use peer_memory.Prelude.Text.{Str, Bytes}
use peer_memory.Prelude.{ℤ, pos, negsuc, option_eq}
use peer_memory.Prelude.Text.{codes}
use peer_memory.Config.{max_block_size, max_inbound_streams}
use peer_memory.Wire.Message.{
  Fields, field_at, MsgType, Message, hello, welcome, auth, store_block, request_block, block_data,
  block_not_found, set_key, get_key, key_found, ping, pong, quota_update, nack, free_block, freed,
  block_chunk, stream_abort, bye,
}
use peer_memory.Blocks.State.{BlockManager, BlockError, Durability}
use peer_memory.Blocks.Evict.{Shuffles}
use peer_memory.Blocks.Store.{store}
use peer_memory.Replication.{Chunk, open_buffer, Transfer, waiting, overran, complete, handle_chunk}
use peer_memory.Replication.Payload.{
  extract_payload, truth, text_of, size_value, durability_of, block_ref,
}
use peer_memory.Prelude.{if_both}
use peer_memory.Prelude.Dict.{get-AllValues}
use mathlib.Core.Path.{subst}
use peer_memory.Replication.{join, assemble}
use peer_memory.Replication.Coordinator.{
  pulled, failed_pull, Mode, store_mode, pull_mode, Buffer, Coordinator, Handled, quiet, reply,
  refuse, drop_stale, stale, gc_buffers, open_pull_buffer,
}
use peer_memory.Replication.Stores.{
  stored_reply, commit, commit_push, finish_transfer, after_chunk, find_buffer, receive_chunk,
  refuse_overrun, add_push, admit_push, start_push, accepted_size, store_body, serve_store_block,
}
use peer_memory.Replication.Dispatch.{
  handle_type, handle_other, is_pending, serve, take_answer, is_block_data, resolve, resolve_after,
  loaded_reply, stream_block, freed_reply, serve_request_block, serve_free_block, load_ref,
  free_ref,
}
use peer_memory.Replication.Capped.{
  is_push, Small, Capped, CappedIn, total-length, put-Capped, remove-Capped, handle_chunk-Fits,
  settle-buffers, drop_stale-Capped, open_pull_buffer-Capped, abort_buffer-Capped,
}

unfoldable pub CappedAfter : Handled → Type 0
CappedAfter h = CappedIn h.state

pub stored_reply-buffers :
    (c : Coordinator) (peer : Str) (k : Option Str) (r : BlockManager × Result BlockError ℕ)
    → (stored_reply c peer k r).state.buffers ≡ c.buffers
unfolding stored_reply reply refuse
stored_reply-buffers c peer k (b, ok block_id) = refl
stored_reply-buffers c peer k (b, raise e) = refl

pub loaded_reply-buffers :
    (c : Coordinator) (peer : Str) (k : Option Str) (r : BlockManager × Option Bytes)
    → (loaded_reply c peer k r).state.buffers ≡ c.buffers
unfolding loaded_reply stream_block reply
loaded_reply-buffers c peer k (b, none) = refl
loaded_reply-buffers c peer k (b, some content) =
    if_both (λ (h : Handled). h.state.buffers ≡ c.buffers) (leb (length content) c.chunk_threshold)
      refl refl

pub resolve-Capped :
    (c : Coordinator) (k : Option Str) (msg : Message) → CappedIn c → CappedIn (resolve c k msg)
unfolding resolve
resolve-Capped c none msg h = h
resolve-Capped c (some k) msg h = h

pub resolve_after-Capped :
    (c : Coordinator) (done : Bool) (k : Option Str) (msg : Message)
    → CappedIn c
    → CappedAfter (resolve_after (c, done) k msg)
unfolding resolve_after CappedAfter quiet
resolve_after-Capped c false k msg h = h
resolve_after-Capped c true k msg h = resolve-Capped c k msg h

pub take_answer-Capped :
    (now : ℕ) (c : Coordinator) (peer : Str) (k : Option Str) (body : Fields) (msg : Message)
    → CappedIn c
    → CappedAfter (take_answer now c peer k body msg)
unfolding take_answer CappedAfter quiet
take_answer-Capped now c peer k body msg h =
    let size = size_value (field_at body (codes "total_size")) in
    if_both CappedAfter (is_block_data msg.type && truth (field_at body (codes "chunked")))
      (resolve_after-Capped (open_pull_buffer now c peer k size).0
        (open_pull_buffer now c peer k size).1 k msg (open_pull_buffer-Capped now c peer k size h))
      (resolve-Capped c k msg h)

pub find_buffer-get :
    (c : Coordinator) (k : Option Str) (buf : Buffer)
    → find_buffer c k ≡ some buf
    → get c.buffers k ≡ some buf
unfolding find_buffer
find_buffer-get c none buf e = absurd (let f : ⊥ = ground (arith, e) in f)
find_buffer-get c (some []) buf e = absurd (let f : ⊥ = ground (arith, e) in f)
find_buffer-get c (some (x ∷ xs)) buf e = e

pub freed_reply-buffers :
    (c : Coordinator) (peer : Str) (k : Option Str) (r : BlockManager × Bool)
    → (freed_reply c peer k r).state.buffers ≡ c.buffers
unfolding freed_reply reply
freed_reply-buffers c peer k (b, done) = refl

module _ (hash : Str → ℕ) (shuffles : Shuffles) (now : ℕ) (peer : Str) (k : Option Str) where
  pub commit-Capped :
      (c : Coordinator) (content : Bytes) (d : Durability) (key : Option Str)
      → CappedIn c
      → CappedAfter (commit hash shuffles now c peer k content d key)
  unfolding commit CappedAfter
  commit-Capped c content d key h =
      subst Capped
        (sym
          (stored_reply-buffers c peer k (store hash shuffles now c.block_manager content d key)))
        h

  pub commit_push-Capped :
      (c : Coordinator) (content : Bytes) (d : Option Durability) (key : Option Str)
      → CappedIn c
      → CappedAfter (commit_push hash shuffles now c peer k content d key)
  unfolding commit_push CappedAfter
  commit_push-Capped c content none key h = h
  commit_push-Capped c content (some d) key h = commit-Capped c content d key h

  pub finish_transfer-Capped :
      (c : Coordinator) (mode : Mode) (content : Bytes)
      → CappedIn c
      → CappedAfter (finish_transfer hash shuffles now c peer k mode content)
  unfolding finish_transfer CappedAfter quiet
  finish_transfer-Capped c pull_mode content h =
      subst Capped (sym (settle-buffers c k pull_mode (pulled content))) h
  finish_transfer-Capped c (store_mode durability key) content h =
      commit_push-Capped c content (durability_of durability) key h

  pub refuse_overrun-Capped :
      (c : Coordinator) (mode : Mode) → CappedIn c → CappedAfter (refuse_overrun c peer k mode)
  unfolding refuse_overrun CappedAfter quiet refuse reply
  refuse_overrun-Capped c (store_mode _ _) h = h
  refuse_overrun-Capped c pull_mode h =
      subst Capped (sym (settle-buffers c k pull_mode failed_pull)) h

  pub after_chunk-Capped :
      (c : Coordinator) (buf : Buffer) (chunk : Chunk) (t : Transfer)
      → CappedIn c
      → get c.buffers k ≡ some buf
      → handle_chunk buf.contents chunk ≡ t
      → CappedAfter (after_chunk hash shuffles now c peer k buf t)
  unfolding after_chunk CappedAfter quiet
  after_chunk-Capped c buf chunk (waiting after) h here e =
      let small : Small buf = get-AllValues Small c.buffers k buf h.small here in
      put-Capped c.buffers k (record buf { contents = after }) h
        (handle_chunk-Fits buf.mode buf.contents after chunk small e)
        (let same = ap (at_key is_push) here in omega (arith, h.few, same))
  after_chunk-Capped c buf chunk overran h here e =
      refuse_overrun-Capped (record c { buffers = remove c.buffers k }) buf.mode
        (remove-Capped c.buffers k h)
  after_chunk-Capped c buf chunk (complete content) h here e =
      finish_transfer-Capped (record c { buffers = remove c.buffers k }) buf.mode content
        (remove-Capped c.buffers k h)

  pub receive_chunk-Capped :
      (c : Coordinator) (buf : Option Buffer) (chunk : Option Bytes) (final : Bool)
      → CappedIn c
      → find_buffer c k ≡ buf
      → CappedAfter (receive_chunk hash shuffles now c peer k buf chunk final)
  unfolding receive_chunk CappedAfter quiet
  receive_chunk-Capped c none chunk final h e = h
  receive_chunk-Capped c (some buf) none final h e = abort_buffer-Capped c k h
  receive_chunk-Capped c (some buf) (some chunk) final h e =
      after_chunk-Capped c buf (record { seq = 0; chunk = chunk; final = final })
        (handle_chunk buf.contents (record { seq = 0; chunk = chunk; final = final })) h
        (find_buffer-get c k buf e) refl

  pub add_push-Capped :
      (c : Coordinator) (size : ℕ) (body : Fields)
      → CappedIn c
      → size ≤ max_block_size
      → length c.buffers < max_inbound_streams
      → CappedIn (add_push now c peer k size body)
  unfolding add_push open_buffer assemble join
  add_push-Capped c size body h small room =
      put-Capped c.buffers k
        (record {
          mode =
              store_mode (field_at body (codes "durability"))
                (text_of (field_at body (codes "key")));
          contents = open_buffer size;
          started_at = now;
          peer = peer;
        })
        h (refl, omega arith, small) (omega (arith, total-length c.buffers, room))

  pub admit_push-Capped :
      (c : Coordinator) (done : Bool) (size : ℕ) (body : Fields)
      → CappedIn c
      → size ≤ max_block_size
      → CappedAfter (admit_push now (c, done) peer k size body)
  unfolding admit_push CappedAfter quiet refuse reply
  admit_push-Capped c false size body h small = h
  admit_push-Capped c true size body h small =
      elim (Bool-cases (leb max_inbound_streams (length c.buffers))) [
        | inl full ↦ rw full h
        | inr room ↦ rw room (add_push-Capped c size body h small (ground (arith, room)))
      ]

  pub start_push-Capped :
      (c : Coordinator) (size : Option ℤ) (body : Fields)
      → CappedIn c
      → CappedAfter (start_push now c peer k (accepted_size size) body)
  unfolding start_push CappedAfter refuse reply accepted_size gc_buffers
  start_push-Capped c none body h = h
  start_push-Capped c (some (negsuc n)) body h = h
  start_push-Capped c (some (pos n)) body h = elim (Bool-cases (ltb 0 n && leb n max_block_size)) [
    | inl fits ↦ rw fits (
        let g = drop_stale c (stale now c.buffers) in
        admit_push-Capped g.0 g.1 n body (drop_stale-Capped c (stale now c.buffers) h)
          (ground (arith, fits)))
    | inr bad ↦ rw bad h
  ]

  pub store_body-Capped :
      (c : Coordinator) (content : Option Bytes) (d : Option Durability) (key : Option Str)
      → CappedIn c
      → CappedAfter (store_body hash shuffles now c peer k content d key)
  unfolding store_body CappedAfter refuse reply
  store_body-Capped c (some content) (some d) key h = commit-Capped c content d key h
  store_body-Capped c (some content) none key h = h
  store_body-Capped c none none key h = h
  store_body-Capped c none (some d) key h = h

  pub serve-Capped :
      (c : Coordinator) (body : Fields) (type : MsgType)
      → CappedIn c
      → CappedAfter (serve hash shuffles now c peer k body type)
  unfolding serve CappedAfter reply quiet serve_store_block serve_request_block serve_free_block
  serve-Capped c body store_block h =
      if_both CappedAfter (truth (field_at body (codes "chunked")))
        (start_push-Capped c (size_value (field_at body (codes "total_size"))) body h)
        (store_body-Capped c (extract_payload body (codes "data"))
          (durability_of (field_at body (codes "durability")))
          (text_of (field_at body (codes "key"))) h)
  serve-Capped c body request_block h =
      subst Capped
        (sym (
          loaded_reply-buffers c peer k (
            load_ref hash now c.block_manager (block_ref (field_at body (codes "block_id")))
              (text_of (field_at body (codes "key"))))))
        h
  serve-Capped c body free_block h =
      subst Capped
        (sym (
          freed_reply-buffers c peer k
            (free_ref hash c.block_manager (block_ref (field_at body (codes "block_id"))))))
        h
  serve-Capped c body ping h = h
  serve-Capped c body hello h = h
  serve-Capped c body welcome h = h
  serve-Capped c body auth h = h
  serve-Capped c body block_data h = h
  serve-Capped c body block_not_found h = h
  serve-Capped c body set_key h = h
  serve-Capped c body get_key h = h
  serve-Capped c body key_found h = h
  serve-Capped c body pong h = h
  serve-Capped c body quota_update h = h
  serve-Capped c body nack h = h
  serve-Capped c body freed h = h
  serve-Capped c body block_chunk h = h
  serve-Capped c body stream_abort h = h
  serve-Capped c body bye h = h

  pub handle_other-Capped :
      (c : Coordinator) (body : Fields) (msg : Message)
      → CappedIn c
      → CappedAfter (handle_other hash shuffles now c peer k body msg)
  unfolding handle_other
  handle_other-Capped c body msg h =
      if_both CappedAfter (is_pending c k) (take_answer-Capped now c peer k body msg h)
        (serve-Capped c body msg.type h)

  pub handle_type-Capped :
      (c : Coordinator) (body : Fields) (msg : Message) (type : MsgType)
      → CappedIn c
      → CappedAfter (handle_type hash shuffles now c peer k body msg type)
  unfolding handle_type CappedAfter quiet
  handle_type-Capped c body msg block_chunk h =
      receive_chunk-Capped c (find_buffer c k) (extract_payload body (codes "chunk"))
        (truth (field_at body (codes "final"))) h refl
  handle_type-Capped c body msg stream_abort h = abort_buffer-Capped c k h
  handle_type-Capped c body msg hello h = handle_other-Capped c body msg h
  handle_type-Capped c body msg welcome h = handle_other-Capped c body msg h
  handle_type-Capped c body msg auth h = handle_other-Capped c body msg h
  handle_type-Capped c body msg store_block h = handle_other-Capped c body msg h
  handle_type-Capped c body msg request_block h = handle_other-Capped c body msg h
  handle_type-Capped c body msg block_data h = handle_other-Capped c body msg h
  handle_type-Capped c body msg block_not_found h = handle_other-Capped c body msg h
  handle_type-Capped c body msg set_key h = handle_other-Capped c body msg h
  handle_type-Capped c body msg get_key h = handle_other-Capped c body msg h
  handle_type-Capped c body msg key_found h = handle_other-Capped c body msg h
  handle_type-Capped c body msg ping h = handle_other-Capped c body msg h
  handle_type-Capped c body msg pong h = handle_other-Capped c body msg h
  handle_type-Capped c body msg quota_update h = handle_other-Capped c body msg h
  handle_type-Capped c body msg nack h = handle_other-Capped c body msg h
  handle_type-Capped c body msg free_block h = handle_other-Capped c body msg h
  handle_type-Capped c body msg freed h = handle_other-Capped c body msg h
  handle_type-Capped c body msg bye h = handle_other-Capped c body msg h
