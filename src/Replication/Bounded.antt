-- ===== src/Replication/Bounded.antt =====
-- How much memory the pushes of peers can take in memnode/replication.py before they are stored.
use peer_memory.Prelude.{
  ℕ, ◌≤◌, ◌≡◌, true, All, Option, some, List, [], ◌∷◌, nat_eq, list_eq, arith,
}
use peer_memory.Prelude.Dict.{Dict, total}
use peer_memory.Prelude.Text.{Str}
use peer_memory.Prelude.{option_eq}
use peer_memory.Prelude.Text.{codes}
use peer_memory.Config.{max_block_size, max_inbound_streams}
use peer_memory.Wire.Message.{
  Value, nil_value, boolean, integer, binary, double, array, text, dictionary, field_at, Message,
}
use peer_memory.Blocks.State.{BlockManager}
use peer_memory.Blocks.Evict.{Shuffles}
use peer_memory.Replication.{ChunkBuffer}
use peer_memory.Replication.Payload.{is_named, text_of}
use peer_memory.Prelude.{◌*◌}
use peer_memory.Prelude.Dict.{AllValues}
use peer_memory.Replication.Coordinator.{init, Mode, store_mode, pull_mode, Buffer, Coordinator}
use peer_memory.Replication.Dispatch.{handle_message, handle_body}
use peer_memory.Replication.Requests.{register_pending, finish_load}
use peer_memory.Replication.Capped.{
  push_count, is_push, held, bytes_in, Fits, Small, CappedIn, remove-Capped,
}
use peer_memory.Replication.Handlers.{CappedAfter, handle_type-Capped}

handle_body-Capped :
    (hash : Str → ℕ) (shuffles : Shuffles) (now : ℕ) (c : Coordinator) (peer : Str) (msg : Message)
    (body : Value)
    → CappedIn c
    → CappedIn (handle_body hash shuffles now c peer msg body).state
unfolding handle_body CappedAfter
handle_body-Capped hash shuffles now c peer msg (dictionary body) h =
    handle_type-Capped hash shuffles now peer (text_of (field_at body (codes "req_id"))) c body msg
      msg.type h
handle_body-Capped hash shuffles now c peer msg nil_value h = h
handle_body-Capped hash shuffles now c peer msg (boolean _) h = h
handle_body-Capped hash shuffles now c peer msg (integer _) h = h
handle_body-Capped hash shuffles now c peer msg (double _) h = h
handle_body-Capped hash shuffles now c peer msg (binary _) h = h
handle_body-Capped hash shuffles now c peer msg (text _) h = h
handle_body-Capped hash shuffles now c peer msg (array _) h = h

handle_message-Capped :
    (hash : Str → ℕ) (shuffles : Shuffles) (now : ℕ) (c : Coordinator) (peer : Str) (msg : Message)
    → CappedIn c
    → CappedIn (handle_message hash shuffles now c peer msg).state
unfolding handle_message
handle_message-Capped hash shuffles now c peer msg h =
    handle_body-Capped hash shuffles now c peer msg msg.body h

-- What can happen to a coordinator: a message of a peer, the start of a request, the end of a load.
pub data Event : Type 0 where
  arrived : Shuffles → ℕ → Str → Message → Event
  asked : Str → Event
  load_ended : Str → Event

unfoldable pub step : (Str → ℕ) → Coordinator → Event → Coordinator
step hash c (arrived shuffles now peer msg) = (handle_message hash shuffles now c peer msg).state
step hash c (asked req_id) = register_pending c req_id
step hash c (load_ended req_id) = (finish_load c req_id).0

unfoldable pub run : (Str → ℕ) → Coordinator → List Event → Coordinator
run hash c [] = c
run hash c (event ∷ events) = run hash (step hash c event) events

step-Capped :
    (hash : Str → ℕ) (c : Coordinator) (event : Event) → CappedIn c → CappedIn (step hash c event)
unfolding step register_pending finish_load
step-Capped hash c (arrived shuffles now peer msg) h =
    handle_message-Capped hash shuffles now c peer msg h
step-Capped hash c (asked req_id) h = h
step-Capped hash c (load_ended req_id) h = remove-Capped c.buffers (some req_id) h

run-CappedIn :
    (hash : Str → ℕ) (c : Coordinator) (events : List Event)
    → CappedIn c
    → CappedIn (run hash c events)
unfolding run
run-CappedIn hash c [] h = h
run-CappedIn hash c (event ∷ events) h =
    run-CappedIn hash (step hash c event) events (step-Capped hash c event h)

held-le :
    (mode : Mode) (contents : ChunkBuffer)
    → Fits mode contents
    → bytes_in mode contents ≤ push_count mode * max_block_size
held-le pull_mode contents h = omega arith
held-le (store_mode _ _) contents h = omega (arith, h.0, h.1, h.2)

total-held :
    (d : Dict (Option Str) Buffer)
    → AllValues Small d
    → total held d ≤ total is_push d * max_block_size
total-held [] h = omega arith
total-held ((k, buf) ∷ d) h = omega (arith, held-le buf.mode buf.contents h.0, total-held d h.1)

-- The req_id and the key of a message that arrives are text, null or absent.
abbrev pub Named : Event → Type 0
Named (arrived shuffles now peer msg) = is_named msg.body ≡ true
Named (asked _) = Unit
Named (load_ended _) = Unit

-- Whatever messages peers send whose req_id and key are text, null or absent, in any order and at any time, valid or not in all
-- else: the bytes of the pushes that are not complete yet are at most 64 times the size of the largest block.
pub total-run :
    (hash : Str → ℕ) (b : BlockManager) (chunk_size chunk_threshold : ℕ) (events : List Event)
    → All Named events
    → total held (run hash (init b chunk_size chunk_threshold) events).buffers
      ≤ max_inbound_streams * max_block_size
unfolding init
total-run hash b chunk_size chunk_threshold events named =
    let h =
      run-CappedIn hash (init b chunk_size chunk_threshold) events
        (record { distinct = tt; small = tt; few = omega arith }) in
    omega (
      arith,
      total-held (run hash (init b chunk_size chunk_threshold) events).buffers h.small,
      h.few,
    )
