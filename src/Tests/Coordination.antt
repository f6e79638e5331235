-- ===== src/Tests/Coordination.antt =====
-- Two coordinators of memnode/replication.py, one of which stores at the other.
use peer_memory.Prelude.{
  ℕ, ◌≤◌, ◌≡◌, refl, true, none, some, List, [], ◌∷◌, nat_eq, list_eq, length, arith,
}
use peer_memory.Prelude.Dict.{get, total}
use peer_memory.Prelude.Text.{Str, Bytes}
use peer_memory.Prelude.{◌*◌}
use peer_memory.Prelude.Text.{codes}
use peer_memory.Config.{max_block_size, max_inbound_streams}
use peer_memory.Wire.Message.{
  field_at, Message, store_block, block_chunk, dictionary, no_fields, field_then, boolean, integer,
  binary, text,
}
use peer_memory.Prelude.{pos}
use peer_memory.Blocks.State.{BlockManager, cache}
use peer_memory.Blocks.Evict.{Shuffles}
use peer_memory.Blocks.Store.{store}
use peer_memory.Replication.Payload.{is_named, is_name, from_hex, hex_digit, hex_byte, is_space}
use peer_memory.Replication.Coordinator.{Coordinator, init, stale}
use peer_memory.Replication.Dispatch.{is_pending, waited_for}
use peer_memory.Replication.Requests.{store_remote, load_remote}
use peer_memory.Replication.Dispatch.{load_ref}
use peer_memory.Replication.Retrieval.{ref_of, load_remote_lem}
use peer_memory.Prelude.{ok}
use peer_memory.Replication.Delivery.{told, store_remote_lem}
use peer_memory.Replication.Bounded.{Event, arrived, run, total-run}
use peer_memory.Replication.Capped.{held}

abbrev manager : BlockManager
manager = record {
  max_memory_bytes = 100;
  stripe_count = 1;
  stripes = record { blocks = []; used_bytes = 0 } ∷ [];
  key_stripes = [] ∷ [];
  reserved_bytes = 0;
  next_id = 1;
}

abbrev hash : Str → ℕ
hash = length

abbrev shuffles : Shuffles
shuffles = record { order = 0 ∷ []; candidates = λ _ ids. ids }

-- Payloads above two bytes go in chunks of two.
abbrev node : Coordinator
node = init manager 2 2

abbrev content : Bytes
content = 1 ∷ 2 ∷ 3 ∷ 4 ∷ 5 ∷ []

abbrev alice : Str
alice = codes "alice"

abbrev bob : Str
bob = codes "bob"

-- Digits of both cases, with a space between two bytes.
digits : from_hex (codes "0a fF") ≡ some (10 ∷ 255 ∷ [])
unfolding from_hex hex_digit hex_byte is_space
digits = refl

store_remote_lem_example :
    ((store_remote hash shuffles 5 node node alice bob
        (codes "r1")
        content
        cache
        none).0.block_manager
      ≡ (store hash shuffles 5 manager content cache none).0)
    × ((store_remote hash shuffles 5 node node alice bob (codes "r1") content cache none).2
        ≡ told (store hash shuffles 5 manager content cache none).1)
unfolding init is_pending waited_for get stale
store_remote_lem_example =
    store_remote_lem hash shuffles 5 node node alice bob 114 (49 ∷ []) content cache none
      (omega arith) refl refl refl (omega arith)

-- Bob holds a block of five bytes, which travels in three chunks.
abbrev holder : Coordinator
holder = record node { block_manager = (store hash shuffles 5 manager content cache (some bob)).0 }

load_remote_lem_example :
    ((load_remote hash shuffles 9 node holder alice bob
        (codes "r2")
        none
        (some bob)).0.block_manager
      ≡ (load_ref hash 9 holder.block_manager (ref_of none) (some bob)).0)
    × ((load_remote hash shuffles 9 node holder alice bob (codes "r2") none (some bob)).2
        ≡ ok (load_ref hash 9 holder.block_manager (ref_of none) (some bob)).1)
unfolding init is_pending waited_for get stale
load_remote_lem_example =
    load_remote_lem hash shuffles 9 node holder alice bob 114 (50 ∷ []) none (some bob)
      (omega arith) refl refl

abbrev header : Message
header = record {
  type = store_block;
  body = dictionary (
      field_then (codes "req_id") (text (codes "r1")) (
        field_then (codes "chunked") (boolean true)
          (field_then (codes "total_size") (integer (pos 5)) no_fields)));
}

abbrev first_chunk : Message
first_chunk = record {
  type = block_chunk;
  body = dictionary (
      field_then (codes "req_id") (text (codes "r1"))
        (field_then (codes "chunk") (binary (1 ∷ 2 ∷ [])) no_fields));
}

abbrev events : List Event
events = arrived shuffles 1 alice header ∷ arrived shuffles 2 alice first_chunk ∷ []

total-run_example :
    total held (run hash (init manager 2 2) events).buffers ≤ max_inbound_streams * max_block_size
unfolding is_named is_name field_at
total-run_example = total-run hash manager 2 2 events (refl, (refl, tt))
