-- ===== src/Tests/Clients.antt =====
-- Clients of memnode/rpc.py's control plane: their authentication, their requests, and a block that one of them stores.
use peer_memory.Prelude.{
  ℕ, ◌+◌, ◌≡◌, refl, ◌⊎◌, Bool, true, false, none, some, [], ◌∷◌, nat_eq, list_eq, ok, raise,
  length, arith,
}
use peer_memory.Prelude.Dict.{get, put}
use peer_memory.Prelude.Text.{Str, Bytes}
use peer_memory.Prelude.Text.{codes}
use peer_memory.Wire.Message.{text, dictionary, Fields, no_fields, field_then, field_at}
use peer_memory.Blocks.State.{
  pinned, init, block, key_entry, bind_key, stripe_at, set_stripe, stripe_of, reserve,
}
use peer_memory.Blocks.Evict.{Shuffles}
use peer_memory.Blocks.Store.{add_block, make_room, rebind, store}
use peer_memory.Blocks.Quota.{fresh, fresh-Accounts}
use peer_memory.Peers.Trust.{missing}
use peer_memory.Replication.Payload.{text_of}
use peer_memory.Replication.Requests.{remote_operation_failed}
use peer_memory.Rpc.Auth.{is_loopback, is_local, strip_brackets, strip_left, reversed, is_bracket}
use peer_memory.Rpc.Client.{Decoder, serve_requests, handle_client}
use peer_memory.Rpc.Gate.{Untouched, Proves, handle_client-gate}
use peer_memory.Rpc.Turns.{serve_requests_lem}
use peer_memory.Rpc.Dispatch.{
  Remote, Node, payload_response, dispatch, dispatch_named, dispatch_op, store_op, store_with,
  store_response, request_payload, payload_request, requested_durability,
}
use peer_memory.Rpc.Storage.{id_request, key_request, dispatch-stored}

-- A name that only looks like an address of this machine.
lookalike : is_loopback (codes "127.example.com") ≡ true
unfolding is_loopback is_local strip_brackets strip_left reversed is_bracket
lookalike = refl

-- A frame is the answer to the challenge, whatever is in it.
abbrev json : Decoder
json raw = ok (dictionary (field_then (codes "response") (text (codes "secret")) no_fields))

abbrev hmac : Str → Str → Str
hmac token challenge = codes "secret"

abbrev count : Bool → ℕ → Fields → ℕ × ℕ
count codec n req = (n + 1, n)

-- A frame of one byte, the prefix of the next one, and its two bytes.
abbrev client : Bytes
client = 0 ∷ 0 ∷ 0 ∷ 1 ∷ 9 ∷ 0 ∷ 0 ∷ 0 ∷ 2 ∷ 7 ∷ 7 ∷ []

handle_client-gate_example :
    Untouched 0 (handle_client count json json hmac (codes "t") (codes "c") true 0 client)
    ⊎ Proves hmac (codes "t") (codes "c") json client
handle_client-gate_example =
    handle_client-gate count json json hmac (codes "t") (codes "c") 0 client

serve_requests_lem_example :
    serve_requests count json json (11 + 5 + 100) true 0 client none
    ≡ serve_requests count json json (11 + 5) true 0 client none
serve_requests_lem_example = serve_requests_lem count json json 100 true 0 client none

abbrev hash : Str → ℕ
hash s = length s

abbrev in_order : Shuffles
in_order = record { order = 0 ∷ 1 ∷ []; candidates = λ _ ids. ids }

abbrev alone : Remote
alone = record {
  store_remote = λ peer bytes durability key. raise remote_operation_failed;
  load_remote = λ peer block_id key. raise remote_operation_failed;
  load_anywhere = λ key. none;
  free_remote = λ peer block_id. raise remote_operation_failed;
}

abbrev before : Node
before = record {
  blocks = fresh 5 2;
  peers = [];
  trust = record { peers = []; file = missing };
  disk = true;
}

abbrev after : Node
after = record before {
  blocks = (store hash in_order 10 (fresh 5 2) (1 ∷ 2 ∷ []) pinned (some (codes "a"))).0;
}

-- Stored in binary, read as hexadecimal digits.
dispatch-stored_example :
    ((dispatch hash in_order 50 alone false after (id_request 1)).1
      ≡ payload_response false (1 ∷ 2 ∷ []))
    × ((dispatch hash in_order 50 alone false after (key_request (codes "a"))).1
        ≡ payload_response false (1 ∷ 2 ∷ []))
unfolding dispatch dispatch_named dispatch_op store_op store_with store_response request_payload
    payload_request requested_durability text_of field_at init block key_entry bind_key stripe_at
    set_stripe stripe_of reserve add_block make_room rebind store get put
dispatch-stored_example =
    dispatch-stored hash in_order 10 50 alone true false before after (1 ∷ 2 ∷ []) (codes "a") 1
      (fresh-Accounts 5 2 (omega arith)) (omega arith) (omega arith) refl
