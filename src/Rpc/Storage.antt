-- ===== src/Rpc/Storage.antt =====
-- A block through the control plane of memnode/rpc.py, in both of its codecs.
use peer_memory.Prelude.{
  ℕ, ◌+◌, ◌<◌, ◌≡◌, refl, sym, ap, ◌∙◌, inl, inr, Bool, true, false, Option, none, some, [], ◌∷◌,
  ltb, nat_eq, list_eq, Result, ok, raise, length, All, arith, Bool-cases,
}
use peer_memory.Prelude.Text.{Str, Bytes}
use peer_memory.Prelude.{if_both}
use peer_memory.Replication.Requests.{RemoteError}
use peer_memory.Peers.Registry.{best_peer_for_store}
use peer_memory.Prelude.{pos, ◌/◌, ◌%◌, ◌*◌}
use peer_memory.Prelude.Text.{codes}
use peer_memory.Wire.Message.{Value, integer, binary, text, Fields, no_fields, field_then, field_at}
use peer_memory.Blocks.State.{
  BlockError, block_too_large, out_of_memory, value_error, Durability, pinned,
}
use peer_memory.Blocks.Evict.{Shuffles}
use peer_memory.Blocks.Store.{store, load, load_by_key}
use peer_memory.Blocks.Accounts.{Accounts}
use peer_memory.Blocks.Contents.Reads.{load-store}
use peer_memory.Replication.Payload.{from_hex, hex_digit, hex_byte, is_space, text_of, block_ref}
use peer_memory.Rpc.Dispatch.{
  Remote, Node, Response, stored_here, digit, to_hex, hex_result, hex_request, payload_request,
  request_payload, payload_response, requested_durability, found, store_response, overflow,
  overflow_to, overflow_result, allowed, store_with, store_op, load_id, load_op, load_keyed,
  anywhere, dispatch_op, dispatch_named, dispatch,
}

digit_lem : (n : ℕ) → n < 16 → (hex_digit (digit n) ≡ some n) × (is_space (digit n) ≡ false)
unfolding hex_digit digit is_space
digit_lem n small = elim (Bool-cases (ltb n 10)) [
  | inl low ↦ rw low (ground (arith, low), ground (arith, low))
  | inr high ↦ rw high (ground (arith, high, small), ground (arith, high, small))
]

-- The digits of bytes are read back as the bytes.
from_hex-to_hex : (bs : Bytes) → All (λ b. b < 256) bs → from_hex (to_hex bs) ≡ some bs
unfolding from_hex to_hex hex_byte
from_hex-to_hex [] small = refl
from_hex-to_hex (b ∷ bs) small =
    let high = digit_lem (b / 16) (let h : b / 16 < 16 = omega (arith, small.0) in h) in
    let low = digit_lem (b % 16) (omega arith) in
    rw (high.1, high.0, low.0, from_hex-to_hex bs small.1)
      (ap (λ x. some (x ∷ bs)) (let q : 16 * (b / 16) + b % 16 ≡ b = omega arith in q))

-- The payload of a request in one of the codecs.
abbrev with_payload : Bool → Bytes → Fields → Fields
with_payload true bytes rest = field_then (codes "data") (binary bytes) rest
with_payload false bytes rest = field_then (codes "data_hex") (text (to_hex bytes)) rest

-- A client's requests.
abbrev pub store_request : Bool → Bytes → Str → Fields
store_request codec bytes key =
    field_then (codes "op") (text (codes "store"))
      (with_payload codec bytes (field_then (codes "key") (text key) no_fields))

abbrev pub id_request : ℕ → Fields
id_request block_id =
    field_then (codes "op") (text (codes "load"))
      (field_then (codes "block_id") (integer (pos block_id)) no_fields)

abbrev pub key_request : Str → Fields
key_request key =
    field_then (codes "op") (text (codes "load")) (field_then (codes "key") (text key) no_fields)

abbrev id_in : Response → Option ℕ
id_in (stored_here block_id) = some block_id
id_in _ = none

overflow_result-id :
    (hash : Str → ℕ) (shuffles : Shuffles) (now : ℕ) (remote : Remote) (codec : Bool) (peer : Str)
    (r : Result RemoteError Value)
    → id_in (overflow_result hash shuffles now remote codec peer r) ≡ none
unfolding overflow_result
overflow_result-id hash shuffles now remote codec peer (ok block_id) = refl
overflow_result-id hash shuffles now remote codec peer (raise e) = refl

module _ (hash : Str → ℕ) (shuffles : Shuffles) (now : ℕ) (remote : Remote) (codec : Bool) where
  overflow_to-id :
      (peer : Option Str) (bytes : Bytes) (d : Durability) (key : Option Str)
      → id_in (overflow_to hash shuffles now remote codec peer bytes d key) ≡ none
  unfolding overflow_to
  overflow_to-id none bytes d key = refl
  overflow_to-id (some peer) bytes d key =
      overflow_result-id hash shuffles now remote codec peer (remote.store_remote peer bytes d key)

  overflow-id :
      (node : Node) (req : Fields) (bytes : Bytes) (d : Durability) (key : Option Str)
      → id_in (overflow hash shuffles now remote codec node req bytes d key) ≡ none
  unfolding overflow
  overflow-id node req bytes d key =
      if_both (λ r. id_in r ≡ none) (allowed (field_at req (codes "allow_remote")))
        (overflow_to-id (best_peer_for_store node.peers (length bytes)) bytes d key) refl

  -- The block was stored here only if the store gave the id.
  store_response-id :
      (node : Node) (req : Fields) (bytes : Bytes) (d : Durability) (key : Option Str)
      (r : Result BlockError ℕ) (block_id : ℕ)
      → id_in (store_response hash shuffles now remote codec node req bytes d key r) ≡ some block_id
      → r ≡ ok block_id
  unfolding store_response
  store_response-id node req bytes d key (ok a) block_id h =
      ap ok (let q : a ≡ block_id = ground (arith, h) in q)
  store_response-id node req bytes d key (raise block_too_large) block_id h =
      absurd (let f : ⊥ = ground (arith, h) in f)
  store_response-id node req bytes d key (raise value_error) block_id h =
      absurd (let f : ⊥ = ground (arith, h) in f)
  store_response-id node req bytes d key (raise out_of_memory) block_id h =
      absurd (let e = overflow-id node req bytes d key in let f : ⊥ = ground (arith, h, e) in f)

dispatch-store_request :
    (hash : Str → ℕ) (shuffles : Shuffles) (now : ℕ) (remote : Remote) (codec : Bool) (node : Node)
    (bytes : Bytes) (key : Str)
    → All (λ b. b < 256) bytes
    → dispatch hash shuffles now remote codec node (store_request codec bytes key)
      ≡ store_with hash shuffles now remote codec node
          (store_request codec bytes key)
          bytes
          (some pinned)
          (some key)
unfolding dispatch dispatch_named dispatch_op text_of field_at store_op request_payload
    payload_request hex_request hex_result requested_durability
dispatch-store_request hash shuffles now remote true node bytes key small = refl
dispatch-store_request hash shuffles now remote false node bytes key small =
    ap
      (λ o.
        store_op hash shuffles now remote false node (store_request false bytes key) (hex_result o))
      (from_hex-to_hex bytes small)

dispatch-id_request :
    (hash : Str → ℕ) (shuffles : Shuffles) (now : ℕ) (remote : Remote) (codec : Bool) (node : Node)
    (block_id : ℕ)
    → (dispatch hash shuffles now remote codec node (id_request block_id)).1
      ≡ found codec (load now node.blocks block_id).1
unfolding dispatch dispatch_named dispatch_op text_of field_at load_op load_id block_ref
dispatch-id_request hash shuffles now remote codec node block_id = refl

dispatch-key_request :
    (hash : Str → ℕ) (shuffles : Shuffles) (now : ℕ) (remote : Remote) (codec : Bool) (node : Node)
    (key : Str)
    → (dispatch hash shuffles now remote codec node (key_request key)).1
      ≡ found codec (
          anywhere hash shuffles now remote codec true key (load_by_key hash now node.blocks key).1)
unfolding dispatch dispatch_named dispatch_op text_of field_at load_op load_keyed allowed
dispatch-key_request hash shuffles now remote codec node key = refl

-- A block that a client stored and that has its place on this node is given back whole to any client, by its id and by its
-- key, whichever codec each of them speaks, if the accounts of the store are right, the orders of eviction name stripes, and the
-- payload is of bytes.
pub dispatch-stored :
    (hash : Str → ℕ) (shuffles : Shuffles) (now later : ℕ) (remote : Remote) (first second : Bool)
    (node node' : Node) (bytes : Bytes) (key : Str) (block_id : ℕ)
    → Accounts 0 node.blocks
    → All (λ i. i < node.blocks.stripe_count) shuffles.order
    → All (λ b. b < 256) bytes
    → dispatch hash shuffles now remote first node (store_request first bytes key)
      ≡ (node', stored_here block_id)
    → ((dispatch hash shuffles later remote second node' (id_request block_id)).1
        ≡ payload_response second bytes)
      × ((dispatch hash shuffles later remote second node' (key_request key)).1
          ≡ payload_response second bytes)
unfolding store_with found anywhere
dispatch-stored hash shuffles now later remote first second node node' bytes key block_id a inside
      small h =
    let req = store_request first bytes key in
    let r = store hash shuffles now node.blocks bytes pinned (some key) in
    let whole =
      sym (dispatch-store_request hash shuffles now remote first node bytes key small) ∙ h in
    let blocks_are : r.0 ≡ node'.blocks = ap (λ (p : Node × Response). p.0.blocks) whole in
    let id_is : r.1 ≡ ok block_id =
      store_response-id hash shuffles now remote first node req bytes pinned (some key) r.1 block_id
        (ap (λ (p : Node × Response). id_in p.1) whole) in
    let kept =
      load-store hash shuffles now node.blocks bytes pinned (some key) node'.blocks block_id later a
        inside (let q : r ≡ (node'.blocks, ok block_id) = cc (blocks_are, id_is) in q) in
    (
      dispatch-id_request hash shuffles later remote second node' block_id
          ∙ ap (found second) kept.0,
      dispatch-key_request hash shuffles later remote second node' key
          ∙ ap (λ o. found second (anywhere hash shuffles later remote second true key o))
              (kept.1 key refl),
    )
