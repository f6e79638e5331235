-- ===== src/Rpc/Dispatch.antt =====
-- memnode/rpc.py: request_payload(), _payload_response() and _dispatch().
--
-- An error response has its cause and not its wording. An exception that _handle_client turns into an error response is one
-- here. Requests to peers are parameters, the results of replication. A key is text. The operations connect, trusted,
-- verify_peer and pair are left out.
use peer_memory.Prelude.{
  ℕ, ◌+◌, Bool, true, false, Option, none, some, List, [], ◌∷◌, ltb, if◌then◌else◌, nat_eq, list_eq,
  ◌==◌, Result, ok, raise, length,
}
use peer_memory.Prelude.Text.{Str, Bytes}
use peer_memory.Prelude.{take, ◌/◌, ◌%◌}
use peer_memory.Prelude.Text.{codes}
use peer_memory.Wire.Message.{Value, binary, text, Fields, no_fields, field_then, field_at}
use peer_memory.Blocks.State.{
  BlockManager, BlockError, block_too_large, out_of_memory, value_error, Durability, pinned, cache,
}
use peer_memory.Blocks.Evict.{Shuffles}
use peer_memory.Blocks.Store.{Stats, stats, store, load, load_by_key, free}
use peer_memory.Replication.Payload.{
  from_hex, truth, text_of, durability_of, BlockRef, absent, unknown, id_of, block_ref,
}
use peer_memory.Replication.Requests.{RemoteError}
use peer_memory.Peers.Trust.{TrustStore, Outcome, untouched, saved, raised, revoke}
use peer_memory.Peers.Registry.{PeerInfo, Peers, best_peer_for_store, resolve_peer, list_peers}

-- The methods of the replication coordinator that requests use.
pub record Remote : Type 0 where
  pub store_remote : Str → Bytes → Durability → Option Str → Result RemoteError Value
  pub load_remote : Str → Option Value → Option Str → Result RemoteError (Option Bytes)
  pub load_anywhere : Str → Option Bytes
  pub free_remote : Str → Value → Result RemoteError Bool

-- The parts of the daemon that a request reads or changes, and whether the trust store can write its file. The quotas of the
-- connected peers are natural numbers here.
pub record Node : Type 0 where
  pub blocks : BlockManager
  pub peers : Peers ℕ
  pub trust : TrustStore
  pub disk : Bool

pub data Failure : Type 0 where
  no_payload bad_hex bad_durability too_large no_memory no_memory_anywhere not_found missing_field
        no_peer remote_failed unknown_op not_saved :
      Failure

pub data Response : Type 0 where
  failed : Failure → Response
  done : Bool → Response
  stored_here : ℕ → Response
  stored_at : Str → Value → Response
  placed_at : Str → Value → Response
  content : Fields → Response
  stats_are : Stats → Response
  peers_are : List (Str × PeerInfo ℕ) → Response

-- bytes.hex()
unfoldable pub digit : ℕ → ℕ
digit n = if ltb n 10 then 48 + n else 87 + n

unfoldable pub to_hex : Bytes → Str
to_hex [] = []
to_hex (b ∷ bs) = digit (b / 16) ∷ digit (b % 16) ∷ to_hex bs

unfoldable pub hex_result : Option Bytes → Result Failure Bytes
hex_result none = raise bad_hex
hex_result (some bytes) = ok bytes

unfoldable pub hex_request : Option Value → Result Failure Bytes
hex_request (some (text digits)) = hex_result (from_hex digits)
hex_request _ = raise no_payload

unfoldable pub payload_request : Option Value → Option Value → Result Failure Bytes
payload_request (some (binary bytes)) hex_value = ok bytes
payload_request _ hex_value = hex_request hex_value

-- request_payload(), with the answer to a request that has no payload
unfoldable pub request_payload : Fields → Result Failure Bytes
request_payload req =
    payload_request (field_at req (codes "data")) (field_at req (codes "data_hex"))

-- _payload_response(): true for msgpack, false for JSON
unfoldable pub payload_response : Bool → Bytes → Response
payload_response binary_codec bytes = content (
    if binary_codec
    then field_then (codes "data") (binary bytes) no_fields
    else field_then (codes "data_hex") (text (to_hex bytes)) no_fields)

-- Durability(req.get("durability", default))
unfoldable pub requested_durability : Durability → Option Value → Option Durability
requested_durability default none = some default
requested_durability default (some v) = durability_of (some v)

-- req.get("allow_remote", True)
unfoldable pub allowed : Option Value → Bool
allowed none = true
allowed (some v) = truth (some v)

unfoldable pub found : Bool → Option Bytes → Response
found binary_codec none = failed not_found
found binary_codec (some bytes) = payload_response binary_codec bytes

module _ (hash : Str → ℕ) (shuffles : Shuffles) (now : ℕ) (remote : Remote)
    (binary_codec : Bool) where
  unfoldable pub overflow_result : Str → Result RemoteError Value → Response
  overflow_result peer (ok block_id) = stored_at (take 8 peer) block_id
  overflow_result peer (raise _) = failed no_memory_anywhere

  -- The block goes to the peer with the most room, if there is one.
  unfoldable pub overflow_to : Option Str → Bytes → Durability → Option Str → Response
  overflow_to none bytes durability key = failed no_memory
  overflow_to (some peer) bytes durability key =
      overflow_result peer (remote.store_remote peer bytes durability key)

  unfoldable pub overflow : Node → Fields → Bytes → Durability → Option Str → Response
  overflow node req bytes durability key =
      if allowed (field_at req (codes "allow_remote"))
      then overflow_to (best_peer_for_store node.peers (length bytes)) bytes durability key
      else failed no_memory

  unfoldable pub store_response :
      Node → Fields → Bytes → Durability → Option Str → Result BlockError ℕ → Response
  store_response node req bytes durability key (ok block_id) = stored_here block_id
  store_response node req bytes durability key (raise block_too_large) = failed too_large
  store_response node req bytes durability key (raise out_of_memory) =
      overflow node req bytes durability key
  store_response node req bytes durability key (raise value_error) = failed bad_durability

  unfoldable pub store_with :
      Node → Fields → Bytes → Option Durability → Option Str → Node × Response
  store_with node req bytes none key = (node, failed bad_durability)
  store_with node req bytes (some durability) key =
      let (b, r) = store hash shuffles now node.blocks bytes durability key in
      (record node { blocks = b }, store_response node req bytes durability key r)

  unfoldable pub store_op : Node → Fields → Result Failure Bytes → Node × Response
  store_op node req (raise e) = (node, failed e)
  store_op node req (ok bytes) =
      store_with node req bytes (requested_durability pinned (field_at req (codes "durability")))
        (text_of (field_at req (codes "key")))

  unfoldable pub anywhere : Bool → Str → Option Bytes → Option Bytes
  anywhere allowed key (some bytes) = some bytes
  anywhere allowed key none = if allowed then remote.load_anywhere key else none

  unfoldable pub load_keyed : Node → Bool → Option Str → Node × Response
  load_keyed node allowed none = (node, failed missing_field)
  load_keyed node allowed (some key) =
      let (b, local) = load_by_key hash now node.blocks key in
      (record node { blocks = b }, found binary_codec (anywhere allowed key local))

  unfoldable pub load_id : Node → BlockRef → Node × Response
  load_id node (id_of block_id) =
      (let (b, local) = load now node.blocks block_id in
        (record node { blocks = b }, found binary_codec local))
  load_id node absent = (node, failed not_found)
  load_id node unknown = (node, failed not_found)

  unfoldable pub load_op : Node → Fields → Option Value → Node × Response
  load_op node req none =
      load_keyed node (allowed (field_at req (codes "allow_remote")))
        (text_of (field_at req (codes "key")))
  load_op node req (some v) = load_id node (block_ref (some v))

  -- An id that is no natural number names no block, or raises; both are an answer that is not ok.
  unfoldable pub free_op : Node → Option Value → Node × Response
  free_op node none = (node, failed missing_field)
  free_op node (some v) = elim (block_ref (some v)) as (λ _. Node × Response) [
    | id_of block_id ↦
        (let (b, freed) = free hash node.blocks block_id true in
          (record node { blocks = b }, done freed))
    | absent ↦ (node, failed missing_field)
    | unknown ↦ (node, done false)
  ]

  -- self._resolve_peer(req["peer"])
  unfoldable pub named_peer : Node → Fields → Result Failure Str
  named_peer node req = elim (text_of (field_at req (codes "peer"))) as (λ _. Result Failure Str) [
    | none ↦ raise missing_field
    | some prefix ↦ elim (resolve_peer node.peers prefix) as (λ _. Result Failure Str) [
      | none ↦ raise no_peer
      | some key ↦ ok key
    ]
  ]

  unfoldable pub placed : Str → Result RemoteError Value → Response
  placed peer (ok block_id) = placed_at (take 8 peer) block_id
  placed peer (raise _) = failed remote_failed

  unfoldable pub remote_store_op :
      Node → Fields → Result Failure Bytes → Option Durability → Result Failure Str → Response
  remote_store_op node req (raise e) durability peer = failed e
  remote_store_op node req (ok bytes) none peer = failed bad_durability
  remote_store_op node req (ok bytes) (some durability) (raise e) = failed e
  remote_store_op node req (ok bytes) (some durability) (ok peer) =
      placed peer (remote.store_remote peer bytes durability (text_of (field_at req (codes "key"))))

  unfoldable pub remote_found : Result RemoteError (Option Bytes) → Response
  remote_found (raise _) = failed remote_failed
  remote_found (ok bytes) = found binary_codec bytes

  unfoldable pub remote_load_op : Fields → Result Failure Str → Response
  remote_load_op req (raise e) = failed e
  remote_load_op req (ok peer) = remote_found (
      remote.load_remote peer (field_at req (codes "block_id"))
        (text_of (field_at req (codes "key"))))

  unfoldable pub remote_freed : Result RemoteError Bool → Response
  remote_freed (ok freed) = done freed
  remote_freed (raise _) = failed remote_failed

  unfoldable pub remote_free_op : Option Value → Result Failure Str → Response
  remote_free_op block_id (raise e) = failed e
  remote_free_op none (ok peer) = failed missing_field
  remote_free_op (some block_id) (ok peer) = remote_freed (remote.free_remote peer block_id)

  -- What revoke() returned, or that it raised.
  unfoldable pub revoke_response : Outcome → Response
  revoke_response untouched = done false
  revoke_response saved = done true
  revoke_response raised = failed not_saved

  unfoldable pub revoke_key : Node → Result Failure Str → Node × Response
  revoke_key node (raise e) = (node, failed e)
  revoke_key node (ok key) =
      (let (trust, outcome) = revoke node.disk node.trust key in
        (record node { trust = trust }, revoke_response outcome))

  -- `pubkey`, or the peer of a prefix where that is absent or empty
  unfoldable pub revoked_key : Node → Fields → Option Str → Result Failure Str
  revoked_key node req none = named_peer node req
  revoked_key node req (some []) = named_peer node req
  revoked_key node req (some (c ∷ cs)) = ok (c ∷ cs)

  unfoldable pub dispatch_op : Node → Fields → Str → Node × Response
  dispatch_op node req op =
      if op == codes "store"
      then store_op node req (request_payload req)
      else if op == codes "load"
      then load_op node req (field_at req (codes "block_id"))
      else if op == codes "free"
      then free_op node (field_at req (codes "block_id"))
      else if op == codes "stats"
      then (node, stats_are (stats node.blocks))
      else if op == codes "peers"
      then (node, peers_are (list_peers node.peers))
      else if op == codes "remote_store"
      then (
        node,
        remote_store_op node req (request_payload req)
            (requested_durability cache (field_at req (codes "durability"))) (named_peer node req),
      )
      else if op == codes "remote_load"
      then (node, remote_load_op req (named_peer node req))
      else if op == codes "remote_free"
      then (node, remote_free_op (field_at req (codes "block_id")) (named_peer node req))
      else if op == codes "revoke_peer"
      then revoke_key node (revoked_key node req (text_of (field_at req (codes "pubkey"))))
      else (node, failed unknown_op)

  unfoldable pub dispatch_named : Node → Fields → Option Str → Node × Response
  dispatch_named node req none = (node, failed unknown_op)
  dispatch_named node req (some op) = dispatch_op node req op

  -- _dispatch()
  unfoldable pub dispatch : Node → Fields → Node × Response
  dispatch node req = dispatch_named node req (text_of (field_at req (codes "op")))
