-- ===== src/Peers/Registry.antt =====
-- memnode/peers.py: the dict of connected peers.
--
-- A connection is a number, as Python tells objects apart; it stands for the channel with its multiplexer.
pub mod Placement
use peer_memory.Prelude.{
  ℕ, Bool, true, ◌||◌, Option, none, some, List, [], ◌∷◌, ltb, leb, if◌then◌else◌, nat_eq, list_eq,
  ◌==◌,
}
use peer_memory.Prelude.Dict.{Dict, get, put, remove}
use peer_memory.Prelude.Text.{Str, starts_with}
use peer_memory.Prelude.{take}
use peer_memory.Wire.Message.{Value}
use peer_memory.Peers.Trust.{TrustStore, is_verified}

-- class PeerInfo, for any type of quota: a peer sends any value, and best_peer_for_store() compares numbers
pub record PeerInfo (Q : Type 0) : Type 0 where
  pub name : Option Value
  pub addr : Str
  pub connection : ℕ
  pub remote_quota : Q
  pub sas : Str
  pub verified : Bool

abbrev pub Peers : Type 0 → Type 0
Peers Q = Dict Str (PeerInfo Q)

module _ {Q : Type 0} where
  -- The entry that _register() makes: the trust store says whether the peer is verified.
  unfoldable pub new_peer : TrustStore → Str → Option Value → Str → ℕ → Q → Str → PeerInfo Q
  new_peer st key name addr connection remote_quota sas = record {
    name = name;
    addr = addr;
    connection = connection;
    remote_quota = remote_quota;
    sas = sas;
    verified = is_verified st key;
  }

  -- self.peers[pubkey_hex] = info, at the end of _register()
  unfoldable pub register : Peers Q → Str → PeerInfo Q → Peers Q
  register peers key info = put peers key info

  -- The connection that send_to() uses.
  unfoldable pub connection_of : Peers Q → Str → Option ℕ
  connection_of peers key = elim (get peers key) as (λ _. Option ℕ) [
    | none ↦ none
    | some info ↦ some info.connection
  ]

-- A read loop that runs, with the connection of the entry that it found when it started, and the connections whose multiplexer
-- was closed by a loop.
pub record ReadLoop : Type 0 where
  pub key : Str
  pub connection : ℕ

pub record Loops (Q : Type 0) : Type 0 where
  pub peers : Peers Q
  pub closed : List ℕ

module _ {Q : Type 0} where
  -- _read_loop() up to `await info.mux.run()`, if there is an entry
  unfoldable pub start_loop : Loops Q → Str → Option ReadLoop
  start_loop l key = elim (connection_of l.peers key) as (λ _. Option ReadLoop) [
    | none ↦ none
    | some connection ↦ some (record { key = key; connection = connection })
  ]

  -- Its `finally`: the loop closes its own multiplexer, and the entry of the key goes, whichever connection it has by then.
  unfoldable pub end_loop : Loops Q → ReadLoop → Loops Q
  end_loop l loop = record { peers = remove l.peers loop.key; closed = loop.connection ∷ l.closed }

module _ {Q : Type 0} where
  -- verify_peer(): the mark on the entry of a connected peer
  unfoldable pub mark_peer : Peers Q → Str → Bool → Peers Q
  mark_peer peers key done =
      if done
      then (elim (get peers key) as (λ _. Peers Q) [
        | none ↦ peers
        | some info ↦ put peers key (record info { verified = true })
      ])
      else peers

-- [(pid, p.remote_quota) for ... if p.remote_quota >= size]
unfoldable pub candidates : ℕ → Peers ℕ → List (Str × ℕ)
candidates size [] = []
candidates size ((key, info) ∷ peers) =
    let rest = candidates size peers in
    if leb size info.remote_quota then (key, info.remote_quota) ∷ rest else rest

-- max(candidates, key=lambda c: c[1]): the first of the largest
unfoldable pub largest : Str × ℕ → List (Str × ℕ) → Str × ℕ
largest best [] = best
largest best (c ∷ cs) = if ltb best.1 c.1 then largest c cs else largest best cs

unfoldable pub first_of : List (Str × ℕ) → Option Str
first_of [] = none
first_of (c ∷ cs) = some (largest c cs).0

unfoldable pub best_peer_for_store : Peers ℕ → ℕ → Option Str
best_peer_for_store peers size = first_of (candidates size peers)

module _ {Q : Type 0} where
  -- _resolve_peer() of memnode/rpc.py: the first key with the prefix
  unfoldable pub resolve_peer : Peers Q → Str → Option Str
  resolve_peer [] prefix = none
  resolve_peer ((key, info) ∷ peers) prefix =
      let rest = resolve_peer peers prefix in
      if key == prefix || starts_with key prefix then some key else rest

  -- list_peers(): pubkey[:8] and the rest of the entry
  unfoldable pub list_peers : Peers Q → List (Str × PeerInfo Q)
  list_peers [] = []
  list_peers ((key, info) ∷ peers) = (take 8 key, info) ∷ list_peers peers
