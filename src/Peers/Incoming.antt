-- ===== src/Peers/Incoming.antt =====
-- memnode/peers.py: handle_incoming(), from the admission of a connection to the entry of its peer.
--
-- The handshake and the consent are awaited: `others` is what other connections do to the guard meanwhile, `meanwhile` what they
-- do to the trust store. The table of peers is the one that the connection finds when it is let in. The peer's frames are none
-- where it lets the time pass or closes. Name and quota are any values, as the peer sent them. `same` is Python's == on
-- names and `disk` is whether the trust store can write its file. The read loop that follows is `start_loop` and `end_loop` of
-- Registry.
pub mod Secured
pub mod Admitted
use peer_memory.Prelude.{ℕ, Bool, Option, none, some, nat_eq, list_eq, Result, ok, raise}
use peer_memory.Prelude.Text.{Str, Bytes}
use peer_memory.RateLimit.{HandshakeGuard, Rejected, acquire, release}
use peer_memory.Wire.Message.{Value, nil_value}
use peer_memory.Rpc.Dispatch.{to_hex}
use peer_memory.Security.Handshake.{Primitives, HandshakeError, Local, Session, perform_handshake}
use peer_memory.Tls.{TlsError, TlsSettings, enforce_pin}
use peer_memory.Peers.Trust.{TrustStore}
use peer_memory.Peers.Consent.{Verdict, let_in, turned_away, failed, check_consent}
use peer_memory.Peers.Registry.{Peers, new_peer, register}

-- The parts of the manager that a connection reads or changes.
pub record Listener : Type 0 where
  pub guard : HandshakeGuard
  pub trust : TrustStore
  pub peers : Peers Value

-- What comes in, with what the rest of the world does.
pub record Arrival : Type 0 where
  pub ip : Str
  pub addr : Str
  pub connection : ℕ
  pub now : ℕ
  pub later : ℕ
  pub cert : Option Bytes
  pub frames : Option (Bytes × Bytes)
  pub others : HandshakeGuard → HandshakeGuard
  pub meanwhile : TrustStore → TrustStore
  pub approved : Bool

-- How it ends: the connection is closed, after an exception of the trust store too, or its peer is registered under the key.
pub data Ending : Type 0 where
  rejected pin_failed handshake_failed denied dropped : Ending
  registered : Str → Ending

-- peer_info["name"], where null is none
unfoldable pub name_of : Option Value → Option Value
name_of none = none
name_of (some nil_value) = none
name_of (some v) = some v

unfoldable pub shaken : Result HandshakeError Session → Result Ending Session
shaken (ok session) = ok session
shaken (raise _) = raise handshake_failed

module _ (prim : Primitives) (sha256_hex : Bytes → Str) (settings : TlsSettings)
    (same : Value → Value → Bool) (disk require_sas : Bool) (self : Local) (arrival : Arrival) where
  unfoldable pub shake : Option (Bytes × Bytes) → Result Ending Session
  shake none = raise handshake_failed
  shake (some (peer_hello, peer_auth)) = shaken (perform_handshake prim self peer_hello peer_auth)

  unfoldable pub after_pin : Result TlsError (Option Str) → Result Ending Session
  after_pin (raise _) = raise pin_failed
  after_pin (ok _) = shake arrival.frames

  -- What runs while the slot is held.
  unfoldable pub secured : Result Ending Session
  secured = after_pin (enforce_pin sha256_hex settings arrival.cert)

  unfoldable pub welcomed : Listener → Session → Str → TrustStore × Verdict → Listener × Ending
  welcomed l session key (st, turned_away) = (record l { trust = st }, denied)
  welcomed l session key (st, failed) = (record l { trust = st }, dropped)
  welcomed l session key (st, let_in) = (
    record l {
      trust = st;
      peers = register l.peers key (
          new_peer st key (name_of session.peer_name) arrival.addr arrival.connection
            session.peer_quota session.sas);
    },
    registered key,
  )

  unfoldable pub introduced : Listener → Result Ending Session → Listener × Ending
  introduced l (raise e) = (l, e)
  introduced l (ok session) =
      let key = to_hex session.peer_key in
      welcomed l session key (
        check_consent same disk require_sas arrival.now arrival.later arrival.meanwhile l.trust key
          (name_of session.peer_name) (some arrival.addr) arrival.approved)

  -- The slot is given back before the peer is introduced, whatever came of the handshake.
  unfoldable pub admitted :
      Listener → HandshakeGuard × Result Rejected (Unit {0}) → Listener × Ending
  admitted l (g, raise _) = (record l { guard = g }, rejected)
  admitted l (g, ok _) =
      introduced (record l { guard = release (arrival.others g) arrival.ip }) secured

  unfoldable pub handle_incoming : Listener → Listener × Ending
  handle_incoming l = admitted l (acquire l.guard arrival.ip arrival.now)
