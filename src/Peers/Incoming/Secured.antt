-- ===== src/Peers/Incoming/Secured.antt =====
-- What memnode/peers.py has checked of a peer while the slot is held.
use peer_memory.Prelude.{
  ◌≡◌, refl, ap, Bool, Option, none, some, nat_eq, list_eq, Result, ok, raise, arith,
}
use peer_memory.Prelude.Text.{Str, Bytes}
use peer_memory.Wire.Message.{Value}
use peer_memory.Security.Handshake.{Primitives, HandshakeError, Local, Session, perform_handshake}
use peer_memory.Security.Handshake.Authentic.{Proven, perform_handshake-Proven}
use peer_memory.Tls.{TlsError, TlsSettings, enforce_pin}
use peer_memory.Tls.Pins.{Passes}
use peer_memory.Peers.Incoming.{Arrival, shaken, shake, after_pin}

module _ (prim : Primitives) (sha256_hex : Bytes → Str) (settings : TlsSettings)
    (same : Value → Value → Bool) (disk require_sas : Bool) (self : Local) (arrival : Arrival) where
  -- The pins let the peer through, and its frames completed a handshake, which proves the identity behind the key.
  pub record Secured (session : Session) : Type 0 where
    pub passes : Passes sha256_hex (enforce_pin sha256_hex settings arrival.cert)
    pub hello : Bytes
    pub auth : Bytes
    pub sent : arrival.frames ≡ some (hello, auth)
    pub shook : perform_handshake prim self hello auth ≡ ok session
    pub proven : Proven prim self hello auth session.peer_key

  shaken-ok :
      (r : Result HandshakeError Session) (session : Session)
      → shaken r ≡ ok session
      → r ≡ ok session
  unfolding shaken
  shaken-ok (ok s) session h = ap ok (let q : s ≡ session = ground (arith, h) in q)
  shaken-ok (raise e) session h = absurd (let f : ⊥ = ground (arith, h) in f)

  shake-Secured :
      (frames : Option (Bytes × Bytes)) (session : Session)
      → arrival.frames ≡ frames
      → Passes sha256_hex (enforce_pin sha256_hex settings arrival.cert)
      → shake prim sha256_hex settings same disk require_sas self arrival frames ≡ ok session
      → Secured session
  unfolding shake
  shake-Secured none session e passes h = absurd (let f : ⊥ = ground (arith, h) in f)
  shake-Secured (some (hello, auth)) session e passes h =
      let shook = shaken-ok (perform_handshake prim self hello auth) session h in
      record {
        passes = passes;
        hello = hello;
        auth = auth;
        sent = e;
        shook = shook;
        proven = perform_handshake-Proven prim self hello auth session shook;
      }

  pub after_pin-Secured :
      (r : Result TlsError (Option Str)) (session : Session)
      → enforce_pin sha256_hex settings arrival.cert ≡ r
      → after_pin prim sha256_hex settings same disk require_sas self arrival r ≡ ok session
      → Secured session
  unfolding after_pin
  after_pin-Secured (raise e) session was h = absurd (let f : ⊥ = ground (arith, h) in f)
  after_pin-Secured (ok seen) session was h =
      shake-Secured arrival.frames session refl (seen, was) h
