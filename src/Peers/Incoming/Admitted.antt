-- ===== src/Peers/Incoming/Admitted.antt =====
-- What memnode/peers.py has checked of a peer that it registers.
use peer_memory.Prelude.{
  ℕ, ◌≡◌, refl, sym, ap, ◌∙◌, Bool, true, false, Option, none, some, nat_eq, list_eq, Result, ok,
  raise, arith,
}
use peer_memory.Prelude.Text.{Str, Bytes}
use mathlib.Core.Path.{subst}
use peer_memory.RateLimit.{HandshakeGuard, Rejected, acquire, release}
use peer_memory.Prelude.Dict.{put}
use peer_memory.Wire.Message.{Value}
use peer_memory.Rpc.Dispatch.{to_hex}
use peer_memory.Security.Handshake.{Primitives, HandshakeError, Local, Session, perform_handshake}
use peer_memory.Tls.{TlsError, TlsSettings, enforce_pin}
use peer_memory.Peers.Trust.{TrustStore, is_verified}
use peer_memory.Peers.Consent.{Verdict, let_in, turned_away, failed, check_consent}
use peer_memory.Peers.Registry.{new_peer, register}
use peer_memory.Peers.Consent.{check_consent-verified}
use peer_memory.Peers.Incoming.{
  Listener, Arrival, Ending, rejected, pin_failed, handshake_failed, denied, dropped, name_of,
  registered, shaken, shake, after_pin, secured, welcomed, introduced, admitted, handle_incoming,
}
use peer_memory.Peers.Incoming.Secured.{Secured, after_pin-Secured}

-- Where the consent lets the peer in and it has to be verified, it is.
let_in-verified :
    (same : Value → Value → Bool) (disk require_sas : Bool) (now later : ℕ)
    (meanwhile : TrustStore → TrustStore) (before after : TrustStore) (key : Str)
    (name : Option Value) (addr : Option Str) (approved : Bool)
    → check_consent same disk require_sas now later meanwhile before key name addr approved
      ≡ (after, let_in)
    → require_sas ≡ true
    → is_verified after key ≡ true
let_in-verified same disk false now later meanwhile before after key name addr approved e must =
    absurd (let f : ⊥ = ground (arith, must) in f)
let_in-verified same disk true now later meanwhile before after key name addr approved e must =
    ap (λ (r : TrustStore × Verdict). is_verified r.0 key) (sym e)
    ∙ check_consent-verified same disk now later meanwhile before key name addr approved
        (ap (λ (r : TrustStore × Verdict). r.1) e)

module _ (prim : Primitives) (sha256_hex : Bytes → Str) (settings : TlsSettings)
    (same : Value → Value → Bool) (disk require_sas : Bool) (self : Local) (arrival : Arrival) where
  -- A peer is entered in the table, under the digits of the identity that it proved: after this handshake the consent let it in,
  -- and where it has to be verified, the trust store says that it is.
  pub record Entered (before after : Listener) (key : Str) : Type 0 where
    pub session : Session
    pub secured : Secured prim sha256_hex settings same disk require_sas self arrival session
    pub hex : to_hex session.peer_key ≡ key
    pub consent :
        check_consent same disk require_sas arrival.now arrival.later arrival.meanwhile before.trust
          key
          (name_of session.peer_name)
          (some arrival.addr)
          arrival.approved
        ≡ (after.trust, let_in)
    pub checked : require_sas ≡ true → is_verified after.trust key ≡ true
    pub table :
        after.peers
        ≡ put before.peers key (
            new_peer after.trust key
              (name_of session.peer_name)
              arrival.addr
              arrival.connection
              session.peer_quota
              session.sas)

  -- What holds of an end of handle_incoming(): a peer was entered, or the table of peers is as it was.
  abbrev pub Sound : Listener → Listener × Ending → Type 0
  Sound before (after, registered key) = Entered before after key
  Sound before (after, rejected) = after.peers ≡ before.peers
  Sound before (after, pin_failed) = after.peers ≡ before.peers
  Sound before (after, handshake_failed) = after.peers ≡ before.peers
  Sound before (after, denied) = after.peers ≡ before.peers
  Sound before (after, dropped) = after.peers ≡ before.peers

  welcomed-Sound :
      (l : Listener) (session : Session) (r : TrustStore × Verdict)
      → Secured prim sha256_hex settings same disk require_sas self arrival session
      → check_consent same disk require_sas arrival.now arrival.later arrival.meanwhile l.trust
          (to_hex session.peer_key)
          (name_of session.peer_name)
          (some arrival.addr)
          arrival.approved
        ≡ r
      → Sound l (
          welcomed prim sha256_hex settings same disk require_sas self arrival l session
            (to_hex session.peer_key)
            r)
  unfolding welcomed register
  welcomed-Sound l session (st, turned_away) s e = refl
  welcomed-Sound l session (st, failed) s e = refl
  welcomed-Sound l session (st, let_in) s e = record {
    session = session;
    secured = s;
    hex = refl;
    consent = e;
    checked =
        let_in-verified same disk require_sas arrival.now arrival.later arrival.meanwhile l.trust st
          (to_hex session.peer_key) (name_of session.peer_name) (some arrival.addr) arrival.approved
          e;
    table = refl;
  }

  -- Whatever the pins and the frames came to, and whatever is known of the peer.
  introduced-Sound :
      (l : Listener) (r : Result Ending Session)
      → ((session : Session)
          → r ≡ ok session
          → Secured prim sha256_hex settings same disk require_sas self arrival session)
      → ((e : Ending) → r ≡ raise e → Sound l (l, e))
      → Sound l (introduced prim sha256_hex settings same disk require_sas self arrival l r)
  unfolding introduced
  introduced-Sound l (raise e) s t = t e refl
  introduced-Sound l (ok session) s t =
      welcomed-Sound l session
        (check_consent same disk require_sas arrival.now arrival.later arrival.meanwhile l.trust
          (to_hex session.peer_key) (name_of session.peer_name) (some arrival.addr)
          arrival.approved)
        (s session refl) refl

  shaken-raise :
      (r : Result HandshakeError Session) (e : Ending) → shaken r ≡ raise e → handshake_failed ≡ e
  unfolding shaken
  shaken-raise (ok session) e h = absurd (let f : ⊥ = ground (arith, h) in f)
  shaken-raise (raise x) e h = ground (arith, h)

  shake-raise :
      (frames : Option (Bytes × Bytes)) (e : Ending)
      → shake prim sha256_hex settings same disk require_sas self arrival frames ≡ raise e
      → handshake_failed ≡ e
  unfolding shake
  shake-raise none e h = ground (arith, h)
  shake-raise (some (hello, auth)) e h = shaken-raise (perform_handshake prim self hello auth) e h

  after_pin-raise :
      (l : Listener) (r : Result TlsError (Option Str)) (e : Ending)
      → after_pin prim sha256_hex settings same disk require_sas self arrival r ≡ raise e
      → Sound l (l, e)
  unfolding after_pin
  after_pin-raise l (raise x) e h =
      subst (λ q. Sound l (l, q)) (let q : pin_failed ≡ e = ground (arith, h) in q) refl
  after_pin-raise l (ok seen) e h =
      subst (λ q. Sound l (l, q)) (shake-raise arrival.frames e h) refl

  secured-Sound :
      (l : Listener)
      → Sound l (
          introduced prim sha256_hex settings same disk require_sas self arrival l
            (secured prim sha256_hex settings same disk require_sas self arrival))
  unfolding secured
  secured-Sound l =
      let r = enforce_pin sha256_hex settings arrival.cert in
      introduced-Sound l (after_pin prim sha256_hex settings same disk require_sas self arrival r)
        (λ session h.
          after_pin-Secured prim sha256_hex settings same disk require_sas self arrival r session
            refl h)
        (λ e h. after_pin-raise l r e h)

  -- The guard is no part of what is stated.
  with_guard :
      (l : Listener) (g : HandshakeGuard) (r : Listener × Ending)
      → Sound (record l { guard = g }) r
      → Sound l r
  with_guard l g (after, registered key) h = record {
    session = h.session;
    secured = h.secured;
    hex = h.hex;
    consent = h.consent;
    checked = h.checked;
    table = h.table;
  }
  with_guard l g (after, rejected) h = h
  with_guard l g (after, pin_failed) h = h
  with_guard l g (after, handshake_failed) h = h
  with_guard l g (after, denied) h = h
  with_guard l g (after, dropped) h = h

  admitted-Sound :
      (l : Listener) (r : HandshakeGuard × Result Rejected (Unit {0}))
      → Sound l (admitted prim sha256_hex settings same disk require_sas self arrival l r)
  unfolding admitted
  admitted-Sound l (g, raise e) = refl
  admitted-Sound l (g, ok _) =
      let after = release (arrival.others g) arrival.ip in
      with_guard l after
        (introduced prim sha256_hex settings same disk require_sas self arrival
          (record l { guard = after })
          (secured prim sha256_hex settings same disk require_sas self arrival))
        (secured-Sound (record l { guard = after }))

-- A connection that comes in changes the table of peers only where it ends with its peer registered, and then by one entry, under
-- the digits of the identity that it proved: the pins let the peer through, its two frames completed a handshake, the
-- consent let it in and, with `require_sas_verification`, the trust store then holds the peer as verified. The entry has
-- the connection, the name and the quota of this handshake.
pub handle_incoming-Sound :
    (prim : Primitives) (sha256_hex : Bytes → Str) (settings : TlsSettings)
    (same : Value → Value → Bool) (disk require_sas : Bool) (self : Local) (arrival : Arrival)
    (l : Listener)
    → Sound prim sha256_hex settings same disk require_sas self arrival l
        (handle_incoming prim sha256_hex settings same disk require_sas self arrival l)
unfolding handle_incoming
handle_incoming-Sound prim sha256_hex settings same disk require_sas self arrival l =
    admitted-Sound prim sha256_hex settings same disk require_sas self arrival l
      (acquire l.guard arrival.ip arrival.now)
