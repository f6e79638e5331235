-- ===== src/Security/Handshake/Authentic.antt =====
-- What memnode/security.py's handshake has checked of the peer when it succeeds.
use peer_memory.Prelude.{
  ℕ, ◌≡◌, refl, sym, ap, ◌∙◌, inl, inr, true, false, Option, none, some, nat_eq, list_eq, ◌==◌,
  ◌++◌, if◌then◌else◌, ==_iff, Result, ok, raise, length, arith, Bool-cases,
}
use peer_memory.Prelude.Text.{Bytes}
use mathlib.Core.Path.{subst}
use peer_memory.Prelude.{Returns, bind-Returns}
use peer_memory.Prelude.Text.{codes}
use peer_memory.Config.{sas_digits}
use peer_memory.Wire.Message.{
  Value, nil_value, boolean, integer, double, binary, text, array, dictionary, Fields, field_at,
}
use peer_memory.Security.Handshake.{
  Primitives, HandshakeError, malformed_nonce, reflected_nonce, malformed_eph, reflected_eph,
  malformed_identity, own_identity, exchange_failed, Local, Greeting, Session, fields_of, required,
  refuse_own, signature_of, bytes_of, check_version, short_authentication_string, transcript_of,
  my_hello, greet, verified, open_channel, identify, establish, authenticate, perform_handshake,
}

required-ok :
    (e : HandshakeError) (o : Option Bytes) (bs : Bytes) → required e o ≡ ok bs → o ≡ some bs
unfolding required
required-ok e none bs h = absurd (let f : ⊥ = ground (arith, h) in f)
required-ok e (some b) bs h = ap some (let q : b ≡ bs = ground (arith, h) in q)

refuse_own-ok :
    (e : HandshakeError) (own bs b : Bytes)
    → refuse_own e own bs ≡ ok b
    → (bs ≡ b) × ((b == own) ≡ false)
unfolding refuse_own
refuse_own-ok e own bs b h = elim (Bool-cases (bs == own)) [
  | inl same ↦ absurd (let f : ⊥ = ground (arith, h, same) in f)
  | inr other ↦ let q : bs ≡ b = ground (arith, h, other) in (q, ap (λ x. x == own) (sym q) ∙ other)
]

bytes_of-length :
    (n : ℕ) (v : Option Value) (bs : Bytes)
    → bytes_of n v ≡ some bs
    → (v ≡ some (binary bs)) × (length bs ≡ n)
unfolding bytes_of
bytes_of-length n (some (binary b)) bs h = elim (Bool-cases (length b == n)) [
  | inl fits ↦
      let q : b ≡ bs = ground (arith, h, fits) in
      (ap (λ x. some (binary x)) q, ap length (sym q) ∙ (==_iff (length b) n).0 fits)
  | inr other ↦ absurd (let f : ⊥ = ground (arith, h, other) in f)
]
bytes_of-length n none bs h = absurd (let f : ⊥ = ground (arith, h) in f)
bytes_of-length n (some nil_value) bs h = absurd (let f : ⊥ = ground (arith, h) in f)
bytes_of-length n (some (boolean _)) bs h = absurd (let f : ⊥ = ground (arith, h) in f)
bytes_of-length n (some (integer _)) bs h = absurd (let f : ⊥ = ground (arith, h) in f)
bytes_of-length n (some (double _)) bs h = absurd (let f : ⊥ = ground (arith, h) in f)
bytes_of-length n (some (text _)) bs h = absurd (let f : ⊥ = ground (arith, h) in f)
bytes_of-length n (some (array _)) bs h = absurd (let f : ⊥ = ground (arith, h) in f)
bytes_of-length n (some (dictionary _)) bs h = absurd (let f : ⊥ = ground (arith, h) in f)

signature_of-ok : (v : Option Value) (sig : Bytes) → signature_of v ≡ ok sig → v ≡ some (binary sig)
unfolding signature_of
signature_of-ok none sig h = absurd (let f : ⊥ = ground (arith, h) in f)
signature_of-ok (some (binary b)) sig h =
    ap (λ x. some (binary x)) (let q : b ≡ sig = ground (arith, h) in q)
signature_of-ok (some nil_value) sig h = absurd (let f : ⊥ = ground (arith, h) in f)
signature_of-ok (some (boolean _)) sig h = absurd (let f : ⊥ = ground (arith, h) in f)
signature_of-ok (some (integer _)) sig h = absurd (let f : ⊥ = ground (arith, h) in f)
signature_of-ok (some (double _)) sig h = absurd (let f : ⊥ = ground (arith, h) in f)
signature_of-ok (some (text _)) sig h = absurd (let f : ⊥ = ground (arith, h) in f)
signature_of-ok (some (array _)) sig h = absurd (let f : ⊥ = ground (arith, h) in f)
signature_of-ok (some (dictionary _)) sig h = absurd (let f : ⊥ = ground (arith, h) in f)

module _ (prim : Primitives) where
  verified-ok :
      (key transcript_hash sig k : Bytes)
      → verified prim key transcript_hash sig ≡ ok k
      → (key ≡ k) × (prim.verify key sig transcript_hash ≡ true)
  unfolding verified
  verified-ok key transcript_hash sig k h =
      elim (Bool-cases (prim.verify key sig transcript_hash)) [
        | inl good ↦ (let q : key ≡ k = ground (arith, h, good) in (q, good))
        | inr bad ↦ absurd (let f : ⊥ = ground (arith, h, bad) in f)
      ]

  -- The greeting is of the transcript with the peer's frame.
  abbrev Greeted : Local → Bytes → Greeting → Type 0
  Greeted self peer_hello greeting = greeting.transcript_hash ≡ transcript_of prim self peer_hello

  greet-Returns :
      (self : Local) (peer_hello : Bytes)
      → Returns (Greeted self peer_hello) (greet prim self peer_hello)
  unfolding greet
  greet-Returns self peer_hello =
      bind-Returns (Greeted self peer_hello) (fields_of (prim.codec.unpackb peer_hello)) _
        (λ fields _. bind-Returns (Greeted self peer_hello) (check_version fields) _ (λ checked _.
          bind-Returns (Greeted self peer_hello)
            (required malformed_nonce
              (bytes_of (length self.nonce) (field_at fields (codes "nonce"))))
            _
            (λ peer_nonce _.
              bind-Returns (Greeted self peer_hello)
                (refuse_own reflected_nonce self.nonce peer_nonce) _
                (λ other_nonce _.
                  bind-Returns (Greeted self peer_hello)
                    (required malformed_eph (bytes_of 32 (field_at fields (codes "eph_pub")))) _
                    (λ peer_eph _.
                      bind-Returns (Greeted self peer_hello)
                        (refuse_own reflected_eph (prim.x25519_public self.eph_priv) peer_eph) _
                        (λ eph_pub _. refl))))))

  -- A second frame with these fields shows an identity: of 32 bytes, not one's own, and with a signature of the transcript that
  -- the same frame carries.
  abbrev Shown : Local → Bytes → Fields → Bytes → Type 0
  Shown self transcript fields key =
      (field_at fields (codes "identity_pubkey") ≡ some (binary key))
      × (length key ≡ 32)
      × ((key == prim.ed25519_public self.identity) ≡ false)
      × ((sig : Bytes) × (field_at fields (codes "signature") ≡ some (binary sig))
          × (prim.verify key sig transcript ≡ true))

  -- The peer's second frame shows the identity, over the hash of the two first frames, the initiator's in front.
  abbrev pub Proven : Local → Bytes → Bytes → Bytes → Type 0
  Proven self peer_hello peer_auth key =
      (fields : Fields) × (fields_of (prim.codec.unpackb peer_auth) ≡ ok fields)
      × Shown self
          (prim.sha256 (
            if self.is_initiator
            then my_hello prim self ++ peer_hello
            else peer_hello ++ my_hello prim self))
          fields key

  verified-Shown :
      (self : Local) (shown key transcript sig : Bytes) (fields : Fields)
      → required malformed_identity (bytes_of 32 (field_at fields (codes "identity_pubkey")))
        ≡ ok shown
      → refuse_own own_identity (prim.ed25519_public self.identity) shown ≡ ok key
      → signature_of (field_at fields (codes "signature")) ≡ ok sig
      → (k : Bytes) → verified prim key transcript sig ≡ ok k
      → Shown self transcript fields k
  verified-Shown self shown key transcript sig fields h1 h2 carried k h3 =
      let v = field_at fields (codes "identity_pubkey") in
      let (read, size) =
        bytes_of-length 32 v shown (required-ok malformed_identity (bytes_of 32 v) shown h1) in
      let own = refuse_own-ok own_identity (prim.ed25519_public self.identity) shown key h2 in
      let good = verified-ok key transcript sig k h3 in
      let e = signature_of-ok (field_at fields (codes "signature")) sig carried in
      subst (Shown self transcript fields) good.0 (
        read ∙ ap (λ b. some (binary b)) own.0,
        ap length (sym own.0) ∙ size,
        own.1,
        (sig, e, good.1),
      )

  returned :
      (self : Local) (transcript : Bytes) (fields : Fields) (r : Result HandshakeError Bytes)
      → ((k : Bytes) → r ≡ ok k → Shown self transcript fields k)
      → Returns (Shown self transcript fields) r
  returned self transcript fs (ok k) h = h k refl
  returned self transcript fs (raise e) h = tt

  identify-Returns :
      (self : Local) (greeting : Greeting) (fields : Fields)
      → Returns (Shown self greeting.transcript_hash fields) (identify prim self greeting fields)
  unfolding identify
  identify-Returns self greeting fields =
      let t = greeting.transcript_hash in
      let shown_value = field_at fields (codes "identity_pubkey") in
      let P = Shown self t fields in
      bind-Returns P (required malformed_identity (bytes_of 32 shown_value)) _ (λ shown h1.
        bind-Returns P (refuse_own own_identity (prim.ed25519_public self.identity) shown) _
          (λ key h2.
            bind-Returns P (signature_of (field_at fields (codes "signature"))) _ (λ sig h3.
              returned self t fields (verified prim key t sig)
                (verified-Shown self shown key t sig fields h1 h2 h3))))

  -- The session is of the identity that was proven.
  abbrev Settled : Bytes → Session → Type 0
  Settled key session = session.peer_key ≡ key

  establish-Returns :
      (self : Local) (greeting : Greeting) (fields : Fields) (key : Bytes)
      → Returns (Settled key) (establish prim self greeting fields key)
  unfolding establish
  establish-Returns self greeting body key =
      bind-Returns (Settled key)
        (required exchange_failed (prim.exchange self.eph_priv greeting.eph_pub)) _
        (λ secret _.
          bind-Returns (Settled key) (open_channel prim self secret greeting.transcript_hash) _
            (λ channel _.
              bind-Returns (Settled key)
                (short_authentication_string prim greeting.transcript_hash sas_digits) _
                (λ sas _. refl)))

  -- What is proven of the peer, by its two frames.
  abbrev Held : Local → Bytes → Bytes → Session → Type 0
  Held self peer_hello peer_auth session = Proven self peer_hello peer_auth session.peer_key

  Settled-Held :
      (self : Local) (peer_hello peer_auth key : Bytes) (r : Result HandshakeError Session)
      → Proven self peer_hello peer_auth key
      → Returns (Settled key) r
      → Returns (Held self peer_hello peer_auth) r
  Settled-Held self peer_hello peer_auth key (ok session) proven same =
      subst (Proven self peer_hello peer_auth) (sym same) proven
  Settled-Held self peer_hello peer_auth key (raise e) proven same = tt

  -- What a step returned has what holds of all it can return.
  of_ok :
      (P : Bytes → Type 0) (r : Result HandshakeError Bytes) (key : Bytes)
      → r ≡ ok key
      → Returns P r
      → P key
  of_ok P r key e h = subst (Returns P) e h

  greeted :
      (self : Local) (peer_hello : Bytes) (greeting : Greeting)
      → greet prim self peer_hello ≡ ok greeting
      → Greeted self peer_hello greeting
  greeted self peer_hello greeting e =
      subst (Returns (Greeted self peer_hello)) e (greet-Returns self peer_hello)

  perform_handshake-Returns :
      (self : Local) (peer_hello peer_auth : Bytes)
      → Returns (Held self peer_hello peer_auth) (perform_handshake prim self peer_hello peer_auth)
  unfolding perform_handshake authenticate transcript_of
  perform_handshake-Returns self peer_hello peer_auth =
      let P = Held self peer_hello peer_auth in
      bind-Returns P (greet prim self peer_hello) _ (λ greeting g.
        bind-Returns P (fields_of (prim.codec.unpackb peer_auth)) _ (λ body b.
          bind-Returns P (identify prim self greeting body) _ (λ key k.
            Settled-Held self peer_hello peer_auth key (establish prim self greeting body key)
              (
                body,
                b,
                subst (λ t. Shown self t body key) (greeted self peer_hello greeting g)
                    (of_ok (Shown self greeting.transcript_hash body)
                      (identify prim self greeting body) key k
                      (identify-Returns self greeting body)),
              )
              (establish-Returns self greeting body key))))

-- Whatever two frames a peer sends: if the handshake returns, the key that it gives as the peer's identity is the one in the
-- peer's second frame, has 32 bytes, is not this node's own, and verifies the signature in that frame over the hash of this
-- node's own first frame and the peer's first frame, the initiator's in front.
pub perform_handshake-Proven :
    (prim : Primitives) (self : Local) (peer_hello peer_auth : Bytes) (session : Session)
    → perform_handshake prim self peer_hello peer_auth ≡ ok session
    → Proven prim self peer_hello peer_auth session.peer_key
perform_handshake-Proven prim self peer_hello peer_auth session e =
    subst (Returns (Held prim self peer_hello peer_auth)) e
      (perform_handshake-Returns prim self peer_hello peer_auth)
