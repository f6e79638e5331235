-- ===== src/Security/Handshake/Agreement.antt =====
-- Two ends of memnode/security.py's handshake, and the channels that they get.
use peer_memory.Prelude.{
  ℕ, ◌≡◌, refl, ap, ◌∙◌, true, false, some, [], ◌++◌, nat_eq, list_eq, ◌==◌, Result, ok, length,
  arith,
}
use peer_memory.Prelude.Text.{Str, Bytes}
use peer_memory.Prelude.{◌%◌, ◌^◌, pos, take, drop, ◌>>=◌}
use peer_memory.Prelude.Text.{codes}
use peer_memory.Config.{
  replay_window_size, rekey_interval_messages, rekey_interval, max_rekey_epoch_skip, sas_digits,
}
use peer_memory.Wire.Message.{Value, dictionary, field_at, text, integer}
use peer_memory.Security.Channel.{Crypto, SecureChannel, unpack_be}
use peer_memory.Security.Channel.Delivery.{IsAead, InSync}
use peer_memory.Security.Handshake.{
  Primitives, HandshakeError, Local, Greeting, Session, new_channel, decimal, is_version, bytes_of,
  fields_of, required, refuse_own, check_version, signature_of, quota_or_zero,
  short_authentication_string, derive_traffic_keys, hello_fields, my_hello, transcript_of, greet,
  auth_fields, my_auth, verified, open_channel, identify, establish, authenticate,
  perform_handshake,
}

module _ (prim : Primitives) where
  -- msgpack unpacks what it packed for this value.
  abbrev Packs : Value → Type 0
  Packs v = prim.codec.unpackb (prim.codec.packb v) ≡ some v

  -- What an end relies on about the other: its frames can be read, its keys have their lengths and are not one's own, and
  -- the two keys give a secret.
  pub record Meets (self other : Local) (secret transcript : Bytes) : Type 0 where
    pub hello_packs : Packs (dictionary (hello_fields prim other))
    pub auth_packs : Packs (dictionary (auth_fields prim other transcript))
    pub nonce_size : (length other.nonce == length self.nonce) ≡ true
    pub other_nonce : (other.nonce == self.nonce) ≡ false
    pub eph_size : (length (prim.x25519_public other.eph_priv) == 32) ≡ true
    pub other_eph : (prim.x25519_public other.eph_priv == prim.x25519_public self.eph_priv) ≡ false
    pub key_size : (length (prim.ed25519_public other.identity) == 32) ≡ true
    pub other_key :
        (prim.ed25519_public other.identity == prim.ed25519_public self.identity) ≡ false
    pub exchanged : prim.exchange self.eph_priv (prim.x25519_public other.eph_priv) ≡ some secret

  -- Ed25519 accepts its own signatures.
  abbrev pub Signs : Type 0
  Signs =
      (identity message : Bytes)
      → prim.verify (prim.ed25519_public identity) (prim.sign identity message) message ≡ true

  greet-my_hello :
      (self other : Local) (secret transcript : Bytes)
      → Meets self other secret transcript
      → greet prim self (my_hello prim other)
        ≡ ok (record {
          eph_pub = prim.x25519_public other.eph_priv;
          name = some (text other.name);
          transcript_hash = transcript_of prim self (my_hello prim other);
        })
  unfolding greet my_hello fields_of hello_fields check_version is_version field_at bytes_of
      required refuse_own
  greet-my_hello self other secret transcript m =
      rw (m.hello_packs, m.nonce_size, m.other_nonce, m.eph_size, m.other_eph) refl

  identify-my_auth :
      (self other : Local) (secret : Bytes) (greeting : Greeting)
      → Meets self other secret greeting.transcript_hash
      → Signs
      → identify prim self greeting (auth_fields prim other greeting.transcript_hash)
        ≡ ok (prim.ed25519_public other.identity)
  unfolding identify auth_fields field_at bytes_of required refuse_own signature_of verified
  identify-my_auth self other secret greeting m signs =
      rw (m.key_size, m.other_key, signs other.identity greeting.transcript_hash) refl

  -- The channel of an end with these two keys.
  abbrev pub channel_with : ℕ → Bytes → Bytes → Bytes → SecureChannel
  channel_with now send_key recv_key transcript = record {
    transcript_hash = transcript;
    send_key = send_key;
    recv_key = recv_key;
    send_seq = 0;
    send_epoch = 0;
    recv_epoch = 0;
    replay = record { size = replay_window_size; highest = 0; bitmap = 0; seen_any = false };
    rekey_messages = rekey_interval_messages;
    rekey_interval = rekey_interval;
    max_epoch_skip = max_rekey_epoch_skip;
    last_rekey_at = now;
    rekeys_sent = 0;
    rekeys_received = 0;
    replays_dropped = 0;
  }

  abbrev pub key_a : Bytes → Bytes → Bytes
  key_a secret transcript =
      take 32 (prim.hkdf secret transcript (codes "memnode-traffic-keys-v1") 64)

  abbrev pub key_b : Bytes → Bytes → Bytes
  key_b secret transcript =
      drop 32 (prim.hkdf secret transcript (codes "memnode-traffic-keys-v1") 64)

  abbrev pub code_of : Bytes → Str
  code_of transcript =
      decimal 6
        (unpack_be 0
            (prim.hkdf transcript (codes "memnode-sas-v1") (codes "short-authentication-string") 8)
          % 10 ^ 6)
        []

  short_authentication_string_lem :
      (transcript : Bytes)
      → short_authentication_string prim transcript sas_digits ≡ ok (code_of transcript)
  unfolding short_authentication_string
  short_authentication_string_lem transcript = refl

  -- What an end has of the handshake with an other.
  abbrev pub session_with : Local → Local → Bytes → Bytes → Bytes → Bytes → Session
  session_with self other send_key recv_key secret transcript = record {
    channel = channel_with self.started_at send_key recv_key transcript;
    peer_key = prim.ed25519_public other.identity;
    peer_name = some (text other.name);
    peer_quota = integer (pos other.ram_quota);
    sas = code_of transcript;
  }

  pub open_channel-initiator :
      (self : Local) (secret transcript : Bytes)
      → self.is_initiator ≡ true
      → open_channel prim self secret transcript
        ≡ ok (
            channel_with self.started_at
              (key_a secret transcript)
              (key_b secret transcript)
              transcript)
  unfolding open_channel derive_traffic_keys new_channel
  open_channel-initiator self secret transcript starts = rw starts refl

  open_channel-responder :
      (self : Local) (secret transcript : Bytes)
      → self.is_initiator ≡ false
      → open_channel prim self secret transcript
        ≡ ok (
            channel_with self.started_at
              (key_b secret transcript)
              (key_a secret transcript)
              transcript)
  unfolding open_channel derive_traffic_keys new_channel
  open_channel-responder self secret transcript starts = rw starts refl

  -- One end's handshake with an other, if it opens its channel with these keys.
  pub perform_handshake-Meets :
      (self other : Local) (secret transcript send_key recv_key : Bytes)
      → Meets self other secret transcript
      → Signs
      → transcript_of prim self (my_hello prim other) ≡ transcript
      → open_channel prim self secret transcript
        ≡ ok (channel_with self.started_at send_key recv_key transcript)
      → perform_handshake prim self (my_hello prim other) (my_auth prim other transcript)
        ≡ ok (session_with self other send_key recv_key secret transcript)
  unfolding perform_handshake authenticate establish my_auth fields_of required auth_fields field_at
      quota_or_zero
  perform_handshake-Meets self other secret transcript send_key recv_key m signs same opens =
      let greeting : Greeting = record {
        eph_pub = prim.x25519_public other.eph_priv;
        name = some (text other.name);
        transcript_hash = transcript;
      } in
      let g : greet prim self (my_hello prim other) ≡ ok greeting =
        greet-my_hello self other secret transcript m
        ∙ ap
            (λ t. ok (record {
              eph_pub = prim.x25519_public other.eph_priv;
              name = some (text other.name);
              transcript_hash = t;
            }))
            same in
      ap (λ r. r >>= λ greeting. authenticate prim self greeting (my_auth prim other transcript)) g
      ∙ rw
          (
            m.auth_packs,
            identify-my_auth self other secret greeting m signs,
            m.exchanged,
            opens,
            short_authentication_string_lem transcript,
          )
          refl

  abbrev pub shared_transcript : Local → Local → Bytes
  shared_transcript a b = prim.sha256 (my_hello prim a ++ my_hello prim b)

  pub transcript_of-initiator :
      (a b : Local)
      → a.is_initiator ≡ true
      → transcript_of prim a (my_hello prim b) ≡ shared_transcript a b
  unfolding transcript_of
  transcript_of-initiator a b starts = rw starts refl

  transcript_of-responder :
      (a b : Local)
      → b.is_initiator ≡ false
      → transcript_of prim b (my_hello prim a) ≡ shared_transcript a b
  unfolding transcript_of
  transcript_of-responder a b waits = rw waits refl

  -- Both ends have a session, each with the other's identity, with one code for the user to compare and with channels that
  -- are in sync in both directions.
  pub record Agreed (crypto : Crypto) (aead : IsAead crypto) (a b : Local)
      (left right : Result HandshakeError Session) : Type 0 where
    pub here : Session
    pub there : Session
    pub left_ok : left ≡ ok here
    pub right_ok : right ≡ ok there
    pub knows_b : here.peer_key ≡ prim.ed25519_public b.identity
    pub knows_a : there.peer_key ≡ prim.ed25519_public a.identity
    pub one_code : here.sas ≡ there.sas
    pub outward :
        InSync crypto aead here.channel.send_key (shared_transcript a b) here.channel there.channel
    pub inward :
        InSync crypto aead there.channel.send_key (shared_transcript a b) there.channel here.channel

  channels-InSync :
      (crypto : Crypto) (aead : IsAead crypto) (now later : ℕ)
      (send_key recv_key transcript : Bytes)
      → InSync crypto aead send_key transcript
          (channel_with now send_key recv_key transcript)
          (channel_with later recv_key send_key transcript)
  channels-InSync crypto aead now later send_key recv_key transcript = record {
    sends = record {
      hash = refl;
      interval = omega arith;
      key = refl;
      low = omega arith;
      high = omega arith;
    };
    hash = refl;
    interval = refl;
    key = refl;
    epoch = refl;
    skip = omega arith;
    behind = λ h. absurd (let f : ⊥ = ground (arith, h) in f);
  }

-- An initiator and a responder that get each other's frames unchanged both succeed. They then know each other's identity, show
-- one code, and have channels in sync in both directions, if each can read the other's frames, brings keys of the right
-- lengths that are not the other's and a nonce that is not the other's, and Ed25519 accepts its own signatures.
pub perform_handshake-Agreed :
    (prim : Primitives) (crypto : Crypto) (aead : IsAead crypto) (a b : Local) (secret : Bytes)
    → Signs prim
    → a.is_initiator ≡ true
    → b.is_initiator ≡ false
    → Meets prim a b secret (shared_transcript prim a b)
    → Meets prim b a secret (shared_transcript prim a b)
    → Agreed prim crypto aead a b
        (perform_handshake prim a (my_hello prim b) (my_auth prim b (shared_transcript prim a b)))
        (perform_handshake prim b (my_hello prim a) (my_auth prim a (shared_transcript prim a b)))
perform_handshake-Agreed prim crypto aead a b secret signs starts waits meets_b meets_a =
    let t = shared_transcript prim a b in
    let first = key_a prim secret t in
    let second = key_b prim secret t in
    record {
      here = session_with prim a b first second secret t;
      there = session_with prim b a second first secret t;
      left_ok =
          perform_handshake-Meets prim a b secret t first second meets_b signs
            (transcript_of-initiator prim a b starts)
            (open_channel-initiator prim a secret t starts);
      right_ok =
          perform_handshake-Meets prim b a secret t second first meets_a signs
            (transcript_of-responder prim a b waits) (open_channel-responder prim b secret t waits);
      knows_b = refl;
      knows_a = refl;
      one_code = refl;
      outward = channels-InSync prim crypto aead a.started_at b.started_at first second t;
      inward = channels-InSync prim crypto aead b.started_at a.started_at second first t;
    }
