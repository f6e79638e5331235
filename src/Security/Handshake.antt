-- ===== src/Security/Handshake.antt =====
-- memnode/security.py: perform_handshake(), and the constructor of SecureChannel.
--
-- One end is a function of its secrets and of the two frames of the peer. The primitives are parameters: SHA-256, X25519,
-- Ed25519, HKDF (key, salt, info, length) and msgpack.
pub mod Agreement
pub mod Authentic
use peer_memory.Prelude.{
  ℕ, zero, suc, ◌+◌, ◌-◌, Bool, false, ◌||◌, Option, none, some, [], ◌∷◌, ◌++◌, ltb, if◌then◌else◌,
  nat_eq, list_eq, ◌==◌, Result, ok, raise, length,
}
use peer_memory.Prelude.Text.{Str, Bytes}
use peer_memory.Prelude.{pos, ◌%◌, ◌/◌, ◌^◌, ◌>>=◌, take, drop}
use peer_memory.Prelude.Text.{codes}
use peer_memory.Config.{
  protocol_version, replay_window_size, rekey_interval_messages, rekey_interval,
  max_rekey_epoch_skip, sas_digits,
}
use peer_memory.Wire.Message.{
  Value, boolean, integer, double, binary, text, dictionary, Fields, no_fields, field_then,
  field_at, Codec,
}
use peer_memory.Security.Channel.{SecureChannel, unpack_be}

pub record Primitives : Type 0 where
  pub codec : Codec
  pub sha256 : Bytes → Bytes
  pub x25519_public : Bytes → Bytes
  pub exchange : Bytes → Bytes → Option Bytes
  pub ed25519_public : Bytes → Bytes
  pub sign : Bytes → Bytes → Bytes
  pub verify : Bytes → Bytes → Bytes → Bool
  pub hkdf : Bytes → Bytes → Bytes → ℕ → Bytes

pub data HandshakeError : Type 0 where
  unpack_failed body_error version_mismatch malformed_nonce reflected_nonce malformed_eph
        reflected_eph :
      HandshakeError
  malformed_identity own_identity no_signature signature_type bad_signature exchange_failed
        bad_digits bad_window bad_interval :
      HandshakeError

-- What one end brings: its ephemeral key and nonce, its identity, and the arguments.
pub record Local : Type 0 where
  pub eph_priv : Bytes
  pub nonce : Bytes
  pub identity : Bytes
  pub name : Str
  pub ram_quota : ℕ
  pub is_initiator : Bool
  pub started_at : ℕ

pub record Greeting : Type 0 where
  pub eph_pub : Bytes
  pub name : Option Value
  pub transcript_hash : Bytes

pub record Session : Type 0 where
  pub channel : SecureChannel
  pub peer_key : Bytes
  pub peer_name : Option Value
  pub peer_quota : Value
  pub sas : Str

-- SecureChannel.__init__() with its defaults as arguments
unfoldable pub new_channel :
    ℕ → Bytes → Bytes → Bytes → ℕ → ℕ → ℕ → ℕ → Result HandshakeError SecureChannel
new_channel now send_key recv_key transcript_hash window rekey_messages interval max_epoch_skip =
    if ltb rekey_messages 1
    then raise bad_interval
    else if ltb window 1
    then raise bad_window
    else ok (record {
      transcript_hash = transcript_hash;
      send_key = send_key;
      recv_key = recv_key;
      send_seq = 0;
      send_epoch = 0;
      recv_epoch = 0;
      replay = record { size = window; highest = 0; bitmap = 0; seen_any = false };
      rekey_messages = rekey_messages;
      rekey_interval = interval;
      max_epoch_skip = max_epoch_skip;
      last_rekey_at = now;
      rekeys_sent = 0;
      rekeys_received = 0;
      replays_dropped = 0;
    })

-- str(value).zfill(digits) of a value below 10 ** digits
unfoldable pub decimal : ℕ → ℕ → Str → Str
decimal zero n low = low
decimal (suc k) n low = decimal k (n / 10) ((48 + n % 10) ∷ low)

-- peer_version == 1, which True and 1.0 are too
unfoldable pub is_version : Option Value → Bool
is_version (some (integer (pos n))) = n == protocol_version
is_version (some (boolean b)) = b
is_version (some (double bytes)) = bytes == (63 ∷ 240 ∷ 0 ∷ 0 ∷ 0 ∷ 0 ∷ 0 ∷ 0 ∷ [])
is_version _ = false

-- A field that is bytes of this length.
unfoldable pub bytes_of : ℕ → Option Value → Option Bytes
bytes_of n (some (binary bs)) = if length bs == n then some bs else none
bytes_of n _ = none

unfoldable pub fields_of : Option Value → Result HandshakeError Fields
fields_of none = raise unpack_failed
fields_of (some (dictionary fields)) = ok fields
fields_of (some _) = raise body_error

unfoldable pub required : HandshakeError → Option Bytes → Result HandshakeError Bytes
required e none = raise e
required e (some bs) = ok bs

-- hmac.compare_digest(...): what is one's own is refused.
unfoldable pub refuse_own : HandshakeError → Bytes → Bytes → Result HandshakeError Bytes
refuse_own e own bs = if bs == own then raise e else ok bs

unfoldable pub check_version : Fields → Result HandshakeError Fields
check_version fields =
    if is_version (field_at fields (codes "version")) then ok fields else raise version_mismatch

unfoldable pub signature_of : Option Value → Result HandshakeError Bytes
signature_of none = raise no_signature
signature_of (some (binary sig)) = ok sig
signature_of (some _) = raise signature_type

-- peer_auth.get("ram_quota", 0)
unfoldable pub quota_or_zero : Option Value → Value
quota_or_zero none = integer (pos 0)
quota_or_zero (some v) = v

module _ (prim : Primitives) where
  unfoldable pub short_authentication_string : Bytes → ℕ → Result HandshakeError Str
  short_authentication_string transcript_hash digits =
      if ltb digits 4 || ltb 18 digits
      then raise bad_digits
      else ok (
          decimal digits
            (unpack_be 0 (
                prim.hkdf transcript_hash (codes "memnode-sas-v1")
                  (codes "short-authentication-string") 8)
              % 10 ^ digits)
            [])

  -- _derive_traffic_keys()
  unfoldable pub derive_traffic_keys : Bytes → Bytes → Bytes × Bytes
  derive_traffic_keys shared_secret transcript_hash =
      let okm = prim.hkdf shared_secret transcript_hash (codes "memnode-traffic-keys-v1") 64 in
      (take 32 okm, drop 32 okm)

  unfoldable pub hello_fields : Local → Fields
  hello_fields self = field_then (codes "nonce") (binary self.nonce) (
      field_then (codes "eph_pub") (binary (prim.x25519_public self.eph_priv)) (
        field_then (codes "name") (text self.name)
          (field_then (codes "version") (integer (pos protocol_version)) no_fields)))

  -- The frame that is sent first.
  unfoldable pub my_hello : Local → Bytes
  my_hello self = prim.codec.packb (dictionary (hello_fields self))

  unfoldable pub transcript_of : Local → Bytes → Bytes
  transcript_of self peer_hello =
      prim.sha256
        (if self.is_initiator then my_hello self ++ peer_hello else peer_hello ++ my_hello self)

  -- The checks of the peer's first frame, in their order.
  unfoldable pub greet : Local → Bytes → Result HandshakeError Greeting
  greet self peer_hello = fields_of (prim.codec.unpackb peer_hello) >>= λ fields.
      check_version fields >>= λ checked.
      required malformed_nonce (bytes_of (length self.nonce) (field_at fields (codes "nonce")))
      >>= λ peer_nonce. refuse_own reflected_nonce self.nonce peer_nonce >>= λ other_nonce.
          required malformed_eph (bytes_of 32 (field_at fields (codes "eph_pub"))) >>= λ peer_eph.
          refuse_own reflected_eph (prim.x25519_public self.eph_priv) peer_eph >>= λ eph_pub.
          ok (record {
            eph_pub = eph_pub;
            name = field_at fields (codes "name");
            transcript_hash = transcript_of self peer_hello;
          })

  unfoldable pub auth_fields : Local → Bytes → Fields
  auth_fields self transcript_hash =
      field_then (codes "identity_pubkey") (binary (prim.ed25519_public self.identity)) (
        field_then (codes "signature") (binary (prim.sign self.identity transcript_hash))
          (field_then (codes "ram_quota") (integer (pos self.ram_quota)) no_fields))

  -- The frame that is sent second.
  unfoldable pub my_auth : Local → Bytes → Bytes
  my_auth self transcript_hash = prim.codec.packb (dictionary (auth_fields self transcript_hash))

  unfoldable pub verified : Bytes → Bytes → Bytes → Result HandshakeError Bytes
  verified key transcript_hash sig =
      if prim.verify key sig transcript_hash then ok key else raise bad_signature

  unfoldable pub open_channel : Local → Bytes → Bytes → Result HandshakeError SecureChannel
  open_channel self shared_secret transcript_hash =
      let (key_a, key_b) = derive_traffic_keys shared_secret transcript_hash in
      if self.is_initiator
      then new_channel self.started_at key_a key_b transcript_hash replay_window_size
          rekey_interval_messages rekey_interval max_rekey_epoch_skip
      else new_channel self.started_at key_b key_a transcript_hash replay_window_size
          rekey_interval_messages rekey_interval max_rekey_epoch_skip

  -- The peer's identity, once its key and its signature over the transcript are checked.
  unfoldable pub identify : Local → Greeting → Fields → Result HandshakeError Bytes
  identify self greeting fields =
      required malformed_identity (bytes_of 32 (field_at fields (codes "identity_pubkey")))
      >>= λ shown. refuse_own own_identity (prim.ed25519_public self.identity) shown >>= λ key.
          signature_of (field_at fields (codes "signature")) >>= λ sig.
          verified key greeting.transcript_hash sig

  unfoldable pub establish : Local → Greeting → Fields → Bytes → Result HandshakeError Session
  establish self greeting fields key =
      required exchange_failed (prim.exchange self.eph_priv greeting.eph_pub) >>= λ shared_secret.
      open_channel self shared_secret greeting.transcript_hash >>= λ channel.
      short_authentication_string greeting.transcript_hash sas_digits >>= λ sas. ok (record {
        channel = channel;
        peer_key = key;
        peer_name = greeting.name;
        peer_quota = quota_or_zero (field_at fields (codes "ram_quota"));
        sas = sas;
      })

  -- What follows on the peer's second frame.
  unfoldable pub authenticate : Local → Greeting → Bytes → Result HandshakeError Session
  authenticate self greeting peer_auth = fields_of (prim.codec.unpackb peer_auth) >>= λ fields.
      identify self greeting fields >>= λ key. establish self greeting fields key

  -- perform_handshake(), for the two frames that the peer sends
  unfoldable pub perform_handshake : Local → Bytes → Bytes → Result HandshakeError Session
  perform_handshake self peer_hello peer_auth =
      greet self peer_hello >>= λ greeting. authenticate self greeting peer_auth
