-- ===== src/Tests/Greetings.antt =====
-- Two ends of memnode/security.py's handshake with toy primitives.
use peer_memory.Prelude.{
  ◌≡◌, refl, true, false, Option, none, some, [], ◌∷◌, if◌then◌else◌, nat_eq, list_eq, ◌==◌,
  ==_refl, ok,
}
use peer_memory.Prelude.Text.{Bytes}
use peer_memory.Prelude.{replicate}
use peer_memory.Prelude.Text.{codes}
use peer_memory.Wire.Message.{Value, binary, dictionary, Codec, field_at}
use peer_memory.Security.Handshake.{
  Primitives, Local, Session, hello_fields, auth_fields, my_hello, my_auth, perform_handshake,
}
use peer_memory.Security.Handshake.Agreement.{
  Signs, Meets, Agreed, shared_transcript, session_with, key_a, key_b, perform_handshake-Meets,
  transcript_of-initiator, open_channel-initiator, perform_handshake-Agreed,
}
use peer_memory.Security.Handshake.Authentic.{Proven, perform_handshake-Proven}
use peer_memory.Tests.Sealing.{crypto, crypto-IsAead}

-- Keys are one byte with zeros behind it, every hash is 9, and a signature is the message.
abbrev padded : Bytes → Bytes
padded [] = replicate 32 0
padded (b ∷ bs) = b ∷ replicate 31 0

abbrev bare : Codec → Primitives
bare codec = record {
  codec = codec;
  sha256 = λ bs. 9 ∷ [];
  x25519_public = padded;
  exchange = λ priv pub_key. some (7 ∷ []);
  ed25519_public = padded;
  sign = λ key message. message;
  verify = λ key sig message. sig == message;
  hkdf = λ key salt info size. replicate size 5;
}

abbrev pub alice : Local
alice = record {
  eph_priv = 1 ∷ [];
  nonce = replicate 16 1;
  identity = 3 ∷ [];
  name = codes "alice";
  ram_quota = 10;
  is_initiator = true;
  started_at = 0;
}

abbrev pub bob : Local
bob = record {
  eph_priv = 2 ∷ [];
  nonce = replicate 16 2;
  identity = 4 ∷ [];
  name = codes "bob";
  ram_quota = 20;
  is_initiator = false;
  started_at = 5;
}

abbrev no_codec : Codec
no_codec = record { packb = λ v. []; unpackb = λ bs. none }

abbrev first_byte : Option Value → Bytes → Bytes
first_byte (some (binary (b ∷ bs))) other = b ∷ []
first_byte _ other = other

-- A frame is the first byte of its nonce, or of its identity.
abbrev number_of : Value → Bytes
number_of (dictionary body) =
    first_byte (field_at body (codes "nonce"))
      (first_byte (field_at body (codes "identity_pubkey")) [])
number_of _ = []

abbrev frame_of : Bytes → Option Value
frame_of bs =
    if bs == (1 ∷ [])
    then some (dictionary (hello_fields (bare no_codec) alice))
    else if bs == (2 ∷ [])
    then some (dictionary (hello_fields (bare no_codec) bob))
    else if bs == (3 ∷ [])
    then some (dictionary (auth_fields (bare no_codec) alice (9 ∷ [])))
    else if bs == (4 ∷ [])
    then some (dictionary (auth_fields (bare no_codec) bob (9 ∷ [])))
    else none

abbrev pub prim : Primitives
prim = bare (record { packb = number_of; unpackb = frame_of })

signs : Signs prim
signs identity message = ==_refl message

abbrev pub transcript : Bytes
transcript = shared_transcript prim alice bob

alice-Meets : Meets prim alice bob (7 ∷ []) transcript
unfolding hello_fields auth_fields field_at
alice-Meets = record {
  hello_packs = refl;
  auth_packs = refl;
  nonce_size = refl;
  other_nonce = refl;
  eph_size = refl;
  other_eph = refl;
  key_size = refl;
  other_key = refl;
  exchanged = refl;
}

bob-Meets : Meets prim bob alice (7 ∷ []) transcript
unfolding hello_fields auth_fields field_at
bob-Meets = record {
  hello_packs = refl;
  auth_packs = refl;
  nonce_size = refl;
  other_nonce = refl;
  eph_size = refl;
  other_eph = refl;
  key_size = refl;
  other_key = refl;
  exchanged = refl;
}

perform_handshake-Agreed_example :
    Agreed prim crypto crypto-IsAead alice bob
      (perform_handshake prim alice (my_hello prim bob) (my_auth prim bob transcript))
      (perform_handshake prim bob (my_hello prim alice) (my_auth prim alice transcript))
perform_handshake-Agreed_example =
    perform_handshake-Agreed prim crypto crypto-IsAead alice bob (7 ∷ []) signs refl refl
      alice-Meets bob-Meets

-- What alice has of the handshake with bob.
abbrev session : Session
session =
    session_with prim alice bob (key_a prim (7 ∷ []) transcript) (key_b prim (7 ∷ []) transcript)
      (7 ∷ []) transcript

alice_returns :
    perform_handshake prim alice (my_hello prim bob) (my_auth prim bob transcript) ≡ ok session
alice_returns =
    perform_handshake-Meets prim alice bob (7 ∷ []) transcript (key_a prim (7 ∷ []) transcript)
      (key_b prim (7 ∷ []) transcript) alice-Meets signs
      (transcript_of-initiator prim alice bob refl)
      (open_channel-initiator prim alice (7 ∷ []) transcript refl)

perform_handshake-Proven_example :
    Proven prim alice (my_hello prim bob) (my_auth prim bob transcript) session.peer_key
perform_handshake-Proven_example =
    perform_handshake-Proven prim alice (my_hello prim bob) (my_auth prim bob transcript) session
      alice_returns
