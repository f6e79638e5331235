-- ===== src/Rpc/Client.antt =====
-- memnode/rpc.py: the frames of the control plane, _authenticate() and _handle_client().
--
-- A reader is what the client sends until it closes; a client that lets the time for its answer pass has closed. Writing
-- does not fail. JSON, msgpack and the handling of a request are parameters.
use peer_memory.Prelude.{
  ℕ, zero, suc, ◌+◌, Bool, true, false, Option, none, some, List, [], ◌∷◌, ltb, if◌then◌else◌,
  nat_eq, list_eq, ◌==◌, Result, ok, raise, length,
}
use peer_memory.Prelude.Text.{Str, Bytes}
use peer_memory.Prelude.{◌>>=◌}
use peer_memory.Prelude.Text.{codes}
use peer_memory.Config.{max_rpc_message_size, rpc_msgpack_magic}
use peer_memory.Wire.Frame.{WireError, readexactly, unpack_u32}
use peer_memory.Wire.Message.{
  Value, nil_value, boolean, integer, double, binary, text, array, dictionary, Fields, field_at,
}
use peer_memory.Rpc.Auth.{AuthError, verify_response}

-- What the reading of a frame raises: an early end, a ValueError (a size too large, or JSON that is none), or something else.
pub data ReadError : Type 0 where
  incomplete value_error other_error : ReadError

abbrev pub Decoder : Type 0
Decoder = Bytes → Result ReadError Value

unfoldable pub decoded : Decoder → Bytes × Result WireError Bytes → Bytes × Result ReadError Value
decoded decode (rest, ok raw) = (rest, decode raw)
decoded decode (rest, raise _) = (rest, raise incomplete)

unfoldable pub read_body : Decoder → Bytes → Result WireError ℕ → Bytes × Result ReadError Value
read_body decode reader (raise _) = (reader, raise incomplete)
read_body decode reader (ok size) =
    if ltb max_rpc_message_size size
    then (reader, raise value_error)
    else decoded decode (readexactly reader size)

-- _read_json_frame() and _read_msgpack_frame(), with the length bytes if these were read before
unfoldable pub read_frame : Decoder → Bytes → Option Bytes → Bytes × Result ReadError Value
read_frame decode reader (some length_bytes) = read_body decode reader (unpack_u32 length_bytes)
read_frame decode reader none =
    (let (rest, length_bytes) = readexactly reader 4 in
      read_body decode rest (length_bytes >>= unpack_u32))

-- What the server writes.
pub data Reply (R : Type 0) : Type 0 where
  challenge_frame : Str → Reply R
  authenticated authentication_failed msgpack_accepted bad_frame : Reply R
  response : R → Reply R

pub record Outcome (S R : Type 0) : Type 0 where
  pub state : S
  pub replies : List (Reply R)

-- The end of _authenticate(): true with the rest of the stream, false with what is written, or an exception that nothing catches.
pub data Verdict : Type 0 where
  admitted : Bytes → Verdict
  refused silent crashed : Verdict

unfoldable pub verdict : Bytes → Result AuthError Bool → Verdict
verdict rest (ok true) = admitted rest
verdict rest (ok false) = refused
verdict rest (raise _) = crashed

module _ (hmac : Str → Str → Str) (token challenge : Str) where
  unfoldable pub judge : Bytes × Result ReadError Value → Verdict
  judge (rest, ok (dictionary body)) =
      verdict rest (verify_response hmac token challenge (field_at body (codes "response")))
  judge (rest, ok nil_value) = crashed
  judge (rest, ok (boolean _)) = crashed
  judge (rest, ok (integer _)) = crashed
  judge (rest, ok (double _)) = crashed
  judge (rest, ok (binary _)) = crashed
  judge (rest, ok (text _)) = crashed
  judge (rest, ok (array _)) = crashed
  judge (rest, raise incomplete) = silent
  judge (rest, raise value_error) = silent
  judge (rest, raise other_error) = crashed

  -- _authenticate(), after the challenge is written
  unfoldable pub authenticate : Decoder → Bytes → Verdict
  authenticate json reader = judge (read_frame json reader none)

-- One turn of the loop: the end with what is written, or a request with its response.
pub data Turn (S R : Type 0) : Type 0 where
  ended : List (Reply R) → Turn S R
  served : S × R → Bytes → Turn S R

unfoldable pub proceed : {S R : Type 0} → (S → Bytes → Outcome S R) → S → Turn S R → Outcome S R
proceed next st (ended replies) = record { state = st; replies = replies }
proceed next st (served (st', r) rest) =
    (let after = next st' rest in
      record { state = after.state; replies = response r ∷ after.replies })

module _ {S R : Type 0} (serve : Bool → S → Fields → S × R) (json msgpack : Decoder) where
  unfoldable pub decoder : Bool → Decoder
  decoder binary_codec = if binary_codec then msgpack else json

  -- A request that is no map raises in _dispatch(), and again in the line that logs this.
  unfoldable pub turn : Bool → S → Bytes × Result ReadError Value → Turn S R
  turn binary_codec st (rest, ok (dictionary req)) = served (serve binary_codec st req) rest
  turn binary_codec st (rest, ok nil_value) = ended []
  turn binary_codec st (rest, ok (boolean _)) = ended []
  turn binary_codec st (rest, ok (integer _)) = ended []
  turn binary_codec st (rest, ok (double _)) = ended []
  turn binary_codec st (rest, ok (binary _)) = ended []
  turn binary_codec st (rest, ok (text _)) = ended []
  turn binary_codec st (rest, ok (array _)) = ended []
  turn binary_codec st (rest, raise incomplete) = ended []
  turn binary_codec st (rest, raise value_error) = ended (bad_frame ∷ [])
  turn binary_codec st (rest, raise other_error) = ended []

  -- The loop of _handle_client(); `fuel` bounds the turns.
  unfoldable pub serve_requests : ℕ → Bool → S → Bytes → Option Bytes → Outcome S R
  serve_requests zero binary_codec st reader pending = record { state = st; replies = [] }
  serve_requests (suc fuel) binary_codec st reader pending =
      proceed (λ st' rest. serve_requests fuel binary_codec st' rest none) st
        (turn binary_codec st (read_frame (decoder binary_codec) reader pending))

  unfoldable pub with_reply : Reply R → Outcome S R → Outcome S R
  with_reply reply after = record { state = after.state; replies = reply ∷ after.replies }

  -- The codec, by the first four bytes; each turn but the first takes four bytes or more, so the length and five are enough.
  unfoldable pub negotiate : S → Bytes × Result WireError Bytes → Outcome S R
  negotiate st (rest, raise _) = record { state = st; replies = [] }
  negotiate st (rest, ok prefix) =
      if prefix == rpc_msgpack_magic
      then with_reply msgpack_accepted (serve_requests (length rest + 5) true st rest none)
      else serve_requests (length rest + 5) false st rest (some prefix)

  unfoldable pub after_verdict : Str → S → Verdict → Outcome S R
  after_verdict challenge st (admitted rest) =
      with_reply (challenge_frame challenge)
        (with_reply authenticated (negotiate st (readexactly rest 4)))
  after_verdict challenge st refused = record {
    state = st;
    replies = challenge_frame challenge ∷ authentication_failed ∷ [];
  }
  after_verdict challenge st silent = record {
    state = st;
    replies = challenge_frame challenge ∷ [];
  }
  after_verdict challenge st crashed = record {
    state = st;
    replies = challenge_frame challenge ∷ [];
  }

  -- _handle_client()
  unfoldable pub handle_client : (Str → Str → Str) → Str → Str → Bool → S → Bytes → Outcome S R
  handle_client hmac token challenge needs_auth st reader =
      if needs_auth
      then after_verdict challenge st (authenticate hmac token challenge json reader)
      else negotiate st (readexactly reader 4)
