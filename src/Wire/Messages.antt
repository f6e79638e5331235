-- ===== src/Wire/Messages.antt =====
-- A message of memnode/protocol.py from one end to the other.
use peer_memory.Prelude.{◌≡◌, refl, ap, ◌∙◌, some, [], ◌++◌, nat_eq, list_eq, ok}
use peer_memory.Prelude.Text.{Bytes}
use peer_memory.Config.{max_frame_size}
use peer_memory.Wire.Frame.{read_frame}
use peer_memory.Wire.Frames.{write_frame_lem, read_frame-framed}
use peer_memory.Wire.Message.{
  MsgType, Message, Codec, value_of, find_type, type_named, field_at, to_value, to_type, from_value,
  encode, decode, send_message, recv_message, recv_payload, hello, welcome, auth, store_block,
  request_block, block_data, block_not_found, set_key, get_key, key_found, ping, pong, quota_update,
  nack, free_block, freed, block_chunk, stream_abort, bye,
}

type_named-value_of : (t : MsgType) → type_named (value_of t) ≡ some t
unfolding type_named find_type value_of
type_named-value_of hello = refl
type_named-value_of welcome = refl
type_named-value_of auth = refl
type_named-value_of store_block = refl
type_named-value_of request_block = refl
type_named-value_of block_data = refl
type_named-value_of block_not_found = refl
type_named-value_of set_key = refl
type_named-value_of get_key = refl
type_named-value_of key_found = refl
type_named-value_of ping = refl
type_named-value_of pong = refl
type_named-value_of quota_update = refl
type_named-value_of nack = refl
type_named-value_of free_block = refl
type_named-value_of freed = refl
type_named-value_of block_chunk = refl
type_named-value_of stream_abort = refl
type_named-value_of bye = refl

from_value-to_value : (msg : Message) → from_value (to_value msg) ≡ ok msg
unfolding from_value to_value to_type field_at
from_value-to_value msg = rw (to_type, type_named-value_of msg.type) refl

-- A message that was sent is received as it was, and nothing that follows it is taken, if msgpack unpacks what it packed
-- for this message.
pub recv_message-send_message :
    (codec : Codec) (msg : Message) (written rest : Bytes)
    → codec.unpackb (codec.packb (to_value msg)) ≡ some (to_value msg)
    → send_message codec [] msg ≡ ok written
    → recv_message codec (written ++ rest) ≡ (rest, ok msg)
unfolding send_message recv_message recv_payload decode encode
recv_message-send_message codec msg written rest law h =
    let (fits, e) = write_frame_lem [] (encode codec msg) written h in
    let r : read_frame (written ++ rest) max_frame_size ≡ (rest, ok (encode codec msg)) =
      ap (λ w. read_frame (w ++ rest) max_frame_size) e
      ∙ read_frame-framed (encode codec msg) rest max_frame_size fits in
    let d : decode codec (encode codec msg) ≡ ok msg = rw (decode, law) (from_value-to_value msg) in
    rw (r, d) refl
