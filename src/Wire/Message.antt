-- ===== src/Wire/Message.antt =====
-- memnode/protocol.py: MsgType and Message, over any msgpack codec.
--
-- The keys of a map are strings. A float is the eight bytes of its double: no code reads one.
use peer_memory.Prelude.{
  Bool, true, false, Option, none, some, List, [], ◌∷◌, ℤ, pos, Result, ok, raise, ◌>>=◌, ◌==◌,
  nat_eq, list_eq, if◌then◌else◌,
}
use peer_memory.Prelude.Text.{Str, Bytes, codes}
use peer_memory.Wire.Frame.{WireError, read_frame, write_frame}
use peer_memory.Config.{max_frame_size}

-- What msgpack carries.
mutual
  pub data Value : Type 0 where
    nil_value : Value
    boolean : Bool → Value
    integer : ℤ → Value
    double binary : Bytes → Value
    text : Str → Value
    array : Values → Value
    dictionary : Fields → Value

  pub data Values : Type 0 where
    no_values : Values
    value_then : Value → Values → Values

  pub data Fields : Type 0 where
    no_fields : Fields
    field_then : Str → Value → Fields → Fields

-- fields.get(name)
unfoldable pub field_at : Fields → Str → Option Value
field_at no_fields name = none
field_at (field_then key value rest) name = if key == name then some value else field_at rest name

pub data MsgType : Type 0 where
  hello welcome auth store_block request_block block_data block_not_found set_key get_key
        key_found :
      MsgType
  ping pong quota_update nack free_block freed block_chunk stream_abort bye : MsgType

-- MsgType.value
unfoldable pub value_of : MsgType → Str
value_of hello = codes "Hello"
value_of welcome = codes "Welcome"
value_of auth = codes "Auth"
value_of store_block = codes "StoreBlock"
value_of request_block = codes "RequestBlock"
value_of block_data = codes "BlockData"
value_of block_not_found = codes "BlockNotFound"
value_of set_key = codes "SetKey"
value_of get_key = codes "GetKey"
value_of key_found = codes "KeyFound"
value_of ping = codes "Ping"
value_of pong = codes "Pong"
value_of quota_update = codes "QuotaUpdate"
value_of nack = codes "Nack"
value_of free_block = codes "FreeBlock"
value_of freed = codes "Freed"
value_of block_chunk = codes "BlockChunk"
value_of stream_abort = codes "StreamAbort"
value_of bye = codes "Bye"

abbrev pub all_types : List MsgType
all_types =
    hello ∷ welcome ∷ auth ∷ store_block ∷ request_block ∷ block_data ∷ block_not_found ∷ set_key
    ∷ get_key ∷ key_found ∷ ping ∷ pong ∷ quota_update ∷ nack ∷ free_block ∷ freed ∷ block_chunk
    ∷ stream_abort ∷ bye ∷ []

unfoldable pub find_type : List MsgType → Str → Option MsgType
find_type [] name = none
find_type (t ∷ ts) name = if value_of t == name then some t else find_type ts name

-- MsgType(name)
unfoldable pub type_named : Str → Option MsgType
type_named = find_type all_types

pub record Message : Type 0 where
  pub type : MsgType
  pub body : Value

-- What recv_message raises; `body_error` is the AttributeError of a body that is no map.
pub data MessageError : Type 0 where
  frame_error : WireError → MessageError
  unpack_error key_error type_error value_error body_error : MessageError

-- isinstance(value, int) holds of a bool, and True is 1.
unfoldable pub int_or_zero : Option Value → ℤ
int_or_zero none = pos 0
int_or_zero (some (integer i)) = i
int_or_zero (some (boolean true)) = pos 1
int_or_zero (some (boolean false)) = pos 0
int_or_zero (some nil_value) = pos 0
int_or_zero (some (double _)) = pos 0
int_or_zero (some (binary _)) = pos 0
int_or_zero (some (text _)) = pos 0
int_or_zero (some (array _)) = pos 0
int_or_zero (some (dictionary _)) = pos 0

unfoldable pub stream_id : Message → Result MessageError ℤ
stream_id msg = elim msg.body as (λ _. Result MessageError ℤ) [
  | dictionary fields ↦ ok (int_or_zero (field_at fields (codes "stream_id")))
  | _ ↦ raise body_error
]

-- The object that is packed.
unfoldable pub to_value : Message → Value
to_value msg = dictionary (
    field_then (codes "type") (text (value_of msg.type))
      (field_then (codes "body") msg.body no_fields))

-- MsgType(obj["type"])
unfoldable pub to_type : Option Value → Result MessageError MsgType
to_type none = raise key_error
to_type (some (text name)) = elim (type_named name) as (λ _. Result MessageError MsgType) [
  | none ↦ raise value_error
  | some t ↦ ok t
]
to_type (some _) = raise value_error

unfoldable pub from_value : Value → Result MessageError Message
from_value (dictionary fields) = to_type (field_at fields (codes "type")) >>= λ t. ok (record {
  type = t;
  body = elim (field_at fields (codes "body")) as (λ _. Value) [
    | none ↦ dictionary no_fields
    | some body ↦ body
  ];
})
from_value _ = raise type_error

-- msgpack.packb and msgpack.unpackb
pub record Codec : Type 0 where
  pub packb : Value → Bytes
  pub unpackb : Bytes → Option Value

module _ (codec : Codec) where
  unfoldable pub encode : Message → Bytes
  encode msg = codec.packb (to_value msg)

  unfoldable pub decode : Bytes → Result MessageError Message
  decode raw = elim (codec.unpackb raw) as (λ _. Result MessageError Message) [
    | none ↦ raise unpack_error
    | some value ↦ from_value value
  ]

  unfoldable pub send_message : Bytes → Message → Result WireError Bytes
  send_message writer msg = write_frame writer (encode msg)

  unfoldable pub recv_payload : Result WireError Bytes → Result MessageError Message
  recv_payload (raise e) = raise (frame_error e)
  recv_payload (ok raw) = decode raw

  unfoldable pub recv_message : Bytes → Bytes × Result MessageError Message
  recv_message reader =
      let (rest, raw) = read_frame reader max_frame_size in (rest, recv_payload raw)
