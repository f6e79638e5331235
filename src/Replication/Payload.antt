-- ===== src/Replication/Payload.antt =====
-- memnode/replication.py: what the coordinator reads out of a message body.
--
-- The code keeps a req_id or a key of any type. The model is of bodies where both are text, null or absent, which are those that
-- this code writes (`is_named`): of the others nothing is said, and `text_of` reads them as absent.
use peer_memory.Prelude.{
  ℕ, zero, suc, ◌+◌, ◌-◌, Bool, true, false, not, ◌&&◌, ◌||◌, Option, none, some, [], ◌∷◌, ◌++◌,
  leb, if◌then◌else◌, nat_eq, list_eq, ◌==◌,
}
use peer_memory.Prelude.Text.{Str, Bytes}
use peer_memory.Prelude.{ℤ, pos, negsuc, ◌*◌}
use peer_memory.Prelude.Text.{codes}
use peer_memory.Wire.Message.{
  Value, nil_value, boolean, integer, double, binary, text, array, dictionary, no_values,
  value_then, Fields, no_fields, field_then, field_at,
}
use peer_memory.Blocks.State.{Durability, pinned, cache}

-- The value of a hexadecimal digit.
unfoldable pub hex_digit : ℕ → Option ℕ
hex_digit c =
    if leb 48 c && leb c 57
    then some (c - 48)
    else if leb 97 c && leb c 102
    then some (c - 87)
    else if leb 65 c && leb c 70
    then some (c - 55)
    else none

-- ASCII whitespace
unfoldable pub is_space : ℕ → Bool
is_space c = c == 32 || leb 9 c && leb c 13

unfoldable pub hex_byte : Option ℕ → Option ℕ → Option Bytes → Option Bytes
hex_byte (some high) (some low) (some rest) = some ((16 * high + low) ∷ rest)
hex_byte _ _ _ = none

-- bytes.fromhex(), which skips whitespace between the bytes; none where it raises ValueError
unfoldable pub from_hex : Str → Option Bytes
from_hex [] = some []
from_hex (c ∷ []) = if is_space c then some [] else none
from_hex (c ∷ d ∷ rest) =
    let skipped = from_hex (d ∷ rest) in
    let tail = from_hex rest in
    if is_space c then skipped else hex_byte (hex_digit c) (hex_digit d) tail

unfoldable pub hex_payload : Option Value → Option Bytes
hex_payload (some (text digits)) = from_hex digits
hex_payload _ = none

unfoldable pub payload : Option Value → Option Value → Option Bytes
payload (some (binary content)) hex_value = some content
payload _ hex_value = hex_payload hex_value

-- extract_payload(body, key), which every caller gives one key
unfoldable pub extract_payload : Fields → Str → Option Bytes
extract_payload body key = payload (field_at body key) (field_at body (key ++ codes "_hex"))

unfoldable pub any_nonzero : Bytes → Bool
any_nonzero [] = false
any_nonzero (b ∷ bs) = not (b == 0) || any_nonzero bs

-- A double is zero if its bytes are, its sign apart.
unfoldable pub nonzero_double : Bytes → Bool
nonzero_double [] = false
nonzero_double (b ∷ bs) = not (b == 0) && not (b == 128) || any_nonzero bs

-- The truth of body.get(...)
unfoldable pub truth : Option Value → Bool
truth none = false
truth (some nil_value) = false
truth (some (boolean b)) = b
truth (some (integer (pos zero))) = false
truth (some (integer (pos (suc n)))) = true
truth (some (integer (negsuc n))) = true
truth (some (double bytes)) = nonzero_double bytes
truth (some (binary [])) = false
truth (some (binary (b ∷ bs))) = true
truth (some (text [])) = false
truth (some (text (c ∷ cs))) = true
truth (some (array no_values)) = false
truth (some (array (value_then v vs))) = true
truth (some (dictionary no_fields)) = false
truth (some (dictionary (field_then k v rest))) = true

-- body.get(...) is text, null or absent.
unfoldable pub is_name : Option Value → Bool
is_name none = true
is_name (some nil_value) = true
is_name (some (text _)) = true
is_name (some _) = false

-- The bodies that are modelled: one that is no map raises whatever is in it.
unfoldable pub is_named : Value → Bool
is_named (dictionary body) =
    is_name (field_at body (codes "req_id")) && is_name (field_at body (codes "key"))
is_named _ = true

-- body.get(...) of a field that is text, null or absent: see `is_name`
unfoldable pub text_of : Option Value → Option Str
text_of (some (text t)) = some t
text_of _ = none

-- body.get("total_size", 0), where isinstance(..., int) holds
unfoldable pub size_value : Option Value → Option ℤ
size_value none = some (pos 0)
size_value (some (integer i)) = some i
size_value (some (boolean b)) = some (if b then pos 1 else pos 0)
size_value (some _) = none

-- Durability(body.get("durability", "cache")); none where it raises ValueError
unfoldable pub durability_of : Option Value → Option Durability
durability_of none = some cache
durability_of (some (text t)) =
    if t == codes "pinned" then some pinned else if t == codes "cache" then some cache else none
durability_of (some _) = none

-- Durability.value
unfoldable pub durability_value : Durability → Value
durability_value pinned = text (codes "pinned")
durability_value cache = text (codes "cache")

-- body.get("block_id"): absent, an id, or a value for which load() and free() find no block or raise TypeError
pub data BlockRef : Type 0 where
  absent unknown : BlockRef
  id_of : ℕ → BlockRef

unfoldable pub block_ref : Option Value → BlockRef
block_ref none = absent
block_ref (some nil_value) = absent
block_ref (some (integer (pos n))) = id_of n
block_ref (some (boolean b)) = id_of (if b then 1 else 0)
block_ref (some _) = unknown
