-- ===== src/Wire/Frame.antt =====
-- memnode/protocol.py: read_frame and write_frame.
--
-- A reader is what the peer sends until it closes, as `readexactly` meets it; a writer is what was written to it.
use peer_memory.Prelude.{
  ℕ, ◌+◌, ◌%◌, [], ◌∷◌, ◌++◌, ltb, leb, nat_beq, if◌then◌else◌, nat_eq, list_eq, Result, ok, raise,
  ◌>>=◌, length,
}
use peer_memory.Prelude.Text.{Bytes}
use peer_memory.Prelude.{take, drop, ◌*◌, ◌/◌, ◌^◌}
use peer_memory.Config.{max_frame_size}

pub data WireError : Type 0 where
  incomplete_read frame_too_large connection_closed struct_error : WireError

-- struct.pack(">I", n)
unfoldable pub pack_u32 : ℕ → Result WireError Bytes
pack_u32 n =
    if ltb n (2 ^ 32)
    then ok (n / 16777216 ∷ n / 65536 % 256 ∷ n / 256 % 256 ∷ n % 256 ∷ [])
    else raise struct_error

-- struct.unpack(">I", content)
unfoldable pub unpack_u32 : Bytes → Result WireError ℕ
unpack_u32 (a ∷ b ∷ c ∷ d ∷ []) = ok (((a * 256 + b) * 256 + c) * 256 + d)
unpack_u32 _ = raise struct_error

-- reader.readexactly(n): the rest of the stream, and n bytes of it, or all of it is gone.
unfoldable pub readexactly : Bytes → ℕ → Bytes × Result WireError Bytes
readexactly reader n =
    if leb n (length reader)
    then (drop n reader, ok (take n reader))
    else ([], raise incomplete_read)

-- The body of a frame: an early end is the peer's doing.
unfoldable pub closed_mid_frame : Result WireError Bytes → Result WireError Bytes
closed_mid_frame (ok payload) = ok payload
closed_mid_frame (raise _) = raise connection_closed

unfoldable pub read_body : Bytes → ℕ → Bytes × Result WireError Bytes
read_body reader n = let (rest, content) = readexactly reader n in (rest, closed_mid_frame content)

unfoldable pub read_sized : Bytes → ℕ → ℕ → Bytes × Result WireError Bytes
read_sized reader max_size n =
    if ltb max_size n
    then (reader, raise frame_too_large)
    else if nat_beq n 0
    then (reader, ok [])
    else read_body reader n

-- What follows the first four bytes, where these were there.
unfoldable pub read_after : Bytes → ℕ → Result WireError ℕ → Bytes × Result WireError Bytes
read_after rest max_size (raise e) = (rest, raise e)
read_after rest max_size (ok n) = read_sized rest max_size n

unfoldable pub read_frame : Bytes → ℕ → Bytes × Result WireError Bytes
read_frame reader max_size =
    let (rest, len_bytes) = readexactly reader 4 in
    read_after rest max_size (len_bytes >>= unpack_u32)

unfoldable pub write_frame : Bytes → Bytes → Result WireError Bytes
write_frame writer payload =
    if ltb max_frame_size (length payload)
    then raise frame_too_large
    else pack_u32 (length payload) >>= λ header. ok (writer ++ (header ++ payload))
