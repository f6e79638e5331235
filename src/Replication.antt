-- ===== src/Replication.antt =====
-- memnode/replication.py: a payload in chunks, and the buffer that puts it together again.
--
-- Here are the chunks of one transfer: its slices and flags at the sender, its buffer at the receiver. Coordinator has the
-- messages around them.
pub mod Reassembly
pub mod Payload
pub mod Coordinator
pub mod Stores
pub mod Dispatch
pub mod Requests
pub mod Pushes
pub mod PushStart
pub mod Delivery
pub mod Pulls
pub mod Retrieval
pub mod Capped
pub mod Handlers
pub mod Bounded
use peer_memory.Prelude.{
  ℕ, zero, suc, ◌+◌, Bool, not, List, [], ◌∷◌, ◌++◌, ltb, leb, if◌then◌else◌, nat_eq, list_eq,
  length,
}
use peer_memory.Prelude.Text.{Bytes}
use peer_memory.Prelude.{take, drop}

-- The body of a BlockChunk message, without the ids of the transfer.
pub record Chunk : Type 0 where
  pub seq : ℕ
  pub chunk : Bytes
  pub final : Bool

-- The loop of _send_chunks() on what is left of the payload; `fuel` bounds the turns.
unfoldable pub pieces : ℕ → ℕ → ℕ → Bytes → List Chunk
pieces zero chunk_size seq rest = []
pieces (suc fuel) chunk_size seq [] = []
pieces (suc fuel) chunk_size seq (b ∷ bs) =
    let piece = take chunk_size (b ∷ bs) in
    record { seq = seq; chunk = piece; final = leb (length (b ∷ bs)) (length piece) }
    ∷ pieces fuel chunk_size (seq + 1) (drop chunk_size (b ∷ bs))

-- _send_chunks(): each turn takes at least one byte, so the length is enough fuel.
unfoldable pub split : ℕ → Bytes → List Chunk
split chunk_size content = pieces (length content) chunk_size 0 content

-- class _ChunkBuffer: the part that chunks change
pub record ChunkBuffer : Type 0 where
  pub total_size : ℕ
  pub parts : List Bytes
  pub received : ℕ

unfoldable pub open_buffer : ℕ → ChunkBuffer
open_buffer total_size = record { total_size = total_size; parts = []; received = 0 }

unfoldable pub add : ChunkBuffer → Bytes → ChunkBuffer
add buf chunk = record buf {
  received = buf.received + length chunk;
  parts = buf.parts ++ (chunk ∷ []);
}

unfoldable pub overrun : ChunkBuffer → Bool
overrun buf = ltb buf.total_size buf.received

unfoldable pub join : List Bytes → Bytes
join [] = []
join (part ∷ parts) = part ++ join parts

unfoldable pub assemble : ChunkBuffer → Bytes
assemble buf = join buf.parts

-- What _handle_chunk() does with the buffer of a transfer: it waits for more, drops it, or commits what it holds.
pub data Transfer : Type 0 where
  waiting : ChunkBuffer → Transfer
  overran : Transfer
  complete : Bytes → Transfer

unfoldable pub handle_chunk : ChunkBuffer → Chunk → Transfer
handle_chunk buf msg =
    let buf' = add buf msg.chunk in
    if overrun buf'
    then overran
    else if not msg.final
    then waiting buf'
    else complete (assemble buf')

-- The chunks of one transfer in order; what comes after it is over finds no buffer.
unfoldable pub handle_chunks : Transfer → List Chunk → Transfer
handle_chunks transfer [] = transfer
handle_chunks (waiting buf) (msg ∷ msgs) = handle_chunks (handle_chunk buf msg) msgs
handle_chunks overran (msg ∷ msgs) = overran
handle_chunks (complete content) (msg ∷ msgs) = complete content
