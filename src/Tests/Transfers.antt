-- ===== src/Tests/Transfers.antt =====
-- A transfer of memnode/replication.py in three chunks.
use peer_memory.Prelude.{◌≡◌, refl, [], ◌∷◌, true, false, arith}
use peer_memory.Prelude.Text.{Bytes}
use peer_memory.Replication.{
  pieces, split, open_buffer, add, overrun, waiting, overran, complete, handle_chunk, handle_chunks,
}
use peer_memory.Replication.Reassembly.{handle_chunks-split}

abbrev content : Bytes
content = 1 ∷ 2 ∷ 3 ∷ 4 ∷ 5 ∷ []

chunks :
    split 2 content
    ≡ record { seq = 0; chunk = 1 ∷ 2 ∷ []; final = false }
      ∷ record { seq = 1; chunk = 3 ∷ 4 ∷ []; final = false }
      ∷ record { seq = 2; chunk = 5 ∷ []; final = true }
      ∷ []
unfolding split pieces
chunks = refl

-- A sender that goes beyond the size it declared.
too_long : handle_chunks (waiting (open_buffer 3)) (split 2 content) ≡ overran
unfolding split pieces handle_chunks handle_chunk open_buffer add overrun
too_long = refl

handle_chunks-split_example :
    handle_chunks (waiting (open_buffer 5)) (split 2 content) ≡ complete content
handle_chunks-split_example = handle_chunks-split 2 content (omega arith) (omega arith)
