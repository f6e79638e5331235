-- ===== src/Replication/Reassembly.antt =====
-- A payload of memnode/replication.py through its chunks.
use peer_memory.Prelude.{
  ℕ, zero, suc, ◌+◌, ◌≤◌, ◌<◌, ◌≡◌, refl, sym, ap, ◌∙◌, inl, inr, false, List, [], ◌∷◌, ◌++◌, ltb,
  leb, nat_eq, list_eq, length, arith, Bool-cases,
}
use peer_memory.Prelude.Text.{Bytes}
use peer_memory.Prelude.{
  take, drop, length-take, length-drop, take-append-drop, append_assoc, append-nil,
}
use peer_memory.Replication.{
  Chunk, pieces, split, ChunkBuffer, open_buffer, add, overrun, join, assemble, waiting, complete,
  handle_chunk, handle_chunks,
}

join-append :
    (parts : List Bytes) (chunk : Bytes) → join (parts ++ (chunk ∷ [])) ≡ join parts ++ chunk
unfolding join
join-append [] chunk = append-nil chunk
join-append (part ∷ parts) chunk =
    ap (λ l. part ++ l) (join-append parts chunk) ∙ sym (append_assoc part (join parts) chunk)

stays_complete :
    (content : Bytes) (msgs : List Chunk) → handle_chunks (complete content) msgs ≡ complete content
unfolding handle_chunks
stays_complete content [] = refl
stays_complete content (msg ∷ msgs) = refl

-- A buffer in the middle of a payload: it has all but `rest`.
record Holds (buf : ChunkBuffer) (content rest : Bytes) : Type 0 where
  whole : assemble buf ++ rest ≡ content
  size : buf.received + length rest ≡ buf.total_size

add-Holds :
    (buf : ChunkBuffer) (content rest : Bytes) (n : ℕ)
    → Holds buf content rest
    → Holds (add buf (take n rest)) content (drop n rest)
unfolding add assemble
add-Holds buf content rest n h = record {
  whole =
      ap (λ l. l ++ drop n rest) (join-append buf.parts (take n rest))
      ∙ append_assoc (join buf.parts) (take n rest) (drop n rest)
      ∙ ap (λ l. join buf.parts ++ l) (take-append-drop n rest)
      ∙ h.whole;
  size = omega (arith, h.size, length-take n rest, length-drop n rest);
}

empty_lem : (xs : Bytes) → length xs ≡ 0 → xs ≡ []
empty_lem [] e = refl
empty_lem (x ∷ xs) e = absurd (let f : ⊥ = omega (arith, e) in f)

pieces-complete :
    (fuel n seq : ℕ) (buf : ChunkBuffer) (content rest : Bytes)
    → 0 < n
    → 0 < length rest
    → length rest ≤ fuel
    → Holds buf content rest
    → handle_chunks (waiting buf) (pieces fuel n seq rest) ≡ complete content
unfolding pieces handle_chunks handle_chunk overrun add
pieces-complete zero n seq buf content rest some_n some_rest enough h =
    absurd (let f : ⊥ = omega (arith, some_rest, enough) in f)
pieces-complete (suc fuel) n seq buf content [] some_n some_rest enough h =
    absurd (let f : ⊥ = omega (arith, some_rest) in f)
pieces-complete (suc fuel) n seq buf content (b ∷ bs) some_n some_rest enough h =
    let rest = b ∷ bs in
    let k = add-Holds buf content rest n h in
    let buf' = add buf (take n rest) in
    let fits : ltb buf.total_size (buf.received + length (take n rest)) ≡ false =
      ground (arith, h.size, length-take n rest) in
    elim (Bool-cases (leb (length rest) (length (take n rest)))) [
      | inl last ↦
          let gone : drop n rest ≡ [] =
            empty_lem (drop n rest)
              (ground (arith, last, length-take n rest, length-drop n rest)) in
          let all : assemble buf' ≡ content =
            sym (append-nil (assemble buf')) ∙ ap (λ l. assemble buf' ++ l) (sym gone) ∙ k.whole in
          let q : handle_chunk buf (record {
            seq = seq;
            chunk = take n rest;
            final = leb (length rest) (length (take n rest));
          })
              ≡ complete (assemble buf') =
            rw (fits, last) refl in
          ap (λ t. handle_chunks t (pieces fuel n (seq + 1) (drop n rest))) q
          ∙ stays_complete (assemble buf') (pieces fuel n (seq + 1) (drop n rest))
          ∙ ap complete all
      | inr more ↦
          let q : handle_chunk buf (record {
            seq = seq;
            chunk = take n rest;
            final = leb (length rest) (length (take n rest));
          })
              ≡ waiting buf' =
            rw (fits, more) refl in
          ap (λ t. handle_chunks t (pieces fuel n (seq + 1) (drop n rest))) q
          ∙ pieces-complete fuel n (seq + 1) buf' content (drop n rest) some_n
              (ground (arith, more, length-take n rest, length-drop n rest))
              (omega (arith, length-drop n rest, enough, some_n)) k
    ]

-- A payload that is not empty arrives whole: the receiver's buffer, opened for its size, never overruns and commits
-- exactly the payload on the last chunk, for every chunk size above 0.
pub handle_chunks-split :
    (chunk_size : ℕ) (content : Bytes)
    → 0 < chunk_size
    → 0 < length content
    → handle_chunks (waiting (open_buffer (length content))) (split chunk_size content)
      ≡ complete content
unfolding split open_buffer assemble join
handle_chunks-split chunk_size content some_size some_content =
    pieces-complete (length content) chunk_size 0 (open_buffer (length content)) content content
      some_size some_content (omega arith) (record { whole = refl; size = omega arith })
