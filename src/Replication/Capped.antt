-- ===== src/Replication/Capped.antt =====
-- The reassembly buffers of memnode/replication.py stay within their bounds: the steps on the table of buffers.
use peer_memory.Prelude.{
  ℕ, ◌+◌, ◌≤◌, ◌≡◌, refl, sym, inl, inr, false, Option, none, some, List, [], ◌∷◌, ◌++◌, nat_eq,
  list_eq, length, arith, Bool-cases,
}
use peer_memory.Prelude.Dict.{
  Dict, get, put, remove, Distinct, total, at_key, put-Distinct, remove-Distinct, total-put,
  total-remove,
}
use peer_memory.Prelude.Text.{Str, Bytes}
use peer_memory.Prelude.{ℤ, option_eq}
use peer_memory.Config.{max_block_size, max_inbound_streams}
use peer_memory.Wire.Message.{Value}
use peer_memory.Replication.{Chunk, ChunkBuffer, open_buffer, waiting, handle_chunk}
use peer_memory.Prelude.{length-append, if_both}
use peer_memory.Prelude.Dict.{AllValues, put-AllValues, remove-AllValues}
use mathlib.Core.Path.{subst}
use peer_memory.Replication.{overrun, add, join, assemble}
use peer_memory.Replication.Coordinator.{
  failed_pull, pull_size, Mode, store_mode, pull_mode, Buffer, Pull, Coordinator, settle,
  settle_popped, drop_buffer, drop_stale, stale, gc_buffers, add_pull, open_pull_buffer,
  abort_buffer,
}

abbrev pub push_count : Mode → ℕ
push_count (store_mode _ _) = 1
push_count pull_mode = 0

abbrev pub is_push : Buffer → ℕ
is_push buf = push_count buf.mode

abbrev pub bytes_in : Mode → ChunkBuffer → ℕ
bytes_in (store_mode _ _) contents = length (assemble contents)
bytes_in pull_mode contents = 0

-- The bytes that a push holds.
abbrev pub held : Buffer → ℕ
held buf = bytes_in buf.mode buf.contents

-- The counter is the bytes that came, and they are within what was declared and accepted.
abbrev pub Fits : Mode → ChunkBuffer → Type 0
Fits pull_mode contents = Unit
Fits (store_mode _ _) contents =
    (length (assemble contents) ≡ contents.received)
    × (contents.received ≤ contents.total_size)
    × (contents.total_size ≤ max_block_size)

abbrev pub Small : Buffer → Type 0
Small buf = Fits buf.mode buf.contents

pub record Capped (d : Dict (Option Str) Buffer) : Type 0 where
  pub distinct : Distinct d
  pub small : AllValues Small d
  pub few : total is_push d ≤ max_inbound_streams

push_count-le : (mode : Mode) → push_count mode ≤ 1
push_count-le (store_mode _ _) = omega arith
push_count-le pull_mode = omega arith

pub total-length : (d : Dict (Option Str) Buffer) → total is_push d ≤ length d
total-length [] = omega arith
total-length ((k, buf) ∷ d) = omega (arith, push_count-le buf.mode, total-length d)

pub remove-Capped : (d : Dict (Option Str) Buffer) (k : Option Str) → Capped d → Capped (remove d k)
remove-Capped d k h = record {
  distinct = remove-Distinct d k h.distinct;
  small = remove-AllValues Small d k h.small;
  few = omega (arith, total-remove is_push d k h.distinct, h.few);
}

pub put-Capped :
    (d : Dict (Option Str) Buffer) (k : Option Str) (buf : Buffer)
    → Capped d
    → Small buf
    → is_push buf + total is_push d ≤ max_inbound_streams + at_key is_push (get d k)
    → Capped (put d k buf)
put-Capped d k buf h small few = record {
  distinct = put-Distinct d k buf h.distinct;
  small = put-AllValues Small d k buf small h.small;
  few = omega (arith, total-put is_push d k buf, few);
}

join-length :
    (parts : List Bytes) (chunk : Bytes)
    → length (join (parts ++ (chunk ∷ []))) ≡ length (join parts) + length chunk
unfolding join
join-length [] chunk = omega (arith, length-append chunk [])
join-length (part ∷ parts) chunk = omega (
  arith,
  length-append part (join (parts ++ (chunk ∷ []))),
  length-append part (join parts),
  join-length parts chunk,
)

add-Fits :
    (durability : Option Value) (key : Option Str) (contents : ChunkBuffer) (chunk : Bytes)
    → Fits (store_mode durability key) contents
    → overrun (add contents chunk) ≡ false
    → Fits (store_mode durability key) (add contents chunk)
unfolding add overrun assemble
add-Fits durability key contents chunk h room =
    (omega (arith, join-length contents.parts chunk, h.0), ground (arith, room), h.2)

handle_chunk-waiting :
    (contents after : ChunkBuffer) (chunk : Chunk)
    → handle_chunk contents chunk ≡ waiting after
    → (add contents chunk.chunk ≡ after) × (overrun (add contents chunk.chunk) ≡ false)
unfolding handle_chunk
handle_chunk-waiting contents after chunk h =
    elim (Bool-cases (overrun (add contents chunk.chunk))) [
      | inl over ↦ absurd (let f : ⊥ = ground (arith, h, over) in f)
      | inr room ↦ (
        elim (Bool-cases chunk.final) [
          | inl last ↦ absurd (let f : ⊥ = ground (arith, h, room, last) in f)
          | inr more ↦
              (let q : add contents chunk.chunk ≡ after = ground (arith, h, room, more) in q)
        ],
        room,
      )
    ]

-- A chunk that leaves the buffer waiting keeps it within its size.
pub handle_chunk-Fits :
    (mode : Mode) (contents after : ChunkBuffer) (chunk : Chunk)
    → Fits mode contents
    → handle_chunk contents chunk ≡ waiting after
    → Fits mode after
handle_chunk-Fits pull_mode contents after chunk h e = tt
handle_chunk-Fits (store_mode durability key) contents after chunk h e =
    let (same, room) = handle_chunk-waiting contents after chunk e in
    subst (Fits (store_mode durability key)) same
      (add-Fits durability key contents chunk.chunk h room)

abbrev pub CappedIn : Coordinator → Type 0
CappedIn c = Capped c.buffers

pub settle-buffers :
    (c : Coordinator) (k : Option Str) (mode : Mode) (outcome : Pull)
    → (settle c k mode outcome).buffers ≡ c.buffers
unfolding settle
settle-buffers c k (store_mode _ _) outcome = refl
settle-buffers c k pull_mode outcome = refl

settle_popped-buffers :
    (c : Coordinator) (k : Option Str) (buf : Option Buffer) (outcome : Pull)
    → (settle_popped c k buf outcome).buffers ≡ c.buffers
unfolding settle_popped
settle_popped-buffers c k none outcome = refl
settle_popped-buffers c k (some buf) outcome = settle-buffers c k buf.mode outcome

drop_buffer-Capped : (c : Coordinator) (k : Option Str) → CappedIn c → CappedIn (drop_buffer c k)
unfolding drop_buffer
drop_buffer-Capped c k h =
    subst Capped
      (sym (
        settle_popped-buffers (record c { buffers = remove c.buffers k }) k (get c.buffers k)
          failed_pull))
      (remove-Capped c.buffers k h)

pub drop_stale-Capped :
    (c : Coordinator) (ks : List (Option Str)) → CappedIn c → CappedIn (drop_stale c ks).0
unfolding drop_stale
drop_stale-Capped c [] h = h
drop_stale-Capped c (none ∷ ks) h = remove-Capped c.buffers none h
drop_stale-Capped c (some k ∷ ks) h =
    drop_stale-Capped (drop_buffer c (some k)) ks (drop_buffer-Capped c (some k) h)

add_pull-Capped :
    (now : ℕ) (c : Coordinator) (peer : Str) (k : Option Str) (size : Option ℤ)
    → CappedIn c
    → CappedIn (add_pull now c peer k size)
unfolding add_pull
add_pull-Capped now c peer k size h =
    put-Capped c.buffers k
      (record {
        mode = pull_mode;
        contents = open_buffer (pull_size size);
        started_at = now;
        peer = peer;
      })
      h tt (omega (arith, h.few))

pub open_pull_buffer-Capped :
    (now : ℕ) (c : Coordinator) (peer : Str) (k : Option Str) (size : Option ℤ)
    → CappedIn c
    → CappedIn (open_pull_buffer now c peer k size).0
unfolding open_pull_buffer gc_buffers
open_pull_buffer-Capped now c peer k size h =
    let c' = (drop_stale c (stale now c.buffers)).0 in
    let h' = drop_stale-Capped c (stale now c.buffers) h in
    if_both CappedIn (drop_stale c (stale now c.buffers)).1 (add_pull-Capped now c' peer k size h')
      h'

pub abort_buffer-Capped :
    (c : Coordinator) (k : Option Str) → CappedIn c → CappedIn (abort_buffer c k)
unfolding abort_buffer
abort_buffer-Capped c none h = h
abort_buffer-Capped c (some k) h = drop_buffer-Capped c (some k) h
