-- ===== src/Wire/Frames.antt =====
-- What a peer reads of the frames that were written to it.
use peer_memory.Prelude.{result_cases}
use peer_memory.Prelude.{
  ℕ, zero, suc, ◌%◌, ◌≤◌, ◌≡◌, refl, ap, ◌∙◌, inl, inr, true, false, List, [], ◌∷◌, ◌++◌, ltb, leb,
  nat_beq, nat_beq_iff, nat_eq, list_eq, Result, ok, raise, ◌>>=◌, length, All, arith,
}
use peer_memory.Prelude.Text.{Bytes}
use peer_memory.Prelude.{
  ◌/◌, take-append_left, drop-append_left, length-append, append_assoc, append-nil,
}
use peer_memory.Config.{max_frame_size}
use peer_memory.Wire.Frame.{
  WireError, pack_u32, unpack_u32, readexactly, closed_mid_frame, read_body, read_sized, read_after,
  read_frame, write_frame,
}

abbrev pub header : ℕ → Bytes
header n = n / 16777216 ∷ n / 65536 % 256 ∷ n / 256 % 256 ∷ n % 256 ∷ []

unpack_u32-header : (n : ℕ) → unpack_u32 (header n) ≡ ok n
unfolding unpack_u32
unpack_u32-header n = ap ok (omega arith)

-- A frame as it stands in a stream.
abbrev pub framed : Bytes → Bytes
framed payload = header (length payload) ++ payload

length-pos : (n : ℕ) → nat_beq n 0 ≡ true → (payload : Bytes) → length payload ≡ n → payload ≡ []
length-pos n z [] e = refl
length-pos n z (b ∷ payload) e = absurd (let f : ⊥ = ground (arith, z, e, nat_beq_iff n 0) in f)

readexactly-append :
    (content rest : Bytes) → readexactly (content ++ rest) (length content) ≡ (rest, ok content)
unfolding readexactly
readexactly-append content rest =
    let fits : leb (length content) (length (content ++ rest)) ≡ true =
      ground (arith, length-append content rest) in
    rw (fits, take-append_left content rest, drop-append_left content rest) refl

read_frame-header :
    (n : ℕ) (rest : Bytes) (max_size : ℕ)
    → read_frame (header n ++ rest) max_size ≡ read_sized rest max_size n
unfolding read_frame read_after
read_frame-header n rest max_size =
    let e : readexactly (header n ++ rest) 4 ≡ (rest, ok (header n)) =
      readexactly-append (header n) rest in
    rw (e, unpack_u32-header n) refl

read_sized-append :
    (payload rest : Bytes) (max_size : ℕ)
    → length payload ≤ max_size
    → read_sized (payload ++ rest) max_size (length payload) ≡ (rest, ok payload)
unfolding read_sized read_body closed_mid_frame
read_sized-append [] rest max_size fits = ground arith
read_sized-append (b ∷ payload) rest max_size fits =
    let small : ltb max_size (length (b ∷ payload)) ≡ false = ground (arith, fits) in
    let e = readexactly-append (b ∷ payload) rest in rw (small, e) (ground arith)

-- A frame is read back from the front of a stream, if the reader allows its size.
pub read_frame-framed :
    (payload rest : Bytes) (max_size : ℕ)
    → length payload ≤ max_size
    → read_frame (framed payload ++ rest) max_size ≡ (rest, ok payload)
read_frame-framed payload rest max_size fits =
    ap (λ r. read_frame r max_size) (append_assoc (header (length payload)) payload rest)
    ∙ read_frame-header (length payload) (payload ++ rest) max_size
    ∙ read_sized-append payload rest max_size fits

pub write_frame_lem :
    (writer payload written : Bytes)
    → write_frame writer payload ≡ ok written
    → (length payload ≤ max_frame_size) × (written ≡ writer ++ framed payload)
unfolding write_frame pack_u32
write_frame_lem writer payload written h = ground (arith, h)

-- Frames written one after the other, and as many reads.
unfoldable pub write_all : Bytes → List Bytes → Result WireError Bytes
write_all writer [] = ok writer
write_all writer (payload ∷ payloads) = write_frame writer payload >>= λ w. write_all w payloads

unfoldable pub prepend :
    Result WireError Bytes
    → Bytes × Result WireError (List Bytes)
    → Bytes
    → Bytes × Result WireError (List Bytes)
prepend (raise e) more rest = (rest, raise e)
prepend (ok payload) (end, more) rest = (end, more >>= λ payloads. ok (payload ∷ payloads))

unfoldable pub read_all : ℕ → Bytes → Bytes × Result WireError (List Bytes)
read_all zero reader = (reader, ok [])
read_all (suc k) reader =
    let (rest, first) = read_frame reader max_frame_size in prepend first (read_all k rest) rest

abbrev stream_of : List Bytes → Bytes
stream_of [] = []
stream_of (payload ∷ payloads) = framed payload ++ stream_of payloads

write_all_lem :
    (payloads : List Bytes) (writer written : Bytes)
    → write_all writer payloads ≡ ok written
    → All (λ payload. length payload ≤ max_frame_size) payloads
      × (written ≡ writer ++ stream_of payloads)
unfolding write_all
write_all_lem [] writer written h = (tt, ground (arith, h, append-nil writer))
write_all_lem (payload ∷ payloads) writer written h =
    elim (result_cases (write_frame writer payload)) [
      | inr (e, failed) ↦ absurd (let f : ⊥ = ground (arith, failed, h) in f)
      | inl (w, e) ↦
          let (fits, frame) = write_frame_lem writer payload w e in
          let (all, rest) = write_all_lem payloads w written (ground (arith, e, h)) in
          (
            (fits, all),
            rest
                ∙ ap (λ l. l ++ stream_of payloads) frame
                ∙ append_assoc writer (framed payload) (stream_of payloads),
          )
    ]

read_all-stream_of :
    (payloads : List Bytes) (rest : Bytes)
    → All (λ payload. length payload ≤ max_frame_size) payloads
    → read_all (length payloads) (stream_of payloads ++ rest) ≡ (rest, ok payloads)
unfolding read_all prepend
read_all-stream_of [] rest h = refl
read_all-stream_of (payload ∷ payloads) rest h =
    let e =
      ap (λ r. read_frame r max_frame_size)
        (append_assoc (framed payload) (stream_of payloads) rest)
      ∙ read_frame-framed payload (stream_of payloads ++ rest) max_frame_size h.0 in
    let m = read_all-stream_of payloads rest h.1 in rw (e, m) refl

-- What is written as frames is read back frame by frame, and nothing of what follows is taken.
pub read_all-write_all :
    (payloads : List Bytes) (written rest : Bytes)
    → write_all [] payloads ≡ ok written
    → read_all (length payloads) (written ++ rest) ≡ (rest, ok payloads)
read_all-write_all payloads written rest h =
    let (fits, e) = write_all_lem payloads [] written h in
    ap (λ w. read_all (length payloads) (w ++ rest)) e ∙ read_all-stream_of payloads rest fits
