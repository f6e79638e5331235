-- ===== src/Tests/Framing.antt =====
-- The frames and messages of memnode/protocol.py on concrete bytes.
use peer_memory.Prelude.{
  ◌≡◌, refl, ◌+◌, ◌≤◌, ◌++◌, true, some, [], ◌∷◌, ok, raise, length, take, drop, pos, arith, nat_eq,
  list_eq,
}
use peer_memory.Prelude.Text.{Bytes, codes}
use peer_memory.Wire.Frame.{
  incomplete_read, frame_too_large, connection_closed, pack_u32, unpack_u32, readexactly,
  closed_mid_frame, read_body, read_sized, read_after, read_frame, write_frame,
}
use peer_memory.Wire.Frames.{write_all, read_all, framed, read_all-write_all}
use peer_memory.Wire.Limits.{read_frame-accepted, read_frame-refused}
use peer_memory.Wire.Message.{
  integer, boolean, text, no_fields, field_then, dictionary, Message, ping, Codec, field_at,
  int_or_zero, stream_id, to_value, encode, send_message, recv_message,
}
use peer_memory.Wire.Messages.{recv_message-send_message}

abbrev stream : Bytes
stream = 0 ∷ 0 ∷ 0 ∷ 2 ∷ 9 ∷ 8 ∷ 0 ∷ 0 ∷ 0 ∷ 0 ∷ 0 ∷ 0 ∷ 0 ∷ 1 ∷ 7 ∷ []

-- A size over the limit, an end in the header and an end in the body.
reads :
    (read_frame stream 100 ≡ (drop 6 stream, ok (9 ∷ 8 ∷ [])))
    × (read_frame stream 1 ≡ (drop 4 stream, raise frame_too_large))
    × (read_frame (0 ∷ 0 ∷ []) 100 ≡ ([], raise incomplete_read))
    × (read_frame (take 5 stream) 100 ≡ ([], raise connection_closed))
unfolding read_frame read_after read_sized read_body closed_mid_frame readexactly unpack_u32
reads = (refl, refl, refl, refl)

read_all-write_all_example :
    read_all 3 (stream ++ (5 ∷ [])) ≡ (5 ∷ [], ok ((9 ∷ 8 ∷ []) ∷ [] ∷ (7 ∷ []) ∷ []))
unfolding write_all write_frame pack_u32
read_all-write_all_example =
    read_all-write_all ((9 ∷ 8 ∷ []) ∷ [] ∷ (7 ∷ []) ∷ []) stream (5 ∷ []) refl

read_frame-accepted_example :
    (stream ≡ framed (9 ∷ 8 ∷ []) ++ (read_frame stream 100).0) × (2 ≤ 100)
unfolding read_frame read_after read_sized read_body closed_mid_frame readexactly unpack_u32
read_frame-accepted_example =
    read_frame-accepted stream (9 ∷ 8 ∷ []) 100
      (
        omega arith,
        (
          omega arith,
          (
            omega arith,
            (
              omega arith,
              (
                omega arith,
                (
                  omega arith,
                  (
                    omega arith,
                    (
                      omega arith,
                      (
                        omega arith,
                        (
                          omega arith,
                          (
                            omega arith,
                            (omega arith, (omega arith, (omega arith, (omega arith, tt)))),
                          ),
                        ),
                      ),
                    ),
                  ),
                ),
              ),
            ),
          ),
        ),
      )
      refl

read_frame-refused_example :
    (length stream ≤ length (read_frame stream 1).0 + (4 + 1))
    × ((read_frame stream 1).1 ≡ raise frame_too_large → (read_frame stream 1).0 ≡ drop 4 stream)
read_frame-refused_example = read_frame-refused stream 1

abbrev request : Message
request = record {
  type = ping;
  body = dictionary (field_then (codes "stream_id") (integer (pos 4)) no_fields);
}

-- True is the stream 1, and text is the control stream.
stream_ids :
    (stream_id request ≡ ok (pos 4))
    × (stream_id (record {
      type = ping;
      body = dictionary (field_then (codes "stream_id") (boolean true) no_fields);
    })
        ≡ ok (pos 1))
    × (stream_id (record {
      type = ping;
      body = dictionary (field_then (codes "stream_id") (text (codes "4")) no_fields);
    })
        ≡ ok (pos 0))
unfolding stream_id int_or_zero field_at
stream_ids = (refl, refl, refl)

-- A codec that is right for one message.
abbrev one_message : Codec
one_message = record { packb = λ v. 1 ∷ 2 ∷ 3 ∷ []; unpackb = λ raw. some (to_value request) }

recv_message-send_message_example :
    recv_message one_message (0 ∷ 0 ∷ 0 ∷ 3 ∷ 1 ∷ 2 ∷ 3 ∷ 77 ∷ []) ≡ (77 ∷ [], ok request)
unfolding send_message encode write_frame pack_u32
recv_message-send_message_example =
    recv_message-send_message one_message request (0 ∷ 0 ∷ 0 ∷ 3 ∷ 1 ∷ 2 ∷ 3 ∷ []) (77 ∷ []) refl
      refl
