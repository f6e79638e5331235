-- ===== src/Rpc/Turns.antt =====
-- The loop of memnode/rpc.py over a client's requests ends.
use peer_memory.Prelude.{
  ℕ, zero, suc, ◌+◌, ◌≤◌, ◌<◌, ◌≡◌, refl, ap, inl, inr, Bool, Option, none, some, [], ◌∷◌, ltb, leb,
  if◌then◌else◌, nat_eq, list_eq, Result, ok, raise, length, arith, Bool-cases,
}
use peer_memory.Prelude.Text.{Bytes}
use mathlib.Core.Path.{subst}
use peer_memory.Config.{max_rpc_message_size}
use peer_memory.Prelude.{◌>>=◌, result_cases, drop, length-drop}
use peer_memory.Wire.Frame.{WireError, readexactly, unpack_u32}
use peer_memory.Wire.Message.{
  Value, nil_value, boolean, integer, double, binary, text, array, dictionary, Fields,
}
use peer_memory.Rpc.Client.{
  ReadError, incomplete, value_error, other_error, Decoder, decoded, read_body, read_frame,
  response, Outcome, Turn, ended, served, proceed, decoder, turn, serve_requests,
}

readexactly-ok :
    (reader rest raw : Bytes) (n : ℕ)
    → readexactly reader n ≡ (rest, ok raw)
    → length rest + n ≤ length reader
unfolding readexactly
readexactly-ok reader rest raw n h = elim (Bool-cases (leb n (length reader))) [
  | inl enough ↦
      (let q : drop n reader ≡ rest = ground (arith, h, enough) in
        let s = ap length q in
        let e : n ≤ length reader = ground (arith, enough) in
        omega (arith, s, length-drop n reader, e))
  | inr short ↦ absurd (let f : ⊥ = ground (arith, h, short) in f)
]

decoded-ok :
    (decode : Decoder) (rest : Bytes) (r : Result WireError Bytes) (v : Value)
    → (decoded decode (rest, r)).1 ≡ ok v
    → (raw : Bytes) × (r ≡ ok raw) × ((decoded decode (rest, r)).0 ≡ rest)
unfolding decoded
decoded-ok decode rest (ok raw) v h = (raw, refl, refl)
decoded-ok decode rest (raise e) v h = absurd (let f : ⊥ = ground (arith, h) in f)

read_body-ok :
    (decode : Decoder) (reader : Bytes) (size : Result WireError ℕ) (v : Value)
    → (read_body decode reader size).1 ≡ ok v
    → length (read_body decode reader size).0 ≤ length reader
unfolding read_body
read_body-ok decode reader (raise e) v h = absurd (let f : ⊥ = ground (arith, h) in f)
read_body-ok decode reader (ok size) v h = elim (Bool-cases (ltb max_rpc_message_size size)) [
  | inl large ↦ rw large (omega arith)
  | inr fits ↦ rw fits (
      let again : (decoded decode (readexactly reader size)).1 ≡ ok v =
        subst
          (λ b.
            (if b then (reader, raise value_error) else decoded decode (readexactly reader size)).1
            ≡ ok v)
          fits h in
      let (raw, was, rest) =
        decoded-ok decode (readexactly reader size).0 (readexactly reader size).1 v again in
      let s =
        readexactly-ok reader (readexactly reader size).0 raw size
          (ap (λ r. ((readexactly reader size).0, r)) was) in
      let t = ap length rest in omega (arith, s, t))
]

-- What is left after a frame, and what its four bytes of length count where they were read with it.
abbrev taken : Option Bytes → ℕ
taken none = 4
taken (some _) = 0

taken-le : (pending : Option Bytes) → taken pending ≤ 4
taken-le none = omega arith
taken-le (some _) = omega arith

no_body :
    (decode : Decoder) (reader : Bytes) (e : WireError) (v : Value)
    → (read_body decode reader (raise e)).1 ≡ ok v
    → ⊥
unfolding read_body
no_body decode reader e v h = ground (arith, h)

read_frame-shorter :
    (decode : Decoder) (reader : Bytes) (pending : Option Bytes) (v : Value)
    → (read_frame decode reader pending).1 ≡ ok v
    → length (read_frame decode reader pending).0 + taken pending ≤ length reader
unfolding read_frame
read_frame-shorter decode reader (some prefix) v h =
    omega (arith, read_body-ok decode reader (unpack_u32 prefix) v h)
read_frame-shorter decode reader none v h = elim (result_cases (readexactly reader 4).1) [
  | inl (bytes, there) ↦
      (let s =
          readexactly-ok reader (readexactly reader 4).0 bytes 4
            (ap (λ r. ((readexactly reader 4).0, r)) there) in
        let t =
          read_body-ok decode (readexactly reader 4).0 ((readexactly reader 4).1 >>= unpack_u32) v
            h in
        omega (arith, s, t))
  | inr (e, gone) ↦ absurd (
      no_body decode (readexactly reader 4).0 e v (
        subst (λ r. (read_body decode (readexactly reader 4).0 (r >>= unpack_u32)).1 ≡ ok v) gone
          h))
]

abbrev rest_of : {S R : Type 0} → Turn S R → Bytes
rest_of (ended replies) = []
rest_of (served x rest) = rest

module _ {S R : Type 0} (serve : Bool → S → Fields → S × R) (json msgpack : Decoder) where
  -- A turn that served a request had read it.
  turn-served :
      (binary_codec : Bool) (st : S) (rest after : Bytes) (r : Result ReadError Value) (x : S × R)
      → turn serve json msgpack binary_codec st (rest, r) ≡ served x after
      → ((v : Value) × (r ≡ ok v)) × (rest ≡ after)
  unfolding turn
  turn-served binary_codec st rest after (ok (dictionary req)) x h =
      ((dictionary req, refl), ap rest_of h)
  turn-served binary_codec st rest after (ok nil_value) x h =
      absurd (let f : ⊥ = ground (arith, h) in f)
  turn-served binary_codec st rest after (ok (boolean _)) x h =
      absurd (let f : ⊥ = ground (arith, h) in f)
  turn-served binary_codec st rest after (ok (integer _)) x h =
      absurd (let f : ⊥ = ground (arith, h) in f)
  turn-served binary_codec st rest after (ok (double _)) x h =
      absurd (let f : ⊥ = ground (arith, h) in f)
  turn-served binary_codec st rest after (ok (binary _)) x h =
      absurd (let f : ⊥ = ground (arith, h) in f)
  turn-served binary_codec st rest after (ok (text _)) x h =
      absurd (let f : ⊥ = ground (arith, h) in f)
  turn-served binary_codec st rest after (ok (array _)) x h =
      absurd (let f : ⊥ = ground (arith, h) in f)
  turn-served binary_codec st rest after (raise incomplete) x h =
      absurd (let f : ⊥ = ground (arith, h) in f)
  turn-served binary_codec st rest after (raise value_error) x h =
      absurd (let f : ⊥ = ground (arith, h) in f)
  turn-served binary_codec st rest after (raise other_error) x h =
      absurd (let f : ⊥ = ground (arith, h) in f)

  proceed_congr :
      (f g : S → Bytes → Outcome S R) (st : S) (t : Turn S R)
      → ((x : S × R) (rest : Bytes) → t ≡ served x rest → f x.0 rest ≡ g x.0 rest)
      → proceed f st t ≡ proceed g st t
  unfolding proceed
  proceed_congr f g st (ended replies) h = refl
  proceed_congr f g st (served (st', r) rest) h =
      ap
        (λ (after : Outcome S R). record {
          state = after.state;
          replies = response r ∷ after.replies;
        })
        (h (st', r) rest refl)

  enough_fuel :
      (fuel more : ℕ) (binary_codec : Bool) (st : S) (reader : Bytes) (pending : Option Bytes)
      → length reader + 4 < fuel + taken pending
      → length reader + 4 < more + taken pending
      → serve_requests serve json msgpack fuel binary_codec st reader pending
        ≡ serve_requests serve json msgpack more binary_codec st reader pending
  unfolding serve_requests
  enough_fuel zero more binary_codec st reader pending h k =
      absurd (let q = taken-le pending in let f : ⊥ = omega (arith, h, q) in f)
  enough_fuel (suc fuel) zero binary_codec st reader pending h k =
      absurd (let q = taken-le pending in let f : ⊥ = omega (arith, k, q) in f)
  enough_fuel (suc fuel) (suc more) binary_codec st reader pending h k =
      let frame = read_frame (decoder serve json msgpack binary_codec) reader pending in
      proceed_congr (λ st' rest. serve_requests serve json msgpack fuel binary_codec st' rest none)
        (λ st' rest. serve_requests serve json msgpack more binary_codec st' rest none) st
        (turn serve json msgpack binary_codec st frame)
        (λ x rest e.
          let ((v, read), same) = turn-served binary_codec st frame.0 rest frame.1 x e in
          let s =
            read_frame-shorter (decoder serve json msgpack binary_codec) reader pending v read in
          let l = ap length same in
          enough_fuel fuel more binary_codec x.0 rest none (omega (arith, s, l, h))
            (omega (arith, s, l, k)))

-- The loop over a client's requests ends: however many turns more it is given, it does what it does in the turns that
-- handle_client gives it.
pub serve_requests_lem :
    {S R : Type 0} (serve : Bool → S → Fields → S × R) (json msgpack : Decoder) (more : ℕ)
    (binary_codec : Bool) (st : S) (reader : Bytes) (pending : Option Bytes)
    → serve_requests serve json msgpack (length reader + 5 + more) binary_codec st reader pending
      ≡ serve_requests serve json msgpack (length reader + 5) binary_codec st reader pending
serve_requests_lem serve json msgpack more binary_codec st reader pending =
    enough_fuel serve json msgpack (length reader + 5 + more) (length reader + 5) binary_codec st
      reader pending (omega arith) (omega arith)
