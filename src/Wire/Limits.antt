-- ===== src/Wire/Limits.antt =====
-- What memnode/protocol.py takes from a peer that sends anything at all.
use peer_memory.Prelude.{result_cases}
use peer_memory.Prelude.{
  ℕ, ◌+◌, ◌%◌, ◌≤◌, ◌<◌, ◌≡◌, refl, sym, ap, ◌∙◌, inl, inr, [], ◌∷◌, ◌++◌, ltb, leb, nat_beq,
  nat_eq, list_eq, Result, ok, raise, ◌>>=◌, length, All, arith, Bool-cases,
}
use peer_memory.Prelude.Text.{Bytes}
use mathlib.Core.Path.{subst}
use peer_memory.Prelude.{
  take, drop, ◌*◌, ◌/◌, length-drop, length-take, take-append-drop, append_assoc,
}
use peer_memory.Wire.Frame.{
  WireError, incomplete_read, frame_too_large, struct_error, unpack_u32, readexactly,
  closed_mid_frame, read_body, read_sized, read_after, read_frame,
}
use peer_memory.Wire.Frames.{header, framed}

-- How many bytes a call of readexactly(n) takes, and what it gives.
taken_lem : (reader : Bytes) (n : ℕ) → length reader ≤ length (readexactly reader n).0 + n
unfolding readexactly
taken_lem reader n = ground (arith, length-drop n reader)

taken_back :
    (reader content : Bytes) (n : ℕ)
    → (readexactly reader n).1 ≡ ok content
    → (reader ≡ content ++ (readexactly reader n).0) × (length content ≡ n)
unfolding readexactly
taken_back reader content n h = elim (Bool-cases (leb n (length reader))) [
  | inl fits ↦
      let e : take n reader ≡ content = ground (arith, h, fits) in
      (
        sym (take-append-drop n reader) ∙ rw (fits, e) refl,
        ground (arith, length-take n reader, e, fits),
      )
  | inr short ↦ absurd (let f : ⊥ = ground (arith, h, short) in f)
]

read_body-taken : (reader : Bytes) (n : ℕ) → length reader ≤ length (read_body reader n).0 + n
unfolding read_body
read_body-taken reader n = taken_lem reader n

read_sized-taken :
    (reader : Bytes) (max_size n : ℕ)
    → length reader ≤ length (read_sized reader max_size n).0 + max_size
unfolding read_sized
read_sized-taken reader max_size n = ground (arith, read_body-taken reader n)

read_after-taken :
    (rest : Bytes) (max_size : ℕ) (r : Result WireError ℕ)
    → length rest ≤ length (read_after rest max_size r).0 + max_size
unfolding read_after
read_after-taken rest max_size (raise e) = omega arith
read_after-taken rest max_size (ok n) = read_sized-taken rest max_size n

read_frame-taken :
    (reader : Bytes) (max_size : ℕ)
    → length reader ≤ length (read_frame reader max_size).0 + (4 + max_size)
unfolding read_frame
read_frame-taken reader max_size = omega (
  arith,
  taken_lem reader 4,
  read_after-taken (readexactly reader 4).0 max_size ((readexactly reader 4).1 >>= unpack_u32),
)

refused_at_once :
    (rest : Bytes) (max_size n : ℕ)
    → (read_sized rest max_size n).1 ≡ raise frame_too_large
    → (read_sized rest max_size n).0 ≡ rest
unfolding read_sized read_body readexactly closed_mid_frame
refused_at_once rest max_size n h = ground (arith, h)

-- The bytes that Python knows.
abbrev pub AreBytes : Bytes → Type 0
AreBytes = All (λ b. b < 256)

header-unpack_u32 :
    (content : Bytes) (n : ℕ) → AreBytes content → unpack_u32 content ≡ ok n → content ≡ header n
unfolding unpack_u32
header-unpack_u32 (a ∷ b ∷ c ∷ d ∷ []) n (ha, (hb, (hc, (hd, _)))) h =
    let e : ((a * 256 + b) * 256 + c) * 256 + d ≡ n = ground (arith, h) in
    let pa : a ≡ n / 16777216 = omega arith in
    let pb : b ≡ n / 65536 % 256 = omega arith in
    let pc : c ≡ n / 256 % 256 = omega arith in
    let pd : d ≡ n % 256 = omega arith in rw (← pa, ← pb, ← pc, ← pd) refl
header-unpack_u32 [] n _ h = absurd (let f : ⊥ = ground (arith, h) in f)
header-unpack_u32 (a ∷ []) n _ h = absurd (let f : ⊥ = ground (arith, h) in f)
header-unpack_u32 (a ∷ b ∷ []) n _ h = absurd (let f : ⊥ = ground (arith, h) in f)
header-unpack_u32 (a ∷ b ∷ c ∷ []) n _ h = absurd (let f : ⊥ = ground (arith, h) in f)
header-unpack_u32 (a ∷ b ∷ c ∷ d ∷ x ∷ more) n _ h = absurd (let f : ⊥ = ground (arith, h) in f)

take-AreBytes : (xs ys : Bytes) → AreBytes (xs ++ ys) → AreBytes xs
take-AreBytes [] ys h = tt
take-AreBytes (x ∷ xs) ys h = (h.0, take-AreBytes xs ys h.1)

closed-ok :
    (r : Result WireError Bytes) (payload : Bytes)
    → closed_mid_frame r ≡ ok payload
    → r ≡ ok payload
unfolding closed_mid_frame
closed-ok (ok p) payload h = h
closed-ok (raise e) payload h = absurd (let f : ⊥ = ground (arith, h) in f)

read_sized-accepted :
    (rest payload : Bytes) (max_size n : ℕ)
    → (read_sized rest max_size n).1 ≡ ok payload
    → (rest ≡ payload ++ (read_sized rest max_size n).0) × (length payload ≡ n) × (n ≤ max_size)
unfolding read_sized read_body
read_sized-accepted rest payload max_size n h = elim (Bool-cases (ltb max_size n)) [
  | inl large ↦ absurd (let f : ⊥ = ground (arith, h, large) in f)
  | inr small ↦ elim (Bool-cases (nat_beq n 0)) [
    | inl z ↦
        (let e : payload ≡ [] = ground (arith, h, small, z) in
          rw (small, z, e) (refl, ground arith, ground arith))
    | inr more ↦
        let q : (readexactly rest n).1 ≡ ok payload =
          closed-ok (readexactly rest n).1 payload (ground (arith, h, small, more)) in
        let (back, len) = taken_back rest payload n q in rw (small, more) (back, len, ground arith)
  ]
]

-- A frame that a reader accepts: its header, its payload and nothing else were taken, and the header is the one that a
-- writer puts before the payload.
pub read_frame-accepted :
    (reader payload : Bytes) (max_size : ℕ)
    → AreBytes reader
    → (read_frame reader max_size).1 ≡ ok payload
    → (reader ≡ framed payload ++ (read_frame reader max_size).0) × (length payload ≤ max_size)
unfolding read_frame read_after
read_frame-accepted reader payload max_size bytes h = elim (result_cases (readexactly reader 4).1) [
  | inr (e, failed) ↦ absurd (let f : ⊥ = ground (arith, h, failed) in f)
  | inl (content, e) ↦ elim (result_cases (unpack_u32 content)) [
    | inr (x, failed) ↦ absurd (let f : ⊥ = ground (arith, h, e, failed) in f)
    | inl (n, u) ↦
        let rest = (readexactly reader 4).0 in
        let (back, _) = taken_back reader content 4 e in
        let k : AreBytes content = take-AreBytes content rest (subst AreBytes back bytes) in
        let c = header-unpack_u32 content n k u in
        let f : read_frame reader max_size ≡ read_sized rest max_size n = rw (e, u) refl in
        let (body, len, small) =
          read_sized-accepted rest payload max_size n
            (ap (λ (r : Bytes × Result WireError Bytes). r.1) (sym f) ∙ h) in
        let tail = (read_sized rest max_size n).0 in
        rw (e, u)
          (
            back
                ∙ ap (λ l. l ++ rest) c
                ∙ ap (λ l. header n ++ l) body
                ∙ ap (λ m. header m ++ (payload ++ tail)) (sym len)
                ∙ sym (append_assoc (header (length payload)) payload tail),
            omega (arith, len, small),
          )
  ]
]

readexactly-raise :
    (reader : Bytes) (n : ℕ) (e : WireError)
    → (readexactly reader n).1 ≡ raise e
    → e ≡ incomplete_read
unfolding readexactly
readexactly-raise reader n e h = ground (arith, h)

readexactly-rest :
    (reader content : Bytes) (n : ℕ)
    → (readexactly reader n).1 ≡ ok content
    → (readexactly reader n).0 ≡ drop n reader
unfolding readexactly
readexactly-rest reader content n h = ground (arith, h)

unpack_u32-raise :
    (content : Bytes) (e : WireError) → unpack_u32 content ≡ raise e → e ≡ struct_error
unfolding unpack_u32
unpack_u32-raise [] e h = ground (arith, h)
unpack_u32-raise (a ∷ []) e h = ground (arith, h)
unpack_u32-raise (a ∷ b ∷ []) e h = ground (arith, h)
unpack_u32-raise (a ∷ b ∷ c ∷ []) e h = ground (arith, h)
unpack_u32-raise (a ∷ b ∷ c ∷ d ∷ []) e h = absurd (let f : ⊥ = ground (arith, h) in f)
unpack_u32-raise (a ∷ b ∷ c ∷ d ∷ x ∷ more) e h = ground (arith, h)

refused_header :
    (reader : Bytes) (max_size : ℕ)
    → (read_frame reader max_size).1 ≡ raise frame_too_large
    → (read_frame reader max_size).0 ≡ drop 4 reader
unfolding read_frame read_after
refused_header reader max_size h = elim (result_cases (readexactly reader 4).1) [
  | inr (e, failed) ↦
      absurd (let f : ⊥ = ground (arith, h, failed, readexactly-raise reader 4 e failed) in f)
  | inl (content, e) ↦ elim (result_cases (unpack_u32 content)) [
    | inr (x, failed) ↦
        absurd (let f : ⊥ = ground (arith, h, e, failed, unpack_u32-raise content x failed) in f)
    | inl (n, u) ↦
        let rest = (readexactly reader 4).0 in
        let f : read_frame reader max_size ≡ read_sized rest max_size n = rw (e, u) refl in
        ap (λ (r : Bytes × Result WireError Bytes). r.0) f
        ∙ refused_at_once rest max_size n
            (ap (λ (r : Bytes × Result WireError Bytes). r.1) (sym f) ∙ h)
        ∙ readexactly-rest reader content 4 e
  ]
]

-- Whatever a peer sends, a call of read_frame takes at most `4 + max_size` bytes of it, and where it refuses the size it
-- takes the four bytes of the header and no more.
pub read_frame-refused :
    (reader : Bytes) (max_size : ℕ)
    → (length reader ≤ length (read_frame reader max_size).0 + (4 + max_size))
      × ((read_frame reader max_size).1 ≡ raise frame_too_large
          → (read_frame reader max_size).0 ≡ drop 4 reader)
read_frame-refused reader max_size =
    (read_frame-taken reader max_size, refused_header reader max_size)
