-- ===== src/Security/Channel/Numbers.antt =====
-- The numbers and keys that the frames of memnode/security.py are sealed with.
use peer_memory.Prelude.{
  ℕ, suc, ◌≤◌, ◌<◌, ltb, Bool-cases, ◌++◌, ◌≡◌, refl, sym, ap, ◌∙◌, inl, inr, List, [], ◌∷◌, nat_eq,
  list_eq, Result, ok, raise, arith,
}
use peer_memory.Prelude.Text.{Bytes}
use mathlib.Core.Path.{subst}
use peer_memory.Prelude.{◌/◌, ◌^◌, result_cases, ◌>>=◌}
use peer_memory.Wire.Frame.{WireError, write_frame}
use peer_memory.Security.Channel.{
  Crypto, SecureChannel, send, finished, rekeyed, pack_seq, pack_be, nonce, sealed,
}
use peer_memory.Security.Channel.Schedule.{chain, Sends, rekeyed-Ready}
use peer_memory.Security.Channel.Keys.{send-Sent, Ready-Sends}
use peer_memory.Security.Channel.Conversation.{SendCall}

module _ (crypto : Crypto) where
  unfoldable pub note_frame :
      Result WireError Bytes → Bytes → List (Bytes × Bytes) → List (Bytes × Bytes)
  note_frame (raise _) plaintext rest = rest
  note_frame (ok stream) plaintext rest = (plaintext, stream) ∷ rest

  -- What each call of send() that returned was given and what it wrote, over any calls, those that raise included.
  unfoldable pub frames_of : SecureChannel → List SendCall → List (Bytes × Bytes)
  frames_of s [] = []
  frames_of s (call ∷ calls) =
      let (s', written) = send crypto s call.now call.later [] call.plaintext in
      note_frame written call.plaintext (frames_of s' calls)

module _ (crypto : Crypto) (base transcript : Bytes) where
  -- What was written is one frame, of the eight bytes of the number and the text under the key of the number's epoch, with the
  -- number in the nonce and as associated data.
  abbrev pub SealedAs : ℕ → ℕ → Bytes → Bytes → Type 0
  SealedAs interval seq plaintext stream =
      let number = pack_be 8 seq [] in
      write_frame [] (
        number
        ++ crypto.encrypt (chain crypto base transcript (seq / interval)) (0 ∷ 0 ∷ 0 ∷ 0 ∷ number)
            plaintext number)
      ≡ ok stream

  -- Frames with strictly rising numbers of 64 bits, from `least` on.
  abbrev pub Rising : ℕ → ℕ → List (Bytes × Bytes) → Type 0
  Rising interval least [] = Unit
  Rising interval least ((plaintext, stream) ∷ frames) =
      (seq : ℕ) × (least ≤ seq)
      × (seq < 2 ^ 64)
      × SealedAs interval seq plaintext stream
      × Rising interval (suc seq) frames

  Rising-mono :
      (interval m n : ℕ) (frames : List (Bytes × Bytes))
      → m ≤ n
      → Rising interval n frames
      → Rising interval m frames
  Rising-mono interval m n [] le h = tt
  Rising-mono interval m n ((plaintext, stream) ∷ frames) le (seq, low, fits, as_sealed, rest) =
      (seq, omega (arith, le, low), fits, as_sealed, rest)

  pack_seq-ok :
      (seq : ℕ) (number : Bytes)
      → pack_seq seq ≡ ok number
      → (seq < 2 ^ 64) × (pack_be 8 seq [] ≡ number)
  unfolding pack_seq
  pack_seq-ok seq number h = elim (Bool-cases (ltb seq (2 ^ 64))) [
    | inl fits ↦ (ground (arith, fits), ground (arith, h, fits))
    | inr over ↦ absurd (let f : ⊥ = ground (arith, h, over) in f)
  ]

  sealed_as :
      (interval seq : ℕ) (key number plaintext stream : Bytes)
      → pack_be 8 seq [] ≡ number
      → key ≡ chain crypto base transcript (seq / interval)
      → write_frame [] (number ++ crypto.encrypt key (0 ∷ 0 ∷ 0 ∷ 0 ∷ number) plaintext number)
        ≡ ok stream
      → SealedAs interval seq plaintext stream
  sealed_as interval seq key number plaintext stream packed k h = rw (packed, sym k) h

  finished-raise :
      (ch : SecureChannel) (w : Result WireError Bytes) (e : WireError)
      → (finished crypto ch w).1 ≡ raise e
      → (finished crypto ch w).0 ≡ ch
  unfolding finished
  finished-raise ch (ok stream) e h = absurd (let f : ⊥ = ground (arith, h) in f)
  finished-raise ch (raise x) e h = refl

  send-raise :
      (s : SecureChannel) (call : SendCall) (e : WireError)
      → (send crypto s call.now call.later [] call.plaintext).1 ≡ raise e
      → (send crypto s call.now call.later [] call.plaintext).0
        ≡ rekeyed crypto s call.now call.later
  unfolding send
  send-raise s call e h =
      let k = rekeyed crypto s call.now call.later in
      finished-raise k
        (pack_seq k.send_seq >>= λ number. write_frame [] (sealed crypto k call.plaintext number)) e
        h

  -- Over any calls of send(), those that raise included, the frames that were written carry strictly rising numbers below
  -- 2 ^ 64, and each is the encryption of its text under the key of its number's epoch, with the number as its nonce: no number,
  -- and so no nonce, is used twice.
  pub frames_of-Rising :
      (s : SecureChannel) (calls : List SendCall)
      → Sends crypto base transcript s
      → Rising s.rekey_messages s.send_seq (frames_of crypto s calls)
  unfolding frames_of note_frame sealed nonce
  frames_of-Rising s [] y = tt
  frames_of-Rising s (call ∷ calls) y =
      let k = rekeyed crypto s call.now call.later in
      let r = rekeyed-Ready crypto base transcript s call.now call.later y in
      let next = (send crypto s call.now call.later [] call.plaintext).0 in
      elim (result_cases (send crypto s call.now call.later [] call.plaintext).1) [
        | inr (e, failed) ↦
            let same = send-raise s call e failed in
            let rest = frames_of-Rising k calls (Ready-Sends crypto base transcript s k y r) in
            rw (failed, same)
              (Rising-mono s.rekey_messages s.send_seq k.send_seq (frames_of crypto k calls) r.least
                (subst (λ m. Rising m k.send_seq (frames_of crypto k calls)) r.interval rest))
        | inl (stream, done) ↦
            let sent =
              send-Sent crypto base transcript s call.now call.later [] call.plaintext stream y
                done in
            let from = sent.from in
            let (fits, packed) = pack_seq-ok from.send_seq sent.number sent.packed in
            let rest = frames_of-Rising next calls sent.sends in
            rw done (
              from.send_seq,
              sent.ready.least,
              fits,
              sealed_as s.rekey_messages from.send_seq from.send_key sent.number call.plaintext
                  stream packed
                  (sent.ready.key ∙ ap (chain crypto base transcript) sent.ready.epoch)
                  sent.written,
              Rising-mono s.rekey_messages (suc from.send_seq) next.send_seq
                  (frames_of crypto next calls) (omega (arith, sent.after))
                  (subst (λ m. Rising m next.send_seq (frames_of crypto next calls)) sent.interval
                    rest),
            )
      ]
