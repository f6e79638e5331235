-- ===== src/Security/Channel/Conversation.antt =====
-- One direction of the channel of memnode/security.py over a whole conversation.
use peer_memory.Prelude.{
  ℕ, ◌≡◌, refl, sym, ap, ◌∙◌, inl, inr, Option, none, some, List, [], ◌∷◌, nat_eq, list_eq, Result,
  ok, raise,
}
use peer_memory.Prelude.Text.{Bytes}
use peer_memory.Prelude.{result_cases, append-nil}
use peer_memory.Config.{max_frame_size}
use peer_memory.Wire.Frame.{WireError, write_frame, read_frame}
use peer_memory.Wire.Frames.{framed, write_frame_lem, read_frame-framed}
use peer_memory.Security.Channel.{Crypto, SecureChannel, RecvError, send, sealed, recv_frame}
use peer_memory.Security.Channel.Keys.{send-Sent}
use peer_memory.Security.Channel.Delivery.{IsAead, InSync, recv_frame-sealed}

-- A call of send(): the two clock readings and the text.
pub record SendCall : Type 0 where
  pub now : ℕ
  pub later : ℕ
  pub plaintext : Bytes

unfoldable pub text_of : Result RecvError (Option Bytes) → Option Bytes
text_of (raise _) = none
text_of (ok text) = text

module _ (crypto : Crypto) where
  -- One turn of recv()'s loop on what was written.
  unfoldable pub take_frame : SecureChannel → Result WireError Bytes → SecureChannel × Option Bytes
  take_frame r (raise _) = (r, none)
  take_frame r (ok frame) =
      let (after, outcome) = recv_frame crypto r frame in (after, text_of outcome)

  unfoldable pub arrive : SecureChannel → Result WireError Bytes → SecureChannel × Option Bytes
  arrive r (raise _) = (r, none)
  arrive r (ok stream) = take_frame r (read_frame stream max_frame_size).1

  unfoldable pub keep : Option Bytes → List Bytes → List Bytes
  keep none rest = []
  keep (some text) rest = text ∷ rest

  -- What the receiver gets, up to the first call that fails at either end.
  unfoldable pub delivered : SecureChannel → SecureChannel → List SendCall → List Bytes
  delivered s r [] = []
  delivered s r (call ∷ calls) =
      let (s', written) = send crypto s call.now call.later [] call.plaintext in
      let (r', text) = arrive r written in keep text (delivered s' r' calls)

  unfoldable pub keep_sent : Result WireError Bytes → Bytes → List Bytes → List Bytes
  keep_sent (raise _) text rest = []
  keep_sent (ok _) text rest = text ∷ rest

  -- The texts of the calls of send() that return, up to the first that raises.
  unfoldable pub accepted : SecureChannel → List SendCall → List Bytes
  accepted s [] = []
  accepted s (call ∷ calls) =
      let (s', written) = send crypto s call.now call.later [] call.plaintext in
      keep_sent written call.plaintext (accepted s' calls)

  arrive-framed :
      (r : SecureChannel) (frame stream : Bytes)
      → write_frame [] frame ≡ ok stream
      → arrive r (ok stream)
        ≡ (let (after, outcome) = recv_frame crypto r frame in (after, text_of outcome))
  unfolding arrive take_frame
  arrive-framed r frame stream h =
      let (fits, e) = write_frame_lem [] frame stream h in
      let q : read_frame stream max_frame_size ≡ ([], ok frame) =
        ap (λ w. read_frame w max_frame_size) (e ∙ sym (append-nil (framed frame)))
        ∙ read_frame-framed frame [] max_frame_size fits in
      rw q refl

module _ (crypto : Crypto) (aead : IsAead crypto) (base transcript : Bytes) where
  -- On a connection that delivers the frames in order, up to the first call of send() that raises, the receiver gets exactly the
  -- texts that were sent, in their order: any number of them, and key changes by count and by time included.
  pub delivered-accepted :
      (s r : SecureChannel) (calls : List SendCall)
      → InSync crypto aead base transcript s r
      → delivered crypto s r calls ≡ accepted crypto s calls
  unfolding delivered accepted keep keep_sent text_of arrive
  delivered-accepted s r [] y = refl
  delivered-accepted s r (call ∷ calls) y =
      elim (result_cases (send crypto s call.now call.later [] call.plaintext).1) [
        | inr (e, failed) ↦ rw failed refl
        | inl (stream, done) ↦
            let next = (send crypto s call.now call.later [] call.plaintext).0 in
            let sent =
              send-Sent crypto base transcript s call.now call.later [] call.plaintext stream
                y.sends done in
            let frame = sealed crypto sent.from call.plaintext sent.number in
            let (text, sync) =
              recv_frame-sealed crypto aead base transcript s r next [] call.plaintext stream y
                sent in
            let a = arrive-framed crypto r frame stream sent.written in
            let after = (recv_frame crypto r frame).0 in
            rw (done, a, text) (ap (◌∷◌ call.plaintext) (delivered-accepted next after calls sync))
      ]
