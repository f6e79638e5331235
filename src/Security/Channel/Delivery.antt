-- ===== src/Security/Channel/Delivery.antt =====
-- Frames that arrive in order on the channel of memnode/security.py.
use peer_memory.Prelude.{
  ℕ, ◌+◌, ◌-◌, ◌≤◌, ◌<◌, ◌≡◌, refl, sym, ap, ◌∙◌, true, false, some, ◌++◌, ltb, nat_eq, list_eq, ok,
  length, arith,
}
use peer_memory.Prelude.Text.{Bytes}
use peer_memory.Prelude.{take, drop, ◌/◌, pos, take-append_left, drop-append_left, length-append}
use peer_memory.Security.ReplayWindow.{ReplayWindow, check_and_update}
use peer_memory.Security.ReplayWindow.Refinement.{newer_lem}
use peer_memory.Security.Channel.{
  Crypto, SecureChannel, advance_recv, advance_recv_to, epoch_for, sealed, opened, open_after,
  nonce, unpack_be, recv_frame,
}
use peer_memory.Security.Channel.Schedule.{chain, Sends, advance_recv-Followed, pack_seq_lem}
use peer_memory.Security.Channel.Keys.{Sent}

-- What the cipher's documentation says: the text comes back under the same key, nonce and associated data, and the tag
-- is 16 bytes long.
pub record IsAead (crypto : Crypto) : Type 0 where
  pub decrypt-encrypt :
      (key n plaintext associated : Bytes)
      → crypto.decrypt key n (crypto.encrypt key n plaintext associated) associated ≡ some plaintext
  pub length-encrypt :
      (key n plaintext associated : Bytes)
      → length (crypto.encrypt key n plaintext associated) ≡ length plaintext + 16

module _ (crypto : Crypto) (aead : IsAead crypto) (base transcript : Bytes) where
  -- The two ends of one direction, with nothing on its way.
  pub record InSync (s r : SecureChannel) : Type 0 where
    pub sends : Sends crypto base transcript s
    pub hash : r.transcript_hash ≡ transcript
    pub interval : r.rekey_messages ≡ s.rekey_messages
    pub key : r.recv_key ≡ chain crypto base transcript r.recv_epoch
    pub epoch : r.recv_epoch ≡ s.send_epoch
    pub skip : 0 < r.max_epoch_skip
    pub behind : r.replay.seen_any ≡ true → r.replay.highest < s.send_seq

  opened-sealed :
      (r k : SecureChannel) (plaintext number : Bytes)
      → r.recv_key ≡ k.send_key
      → opened crypto r number (crypto.encrypt k.send_key (nonce number) plaintext number)
        ≡ (r, ok (some plaintext))
  unfolding opened
  opened-sealed r k plaintext number same =
      let d : crypto.decrypt r.recv_key (nonce number)
            (crypto.encrypt k.send_key (nonce number) plaintext number) number
          ≡ some plaintext =
        ap
          (λ key.
            crypto.decrypt key (nonce number)
              (crypto.encrypt k.send_key (nonce number) plaintext number) number)
          same
        ∙ aead.decrypt-encrypt k.send_key (nonce number) plaintext number in
      rw (opened, d) refl

  recv_frame-fresh :
      (r : SecureChannel) (number cipher : Bytes) (seq : ℕ)
      → length number ≡ 8
      → unpack_be 0 number ≡ seq
      → 16 ≤ length cipher
      → (check_and_update r.replay (pos seq)).1 ≡ true
      → let after : SecureChannel = record r { replay = (check_and_update r.replay (pos seq)).0 } in
        recv_frame crypto r (number ++ cipher)
        ≡ open_after crypto after (advance_recv_to crypto after (epoch_for after seq)) number cipher
  unfolding recv_frame
  recv_frame-fresh r number cipher seq eight value tag fresh =
      let t : take 8 (number ++ cipher) ≡ number =
        ap (λ n. take n (number ++ cipher)) (sym eight) ∙ take-append_left number cipher in
      let d : drop 8 (number ++ cipher) ≡ cipher =
        ap (λ n. drop n (number ++ cipher)) (sym eight) ∙ drop-append_left number cipher in
      let long : ltb (length (number ++ cipher)) (8 + 16) ≡ false =
        ground (arith, length-append number cipher, eight, tag) in
      rw (t, d, value, fresh, long) refl

  follow :
      (r : SecureChannel) (epoch : ℕ)
      → r.recv_epoch ≤ epoch
      → epoch ≤ r.recv_epoch + 1
      → 0 < r.max_epoch_skip
      → advance_recv_to crypto r epoch ≡ ok (advance_recv crypto (epoch - r.recv_epoch) r)
  unfolding advance_recv_to
  follow r epoch low high skip =
      let a : ltb epoch r.recv_epoch ≡ false = ground (arith, low) in
      let b : ltb r.max_epoch_skip (epoch - r.recv_epoch) ≡ false = ground (arith, high, skip) in
      rw (a, b) refl

  pub recv_frame-sealed :
      (s r next : SecureChannel) (writer plaintext stream : Bytes)
      → InSync s r
      → (sent : Sent crypto base transcript s next writer plaintext stream)
      → let (after, outcome) =
          recv_frame crypto r (sealed crypto sent.from plaintext sent.number) in
        (outcome ≡ ok (some plaintext)) × InSync next after
  unfolding recv_frame sealed advance_recv_to open_after epoch_for
  recv_frame-sealed s r next writer plaintext stream y sent =
      let k = sent.from in
      let number = sent.number in
      let cipher = crypto.encrypt k.send_key (nonce number) plaintext number in
      let (value, eight, small) = pack_seq_lem k.send_seq number sent.packed in
      let (fresh, seen, top) =
        newer_lem r.replay k.send_seq (λ q. omega (arith, y.behind q, sent.ready.least))
          (omega (arith, small)) in
      let after : SecureChannel = record r {
        replay = (check_and_update r.replay (pos k.send_seq)).0;
      } in
      let tag : 16 ≤ length cipher =
        omega (arith, aead.length-encrypt k.send_key (nonce number) plaintext number) in
      let e : k.send_seq / r.rekey_messages ≡ k.send_epoch =
        ap (λ m. k.send_seq / m) y.interval ∙ sym sent.ready.epoch in
      let n = k.send_epoch - r.recv_epoch in
      let f = advance_recv-Followed crypto base transcript n after y.key y.hash in
      let low : r.recv_epoch ≤ k.send_epoch = omega (arith, y.epoch, sent.ready.fewest) in
      let there : (advance_recv crypto n after).recv_epoch ≡ k.send_epoch =
        omega (arith, f.epoch, low) in
      let q : recv_frame crypto r (number ++ cipher)
          ≡ (advance_recv crypto n after, ok (some plaintext)) =
        recv_frame-fresh r number cipher k.send_seq eight value tag fresh
        ∙ ap (λ m. open_after crypto after (advance_recv_to crypto after m) number cipher) e
        ∙ ap (λ o. open_after crypto after o number cipher)
            (follow after k.send_epoch low (omega (arith, y.epoch, sent.ready.most)) y.skip)
        ∙ opened-sealed (advance_recv crypto n after) k plaintext number
            (f.key ∙ ap (chain crypto base transcript) there ∙ sym sent.ready.key) in
      rw q (
        refl,
        record {
          sends = sent.sends;
          hash = f.hash;
          interval = f.interval ∙ y.interval ∙ sym sent.interval;
          key = f.key;
          epoch = there ∙ sym sent.epoch;
          skip = omega (arith, f.skip, y.skip);
          behind =
              λ _. omega (arith, ap (λ (w : ReplayWindow). w.highest) f.replay, top, sent.after);
        },
      )
