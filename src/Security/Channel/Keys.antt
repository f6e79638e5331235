-- ===== src/Security/Channel/Keys.antt =====
-- A frame that memnode/security.py sends, and the state after it.
use peer_memory.Prelude.{ℕ, ◌+◌, ◌≤◌, ◌<◌, ◌≡◌, refl, ap, ◌∙◌, inl, inr, nat_eq, list_eq, ok, arith}
use peer_memory.Prelude.Text.{Bytes}
use peer_memory.Prelude.{result_cases}
use native.Mathlib.Nat.{div-mul-le_self, lt-div-mul-add}
use peer_memory.Prelude.{◌*◌, ◌/◌}
use peer_memory.Wire.Frame.{write_frame}
use peer_memory.Security.Channel.{Crypto, SecureChannel, rekeyed, send, sealed, finished, pack_seq}
use peer_memory.Security.Channel.Schedule.{Sends, Ready, rekeyed-Ready}

module _ (crypto : Crypto) (base transcript : Bytes) where
  low_bound : (e k seq m : ℕ) → e ≡ seq / k → m ≡ k → e * m ≤ seq + 1
  low_bound e k seq m q i = rw (q, i) (omega (arith, div-mul-le_self seq k))

  high_bound : (e k seq m : ℕ) → 0 < k → e ≡ seq / k → m ≡ k → seq + 1 ≤ (e + 1) * m
  high_bound e k seq m some_k q i =
      rw (q, i) (let h : seq < seq / k * k + k = lt-div-mul-add some_k in omega (arith, h))

  pub Ready-Sends :
      (ch k : SecureChannel)
      → Sends crypto base transcript ch
      → Ready crypto base transcript ch k
      → Sends crypto base transcript k
  Ready-Sends ch k s r = record {
    hash = r.hash;
    interval = omega (arith, r.interval, s.interval);
    key = r.key;
    low = rw (r.epoch, r.interval) (div-mul-le_self k.send_seq ch.rekey_messages);
    high =
        rw (r.epoch, r.interval)
          (let h : k.send_seq
                < k.send_seq / ch.rekey_messages * ch.rekey_messages + ch.rekey_messages =
              lt-div-mul-add s.interval in
            omega (arith, h));
  }

  -- A frame that send() wrote: the state it took number and key from, the eight bytes of the number, and what was written.
  pub record Sent (ch next : SecureChannel) (writer plaintext stream : Bytes) : Type 0 where
    pub from : SecureChannel
    pub ready : Ready crypto base transcript ch from
    pub number : Bytes
    pub packed : pack_seq from.send_seq ≡ ok number
    pub written : write_frame writer (sealed crypto from plaintext number) ≡ ok stream
    pub after : next.send_seq ≡ from.send_seq + 1
    pub epoch : next.send_epoch ≡ from.send_epoch
    pub interval : next.rekey_messages ≡ ch.rekey_messages
    pub sends : Sends crypto base transcript next

  pub send-Sent :
      (ch : SecureChannel) (now later : ℕ) (writer plaintext stream : Bytes)
      → Sends crypto base transcript ch
      → (send crypto ch now later writer plaintext).1 ≡ ok stream
      → Sent ch (send crypto ch now later writer plaintext).0 writer plaintext stream
  unfolding send finished
  send-Sent ch now later writer plaintext stream s h =
      let k = rekeyed crypto ch now later in
      let r = rekeyed-Ready crypto base transcript ch now later s in
      let bounds : Sends crypto base transcript (record k { send_seq = k.send_seq + 1 }) = record {
        hash = r.hash;
        interval = omega (arith, r.interval, s.interval);
        key = r.key;
        low =
            low_bound k.send_epoch ch.rekey_messages k.send_seq k.rekey_messages r.epoch r.interval;
        high =
            high_bound k.send_epoch ch.rekey_messages k.send_seq k.rekey_messages s.interval r.epoch
              r.interval;
      } in
      elim (result_cases (pack_seq k.send_seq)) [
        | inr (e, failed) ↦ absurd (let f : ⊥ = ground (arith, h, failed) in f)
        | inl (number, packed) ↦
            elim (result_cases (write_frame writer (sealed crypto k plaintext number))) [
              | inr (e, failed) ↦ absurd (let f : ⊥ = ground (arith, h, packed, failed) in f)
              | inl (out, done) ↦
                  let same : out ≡ stream = ground (arith, h, packed, done) in
                  rw (packed, done)
                    (record {
                      from = k;
                      ready = r;
                      number = number;
                      packed = packed;
                      written = done ∙ ap ok same;
                      after = refl;
                      epoch = refl;
                      interval = r.interval;
                      sends = bounds;
                    })
            ]
      ]
