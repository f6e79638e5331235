-- ===== src/Security/Channel/Schedule.antt =====
-- The key schedule of memnode/security.py: which key an epoch has.
use peer_memory.Prelude.{
  ℕ, zero, suc, ◌+◌, ◌-◌, ◌%◌, ◌≤◌, ◌<◌, ◌≡◌, refl, sym, ap, ◌∙◌, inl, inr, [], ◌∷◌, ltb, nat_beq,
  nat_beq_iff, nat_eq, list_eq, ok, length, arith, Bool-cases,
}
use peer_memory.Prelude.Text.{Bytes}
use mathlib.Core.Path.{subst}
use peer_memory.Prelude.{if_both}
use native.Mathlib.Nat.{le-div_iff_mul-le, div-lt_iff_lt-mul}
use peer_memory.Prelude.{◌*◌, ◌/◌, ◌^◌}
use peer_memory.Security.Channel.{
  Crypto, SecureChannel, advance_send, advance_send_to, advance_recv, maybe_time_rekey, epoch_for,
  rekeyed, pack_seq, pack_be, unpack_be,
}

pub unpack_be-pack_be :
    (k n : ℕ) (low : Bytes) → n < 256 ^ k → unpack_be 0 (pack_be k n low) ≡ unpack_be n low
unfolding unpack_be pack_be
unpack_be-pack_be zero n low h = ap (λ m. unpack_be m low) (let e : 0 ≡ n = omega (arith, h) in e)
unpack_be-pack_be (suc k) n low h =
    unpack_be-pack_be k (n / 256) (n % 256 ∷ low) (omega (arith, h))
    ∙ ap (λ m. unpack_be m low) (let e : n / 256 * 256 + n % 256 ≡ n = omega arith in e)

pub length-pack_be : (k n : ℕ) (low : Bytes) → length (pack_be k n low) ≡ k + length low
unfolding pack_be
length-pack_be zero n low = omega arith
length-pack_be (suc k) n low = omega (arith, length-pack_be k (n / 256) (n % 256 ∷ low))

-- A sequence number is eight bytes, which give it back.
pub pack_seq_lem :
    (seq : ℕ) (content : Bytes)
    → pack_seq seq ≡ ok content
    → (unpack_be 0 content ≡ seq) × (length content ≡ 8) × (seq < 2 ^ 64)
unfolding pack_seq unpack_be
pack_seq_lem seq content h = elim (Bool-cases (ltb seq (2 ^ 64))) [
  | inl fits ↦
      let e : pack_be 8 seq [] ≡ content = ground (arith, h, fits) in
      rw (← e) (
        unpack_be-pack_be 8 seq [] (ground (arith, fits)),
        length-pack_be 8 seq [] ∙ omega arith,
        ground (arith, fits),
      )
  | inr large ↦ absurd (let f : ⊥ = ground (arith, h, large) in f)
]

module _ (crypto : Crypto) (base transcript : Bytes) where
  -- The key of an epoch, from the key of the handshake.
  abbrev pub chain : ℕ → Bytes
  chain zero = base
  chain (suc epoch) = crypto.advance_key (chain epoch) transcript (suc epoch)

  -- The sending half of a channel has the key of its epoch, and its next number is of this epoch or the first of the next.
  pub record Sends (ch : SecureChannel) : Type 0 where
    pub hash : ch.transcript_hash ≡ transcript
    pub interval : 0 < ch.rekey_messages
    pub key : ch.send_key ≡ chain ch.send_epoch
    pub low : ch.send_epoch * ch.rekey_messages ≤ ch.send_seq
    pub high : ch.send_seq ≤ (ch.send_epoch + 1) * ch.rekey_messages

  pub chain_step : (e : ℕ) → crypto.advance_key (chain e) transcript (e + 1) ≡ chain (e + 1)
  chain_step e =
      subst (λ m. crypto.advance_key (chain e) transcript m ≡ chain m)
        (let one : suc e ≡ e + 1 = omega arith in one) refl

  -- After `n` steps of the receiver's key.
  pub record Followed (ch next : SecureChannel) (n : ℕ) : Type 0 where
    pub key : next.recv_key ≡ chain next.recv_epoch
    pub epoch : next.recv_epoch ≡ ch.recv_epoch + n
    pub interval : next.rekey_messages ≡ ch.rekey_messages
    pub skip : next.max_epoch_skip ≡ ch.max_epoch_skip
    pub replay : next.replay ≡ ch.replay
    pub hash : next.transcript_hash ≡ transcript

  pub advance_recv-Followed :
      (n : ℕ) (ch : SecureChannel)
      → ch.recv_key ≡ chain ch.recv_epoch
      → ch.transcript_hash ≡ transcript
      → Followed ch (advance_recv crypto n ch) n
  unfolding advance_recv
  advance_recv-Followed zero ch k h = record {
    key = k;
    epoch = omega arith;
    interval = refl;
    skip = refl;
    replay = refl;
    hash = h;
  }
  advance_recv-Followed (suc n) ch k h =
      let epoch = ch.recv_epoch + 1 in
      let next : SecureChannel = record ch {
        recv_epoch = epoch;
        recv_key = crypto.advance_key ch.recv_key ch.transcript_hash epoch;
        rekeys_received = ch.rekeys_received + 1;
      } in
      let a = advance_recv-Followed n next (rw (k, h) (chain_step ch.recv_epoch)) h in
      record {
        key = a.key;
        epoch = omega (arith, a.epoch);
        interval = a.interval;
        skip = a.skip;
        replay = a.replay;
        hash = a.hash;
      }

  -- After `n` steps of the sender's key: what changed, and what did not.
  pub record Advanced (ch next : SecureChannel) (n : ℕ) : Type 0 where
    key : next.send_key ≡ chain next.send_epoch
    epoch : next.send_epoch ≡ ch.send_epoch + n
    seq : next.send_seq ≡ ch.send_seq
    interval : next.rekey_messages ≡ ch.rekey_messages
    hash : next.transcript_hash ≡ transcript

  pub advance_send-Advanced :
      (n : ℕ) (ch : SecureChannel)
      → ch.send_key ≡ chain ch.send_epoch
      → ch.transcript_hash ≡ transcript
      → Advanced ch (advance_send crypto n ch) n
  unfolding advance_send
  advance_send-Advanced zero ch k h = record {
    key = k;
    epoch = omega arith;
    seq = refl;
    interval = refl;
    hash = h;
  }
  advance_send-Advanced (suc n) ch k h =
      let epoch = ch.send_epoch + 1 in
      let next : SecureChannel = record ch {
        send_epoch = epoch;
        send_key = crypto.advance_key ch.send_key ch.transcript_hash epoch;
        rekeys_sent = ch.rekeys_sent + 1;
      } in
      let a = advance_send-Advanced n next (rw (k, h) (chain_step ch.send_epoch)) h in
      record {
        key = a.key;
        epoch = omega (arith, a.epoch);
        seq = a.seq;
        interval = a.interval;
        hash = a.hash;
      }

  -- The state that send() takes its number and its key from.
  pub record Ready (ch next : SecureChannel) : Type 0 where
    pub key : next.send_key ≡ chain next.send_epoch
    pub epoch : next.send_epoch ≡ next.send_seq / ch.rekey_messages
    pub least : ch.send_seq ≤ next.send_seq
    pub most : next.send_epoch ≤ ch.send_epoch + 1
    pub fewest : ch.send_epoch ≤ next.send_epoch
    pub interval : next.rekey_messages ≡ ch.rekey_messages
    pub hash : next.transcript_hash ≡ transcript

  pub epoch_bounds :
      (e k seq : ℕ) → 0 < k → e * k ≤ seq → seq ≤ (e + 1) * k → (e ≤ seq / k) × (seq / k ≤ e + 1)
  epoch_bounds e k seq some_k low high = (
    (le-div_iff_mul-le some_k).1 low,
    (let q : seq / k < e + 2 = (div-lt_iff_lt-mul some_k).1 (omega (arith, low, high, some_k)) in
        omega (arith, q)),
  )

  abbrev pub Jumped : SecureChannel → SecureChannel → Type 0
  Jumped ch r =
      Sends r
      × (ch.send_seq ≤ r.send_seq)
      × (r.send_epoch ≡ ch.send_epoch)
      × (r.rekey_messages ≡ ch.rekey_messages)

  pub maybe_time_rekey-Jumped :
      (ch : SecureChannel) (now : ℕ) → Sends ch → Jumped ch (maybe_time_rekey ch now)
  unfolding maybe_time_rekey
  maybe_time_rekey-Jumped ch now s =
      let boundary = (ch.send_epoch + 1) * ch.rekey_messages in
      let same : Jumped ch ch = (s, omega arith, refl, refl) in
      let jumped : Jumped ch (record ch { send_seq = boundary }) = (
        record {
          hash = s.hash;
          interval = s.interval;
          key = s.key;
          low = omega (arith, s.low, s.high);
          high = omega arith;
        },
        s.high,
        refl,
        refl,
      ) in
      if_both (Jumped ch) (nat_beq ch.rekey_interval 0) same (
        if_both (Jumped ch) (ltb now (ch.last_rekey_at + ch.rekey_interval)) same
          (if_both (Jumped ch) (ltb ch.send_seq boundary) jumped same))

  pub rekeyed-Ready :
      (ch : SecureChannel) (now later : ℕ) → Sends ch → Ready ch (rekeyed crypto ch now later)
  unfolding rekeyed advance_send_to epoch_for
  rekeyed-Ready ch now later s =
      let (j, le, same, k) = maybe_time_rekey-Jumped ch now s in
      let c = maybe_time_rekey ch now in
      let (up, down) =
        epoch_bounds c.send_epoch c.rekey_messages c.send_seq j.interval j.low j.high in
      let n = c.send_seq / c.rekey_messages - c.send_epoch in
      let a = advance_send-Advanced n c j.key j.hash in
      let q : c.send_seq / c.rekey_messages ≡ c.send_seq / ch.rekey_messages =
        ap (λ m. c.send_seq / m) k in
      elim (Bool-cases (nat_beq (c.send_seq / c.rekey_messages) c.send_epoch)) [
        | inl keep ↦ rw keep (record {
          key = j.key;
          epoch = sym ((nat_beq_iff (c.send_seq / c.rekey_messages) c.send_epoch).0 keep) ∙ q;
          least = le;
          most = omega (arith, same);
          fewest = omega (arith, same);
          interval = k;
          hash = j.hash;
        })
        | inr move ↦ rw move (record {
          key = a.key;
          epoch = omega (arith, a.epoch, up, q) ∙ sym (ap (λ m. m / ch.rekey_messages) a.seq);
          least = omega (arith, a.seq, le);
          most = omega (arith, a.epoch, up, down, same);
          fewest = omega (arith, a.epoch, same);
          interval = a.interval ∙ k;
          hash = a.hash;
        })
      ]
