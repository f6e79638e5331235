-- ===== src/Security/Channel.antt =====
-- memnode/security.py: class SecureChannel.
--
-- The key derivation and the cipher are parameters. A cipher object is its key. The reader and the writer stand outside of the
-- channel's state; a call of send() reads the clock once before the time rekey and once after a key change.
pub mod Schedule
pub mod Keys
pub mod Delivery
pub mod Conversation
pub mod Numbers
use peer_memory.Prelude.{
  ℕ, zero, suc, ◌+◌, ◌-◌, ◌%◌, not, Option, none, some, [], ◌∷◌, ◌++◌, ltb, nat_beq, if◌then◌else◌,
  nat_eq, list_eq, Result, ok, raise, length,
}
use peer_memory.Prelude.Text.{Bytes}
use peer_memory.Prelude.{take, drop, ◌*◌, ◌/◌, ◌^◌, pos, ◌>>=◌}
use peer_memory.Wire.Frame.{WireError, struct_error, write_frame}
use peer_memory.Security.ReplayWindow.{ReplayWindow, check_and_update}

-- _advance_key for the direction b"send" (key, transcript hash, epoch), and ChaCha20Poly1305
-- (key, nonce, text, associated data).
pub record Crypto : Type 0 where
  pub advance_key : Bytes → Bytes → ℕ → Bytes
  pub encrypt : Bytes → Bytes → Bytes → Bytes → Bytes
  pub decrypt : Bytes → Bytes → Bytes → Bytes → Option Bytes

pub record SecureChannel : Type 0 where
  pub transcript_hash : Bytes
  pub send_key : Bytes
  pub recv_key : Bytes
  pub send_seq : ℕ
  pub send_epoch : ℕ
  pub recv_epoch : ℕ
  pub replay : ReplayWindow
  pub rekey_messages : ℕ
  pub rekey_interval : ℕ
  pub max_epoch_skip : ℕ
  pub last_rekey_at : ℕ
  pub rekeys_sent : ℕ
  pub rekeys_received : ℕ
  pub replays_dropped : ℕ

pub data RecvError : Type 0 where
  truncated_frame expired_epoch epoch_jump bad_frame : RecvError

-- n as k bytes, the highest first
unfoldable pub pack_be : ℕ → ℕ → Bytes → Bytes
pack_be zero n low = low
pack_be (suc k) n low = pack_be k (n / 256) (n % 256 ∷ low)

unfoldable pub unpack_be : ℕ → Bytes → ℕ
unpack_be high [] = high
unpack_be high (b ∷ bs) = unpack_be (high * 256 + b) bs

-- SEQ_STRUCT.pack(seq)
unfoldable pub pack_seq : ℕ → Result WireError Bytes
pack_seq seq = if ltb seq (2 ^ 64) then ok (pack_be 8 seq []) else raise struct_error

abbrev pub seq_len : ℕ
seq_len = 8

abbrev pub aead_tag_len : ℕ
aead_tag_len = 16

unfoldable pub nonce : Bytes → Bytes
nonce seq_bytes = 0 ∷ 0 ∷ 0 ∷ 0 ∷ seq_bytes

-- An interval of 0 or less is 0 here: no time rekey.
unfoldable pub maybe_time_rekey : SecureChannel → ℕ → SecureChannel
maybe_time_rekey ch now =
    let boundary = (ch.send_epoch + 1) * ch.rekey_messages in
    if nat_beq ch.rekey_interval 0
    then ch
    else if ltb now (ch.last_rekey_at + ch.rekey_interval)
    then ch
    else if ltb ch.send_seq boundary
    then record ch { send_seq = boundary }
    else ch

unfoldable pub epoch_for : SecureChannel → ℕ → ℕ
epoch_for ch seq = seq / ch.rekey_messages

module _ (crypto : Crypto) where
  -- `while self._send_epoch < epoch`, run `n` times
  unfoldable pub advance_send : ℕ → SecureChannel → SecureChannel
  advance_send zero ch = ch
  advance_send (suc n) ch =
      let epoch = ch.send_epoch + 1 in
      advance_send n (record ch {
        send_epoch = epoch;
        send_key = crypto.advance_key ch.send_key ch.transcript_hash epoch;
        rekeys_sent = ch.rekeys_sent + 1;
      })

  unfoldable pub advance_send_to : SecureChannel → ℕ → ℕ → SecureChannel
  advance_send_to ch epoch now = record (advance_send (epoch - ch.send_epoch) ch) {
    last_rekey_at = now;
  }

  -- `while self._recv_epoch < epoch`, run `n` times
  unfoldable pub advance_recv : ℕ → SecureChannel → SecureChannel
  advance_recv zero ch = ch
  advance_recv (suc n) ch =
      let epoch = ch.recv_epoch + 1 in
      advance_recv n (record ch {
        recv_epoch = epoch;
        recv_key = crypto.advance_key ch.recv_key ch.transcript_hash epoch;
        rekeys_received = ch.rekeys_received + 1;
      })

  unfoldable pub advance_recv_to : SecureChannel → ℕ → Result RecvError SecureChannel
  advance_recv_to ch epoch =
      if ltb epoch ch.recv_epoch
      then raise expired_epoch
      else if ltb ch.max_epoch_skip (epoch - ch.recv_epoch)
      then raise epoch_jump
      else ok (advance_recv (epoch - ch.recv_epoch) ch)

  -- The keys that send() uses for its frame: those of the epoch of its sequence number.
  unfoldable pub rekeyed : SecureChannel → ℕ → ℕ → SecureChannel
  rekeyed ch now later =
      let ch' = maybe_time_rekey ch now in
      let epoch = epoch_for ch' ch'.send_seq in
      if nat_beq epoch ch'.send_epoch then ch' else advance_send_to ch' epoch later

  unfoldable pub sealed : SecureChannel → Bytes → Bytes → Bytes
  sealed ch plaintext seq_bytes =
      seq_bytes ++ crypto.encrypt ch.send_key (nonce seq_bytes) plaintext seq_bytes

  -- The number is used up only when the frame was written.
  unfoldable pub finished :
      SecureChannel → Result WireError Bytes → SecureChannel × Result WireError Bytes
  finished ch (ok stream) = (record ch { send_seq = ch.send_seq + 1 }, ok stream)
  finished ch (raise e) = (ch, raise e)

  -- send(plaintext): what was written, or what was raised.
  unfoldable pub send :
      SecureChannel → ℕ → ℕ → Bytes → Bytes → SecureChannel × Result WireError Bytes
  send ch now later writer plaintext =
      let ch' = rekeyed ch now later in
      finished ch'
        (pack_seq ch'.send_seq >>= λ seq_bytes. write_frame writer (sealed ch' plaintext seq_bytes))

  unfoldable pub opened :
      SecureChannel → Bytes → Bytes → SecureChannel × Result RecvError (Option Bytes)
  opened ch seq_bytes ciphertext =
      elim (crypto.decrypt ch.recv_key (nonce seq_bytes) ciphertext seq_bytes)
        as (λ _. SecureChannel × Result RecvError (Option Bytes)) [
          | none ↦ (ch, raise bad_frame)
          | some plaintext ↦ (ch, ok (some plaintext))
        ]

  unfoldable pub open_after :
      SecureChannel
      → Result RecvError SecureChannel
      → Bytes
      → Bytes
      → SecureChannel × Result RecvError (Option Bytes)
  open_after ch (raise e) seq_bytes ciphertext = (ch, raise e)
  open_after ch (ok ch') seq_bytes ciphertext = opened ch' seq_bytes ciphertext

  -- One turn of the loop of recv() on a frame: `none` where the frame is dropped and the loop goes on.
  unfoldable pub recv_frame :
      SecureChannel → Bytes → SecureChannel × Result RecvError (Option Bytes)
  recv_frame ch frame =
      let seq_bytes = take seq_len frame in
      let seq = unpack_be 0 seq_bytes in
      let (replay, fresh) = check_and_update ch.replay (pos seq) in
      let ch' : SecureChannel = record ch { replay = replay } in
      if ltb (length frame) (seq_len + aead_tag_len)
      then (ch, raise truncated_frame)
      else if not fresh
      then (record ch' { replays_dropped = ch.replays_dropped + 1 }, ok none)
      else open_after ch' (advance_recv_to ch' (epoch_for ch' seq)) seq_bytes (drop seq_len frame)
