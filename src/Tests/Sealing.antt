-- ===== src/Tests/Sealing.antt =====
-- The channel of memnode/security.py with a cipher that hides nothing: it puts 16 bytes before the text.
use peer_memory.Prelude.{
  ◌≡◌, refl, ◌++◌, false, some, List, [], ◌∷◌, drop, replicate, arith, nat_eq, list_eq,
}
use peer_memory.Wire.Frame.{pack_u32, write_frame}
use peer_memory.Security.Channel.{
  Crypto, SecureChannel, advance_send, advance_send_to, maybe_time_rekey, epoch_for, rekeyed,
  finished, send, sealed, nonce, pack_seq, pack_be,
}
use peer_memory.Security.Channel.Schedule.{Sends}
use peer_memory.Security.Channel.Delivery.{IsAead, InSync}
use peer_memory.Security.Channel.Conversation.{
  SendCall, delivered, accepted, keep_sent, delivered-accepted,
}
use peer_memory.Security.Channel.Numbers.{frames_of, Rising, frames_of-Rising}

abbrev pub crypto : Crypto
crypto = record {
  advance_key = λ key transcript epoch. epoch ∷ key;
  encrypt = λ key n plaintext associated. replicate 16 7 ++ plaintext;
  decrypt = λ key n ciphertext associated. some (drop 16 ciphertext);
}

pub crypto-IsAead : IsAead crypto
crypto-IsAead = record {
  decrypt-encrypt = λ key n plaintext associated. refl;
  length-encrypt = λ key n plaintext associated. omega arith;
}

abbrev fresh : SecureChannel
fresh = record {
  transcript_hash = 5 ∷ [];
  send_key = 100 ∷ [];
  recv_key = 100 ∷ [];
  send_seq = 0;
  send_epoch = 0;
  recv_epoch = 0;
  replay = record { size = 4; highest = 0; bitmap = 0; seen_any = false };
  rekey_messages = 2;
  rekey_interval = 1000;
  max_epoch_skip = 64;
  last_rekey_at = 0;
  rekeys_sent = 0;
  rekeys_received = 0;
  replays_dropped = 0;
}

fresh-Sends : Sends crypto (100 ∷ []) (5 ∷ []) fresh
fresh-Sends = record {
  hash = refl;
  interval = omega arith;
  key = refl;
  low = omega arith;
  high = omega arith;
}

fresh-InSync : InSync crypto crypto-IsAead (100 ∷ []) (5 ∷ []) fresh fresh
fresh-InSync = record {
  sends = fresh-Sends;
  hash = refl;
  interval = refl;
  key = refl;
  epoch = refl;
  skip = omega arith;
  behind = λ e. ground (arith, e);
}

-- The third message is of the next epoch by count, the fourth of the one after it by time.
abbrev calls : List SendCall
calls =
    record { now = 10; later = 10; plaintext = 1 ∷ [] }
    ∷ record { now = 20; later = 20; plaintext = 2 ∷ [] }
    ∷ record { now = 30; later = 31; plaintext = 3 ∷ [] }
    ∷ record { now = 1031; later = 1032; plaintext = 4 ∷ [] }
    ∷ []

delivered-accepted_example :
    delivered crypto fresh fresh calls ≡ (1 ∷ []) ∷ (2 ∷ []) ∷ (3 ∷ []) ∷ (4 ∷ []) ∷ []
unfolding accepted keep_sent send finished rekeyed advance_send_to advance_send maybe_time_rekey
    epoch_for sealed pack_seq pack_be nonce write_frame pack_u32
delivered-accepted_example =
    delivered-accepted crypto crypto-IsAead (100 ∷ []) (5 ∷ []) fresh fresh calls fresh-InSync

frames_of-Rising_example : Rising crypto (100 ∷ []) (5 ∷ []) 2 0 (frames_of crypto fresh calls)
frames_of-Rising_example = frames_of-Rising crypto (100 ∷ []) (5 ∷ []) fresh calls fresh-Sends
