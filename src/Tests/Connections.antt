-- ===== src/Tests/Connections.antt =====
-- Connections that come in to memnode/peers.py, and the pins of memnode/tlsmode.py.
use peer_memory.Prelude.{false, ◌≡◌, refl, true, some, [], ◌∷◌, nat_eq, list_eq, ok}
use peer_memory.Prelude.Text.{Str, Bytes}
use peer_memory.Prelude.{◌↔◌}
use peer_memory.Prelude.Text.{codes}
use peer_memory.Security.Handshake.{my_hello, my_auth}
use peer_memory.Tls.{
  TlsSettings, enforce_pin, check_pins, check_observed, is_pinned, lower, lower_code,
  peer_cert_fingerprint,
}
use peer_memory.Tls.Pins.{Passes, Shows, enforce_pin_iff}
use peer_memory.Peers.Trust.{missing}
use peer_memory.Peers.Incoming.{Listener, Arrival, handle_incoming}
use peer_memory.Peers.Incoming.Admitted.{Sound, handle_incoming-Sound}
use peer_memory.Tests.Greetings.{prim, alice, bob, transcript}

-- The fingerprint of a certificate is its first byte twice.
abbrev sha256_hex : Bytes → Str
sha256_hex [] = []
sha256_hex (b ∷ bs) = b ∷ b ∷ []

abbrev settings : TlsSettings
settings = record {
  enabled = true;
  certfile = some (codes "cert.pem");
  keyfile = some (codes "key.pem");
  cafile = some (codes "ca.pem");
  require_client_cert = true;
  pinned_sha256 = codes "BB" ∷ codes "AA" ∷ [];
}

-- The pin is in upper case and the fingerprint in lower case.
upper : enforce_pin sha256_hex settings (some (codes "aaa")) ≡ ok (some (codes "aa"))
unfolding enforce_pin check_pins check_observed is_pinned lower lower_code peer_cert_fingerprint
upper = refl

enforce_pin_iff_example :
    Passes sha256_hex (enforce_pin sha256_hex settings (some (codes "aaa")))
    ↔ Shows sha256_hex (codes "BB" ∷ codes "AA" ∷ []) (some (codes "aaa"))
enforce_pin_iff_example =
    enforce_pin_iff sha256_hex settings (codes "BB") (codes "AA" ∷ []) (some (codes "aaa")) refl
      refl

abbrev listener : Listener
listener = record {
  guard = record {
    limits = record {
      max_per_ip_per_window = 2;
      window = 1000;
      max_inflight_per_ip = 1;
      max_inflight_total = 2;
      max_tracked_ips = 3;
    };
    ips = [];
    inflight_total = 0;
    rejected_rate = 0;
    rejected_inflight_ip = 0;
    rejected_inflight_total = 0;
  };
  trust = record { peers = []; file = missing };
  peers = [];
}

-- Alice dials bob, with a certificate that is pinned, and the user of bob confirms the digits.
abbrev arrival : Arrival
arrival = record {
  ip = codes "10.0.0.1";
  addr = codes "10.0.0.1:7070";
  connection = 1;
  now = 100;
  later = 200;
  cert = some (codes "aaa");
  frames = some (my_hello prim alice, my_auth prim alice transcript);
  others = λ g. g;
  meanwhile = λ st. st;
  approved = true;
}

handle_incoming-Sound_example :
    Sound prim sha256_hex settings
      (λ _ _. false)
      true
      true
      bob
      arrival
      listener
      (handle_incoming prim sha256_hex settings (λ _ _. false) true true bob arrival listener)
handle_incoming-Sound_example =
    handle_incoming-Sound prim sha256_hex settings (λ _ _. false) true true bob arrival listener
