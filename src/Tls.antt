-- ===== src/Tls.antt =====
-- memnode/tlsmode.py: the optional TLS layer of peer connections.
--
-- SHA-256 of a certificate, as hexadecimal digits, is a parameter. Pins are ASCII text. That the files of the settings can be
-- loaded is not modelled.
pub mod Pins
use peer_memory.Prelude.{
  ℕ, ◌+◌, Bool, true, false, not, ◌&&◌, ◌||◌, Option, none, some, List, [], ◌∷◌, leb, if◌then◌else◌,
  nat_eq, list_eq, ◌==◌, Result, ok, raise,
}
use peer_memory.Prelude.Text.{Str, Bytes}

pub data TlsError : Type 0 where
  config_error pin_mismatch : TlsError

pub record TlsSettings : Type 0 where
  pub enabled : Bool
  pub certfile : Option Str
  pub keyfile : Option Str
  pub cafile : Option Str
  pub require_client_cert : Bool
  pub pinned_sha256 : List Str

-- The truth of a file name that may be None.
unfoldable pub given : Option Str → Bool
given none = false
given (some []) = false
given (some (c ∷ cs)) = true

unfoldable pub validate : TlsSettings → Result TlsError (Unit {0})
validate s =
    if not s.enabled
    then ok tt
    else if not (given s.certfile) || not (given s.keyfile)
    then raise config_error
    else if s.require_client_cert && not (given s.cafile)
    then raise config_error
    else ok tt

-- What a context is set to: TLS 1.3 or newer, with these files.
pub record Context : Type 0 where
  pub certfile : Option Str
  pub keyfile : Option Str
  pub cafile : Option Str
  pub requires_cert : Bool
  pub checks_hostname : Bool

unfoldable pub built : Context → Result TlsError (Unit {0}) → Result TlsError (Option Context)
built context (raise e) = raise e
built context (ok _) = ok (some context)

unfoldable pub build_server_context : TlsSettings → Result TlsError (Option Context)
build_server_context s =
    if not s.enabled
    then ok none
    else built
        (record {
          certfile = s.certfile;
          keyfile = s.keyfile;
          cafile = if s.require_client_cert then s.cafile else none;
          requires_cert = s.require_client_cert;
          checks_hostname = false;
        })
        (validate s)

-- A client's context requires a certificate unless it is told otherwise.
unfoldable pub build_client_context : TlsSettings → Result TlsError (Option Context)
build_client_context s =
    if not s.enabled
    then ok none
    else built
        (record {
          certfile = s.certfile;
          keyfile = s.keyfile;
          cafile = if given s.cafile then s.cafile else none;
          requires_cert = true;
          checks_hostname = false;
        })
        (validate s)

unfoldable pub lower_code : ℕ → ℕ
lower_code c = if leb 65 c && leb c 90 then c + 32 else c

-- str.lower() of ASCII text
unfoldable pub lower : Str → Str
lower [] = []
lower (c ∷ cs) = lower_code c ∷ lower cs

-- observed in {p.lower() for p in pins}
unfoldable pub is_pinned : List Str → Str → Bool
is_pinned [] observed = false
is_pinned (pin ∷ pins) observed = lower pin == observed || is_pinned pins observed

module _ (sha256_hex : Bytes → Str) where
  -- peer_cert_fingerprint(): the certificate is none without TLS, and may be empty
  unfoldable pub peer_cert_fingerprint : Option Bytes → Option Str
  peer_cert_fingerprint none = none
  peer_cert_fingerprint (some []) = none
  peer_cert_fingerprint (some (b ∷ bs)) = some (sha256_hex (b ∷ bs))

  unfoldable pub check_observed : List Str → Option Str → Result TlsError (Option Str)
  check_observed pins none = raise pin_mismatch
  check_observed pins (some observed) =
      if is_pinned pins (lower observed) then ok (some observed) else raise pin_mismatch

  unfoldable pub check_pins : List Str → Option Bytes → Result TlsError (Option Str)
  check_pins [] cert = ok none
  check_pins (pin ∷ pins) cert = check_observed (pin ∷ pins) (peer_cert_fingerprint cert)

  unfoldable pub enforce_pin : TlsSettings → Option Bytes → Result TlsError (Option Str)
  enforce_pin s cert = if not s.enabled then ok none else check_pins s.pinned_sha256 cert
