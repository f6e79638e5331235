-- ===== src/Rpc/Auth.antt =====
-- memnode/rpcauth.py: verify_response() and is_loopback(), and the checks that start() of memnode/rpc.py makes before it listens.
--
-- HMAC-SHA256 of a token and a challenge, as hexadecimal digits, is a parameter.
use peer_memory.Prelude.{
  ℕ, Bool, true, false, not, ◌&&◌, ◌||◌, Option, some, [], ◌∷◌, ltb, if◌then◌else◌, nat_eq, list_eq,
  ◌==◌, Result, ok, raise,
}
use peer_memory.Prelude.Text.{Str}
use peer_memory.Prelude.Text.{codes, starts_with}
use peer_memory.Wire.Message.{Value, text}

pub data AuthError : Type 0 where
  not_ascii refused_bind unauthenticated_bind : AuthError

unfoldable pub is_ascii : Str → Bool
is_ascii [] = true
is_ascii (c ∷ cs) = ltb c 128 && is_ascii cs

-- hmac.compare_digest() of two texts raises TypeError where one has a character beyond ASCII.
unfoldable pub compare_digest : Str → Str → Result AuthError Bool
compare_digest a b = if is_ascii a && is_ascii b then ok (a == b) else raise not_ascii

module _ (hmac : Str → Str → Str) where
  unfoldable pub verify_response : Str → Str → Option Value → Result AuthError Bool
  verify_response token challenge (some (text response)) =
      compare_digest (hmac token challenge) response
  verify_response token challenge _ = ok false

unfoldable pub is_bracket : ℕ → Bool
is_bracket c = c == 91 || c == 93

unfoldable pub strip_left : Str → Str
strip_left [] = []
strip_left (c ∷ cs) = let rest = strip_left cs in if is_bracket c then rest else c ∷ cs

unfoldable pub reversed : Str → Str → Str
reversed [] done = done
reversed (c ∷ cs) done = reversed cs (c ∷ done)

-- host.strip("[]")
unfoldable pub strip_brackets : Str → Str
strip_brackets host = reversed (strip_left (reversed (strip_left host) [])) []

-- The tests of is_loopback() on a host that is not empty
unfoldable pub is_local : Str → Bool
is_local host = host == codes "localhost" || host == codes "::1" || starts_with host (codes "127.")

unfoldable pub is_loopback : Str → Bool
is_loopback [] = false
is_loopback (c ∷ cs) = is_local (strip_brackets (c ∷ cs))

-- self.require_auth, set at the start from the wish and the token
unfoldable pub auth_required : Bool → Str → Bool
auth_required wanted [] = false
auth_required wanted (c ∷ cs) = wanted

-- start(), up to the listening
unfoldable pub start : Str → Bool → Bool → Result AuthError (Unit {0})
start bind_host require_auth allow_remote_bind =
    if not (is_loopback bind_host) && not allow_remote_bind
    then raise refused_bind
    else if not require_auth && not (is_loopback bind_host)
    then raise unauthenticated_bind
    else ok tt
