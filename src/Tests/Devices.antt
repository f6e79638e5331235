-- ===== src/Tests/Devices.antt =====
-- Calls of memnode/peers.py's trust store, and the placement of a block on one of two peers.
use peer_memory.Prelude.{
  ℕ, ◌≡◌, refl, Bool, true, false, Option, none, some, List, [], ◌∷◌, nat_eq, list_eq, ◌==◌,
}
use peer_memory.Prelude.Dict.{get, put, remove}
use peer_memory.Wire.Message.{Value, text, binary}
use peer_memory.Prelude.Text.{Str}
use peer_memory.Prelude.Text.{codes}
use peer_memory.Prelude.{◌↔◌}
use peer_memory.Peers.Trust.{
  TrustStore, Entry, File, missing, v1, sas, is_verified, open_store, verified_entry, truthy, find,
  nonempty_entry, has_field, save, trust, mark_verified, revoke, migrated, refreshed, entry_or_new,
  with_address, method_after, dumps_all, dumps_name, dumps, stored,
}
use peer_memory.Peers.Trust.Warnings.{
  pinned_elsewhere, same_name, name_conflicts, renamed, renamed_name, identity_conflicts,
}
use peer_memory.Peers.Trust.Persistence.{
  Call, trust_call, mark_call, revoke_call, run, apply, apply_call, is_current, after_call,
  open_store-run,
}
use peer_memory.Peers.Trust.Sticky.{run-verified}
use peer_memory.Peers.Trust.Conflicts.{Unshared, Unchanged, identity_conflicts_iff}
use peer_memory.Peers.Consent.{
  trusted, verdict_of, check_consent, answer, consult, consult_known, settle,
  check_consent-verified,
}
use peer_memory.Peers.Registry.{
  PeerInfo, Peers, Loops, register, end_loop, connection_of, best_peer_for_store,
}
use peer_memory.Peers.Registry.Placement.{Best, best_peer_for_store-Best}

abbrev laptop_key : Str
laptop_key = codes "ab12"

abbrev phone_key : Str
phone_key = codes "cd34"

abbrev laptop : Option Value
laptop = some (text (codes "laptop"))

-- Python's == on two texts.
abbrev same : Value → Value → Bool
same (text a) (text b) = a == b
same _ _ = false

-- A file of the first version, with one device.
abbrev old_file : File
old_file = v1 ((laptop_key, some (codes "laptop")) ∷ [])

abbrev entry_of : Bool → Entry
entry_of verified = record {
  name = laptop;
  first_seen = some 7;
  last_seen = some 7;
  verified = some verified;
  method = some sas;
  addresses = some [];
}

abbrev one_device : Bool → TrustStore
one_device verified = record { peers = (laptop_key, entry_of verified) ∷ []; file = missing }

-- The name of the phone is bytes: two saves fail, and the one after the phone is revoked comes through.
abbrev calls : List Call
calls =
    trust_call true 9 phone_key (some (binary (codes "phone"))) true sas none
    ∷ mark_call true laptop_key sas
    ∷ revoke_call true phone_key
    ∷ []

-- Another key comes with the name of a device that is known.
impostor :
    identity_conflicts same (one_device true) phone_key laptop ≡ pinned_elsewhere laptop_key ∷ []
unfolding identity_conflicts name_conflicts renamed renamed_name same_name get
impostor = refl

open_store-run_example :
    (open_store true 20 (run (open_store true 5 old_file).0 calls).file).0.peers
    ≡ (run (open_store true 5 old_file).0 calls).peers
unfolding is_current after_call apply apply_call open_store save trust mark_verified revoke migrated
    refreshed entry_or_new with_address method_after truthy dumps_all dumps_name dumps stored get
    put remove
open_store-run_example = open_store-run true true 5 20 old_file calls refl

run-verified_example : is_verified (run (one_device true) calls) laptop_key ≡ true
unfolding is_verified verified_entry truthy get
run-verified_example = run-verified (one_device true) calls laptop_key (tt, (tt, (refl, tt))) refl

identity_conflicts_iff_example :
    (identity_conflicts same (one_device true) phone_key laptop ≡ []) ↔ (
      Unshared same (one_device true).peers phone_key laptop
      × Unchanged same (get (one_device true).peers phone_key) laptop)
unfolding get
identity_conflicts_iff_example =
    identity_conflicts_iff same (one_device true) phone_key laptop (refl, tt)

-- The device is known but not verified, and the user confirms its digits.
check_consent-verified_example :
    is_verified
      (check_consent same true true 8 9 (λ st. st) (one_device false) laptop_key laptop none true).0
      laptop_key
    ≡ true
unfolding check_consent answer consult consult_known settle find nonempty_entry has_field truthy get
    trusted verdict_of trust save dumps_all dumps_name dumps put refreshed entry_or_new with_address
check_consent-verified_example =
    check_consent-verified same true 8 9 (λ st. st) (one_device false) laptop_key laptop none true
      refl

abbrev info : ℕ → ℕ → PeerInfo ℕ
info connection quota = record {
  name = laptop;
  addr = codes "10.0.0.1:7070";
  connection = connection;
  remote_quota = quota;
  sas = codes "123456";
  verified = false;
}

abbrev two_peers : Peers ℕ
two_peers = (laptop_key, info 1 100) ∷ (phone_key, info 2 300) ∷ []

best_peer_for_store-Best_example : Best two_peers 200 (best_peer_for_store two_peers 200)
unfolding get
best_peer_for_store-Best_example = best_peer_for_store-Best two_peers 200 (refl, (refl, tt))

-- The laptop is connected by 1, connects again by 3, and then the loop of the first connection ends: 3 is open but the laptop
-- is not reachable.
abbrev reconnected : Loops ℕ
reconnected = record { peers = register two_peers laptop_key (info 3 100); closed = [] }

reconnection :
    let after = end_loop reconnected (record { key = laptop_key; connection = 1 }) in
    (connection_of reconnected.peers laptop_key ≡ some 3)
    × (after.closed ≡ 1 ∷ [])
    × (connection_of after.peers laptop_key ≡ none)
unfolding register end_loop connection_of get put remove
reconnection = (refl, refl, refl)
