-- ===== src/Peers/Trust/Persistence.antt =====
-- The file of memnode/peers.py's trust store over a whole sequence of calls.
use peer_memory.Prelude.{
  ℕ, ◌≡◌, refl, ap, inl, inr, Bool, true, false, ◌&&◌, arith, Option, some, List, [], ◌∷◌, nat_eq,
  list_eq, Option-cases,
}
use peer_memory.Prelude.Dict.{Dict, get, put, remove}
use peer_memory.Prelude.Text.{Str}
use peer_memory.Prelude.{if_both}
use peer_memory.Wire.Message.{Value}
use peer_memory.Peers.Trust.{
  TrustStore, Entry, File, missing, unreadable, other, broken, v2, v1, Outcome, untouched, saved,
  raised, dumps_all, Method, kept, migrated, stored, save, open_store, trust, mark_verified, revoke,
  refreshed, entry_or_new, with_address,
}

-- A call of a method that writes, with the state of the disk.
pub data Call : Type 0 where
  trust_call : Bool → ℕ → Str → Option Value → Bool → Method → Option Str → Call
  mark_call : Bool → Str → Method → Call
  revoke_call : Bool → Str → Call

unfoldable pub apply_call : TrustStore → Call → TrustStore × Outcome
apply_call st (trust_call disk now key name verified method addr) =
    trust disk now st key name verified method addr
apply_call st (mark_call disk key method) = mark_verified disk st key method
apply_call st (revoke_call disk key) = revoke disk st key

unfoldable pub apply : TrustStore → Call → TrustStore
apply st call = (apply_call st call).0

unfoldable pub run : TrustStore → List Call → TrustStore
run st [] = st
run st (call ∷ calls) = run (apply st call) calls

unfoldable pub after_call : Outcome → Bool → Bool
after_call untouched current = current
after_call saved current = true
after_call raised current = false

-- No save has failed since the last one that came through.
unfoldable pub is_current : Bool → TrustStore → List Call → Bool
is_current current st [] = current
is_current current st (call ∷ calls) =
    is_current (after_call (apply_call st call).1 current) (apply st call) calls

kept-stored : (d : Dict Str Entry) → kept (stored d) ≡ d
unfolding kept stored
kept-stored [] = refl
kept-stored ((k, entry) ∷ d) = ap (◌∷◌ (k, entry)) (kept-stored d)

-- A start with this file has these records.
abbrev IsSaved : TrustStore → Type 0
IsSaved st = (disk : Bool) (now : ℕ) → (open_store disk now st.file).0.peers ≡ st.peers

-- The file has the records, if that is how it should be after this outcome.
abbrev Current : Bool → TrustStore × Outcome → Type 0
Current current (st, outcome) = after_call outcome current ≡ true → IsSaved st

save-Current : (current disk : Bool) (st : TrustStore) → Current current (save disk st)
unfolding save open_store after_call
save-Current current disk st =
    if_both (Current current) (disk && dumps_all st.peers) (λ _ again now. kept-stored st.peers)
      (λ h. absurd (let f : ⊥ = ground (arith, h) in f))

open_store-Current : (disk : Bool) (now : ℕ) (file : File) → Current true (open_store disk now file)
unfolding open_store after_call
open_store-Current disk now missing h = λ again later. refl
open_store-Current disk now unreadable h = λ again later. refl
open_store-Current disk now other h = λ again later. refl
open_store-Current disk now broken h = λ again later. refl
open_store-Current disk now (v2 d) h = λ again later. refl
open_store-Current disk now (v1 d) h =
    save-Current true disk (record { peers = migrated now d; file = v1 d }) h

mark_verified-Current :
    (current disk : Bool) (st : TrustStore) (key : Str) (method : Method)
    → (current ≡ true → IsSaved st)
    → Current current (mark_verified disk st key method)
unfolding mark_verified after_call
mark_verified-Current current disk st key method h = elim (Option-cases (get st.peers key)) [
  | inl gone ↦ rw (gone, mark_verified) h
  | inr (entry, e) ↦
      rw (e, mark_verified)
        (save-Current current disk (record st {
          peers = put st.peers key (record entry { verified = some true; method = some method });
        }))
]

revoke-Current :
    (current disk : Bool) (st : TrustStore) (key : Str)
    → (current ≡ true → IsSaved st)
    → Current current (revoke disk st key)
unfolding revoke after_call
revoke-Current current disk st key h = elim (Option-cases (get st.peers key)) [
  | inl gone ↦ rw (gone, revoke) h
  | inr (entry, e) ↦
      rw (e, revoke) (save-Current current disk (record st { peers = remove st.peers key }))
]

apply_call-Current :
    (current : Bool) (st : TrustStore) (call : Call)
    → (current ≡ true → IsSaved st)
    → Current current (apply_call st call)
unfolding apply_call trust
apply_call-Current current st (trust_call disk now key name verified method addr) h =
    save-Current current disk (record st {
      peers = put st.peers key (
          with_address
            (refreshed now name verified method (entry_or_new now name (get st.peers key))) addr);
    })
apply_call-Current current st (mark_call disk key method) h =
    mark_verified-Current current disk st key method h
apply_call-Current current st (revoke_call disk key) h = revoke-Current current disk st key h

run-Current :
    (current : Bool) (st : TrustStore) (calls : List Call)
    → (current ≡ true → IsSaved st)
    → is_current current st calls ≡ true
    → IsSaved (run st calls)
unfolding run is_current apply
run-Current current st [] h now_current = h now_current
run-Current current st (call ∷ calls) h now_current =
    run-Current (after_call (apply_call st call).1 current) (apply_call st call).0 calls
      (apply_call-Current current st call h) now_current

-- Whatever file the store was opened with, a migrated one included, and whatever calls followed, those whose save failed
-- included: if no save has failed since the last one that came through, a restart reads back exactly the records in memory.
-- A save fails for a name with bytes in it and where the disk does not take the file.
pub open_store-run :
    (disk again : Bool) (now later : ℕ) (file : File) (calls : List Call)
    → is_current (after_call (open_store disk now file).1 true) (open_store disk now file).0 calls
      ≡ true
    → (open_store again later (run (open_store disk now file).0 calls).file).0.peers
      ≡ (run (open_store disk now file).0 calls).peers
open_store-run disk again now later file calls current =
    run-Current (after_call (open_store disk now file).1 true) (open_store disk now file).0 calls
      (open_store-Current disk now file) current again later
