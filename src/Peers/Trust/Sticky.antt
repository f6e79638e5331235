-- ===== src/Peers/Trust/Sticky.antt =====
-- Verification in memnode/peers.py's trust store does not wear off.
use peer_memory.Prelude.{
  ℕ, ◌≡◌, refl, ap, ◌∙◌, inl, inr, Bool, true, false, ◌&&◌, ◌||◌, Option, none, some, List, [], ◌∷◌,
  if◌then◌else◌, nat_eq, list_eq, ◌==◌, ==_iff, All, arith, Bool-cases, Option-cases,
}
use peer_memory.Prelude.Dict.{get, put, remove, get-put, get-remove}
use peer_memory.Prelude.Text.{Str}
use peer_memory.Prelude.{if_both}
use peer_memory.Wire.Message.{Value}
use peer_memory.Peers.Trust.{
  TrustStore, Entry, Method, Outcome, dumps_all, save, truthy, is_verified, verified_entry, trust,
  mark_verified, revoke, refreshed, entry_or_new, with_address,
}
use peer_memory.Peers.Trust.Persistence.{
  Call, trust_call, mark_call, revoke_call, apply_call, apply, run,
}

-- The call takes no record of this key out.
abbrev pub Keeps : Str → Call → Type 0
Keeps key (revoke_call _ other_key) = (other_key == key) ≡ false
Keeps key (trust_call _ _ _ _ _ _ _) = Unit
Keeps key (mark_call _ _ _) = Unit

with_address-verified :
    (entry : Entry) (addr : Option Str) → (with_address entry addr).verified ≡ entry.verified
unfolding with_address
with_address-verified entry none = refl
with_address-verified entry (some []) = refl
with_address-verified entry (some (c ∷ cs)) = refl

entry_or_new-verified :
    (now : ℕ) (name : Option Value) (old : Option Entry)
    → truthy (entry_or_new now name old).verified ≡ verified_entry old
unfolding entry_or_new verified_entry truthy
entry_or_new-verified now name none = refl
entry_or_new-verified now name (some entry) = refl

-- A save that fails leaves the records in memory as the call made them.
save-peers : (disk : Bool) (st : TrustStore) → (save disk st).0.peers ≡ st.peers
unfolding save
save-peers disk st =
    if_both (λ (r : TrustStore × Outcome). r.0.peers ≡ st.peers) (disk && dumps_all st.peers) refl
      refl

saved-verified :
    (disk : Bool) (st : TrustStore) (j : Str) → is_verified (save disk st).0 j ≡ is_verified st j
unfolding is_verified
saved-verified disk st j = ap (λ d. verified_entry (get d j)) (save-peers disk st)

pub trust-verified :
    (disk : Bool) (now : ℕ) (st : TrustStore) (key : Str) (name : Option Value) (verified : Bool)
    (method : Method) (addr : Option Str) (j : Str)
    → is_verified (trust disk now st key name verified method addr).0 j
      ≡ (if key == j then is_verified st j || verified else is_verified st j)
unfolding trust is_verified verified_entry refreshed truthy
trust-verified disk now st key name verified method addr j =
    let old = entry_or_new now name (get st.peers key) in
    let entry = with_address (refreshed now name verified method old) addr in
    let v = with_address-verified (refreshed now name verified method old) addr in
    let o = entry_or_new-verified now name (get st.peers key) in
    saved-verified disk (record st { peers = put st.peers key entry }) j
    ∙ rw (get-put st.peers key j entry) (elim (Bool-cases (key == j)) [
      | inl here ↦ simp here (
          ap truthy v
          ∙ ap (λ b. b || verified) o
          ∙ ap (λ k. verified_entry (get st.peers k) || verified) ((==_iff key j).0 here))
      | inr there ↦ simp there refl
    ])

mark_verified-verified :
    (disk : Bool) (st : TrustStore) (key : Str) (method : Method) (j : Str)
    → is_verified st j ≡ true
    → is_verified (mark_verified disk st key method).0 j ≡ true
unfolding mark_verified is_verified verified_entry truthy
mark_verified-verified disk st key method j h = elim (Option-cases (get st.peers key)) [
  | inl gone ↦ rw (gone, mark_verified) h
  | inr (entry, e) ↦
      let marked = record entry { verified = some true; method = some method } in
      rw (e, mark_verified)
        (saved-verified disk (record st { peers = put st.peers key marked }) j
          ∙ rw (get-put st.peers key j marked)
              (if_both (λ r. verified_entry r ≡ true) (key == j) refl h))
]

revoke-verified :
    (disk : Bool) (st : TrustStore) (key j : Str)
    → (key == j) ≡ false
    → is_verified (revoke disk st key).0 j ≡ is_verified st j
unfolding revoke is_verified
revoke-verified disk st key j ne = elim (Option-cases (get st.peers key)) [
  | inl gone ↦ rw (gone, revoke) refl
  | inr (entry, e) ↦
      rw (e, revoke)
        (saved-verified disk (record st { peers = remove st.peers key }) j
          ∙ rw (get-remove st.peers key j, ne) refl)
]

apply-verified :
    (st : TrustStore) (call : Call) (key : Str)
    → Keeps key call
    → is_verified st key ≡ true
    → is_verified (apply st call) key ≡ true
unfolding apply apply_call
apply-verified st (trust_call disk now k name verified method addr) key keep h =
    trust-verified disk now st k name verified method addr key ∙ ground (arith, h)
apply-verified st (mark_call disk k method) key keep h =
    mark_verified-verified disk st k method key h
apply-verified st (revoke_call disk k) key keep h = revoke-verified disk st k key keep ∙ h

-- A peer that was verified once stays verified, whatever calls follow that do not revoke it: a later plain trust on
-- first use does not take it back.
pub run-verified :
    (st : TrustStore) (calls : List Call) (key : Str)
    → All (Keeps key) calls
    → is_verified st key ≡ true
    → is_verified (run st calls) key ≡ true
unfolding run
run-verified st [] key keep h = h
run-verified st (call ∷ calls) key keep h =
    run-verified (apply st call) calls key keep.1 (apply-verified st call key keep.0 h)
