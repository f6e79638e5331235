-- ===== src/Peers/Consent.antt =====
-- memnode/peers.py: _check_consent and verify_peer.
--
-- The consent callback is an argument, its answer. While it is awaited other tasks can use the trust store: `meanwhile` is
-- what they do to it. `same` is Python's == on names and `disk` is whether the trust store can write its file.
use peer_memory.Prelude.{
  ℕ, ◌≡◌, ap, ◌∙◌, inl, inr, Bool, true, false, not, ◌&&◌, ◌||◌, Option, none, some, List,
  if◌then◌else◌, nat_eq, list_eq, ◌==◌, ==_refl, arith, Bool-cases, Option-cases,
}
use peer_memory.Prelude.Dict.{get}
use peer_memory.Prelude.Text.{Str}
use peer_memory.Wire.Message.{Value}
use peer_memory.Peers.Trust.{
  TrustStore, Entry, Outcome, untouched, saved, raised, tofu, sas, find, nonempty_entry,
  verified_entry, truthy, is_verified, trust,
}
use peer_memory.Peers.Trust.Warnings.{Conflict, identity_conflicts}
use peer_memory.Peers.Trust.Sticky.{trust-verified}

-- What _check_consent() returns, True or False, or that trust() raised.
pub data Verdict : Type 0 where
  let_in turned_away failed : Verdict

unfoldable pub verdict_of : Outcome → Verdict
verdict_of raised = failed
verdict_of saved = let_in
verdict_of untouched = let_in

unfoldable pub trusted : TrustStore × Outcome → TrustStore × Verdict
trusted (st, outcome) = (st, verdict_of outcome)

-- What happens before the callback: trust() is called, or the callback is asked, after these warnings.
pub data Consultation : Type 0 where
  welcome : TrustStore × Verdict → Consultation
  ask : List Conflict → Consultation

module _ (same : Value → Value → Bool) (disk require_sas : Bool) where
  unfoldable pub consult_known :
      ℕ → TrustStore → Str → Option Value → Option Str → Option Entry → Consultation
  consult_known now st key name addr none = ask (identity_conflicts same st key name)
  consult_known now st key name addr (some entry) =
      if require_sas && not (truthy entry.verified)
      then ask (identity_conflicts same st key name)
      else welcome (trusted (trust disk now st key name false tofu addr))

  unfoldable pub consult : ℕ → TrustStore → Str → Option Value → Option Str → Consultation
  consult now st key name addr = consult_known now st key name addr (find st key)

  -- What happens with the answer.
  unfoldable pub settle :
      ℕ → TrustStore → Str → Option Value → Option Str → Bool → TrustStore × Verdict
  settle now st key name addr approved =
      if approved
      then trusted (trust disk now st key name require_sas (if require_sas then sas else tofu) addr)
      else (st, turned_away)

  unfoldable pub answer :
      ℕ
      → (TrustStore → TrustStore)
      → TrustStore
      → Str
      → Option Value
      → Option Str
      → Bool
      → Consultation
      → TrustStore × Verdict
  answer later meanwhile st key name addr approved (welcome r) = r
  answer later meanwhile st key name addr approved (ask warnings) =
      settle later (meanwhile st) key name addr approved

  -- _check_consent(pubkey_hex, name, addr, sas)
  unfoldable pub check_consent :
      ℕ
      → ℕ
      → (TrustStore → TrustStore)
      → TrustStore
      → Str
      → Option Value
      → Option Str
      → Bool
      → TrustStore × Verdict
  check_consent now later meanwhile st key name addr approved =
      answer later meanwhile st key name addr approved (consult now st key name addr)

-- Whoever is let in without a question is verified.
abbrev Welcomed : Str → Consultation → Type 0
Welcomed key (welcome (st, verdict)) = is_verified st key ≡ true
Welcomed key (ask _) = Unit

nonempty_entry-verified :
    (old : Option Entry) (entry : Entry)
    → nonempty_entry old ≡ some entry
    → verified_entry old ≡ truthy entry.verified
unfolding nonempty_entry verified_entry
nonempty_entry-verified none entry h = absurd (let f : ⊥ = ground (arith, h) in f)
nonempty_entry-verified (some e) entry h =
    (let q : e ≡ entry = ground (arith, h) in ap (λ (x : Entry). truthy x.verified) q)

module _ (same : Value → Value → Bool) (disk : Bool) where
  consult-Welcomed :
      (now : ℕ) (st : TrustStore) (key : Str) (name : Option Value) (addr : Option Str)
      → Welcomed key (consult same disk true now st key name addr)
  unfolding consult consult_known find is_verified trusted
  consult-Welcomed now st key name addr = elim (Option-cases (find st key)) [
    | inl gone ↦ rw gone tt
    | inr (entry, e) ↦
        let v = nonempty_entry-verified (get st.peers key) entry e in
        elim (Bool-cases (truthy entry.verified)) [
          | inl good ↦
              rw (e, good)
                (let t : is_verified (trust disk now st key name false tofu addr).0 key
                      ≡ (if key == key then is_verified st key || false else is_verified st key) =
                    trust-verified disk now st key name false tofu addr key in
                  t ∙ rw (==_refl key) (ground (arith, v, good)))
          | inr not_yet ↦ rw (e, not_yet) tt
        ]
  ]

  settle-verified :
      (later : ℕ) (st : TrustStore) (key : Str) (name : Option Value) (addr : Option Str)
      (approved : Bool)
      → (settle same disk true later st key name addr approved).1 ≡ let_in
      → is_verified (settle same disk true later st key name addr approved).0 key ≡ true
  unfolding settle trusted
  settle-verified later st key name addr approved = elim (Bool-cases approved) [
    | inl agreed ↦ rw agreed (λ _.
        trust-verified disk later st key name true sas addr key ∙ rw (==_refl key) (ground arith))
    | inr denied ↦ rw denied (λ h. absurd (let f : ⊥ = ground (arith, h) in f))
  ]

  answer-verified :
      (later : ℕ) (meanwhile : TrustStore → TrustStore) (st : TrustStore) (key : Str)
      (name : Option Value) (addr : Option Str) (approved : Bool) (c : Consultation)
      → Welcomed key c
      → (answer same disk true later meanwhile st key name addr approved c).1 ≡ let_in
      → is_verified (answer same disk true later meanwhile st key name addr approved c).0 key ≡ true
  unfolding answer
  answer-verified later meanwhile st key name addr approved (welcome (st', verdict)) w h = w
  answer-verified later meanwhile st key name addr approved (ask warnings) w h =
      settle-verified later (meanwhile st) key name addr approved h

  -- With `require_sas_verification` no peer is let in that the trust store does not hold as verified afterwards,
  -- whatever the store held and whatever happened to it while the callback was awaited.
  pub check_consent-verified :
      (now later : ℕ) (meanwhile : TrustStore → TrustStore) (st : TrustStore) (key : Str)
      (name : Option Value) (addr : Option Str) (approved : Bool)
      → (check_consent same disk true now later meanwhile st key name addr approved).1 ≡ let_in
      → is_verified
          (check_consent same disk true now later meanwhile st key name addr approved).0
          key
        ≡ true
  unfolding check_consent
  check_consent-verified now later meanwhile st key name addr approved h =
      answer-verified later meanwhile st key name addr approved
        (consult same disk true now st key name addr) (consult-Welcomed now st key name addr) h
