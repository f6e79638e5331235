-- ===== src/Tls/Pins.antt =====
-- When memnode/tlsmode.py lets a peer through.
use peer_memory.Prelude.{
  ◌≡◌, refl, sym, ◌⊎◌, inl, inr, true, Option, none, some, List, [], ◌∷◌, nat_eq, list_eq, ◌==◌,
  ==_iff, Result, ok, arith, Bool-cases,
}
use peer_memory.Prelude.Text.{Str, Bytes}
use mathlib.Core.Path.{subst}
use peer_memory.Prelude.{◌↔◌}
use peer_memory.Tls.{
  TlsError, TlsSettings, lower, is_pinned, peer_cert_fingerprint, check_observed, check_pins,
  enforce_pin,
}

-- One of the pins is this text, in some case.
abbrev pub Pinned : List Str → Str → Type 0
Pinned [] observed = ⊥
Pinned (pin ∷ pins) observed = (lower pin ≡ lower observed) ⊎ Pinned pins observed

is_pinned-Pinned :
    (pins : List Str) (observed : Str)
    → is_pinned pins (lower observed) ≡ true
    → Pinned pins observed
unfolding is_pinned
is_pinned-Pinned [] observed h = absurd (let f : ⊥ = ground (arith, h) in f)
is_pinned-Pinned (pin ∷ pins) observed h = elim (Bool-cases (lower pin == lower observed)) [
  | inl same ↦ inl ((==_iff (lower pin) (lower observed)).0 same)
  | inr other ↦ inr (
      is_pinned-Pinned pins observed
        (let g : is_pinned pins (lower observed) ≡ true = ground (arith, h, other) in g))
]

Pinned-is_pinned :
    (pins : List Str) (observed : Str)
    → Pinned pins observed
    → is_pinned pins (lower observed) ≡ true
unfolding is_pinned
Pinned-is_pinned [] observed h = absurd h
Pinned-is_pinned (pin ∷ pins) observed (inl same) =
    (let e = (==_iff (lower pin) (lower observed)).1 same in rw e (ground arith))
Pinned-is_pinned (pin ∷ pins) observed (inr h) =
    (let g = Pinned-is_pinned pins observed h in rw g (ground arith))

module _ (sha256_hex : Bytes → Str) where
  -- The peer showed a certificate whose fingerprint is a pin.
  abbrev pub Shows : List Str → Option Bytes → Type 0
  Shows pins cert =
      (observed : Str) × (peer_cert_fingerprint sha256_hex cert ≡ some observed)
      × Pinned pins observed

  -- The call returns.
  abbrev pub Passes : Result TlsError (Option Str) → Type 0
  Passes r = (seen : Option Str) × (r ≡ ok seen)

  check_observed-Passes :
      (pins : List Str) (seen : Option Str)
      → Passes (check_observed sha256_hex pins seen)
        ↔ ((observed : Str) × (seen ≡ some observed) × Pinned pins observed)
  unfolding check_observed
  check_observed-Passes pins none = (
    λ (o, h). absurd (let f : ⊥ = ground (arith, h) in f),
    λ (o, h, p). absurd (let f : ⊥ = ground (arith, h) in f),
  )
  check_observed-Passes pins (some observed) = elim (Bool-cases (is_pinned pins (lower observed))) [
    | inl good ↦
        rw good
          (λ _. (observed, refl, is_pinned-Pinned pins observed good), λ _. (some observed, refl))
    | inr bad ↦ rw bad (
      λ (o, h). absurd (let f : ⊥ = ground (arith, h) in f),
      λ (o, h, p). absurd (
          let q : observed ≡ o = ground (arith, h) in
          let g = Pinned-is_pinned pins observed (subst (Pinned pins) (sym q) p) in
          let f : ⊥ = ground (arith, g, bad) in f),
    )
  ]

-- Where TLS is on and there are pins, enforce_pin() returns exactly when the peer showed a certificate whose fingerprint is one of the
-- pins, in upper or lower case, and raises otherwise.
pub enforce_pin_iff :
    (sha256_hex : Bytes → Str) (s : TlsSettings) (pin : Str) (pins : List Str) (cert : Option Bytes)
    → s.enabled ≡ true
    → s.pinned_sha256 ≡ pin ∷ pins
    → Passes sha256_hex (enforce_pin sha256_hex s cert) ↔ Shows sha256_hex (pin ∷ pins) cert
unfolding enforce_pin check_pins
enforce_pin_iff sha256_hex s pin pins cert on listed =
    rw (on, listed)
      (check_observed-Passes sha256_hex (pin ∷ pins) (peer_cert_fingerprint sha256_hex cert))
