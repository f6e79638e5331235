-- ===== src/Peers/Registry/Placement.antt =====
-- Where memnode/peers.py places a block.
use peer_memory.Prelude.{
  ℕ, ◌≤◌, ◌<◌, ◌≡◌, refl, sym, inl, inr, Bool, true, Option, none, some, List, [], ◌∷◌, ltb, leb,
  if◌then◌else◌, nat_eq, list_eq, ◌==◌, ==_iff, ==_refl, All, arith, Bool-cases,
}
use peer_memory.Prelude.Dict.{get, Distinct}
use peer_memory.Prelude.Text.{Str}
use mathlib.Core.Path.{subst}
use peer_memory.Prelude.{if_both}
use peer_memory.Peers.Registry.{PeerInfo, Peers, candidates, largest, first_of, best_peer_for_store}

abbrev pub quota_of : Option (PeerInfo ℕ) → Option ℕ
quota_of none = none
quota_of (some info) = some info.remote_quota

-- A candidate is a peer with its quota, and the quota is enough.
abbrev Candidate : Peers ℕ → ℕ → Str × ℕ → Type 0
Candidate peers size (key, quota) = (quota_of (get peers key) ≡ some quota) × (size ≤ quota)

weaken :
    (size : ℕ) (peers : Peers ℕ) (key : Str) (info : PeerInfo ℕ) (cs : List (Str × ℕ))
    → get peers key ≡ none
    → All (Candidate peers size) cs
    → All (Candidate ((key, info) ∷ peers) size) cs
unfolding get
weaken size peers key info [] gone h = tt
weaken size peers key info ((k, quota) ∷ cs) gone (c, rest) =
    ((ground (arith, ==_iff key k, c.0, gone), c.1), weaken size peers key info cs gone rest)

candidates-All :
    (size : ℕ) (peers : Peers ℕ)
    → Distinct peers
    → All (Candidate peers size) (candidates size peers)
unfolding candidates get
candidates-All size [] u = tt
candidates-All size ((key, info) ∷ peers) u =
    let rest =
      weaken size peers key info (candidates size peers) u.0 (candidates-All size peers u.1) in
    elim (Bool-cases (leb size info.remote_quota)) [
      | inl enough ↦ rw enough ((rw ==_refl refl, ground (arith, enough)), rest)
      | inr short ↦ rw short rest
    ]

-- What holds of all candidates holds of every peer with enough quota.
candidates-get :
    (P : Str × ℕ → Type 0) (size : ℕ) (peers : Peers ℕ) (key : Str) (info : PeerInfo ℕ)
    → All P (candidates size peers)
    → get peers key ≡ some info
    → size ≤ info.remote_quota
    → P (key, info.remote_quota)
unfolding candidates get
candidates-get P size [] key info h e enough = absurd (let f : ⊥ = ground (arith, e) in f)
candidates-get P size ((k, i) ∷ peers) key info h e enough = elim (Bool-cases (k == key)) [
  | inl here ↦
      let q : i ≡ info = ground (arith, e, here) in
      let fits : leb size i.remote_quota ≡ true = ground (arith, q, enough) in
      let all : All P ((k, i.remote_quota) ∷ candidates size peers) =
        subst
          (λ b.
            All P
              (if b then (k, i.remote_quota) ∷ candidates size peers else candidates size peers))
          fits h in
      subst (λ (x : PeerInfo ℕ). P (key, x.remote_quota)) q
        (subst (λ j. P (j, i.remote_quota)) ((==_iff k key).0 here) all.0)
  | inr there ↦
      candidates-get P size peers key info
        (elim (Bool-cases (leb size i.remote_quota)) [
          | inl fits ↦
              (let all : All P ((k, i.remote_quota) ∷ candidates size peers) =
                  subst
                    (λ b. All P (
                      if b
                      then (k, i.remote_quota) ∷ candidates size peers
                      else candidates size peers))
                    fits h in
                all.1)
          | inr short ↦
              subst
                (λ b. All P (
                  if b then (k, i.remote_quota) ∷ candidates size peers else candidates size peers))
                short h
        ])
        (ground (arith, e, there)) enough
]

largest-All :
    (P : Str × ℕ → Type 0) (best : Str × ℕ) (cs : List (Str × ℕ))
    → P best
    → All P cs
    → P (largest best cs)
unfolding largest
largest-All P best [] h all = h
largest-All P best (c ∷ cs) h all =
    if_both P (ltb best.1 c.1) (largest-All P c cs all.0 all.1) (largest-All P best cs h all.1)

largest-le : (best : Str × ℕ) (cs : List (Str × ℕ)) → best.1 ≤ (largest best cs).1
unfolding largest
largest-le best [] = omega arith
largest-le best (c ∷ cs) = ground (arith, largest-le c cs, largest-le best cs)

largest-upper : (best : Str × ℕ) (cs : List (Str × ℕ)) → All (λ c. c.1 ≤ (largest best cs).1) cs
unfolding largest
largest-upper best [] = tt
largest-upper best (c ∷ cs) =
    let Upper : Str × ℕ → Type 0 = λ (r : Str × ℕ). (c.1 ≤ r.1) × All (λ x. x.1 ≤ r.1) cs in
    let choose : Bool → Str × ℕ = λ b. if b then largest c cs else largest best cs in
    elim (Bool-cases (ltb best.1 c.1)) [
      | inl above ↦ subst (λ b. Upper (choose b)) (sym above) (largest-le c cs, largest-upper c cs)
      | inr below ↦
          subst (λ b. Upper (choose b)) (sym below)
            (
              (let le : c.1 ≤ best.1 = ground (arith, below) in
                  omega (arith, largest-le best cs, le)),
              largest-upper best cs,
            )
    ]

-- What best_peer_for_store() promises of its answer.
abbrev pub Best : Peers ℕ → ℕ → Option Str → Type 0
Best peers size none =
    (key : Str) (info : PeerInfo ℕ) → get peers key ≡ some info → info.remote_quota < size
Best peers size (some best) =
    (info : PeerInfo ℕ) × (get peers best ≡ some info)
    × (size ≤ info.remote_quota)
    × ((key : Str) (rival : PeerInfo ℕ)
        → get peers key ≡ some rival
        → rival.remote_quota ≤ info.remote_quota)

quota_info :
    (found : Option (PeerInfo ℕ)) (quota : ℕ)
    → quota_of found ≡ some quota
    → (info : PeerInfo ℕ) × (found ≡ some info) × (info.remote_quota ≡ quota)
quota_info none quota h = absurd (let f : ⊥ = ground (arith, h) in f)
quota_info (some info) quota h = (info, refl, ground (arith, h))

first_of-Best :
    (peers : Peers ℕ) (size : ℕ) (cs : List (Str × ℕ))
    → All (Candidate peers size) cs
    → ((P : Str × ℕ → Type 0) (key : Str) (info : PeerInfo ℕ)
        → All P cs
        → get peers key ≡ some info
        → size ≤ info.remote_quota
        → P (key, info.remote_quota))
    → Best peers size (first_of cs)
unfolding first_of
first_of-Best peers size [] all covers = λ key info e.
    elim (Bool-cases (leb size info.remote_quota)) [
      | inl enough ↦ absurd (covers (λ _. ⊥) key info tt e (ground (arith, enough)))
      | inr short ↦ ground (arith, short)
    ]
first_of-Best peers size (c ∷ cs) all covers =
    let best = largest c cs in
    let (found, enough) = largest-All (Candidate peers size) c cs all.0 all.1 in
    let (info, e, q) = quota_info (get peers best.0) best.1 found in
    (
      info,
      e,
      omega (arith, q, enough),
      λ key rival r. elim (Bool-cases (leb size rival.remote_quota)) [
        | inl fits ↦
            (let b : rival.remote_quota ≤ best.1 =
                covers (λ x. x.1 ≤ best.1) key rival (largest-le c cs, largest-upper c cs) r
                  (ground (arith, fits)) in
              omega (arith, b, q))
        | inr short ↦
            (let b : rival.remote_quota < size = ground (arith, short) in
              omega (arith, b, enough, q))
      ],
    )

-- The peer that a store is placed on is connected, has room for it, and no connected peer has more room; where no peer is
-- named, none has room, if no key has two entries.
pub best_peer_for_store-Best :
    (peers : Peers ℕ) (size : ℕ) → Distinct peers → Best peers size (best_peer_for_store peers size)
unfolding best_peer_for_store
best_peer_for_store-Best peers size u =
    first_of-Best peers size (candidates size peers) (candidates-All size peers u)
      (λ P key info h e enough. candidates-get P size peers key info h e enough)
