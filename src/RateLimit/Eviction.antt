-- ===== src/RateLimit/Eviction.antt =====
-- What the evictions of memnode/ratelimit.py take out of the table.
use peer_memory.Prelude.{
  ℕ, zero, suc, ◌+◌, ◌≤◌, ◌<◌, ◌≡◌, refl, ap, inl, inr, Bool, true, false, ◌&&◌, Option, none, some,
  List, [], ◌∷◌, ltb, nat_beq, nat_beq_iff, nat_eq, list_eq, ◌==◌, ==_iff, ==_refl, length, All,
  arith, Bool-cases, Option-cases,
}
use peer_memory.Prelude.Dict.{Dict, get, remove, Distinct, total, at_key, get-remove}
use peer_memory.Prelude.Text.{Str}
use peer_memory.Prelude.{take, map, length-take, if_both, max}
use peer_memory.Prelude.Dict.{
  remove_all, total-remove_all, get-remove_all, length-remove, length-remove_all-le,
}
use peer_memory.RateLimit.{IpState, insert_sorted, sorted, stale, idle, pair_leb}

abbrev pub inflight_of : IpState → ℕ
inflight_of st = st.inflight

-- Whether an entry is there and has nothing in flight.
abbrev pub idle_at : Option IpState → Bool
idle_at none = false
idle_at (some st) = nat_beq st.inflight 0

abbrev pub Idle : Dict Str IpState → List Str → Type 0
Idle d ks = All (λ k. idle_at (get d k) ≡ true) ks

-- Keys of entries below a new one are still idle.
weaken :
    (d : Dict Str IpState) (ip : Str) (st : IpState) (ks : List Str)
    → get d ip ≡ none
    → Idle d ks
    → Idle ((ip, st) ∷ d) ks
unfolding get
weaken d ip st [] u h = tt
weaken d ip st (k ∷ ks) u h = (ground (arith, ==_iff ip k, h.0, u), weaken d ip st ks u h.1)

pub stale-Idle : (window now : ℕ) (d : Dict Str IpState) → Distinct d → Idle d (stale window now d)
unfolding stale get
stale-Idle window now [] u = tt
stale-Idle window now ((ip, st) ∷ d) u =
    elim (Bool-cases (nat_beq st.inflight 0 && ltb (st.last_seen + window) now)) [
      | inl h ↦ rw h (
        rw ==_refl (ground arith),
        weaken d ip st (stale window now d) u.0 (stale-Idle window now d u.1),
      )
      | inr h ↦ rw h (weaken d ip st (stale window now d) u.0 (stale-Idle window now d u.1))
    ]

idle-Idle : (d : Dict Str IpState) → Distinct d → Idle d (map (λ p. p.1) (idle d))
unfolding idle get
idle-Idle [] u = tt
idle-Idle ((ip, st) ∷ d) u = elim (Bool-cases (nat_beq st.inflight 0)) [
  | inl h ↦
      rw h
        (rw ==_refl (ground arith), weaken d ip st (map (λ p. p.1) (idle d)) u.0 (idle-Idle d u.1))
  | inr h ↦ rw h (weaken d ip st (map (λ p. p.1) (idle d)) u.0 (idle-Idle d u.1))
]

insert_sorted-Idle :
    (d : Dict Str IpState) (p : ℕ × Str) (qs : List (ℕ × Str))
    → idle_at (get d p.1) ≡ true
    → Idle d (map (λ q. q.1) qs)
    → Idle d (map (λ q. q.1) (insert_sorted p qs))
unfolding insert_sorted
insert_sorted-Idle d p [] i h = (i, tt)
insert_sorted-Idle d p (q ∷ qs) i h =
    if_both (λ (r : List (ℕ × Str)). Idle d (map (λ (q : ℕ × Str). q.1) r)) (pair_leb p q) (i, h)
      (h.0, insert_sorted-Idle d p qs i h.1)

pub sorted-Idle :
    (d : Dict Str IpState) (ps : List (ℕ × Str))
    → Idle d (map (λ p. p.1) ps)
    → Idle d (map (λ p. p.1) (sorted ps))
unfolding sorted
sorted-Idle d [] h = tt
sorted-Idle d (p ∷ ps) h = insert_sorted-Idle d p (sorted ps) h.0 (sorted-Idle d ps h.1)

take-Idle :
    (d : Dict Str IpState) (n : ℕ) (ps : List (ℕ × Str))
    → Idle d (map (λ p. p.1) ps)
    → Idle d (map (λ p. p.1) (take n ps))
take-Idle d zero ps h = tt
take-Idle d (suc n) [] h = tt
take-Idle d (suc n) (p ∷ ps) h = (h.0, take-Idle d n ps h.1)

-- The addresses that the second sweep takes.
pub oldest-Idle :
    (d : Dict Str IpState) (n : ℕ) → Distinct d → Idle d (map (λ p. p.1) (take n (sorted (idle d))))
oldest-Idle d n u = take-Idle d n (sorted (idle d)) (sorted-Idle d (idle d) (idle-Idle d u))

length-insert_sorted :
    (p : ℕ × Str) (qs : List (ℕ × Str)) → length (insert_sorted p qs) ≡ length qs + 1
unfolding insert_sorted
length-insert_sorted p [] = refl
length-insert_sorted p (q ∷ qs) = ground (arith, length-insert_sorted p qs)

length-sorted : (ps : List (ℕ × Str)) → length (sorted ps) ≡ length ps
unfolding sorted
length-sorted [] = refl
length-sorted (p ∷ ps) = omega (arith, length-insert_sorted p (sorted ps), length-sorted ps)

length-idle : (d : Dict Str IpState) → length d ≤ length (idle d) + total inflight_of d
unfolding idle
length-idle [] = omega arith
length-idle ((ip, st) ∷ d) = ground (arith, length-idle d, nat_beq_iff st.inflight 0)

length-map : {A B : Type 0} (f : A → B) (xs : List A) → length (map f xs) ≡ length xs
length-map f [] = refl
length-map f (x ∷ xs) = ap suc (length-map f xs)

-- More entries than handshakes in flight: the second sweep has an address to take.
pub oldest-nonempty :
    (d : Dict Str IpState) (n : ℕ)
    → total inflight_of d < length d
    → 0 < length (map (λ p. p.1) (take (max 1 n) (sorted (idle d))))
oldest-nonempty d n h = omega (
  arith,
  length-map (λ (p : ℕ × Str). p.1) (take (max 1 n) (sorted (idle d))),
  length-take (max 1 n) (sorted (idle d)),
  length-sorted (idle d),
  length-idle d,
)

zero_at :
    (d : Dict Str IpState) (ks : List Str)
    → Idle d ks
    → All (λ k. at_key inflight_of (get d k) ≡ 0) ks
zero_at d [] h = tt
zero_at d (k ∷ ks) h = (
  elim (Option-cases (get d k)) [
    | inl gone ↦ rw gone refl
    | inr (st, e) ↦ rw e (
        let q : nat_beq st.inflight 0 ≡ true = ground (arith, e, h.0) in
        (nat_beq_iff st.inflight 0).0 q)
  ],
  zero_at d ks h.1,
)

pub inflight-remove_all :
    (d : Dict Str IpState) (ks : List Str)
    → Distinct d
    → Idle d ks
    → total inflight_of (remove_all d ks) ≡ total inflight_of d
inflight-remove_all d ks u h = total-remove_all inflight_of d ks u (zero_at d ks h)

pub length-remove_all-lt :
    (d : Dict Str IpState) (ks : List Str)
    → Distinct d
    → Idle d ks
    → 0 < length ks
    → length (remove_all d ks) < length d
unfolding remove_all
length-remove_all-lt d [] u h n = elim n [ ]
length-remove_all-lt d (k ∷ ks) u h n =
    ground (arith, h.0, length-remove d k u, length-remove_all-le (remove d k) ks)

others :
    (d : Dict Str IpState) (ks : List Str) (ip : Str)
    → idle_at (get d ip) ≡ false
    → Idle d ks
    → All (λ k. (k == ip) ≡ false) ks
others d [] ip f h = tt
others d (k ∷ ks) ip f h = (ground (arith, ==_iff k ip, h.0, f), others d ks ip f h.1)

-- An address with a handshake in flight keeps its entry.
pub get-remove_all_busy :
    (d : Dict Str IpState) (ks : List Str) (ip : Str)
    → idle_at (get d ip) ≡ false
    → Idle d ks
    → get (remove_all d ks) ip ≡ get d ip
get-remove_all_busy d ks ip f h = get-remove_all d ks ip (others d ks ip f h)

-- No eviction brings an address in.
pub get-remove_all_absent :
    (d : Dict Str IpState) (ks : List Str) (ip : Str)
    → get d ip ≡ none
    → get (remove_all d ks) ip ≡ none
unfolding remove_all
get-remove_all_absent d [] ip h = h
get-remove_all_absent d (k ∷ ks) ip h =
    get-remove_all_absent (remove d k) ks ip
      (rw get-remove (if_both (λ r. r ≡ none) (k == ip) refl h))
