-- ===== src/RateLimit/Admission.antt =====
-- Which handshakes memnode/ratelimit.py admits, and what a slot gives back.
use peer_memory.Prelude.{
  ℕ, ◌+◌, ◌-◌, ◌≤◌, ◌<◌, ◌≡◌, refl, ◌∙◌, ◌⊎◌, inl, inr, false, not, Option, none, some, List, [],
  ◌∷◌, ◌++◌, ltb, if◌then◌else◌, nat_eq, list_eq, ◌==◌, ==_refl, Result, ok, raise, length, All,
  sum_of, arith, Bool-cases, Option-cases,
}
use peer_memory.Prelude.Dict.{get, put, at_key, get-put, get-remove}
use peer_memory.Prelude.Text.{Str}
use mathlib.Core.Path.{subst}
use peer_memory.RateLimit.{
  IpState, Limits, HandshakeGuard, Rejected, total_limit, ip_limit, rate_limit, prune, fresh_state,
  enter, refresh, touch, admit, acquire, leave, release, GuardSlot, slot_enter, slot_exit,
}
use peer_memory.RateLimit.Eviction.{inflight_of, idle_at}
use peer_memory.RateLimit.Table.{Bounded, evict-Shrunk}
use peer_memory.RateLimit.Invariant.{enter-limits, enter-inflight_total}

abbrev pub attempts_at : Option IpState → List ℕ
attempts_at none = []
attempts_at (some st) = st.attempts

-- Times of a monotonic clock in the order they were read.
abbrev pub Increasing : List ℕ → Type 0
Increasing [] = Unit
Increasing (t ∷ ts) = All (λ u. t ≤ u) ts × Increasing ts

-- The attempts that are at most `window` old.
abbrev pub recent : ℕ → ℕ → List ℕ → ℕ
recent window now ts = sum_of (λ t. if ltb (t + window) now then 0 else 1) ts

All-recent :
    (window now t : ℕ) (ts : List ℕ)
    → now ≤ t + window
    → All (λ u. t ≤ u) ts
    → recent window now ts ≡ length ts
All-recent window now t [] h a = refl
All-recent window now t (u ∷ us) h a = ground (arith, a.0, All-recent window now t us h a.1)

length-prune-recent :
    (window now : ℕ) (ts : List ℕ)
    → Increasing ts
    → length (prune window now ts) ≡ recent window now ts
unfolding prune
length-prune-recent window now [] i = refl
length-prune-recent window now (t ∷ ts) i = elim (Bool-cases (ltb (t + window) now)) [
  | inl old ↦ rw old (omega (arith, length-prune-recent window now ts i.1))
  | inr new ↦ rw new (let a = All-recent window now t ts (ground arith) i.0 in omega arith)
]

enter-inflight :
    (g : HandshakeGuard) (ip : Str) (now : ℕ)
    → (enter g ip now).1.inflight ≡ at_key inflight_of (get g.ips ip)
unfolding enter fresh_state
enter-inflight g ip now = elim (Option-cases (get g.ips ip)) [
  | inl gone ↦ rw (gone, enter) refl
  | inr (st, e) ↦ rw (e, enter) refl
]

enter-attempts :
    (g : HandshakeGuard) (ip : Str) (now : ℕ)
    → (enter g ip now).1.attempts ≡ attempts_at (get g.ips ip)
unfolding enter fresh_state
enter-attempts g ip now = elim (Option-cases (get g.ips ip)) [
  | inl gone ↦ rw (gone, enter) refl
  | inr (st, e) ↦ rw (e, enter) refl
]

-- The verdict on one handshake, from what the guard knew before: the number in flight, the number in flight of
-- this address, and the number of its attempts in the window.
abbrev pub verdict : Limits → ℕ → ℕ → ℕ → Result Rejected Unit
verdict limits in_flight in_flight_here attempts_here =
    if not (ltb in_flight limits.max_inflight_total)
    then raise total_limit
    else if not (ltb in_flight_here limits.max_inflight_per_ip)
    then raise ip_limit
    else if not (ltb attempts_here limits.max_per_ip_per_window)
    then raise rate_limit
    else ok tt

outcome_lem :
    (g : HandshakeGuard) (ip : Str) (now : ℕ)
    → (acquire g ip now).1
      ≡ verdict
          (enter g ip now).0.limits
          (enter g ip now).0.inflight_total
          (enter g ip now).1.inflight
          (length (prune g.limits.window now (enter g ip now).1.attempts))
unfolding acquire touch refresh
outcome_lem g ip now = ground arith

-- acquire() decides by its three limits in their order, and the third is a sliding window: it counts
-- the attempts of the address that are at most `window` old, the times of its attempts being in order.
pub acquire-verdict :
    (g : HandshakeGuard) (ip : Str) (now : ℕ)
    → Increasing (attempts_at (get g.ips ip))
    → (acquire g ip now).1
      ≡ verdict g.limits g.inflight_total
          (at_key inflight_of (get g.ips ip))
          (recent g.limits.window now (attempts_at (get g.ips ip)))
acquire-verdict g ip now i =
    outcome_lem g ip now
    ∙ simp
        (
          enter-inflight g ip now,
          enter-attempts g ip now,
          enter-limits g ip now,
          enter-inflight_total g ip now,
          length-prune-recent g.limits.window now (attempts_at (get g.ips ip)) i,
        )
        refl

touch_lem :
    (g : HandshakeGuard) (ip : Str) (now : ℕ)
    → ((touch g ip now).0.inflight_total ≡ g.inflight_total)
      × (get (touch g ip now).0.ips ip ≡ some (touch g ip now).1)
      × ((touch g ip now).1.inflight ≡ at_key inflight_of (get g.ips ip))
unfolding touch refresh
touch_lem g ip now = (
  enter-inflight_total g ip now,
  get-put (enter g ip now).0.ips ip ip (refresh g.limits now (enter g ip now).1)
      ∙ rw (==_refl ip) refl,
  enter-inflight g ip now,
)

-- What one call did to the two counters.
record Counted (g h : HandshakeGuard) (ip : Str) (n : ℕ) : Type 0 where
  in_all : h.inflight_total ≡ g.inflight_total + n
  here : at_key inflight_of (get h.ips ip) ≡ at_key inflight_of (get g.ips ip) + n

abbrev admitted : Result Rejected Unit → ℕ
admitted (ok _) = 1
admitted (raise _) = 0

acquire-Counted :
    (g : HandshakeGuard) (ip : Str) (now : ℕ)
    → Counted g (acquire g ip now).0 ip (admitted (acquire g ip now).1)
unfolding acquire admit
acquire-Counted g ip now =
    let (t, e, i) = touch_lem g ip now in
    let h = (touch g ip now).0 in
    let st = (touch g ip now).1 in
    record {
      in_all = ground (arith, t);
      here = ground (
        arith,
        e,
        i,
        ==_refl ip,
        get-put h.ips ip ip
            (record st { attempts = st.attempts ++ (now ∷ []); inflight = st.inflight + 1 }),
      );
    }

release-Counted :
    (g h : HandshakeGuard) (ip : Str) → Counted g h ip 1 → Counted g (release h ip) ip 0
unfolding release leave
release-Counted g h ip c = elim (Option-cases (get h.ips ip)) [
  | inl gone ↦
      (let z : at_key inflight_of (get h.ips ip) ≡ 0 = rw gone refl in
        let f : ⊥ = omega (arith, z, c.here) in absurd f)
  | inr (st, e) ↦
      let left : IpState = record st { inflight = st.inflight - 1 } in
      let f : st.inflight ≡ at_key inflight_of (get g.ips ip) + 1 = ground (arith, e, c.here) in
      record {
        in_all = ground (arith, e, c.in_all, f);
        here = ground (
          arith,
          e,
          f,
          ==_refl ip,
          get-put h.ips ip ip left,
          get-remove (put h.ips ip left) ip ip,
        );
      }
]

outcome_cases : (r : Result Rejected Unit) → (r ≡ ok tt) ⊎ ((why : Rejected) × (r ≡ raise why))
outcome_cases (ok tt) = inl refl
outcome_cases (raise why) = inr (why, refl)

-- While no call comes between, leaving a slot undoes the entering: where the handshake was admitted it gives back its
-- place in both counters, where it was refused it changes neither, and the slot is not held.
pub slot_exit-slot_enter :
    (g : HandshakeGuard) (slot : GuardSlot) (now : ℕ)
    → slot.is_held ≡ false
    → let ((h, entered), outcome) = slot_enter g slot now in
      let (after, left) = slot_exit h entered in
      (after.inflight_total ≡ g.inflight_total)
      × (at_key inflight_of (get after.ips slot.ip) ≡ at_key inflight_of (get g.ips slot.ip))
      × (left.is_held ≡ false)
unfolding slot_enter slot_exit
slot_exit-slot_enter g slot now free =
    let c = acquire-Counted g slot.ip now in
    elim (outcome_cases (acquire g slot.ip now).1) [
      | inl given ↦
          let r = release-Counted g (acquire g slot.ip now).0 slot.ip (
            subst
              (λ (q : Result Rejected Unit).
                Counted g (acquire g slot.ip now).0 slot.ip (admitted q))
              given c) in
          rw (given, slot_enter) (omega (arith, r.in_all), omega (arith, r.here), refl)
      | inr (why, refused) ↦
          let r =
            subst
              (λ (q : Result Rejected Unit).
                Counted g (acquire g slot.ip now).0 slot.ip (admitted q))
              refused c in
          rw (refused, slot_enter, free) (omega (arith, r.in_all), omega (arith, r.here), refl)
    ]

enter-busy :
    (limits : Limits) (g : HandshakeGuard) (ip other : Str) (now : ℕ)
    → limits.max_inflight_total < limits.max_tracked_ips
    → Bounded limits g
    → idle_at (get g.ips other) ≡ false
    → get (enter g ip now).0.ips other ≡ get g.ips other
unfolding enter
enter-busy limits g ip other now room b busy = elim (Option-cases (get g.ips ip)) [
  | inl gone ↦ rw (gone, enter) ((evict-Shrunk limits g now room b).0.busy other busy)
  | inr (st, e) ↦ rw (e, enter) refl
]

-- While a handshake of an address is in flight, no acquire() of another address touches its entry, evictions included, in
-- every state that keeps the limits.
pub acquire-busy :
    (limits : Limits) (g : HandshakeGuard) (ip other : Str) (now : ℕ)
    → limits.max_inflight_total < limits.max_tracked_ips
    → Bounded limits g
    → 0 < at_key inflight_of (get g.ips other)
    → (ip == other) ≡ false
    → get (acquire g ip now).0.ips other ≡ get g.ips other
unfolding acquire admit touch refresh
acquire-busy limits g ip other now room b busy ne =
    let q : idle_at (get g.ips other) ≡ false = elim (Option-cases (get g.ips other)) [
      | inl gone ↦ rw gone (ground (arith, busy, gone))
      | inr (st, e) ↦ rw e (ground (arith, busy, e))
    ] in
    let k = enter-busy limits g ip other now room b q in
    let h = (enter g ip now).0 in
    let st = refresh g.limits now (enter g ip now).1 in
    ground (
      arith,
      k,
      ne,
      get-put h.ips ip other st,
      get-put (put h.ips ip st) ip other
          (record st { attempts = st.attempts ++ (now ∷ []); inflight = st.inflight + 1 }),
    )
