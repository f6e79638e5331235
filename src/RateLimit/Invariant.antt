-- ===== src/RateLimit/Invariant.antt =====
-- The limits of memnode/ratelimit.py over a whole sequence of calls.
use peer_memory.Prelude.{
  ℕ, ◌+◌, ◌-◌, ◌≤◌, ◌<◌, ◌≡◌, refl, ◌∙◌, inl, inr, ◌&&◌, some, List, [], ◌∷◌, ◌++◌, ltb, nat_beq,
  nat_eq, list_eq, ==_refl, length, length-append, arith, Bool-cases, Option-cases,
}
use peer_memory.Prelude.Dict.{
  get, put, remove, at_key, get-put, put-Distinct, remove-Distinct, total-put, total-remove,
  total_at,
}
use peer_memory.Prelude.Text.{Str}
use peer_memory.Prelude.Dict.{
  length-put, put-AllValues, get-AllValues, remove-AllValues, length-remove-le,
}
use peer_memory.RateLimit.{
  IpState, Limits, HandshakeGuard, init, prune, evict_idle, evict_if_needed, enter, refresh, admit,
  touch, acquire, leave, release,
}
use peer_memory.RateLimit.Eviction.{inflight_of}
use peer_memory.RateLimit.Table.{Within, Bounded, enter_lem}

length-prune : (window now : ℕ) (ts : List ℕ) → length (prune window now ts) ≤ length ts
unfolding prune
length-prune window now [] = omega arith
length-prune window now (t ∷ ts) = ground (arith, length-prune window now ts)

pub enter-limits : (g : HandshakeGuard) (ip : Str) (now : ℕ) → (enter g ip now).0.limits ≡ g.limits
unfolding enter evict_if_needed evict_idle
enter-limits g ip now = ground arith

pub enter-inflight_total :
    (g : HandshakeGuard) (ip : Str) (now : ℕ) → (enter g ip now).0.inflight_total ≡ g.inflight_total
unfolding enter evict_if_needed evict_idle
enter-inflight_total g ip now = ground arith

-- The state of an address that is there is written, with the counter moved by as much.
rewrite-Bounded :
    (limits : Limits) (g : HandshakeGuard) (ip : Str) (st new : IpState) (n : ℕ)
    → Bounded limits g
    → get g.ips ip ≡ some st
    → Within limits new
    → n + st.inflight ≡ g.inflight_total + new.inflight
    → n ≤ limits.max_inflight_total
    → Bounded limits (record g { ips = put g.ips ip new; inflight_total = n })
rewrite-Bounded limits g ip st new n b e w moved cap = record {
  same = b.same;
  distinct = put-Distinct g.ips ip new b.distinct;
  counted = ground (arith, total-put inflight_of g.ips ip new, e, b.counted, moved);
  total_cap = cap;
  each = put-AllValues (Within limits) g.ips ip new w b.each;
  tracked = ground (arith, length-put g.ips ip new, e, b.tracked);
}

touch-Bounded :
    (limits : Limits) (g : HandshakeGuard) (ip : Str) (now : ℕ)
    → limits.max_inflight_total < limits.max_tracked_ips
    → Bounded limits g
    → Bounded limits (touch g ip now).0
      × Within limits (touch g ip now).1
      × (get (touch g ip now).0.ips ip ≡ some (touch g ip now).1)
unfolding touch refresh
touch-Bounded limits g ip now room b =
    let e = enter_lem limits g ip now room b in
    let h = (enter g ip now).0 in
    let st = refresh g.limits now (enter g ip now).1 in
    let w : Within limits st = (
      e.within.0,
      omega (arith, e.within.1, length-prune g.limits.window now (enter g ip now).1.attempts),
    ) in
    (
      record {
        same = enter-limits g ip now ∙ b.same;
        distinct = put-Distinct h.ips ip st e.shrunk.distinct;
        counted = omega (
          arith,
          total-put inflight_of h.ips ip st,
          e.here,
          e.shrunk.inflight,
          b.counted,
          enter-inflight_total g ip now,
        );
        total_cap = omega (arith, enter-inflight_total g ip now, b.total_cap);
        each = put-AllValues (Within limits) h.ips ip st w e.shrunk.each;
        tracked = omega (arith, length-put h.ips ip st, e.room);
      },
      w,
      get-put h.ips ip ip st ∙ rw (==_refl ip) refl,
    )

admit-Bounded :
    (limits : Limits) (g : HandshakeGuard) (ip : Str) (now : ℕ) (st : IpState)
    → Bounded limits g
    → get g.ips ip ≡ some st
    → g.inflight_total < limits.max_inflight_total
    → st.inflight < limits.max_inflight_per_ip
    → length st.attempts < limits.max_per_ip_per_window
    → Bounded limits (admit g ip now st)
unfolding admit
admit-Bounded limits g ip now st b e h i a =
    rewrite-Bounded limits g ip st
      (record st { attempts = st.attempts ++ (now ∷ []); inflight = st.inflight + 1 })
      (g.inflight_total + 1) b e (omega arith, omega (arith, length-append st.attempts (now ∷ [])))
      (omega arith) (omega arith)

bump :
    (limits : Limits) (g : HandshakeGuard) (x y z : ℕ)
    → Bounded limits g
    → Bounded limits
        (record g { rejected_rate = x; rejected_inflight_ip = y; rejected_inflight_total = z })
bump limits g x y z b = record {
  same = b.same;
  distinct = b.distinct;
  counted = b.counted;
  total_cap = b.total_cap;
  each = b.each;
  tracked = b.tracked;
}

acquire-Bounded :
    (limits : Limits) (g : HandshakeGuard) (ip : Str) (now : ℕ)
    → limits.max_inflight_total < limits.max_tracked_ips
    → Bounded limits g
    → Bounded limits (acquire g ip now).0
unfolding acquire
acquire-Bounded limits g ip now room b =
    let (k, w, e) = touch-Bounded limits g ip now room b in
    let h = (touch g ip now).0 in
    let st = (touch g ip now).1 in
    let bumped : (x y z : ℕ)
        → Bounded limits (record h {
          rejected_rate = x;
          rejected_inflight_ip = y;
          rejected_inflight_total = z;
        }) =
      λ x y z. bump limits h x y z k in
    elim (Bool-cases (ltb h.inflight_total h.limits.max_inflight_total)) [
      | inr p ↦ rw p (bumped h.rejected_rate h.rejected_inflight_ip (h.rejected_inflight_total + 1))
      | inl p ↦ elim (Bool-cases (ltb st.inflight h.limits.max_inflight_per_ip)) [
        | inr q ↦
            rw (p, q)
              (bumped h.rejected_rate (h.rejected_inflight_ip + 1) h.rejected_inflight_total)
        | inl q ↦ elim (Bool-cases (ltb (length st.attempts) h.limits.max_per_ip_per_window)) [
          | inr r ↦
              rw (p, q, r)
                (bumped (h.rejected_rate + 1) h.rejected_inflight_ip h.rejected_inflight_total)
          | inl r ↦
              rw (p, q, r)
                (admit-Bounded limits h ip now st k e (ground (arith, k.same))
                  (ground (arith, k.same)) (ground (arith, k.same)))
        ]
      ]
    ]

leave-Bounded :
    (limits : Limits) (g : HandshakeGuard) (ip : Str) (st : IpState)
    → Bounded limits g
    → get g.ips ip ≡ some st
    → Bounded limits (leave g ip st).0 × (get (leave g ip st).0.ips ip ≡ some (leave g ip st).1)
unfolding leave
leave-Bounded limits g ip st b e =
    let w = get-AllValues (Within limits) g.ips ip st b.each e in
    let le : st.inflight ≤ g.inflight_total =
      ground (arith, e, total_at inflight_of g.ips ip, b.counted) in
    let left : IpState = record st { inflight = st.inflight - 1 } in
    elim (Bool-cases (ltb 0 st.inflight)) [
      | inl h ↦ rw h (
        rewrite-Bounded limits g ip st left (g.inflight_total - 1) b e (omega (arith, w.0), w.1)
            (ground arith) (omega (arith, b.total_cap)),
        get-put g.ips ip ip left ∙ rw (==_refl ip) refl,
      )
      | inr h ↦ rw h (b, e)
    ]

remove-Bounded :
    (limits : Limits) (g : HandshakeGuard) (ip : Str)
    → Bounded limits g
    → at_key inflight_of (get g.ips ip) ≡ 0
    → Bounded limits (record g { ips = remove g.ips ip })
remove-Bounded limits g ip b z = record {
  same = b.same;
  distinct = remove-Distinct g.ips ip b.distinct;
  counted = omega (arith, total-remove inflight_of g.ips ip b.distinct, z, b.counted);
  total_cap = b.total_cap;
  each = remove-AllValues (Within limits) g.ips ip b.each;
  tracked = omega (arith, length-remove-le g.ips ip, b.tracked);
}

release-Bounded :
    (limits : Limits) (g : HandshakeGuard) (ip : Str)
    → Bounded limits g
    → Bounded limits (release g ip)
unfolding release
release-Bounded limits g ip b = elim (Option-cases (get g.ips ip)) [
  | inl gone ↦ rw (gone, release) b
  | inr (st, e) ↦
      let (k, f) = leave-Bounded limits g ip st b e in
      let l = (leave g ip st).1 in
      elim (Bool-cases (nat_beq l.inflight 0 && nat_beq (length l.attempts) 0)) [
        | inl h ↦
            rw (e, release, h) (remove-Bounded limits (leave g ip st).0 ip k (ground (arith, f)))
        | inr h ↦ rw (e, release, h) k
      ]
]

-- A call of a public method; an address is one that the listener saw.
pub data Call : Type 0 where
  acquire_call : Str → ℕ → Call
  release_call : Str → Call

unfoldable pub apply : HandshakeGuard → Call → HandshakeGuard
apply g (acquire_call ip now) = (acquire g ip now).0
apply g (release_call ip) = release g ip

unfoldable pub run : HandshakeGuard → List Call → HandshakeGuard
run g [] = g
run g (call ∷ calls) = run (apply g call) calls

pub run_from :
    (limits : Limits) (g : HandshakeGuard) (calls : List Call)
    → limits.max_inflight_total < limits.max_tracked_ips
    → Bounded limits g
    → Bounded limits (run g calls)
unfolding run apply acquire
run_from limits g [] room b = b
run_from limits g (acquire_call ip now ∷ calls) room b =
    run_from limits (acquire g ip now).0 calls room (acquire-Bounded limits g ip now room b)
run_from limits g (release_call ip ∷ calls) room b =
    run_from limits (release g ip) calls room (release-Bounded limits g ip b)

pub init-Bounded : (limits : Limits) → Bounded limits (init limits)
unfolding init get
init-Bounded limits = record {
  same = refl;
  distinct = tt;
  counted = refl;
  total_cap = omega arith;
  each = tt;
  tracked = omega arith;
}

-- Whatever the calls of acquire() and release(), in any order, at any times and for any addresses,
-- when the table may hold more addresses than there may be handshakes in flight: the counter of
-- handshakes in flight is the sum over the addresses and within its limit, each address in the table is within its
-- two limits, and the table is within its own.
pub run-Bounded :
    (limits : Limits) (calls : List Call)
    → limits.max_inflight_total < limits.max_tracked_ips
    → Bounded limits (run (init limits) calls)
run-Bounded limits calls room = run_from limits (init limits) calls room (init-Bounded limits)
