-- ===== src/Tests/Handshakes.antt =====
-- The limits of memnode/ratelimit.py at concrete addresses and times.
use peer_memory.Prelude.{◌≡◌, refl, false, List, [], ◌∷◌, ok, raise, nat_eq, list_eq}
use peer_memory.Prelude.Dict.{get, put, at_key}
use peer_memory.Prelude.Text.{Str}
use peer_memory.RateLimit.{
  Limits, HandshakeGuard, rate_limit, init, prune, enter, evict_if_needed, fresh_state, refresh,
  touch, admit, leave, release, acquire, slot_enter, slot_exit,
}
use native.Mathlib.Omega.{arith}
use peer_memory.RateLimit.Eviction.{inflight_of}
use peer_memory.RateLimit.Table.{Bounded}
use peer_memory.RateLimit.Invariant.{Call, acquire_call, release_call, apply, run, run-Bounded}
use peer_memory.RateLimit.Admission.{
  acquire-verdict, slot_exit-slot_enter, acquire-busy, verdict, attempts_at, recent,
}

abbrev alice : Str
alice = b'a' ∷ []

abbrev bob : Str
bob = b'b' ∷ []

abbrev limits : Limits
limits = record {
  max_per_ip_per_window = 2;
  window = 1000;
  max_inflight_per_ip = 1;
  max_inflight_total = 2;
  max_tracked_ips = 3;
}

-- alice is admitted, refused, released and admitted again; bob stays in flight.
abbrev calls : List Call
calls =
    acquire_call alice 1000
    ∷ acquire_call alice 1100
    ∷ acquire_call bob 1150
    ∷ release_call alice
    ∷ acquire_call alice 1200
    ∷ release_call alice
    ∷ []

run-Bounded_example : Bounded limits (run (init limits) calls)
run-Bounded_example = run-Bounded limits calls (omega arith)

abbrev busy : HandshakeGuard
busy = record {
  limits = limits;
  ips =
      (alice, record { attempts = 1000 ∷ 1200 ∷ []; inflight = 0; last_seen = 1200 })
      ∷ (bob, record { attempts = 1150 ∷ []; inflight = 1; last_seen = 1150 })
      ∷ [];
  inflight_total = 1;
  rejected_rate = 0;
  rejected_inflight_ip = 1;
  rejected_inflight_total = 0;
}

calls-run : run (init limits) calls ≡ busy
unfolding run apply init acquire touch enter evict_if_needed refresh prune admit release leave get
    put fresh_state
calls-run = refl

-- The two attempts of alice fill the window, and the older one leaves it at 2001.
rates : ((acquire busy alice 1300).1 ≡ raise rate_limit) × ((acquire busy alice 2001).1 ≡ ok tt)
unfolding acquire touch enter evict_if_needed refresh prune admit get put fresh_state
rates = (refl, refl)

acquire-verdict_example :
    (acquire busy alice 1300).1
    ≡ verdict busy.limits busy.inflight_total
        (at_key inflight_of (get busy.ips alice))
        (recent busy.limits.window 1300 (attempts_at (get busy.ips alice)))
unfolding get
acquire-verdict_example = acquire-verdict busy alice 1300 ((omega arith, tt), (tt, tt))

slot_exit-slot_enter_example :
    let ((h, entered), outcome) = slot_enter busy (record { ip = alice; is_held = false }) 2001 in
    let (after, left) = slot_exit h entered in
    (after.inflight_total ≡ 1)
    × (at_key inflight_of (get after.ips alice) ≡ at_key inflight_of (get busy.ips alice))
    × (left.is_held ≡ false)
slot_exit-slot_enter_example =
    slot_exit-slot_enter busy (record { ip = alice; is_held = false }) 2001 refl

busy-Bounded : Bounded limits busy
unfolding run apply init acquire touch enter evict_if_needed refresh prune admit release leave get
    put fresh_state
busy-Bounded = run-Bounded limits calls (omega arith)

acquire-busy_example : get (acquire busy alice 2001).0.ips bob ≡ get busy.ips bob
unfolding get
acquire-busy_example =
    acquire-busy limits busy alice bob 2001 (omega arith) busy-Bounded (omega arith) refl
