-- ===== src/RateLimit.antt =====
-- memnode/ratelimit.py: admission of handshakes by source address.
--
-- Times are numbers of milliseconds of the monotonic clock. `attempts[0] < now - window` is the test
-- `attempts[0] + window < now`, since the difference of the source can be negative.
pub mod Eviction
pub mod Table
pub mod Invariant
pub mod Admission
use peer_memory.Prelude.{
  ℕ, ◌+◌, ◌-◌, ◌/◌, max, Bool, true, false, not, ◌&&◌, none, some, List, [], ◌∷◌, ◌++◌, map, ltb,
  nat_beq, if◌then◌else◌, nat_eq, list_eq, Result, ok, raise, length, take,
}
use peer_memory.Prelude.Dict.{Dict, get, put, remove, remove_all}
use peer_memory.Prelude.Text.{Str}

-- class _IpState; `attempts` has the oldest first
pub record IpState : Type 0 where
  pub attempts : List ℕ
  pub inflight : ℕ
  pub last_seen : ℕ

pub data Rejected : Type 0 where
  total_limit ip_limit rate_limit : Rejected

pub record Limits : Type 0 where
  pub max_per_ip_per_window : ℕ
  pub window : ℕ
  pub max_inflight_per_ip : ℕ
  pub max_inflight_total : ℕ
  pub max_tracked_ips : ℕ

pub record HandshakeGuard : Type 0 where
  pub limits : Limits
  pub ips : Dict Str IpState
  pub inflight_total : ℕ
  pub rejected_rate : ℕ
  pub rejected_inflight_ip : ℕ
  pub rejected_inflight_total : ℕ

unfoldable pub init : Limits → HandshakeGuard
init limits = record {
  limits = limits;
  ips = [];
  inflight_total = 0;
  rejected_rate = 0;
  rejected_inflight_ip = 0;
  rejected_inflight_total = 0;
}

-- `while state.attempts and state.attempts[0] < cutoff: state.attempts.popleft()`
unfoldable pub prune : ℕ → ℕ → List ℕ → List ℕ
prune window now [] = []
prune window now (t ∷ ts) =
    let rest = prune window now ts in if ltb (t + window) now then rest else t ∷ ts

-- Python's order of two strings, by code points, and of two pairs (last_seen, ip).
unfoldable pub str_leb : Str → Str → Bool
str_leb [] t = true
str_leb (a ∷ s) [] = false
str_leb (a ∷ s) (b ∷ t) = if nat_beq a b then str_leb s t else ltb a b

unfoldable pub pair_leb : ℕ × Str → ℕ × Str → Bool
pair_leb (m, s) (n, t) = if nat_beq m n then str_leb s t else ltb m n

unfoldable pub insert_sorted : ℕ × Str → List (ℕ × Str) → List (ℕ × Str)
insert_sorted p [] = p ∷ []
insert_sorted p (q ∷ qs) =
    let rest = insert_sorted p qs in if pair_leb p q then p ∷ q ∷ qs else q ∷ rest

unfoldable pub sorted : List (ℕ × Str) → List (ℕ × Str)
sorted [] = []
sorted (p ∷ ps) = insert_sorted p (sorted ps)

-- [ip for ip, st in self._ips.items() if st.inflight == 0 and st.last_seen < cutoff]
unfoldable pub stale : ℕ → ℕ → Dict Str IpState → List Str
stale window now [] = []
stale window now ((ip, st) ∷ d) =
    let rest = stale window now d in
    if nat_beq st.inflight 0 && ltb (st.last_seen + window) now then ip ∷ rest else rest

-- ((st.last_seen, ip) for ip, st in self._ips.items() if st.inflight == 0)
unfoldable pub idle : Dict Str IpState → List (ℕ × Str)
idle [] = []
idle ((ip, st) ∷ d) =
    let rest = idle d in if nat_beq st.inflight 0 then (st.last_seen, ip) ∷ rest else rest

unfoldable pub evict_idle : HandshakeGuard → HandshakeGuard
evict_idle g =
    let order = sorted (idle g.ips) in
    record g { ips = remove_all g.ips (map (λ p. p.1) (take (max 1 (length order / 10)) order)) }

unfoldable pub evict_if_needed : HandshakeGuard → ℕ → HandshakeGuard
evict_if_needed g now =
    let g' : HandshakeGuard = record g {
      ips = remove_all g.ips (stale g.limits.window now g.ips);
    } in
    if ltb (length g.ips) g.limits.max_tracked_ips
    then g
    else if ltb (length g'.ips) g.limits.max_tracked_ips
    then g'
    else evict_idle g'

-- The entry that `acquire` works on, and the table that holds it: a new address may push others out.
unfoldable pub fresh_state : IpState
fresh_state = record { attempts = []; inflight = 0; last_seen = 0 }

unfoldable pub enter : HandshakeGuard → Str → ℕ → HandshakeGuard × IpState
enter g ip now = elim (get g.ips ip) [
  | none ↦ (evict_if_needed g now, fresh_state)
  | some st ↦ (g, st)
]

-- `state.last_seen = now`, and the attempts that left the window are dropped.
unfoldable pub refresh : Limits → ℕ → IpState → IpState
refresh limits now st = record st {
  attempts = prune limits.window now st.attempts;
  last_seen = now;
}

unfoldable pub admit : HandshakeGuard → Str → ℕ → IpState → HandshakeGuard
admit g ip now st = record g {
  ips =
      put g.ips ip (record st { attempts = st.attempts ++ (now ∷ []); inflight = st.inflight + 1 });
  inflight_total = g.inflight_total + 1;
}

-- The first half of acquire(): the table has the refreshed state of the address also when the call raises.
unfoldable pub touch : HandshakeGuard → Str → ℕ → HandshakeGuard × IpState
touch g ip now =
    let (entered, found) = enter g ip now in
    let st : IpState = refresh g.limits now found in
    (record entered { ips = put entered.ips ip st }, st)

unfoldable pub acquire : HandshakeGuard → Str → ℕ → HandshakeGuard × Result Rejected Unit
acquire g ip now =
    let (held, st) = touch g ip now in
    if not (ltb held.inflight_total held.limits.max_inflight_total)
    then (
      record held { rejected_inflight_total = held.rejected_inflight_total + 1 },
      raise total_limit,
    )
    else if not (ltb st.inflight held.limits.max_inflight_per_ip)
    then (record held { rejected_inflight_ip = held.rejected_inflight_ip + 1 }, raise ip_limit)
    else if not (ltb (length st.attempts) held.limits.max_per_ip_per_window)
    then (record held { rejected_rate = held.rejected_rate + 1 }, raise rate_limit)
    else (admit held ip now st, ok tt)

-- `if state.inflight > 0: ...`
unfoldable pub leave : HandshakeGuard → Str → IpState → HandshakeGuard × IpState
leave g ip st =
    let left : IpState = record st { inflight = st.inflight - 1 } in
    if ltb 0 st.inflight
    then (record g { ips = put g.ips ip left; inflight_total = g.inflight_total - 1 }, left)
    else (g, st)

unfoldable pub release : HandshakeGuard → Str → HandshakeGuard
release g ip = elim (get g.ips ip) [
  | none ↦ g
  | some st ↦
      let (g', st') = leave g ip st in
      if nat_beq st'.inflight 0 && nat_beq (length st'.attempts) 0
      then record g' { ips = remove g'.ips ip }
      else g'
]

-- stats()
pub record GuardStats : Type 0 where
  pub tracked_ips : ℕ
  pub inflight_total : ℕ
  pub rejected_rate : ℕ
  pub rejected_inflight_ip : ℕ
  pub rejected_inflight_total : ℕ

unfoldable pub stats : HandshakeGuard → GuardStats
stats g = record {
  tracked_ips = length g.ips;
  inflight_total = g.inflight_total;
  rejected_rate = g.rejected_rate;
  rejected_inflight_ip = g.rejected_inflight_ip;
  rejected_inflight_total = g.rejected_inflight_total;
}

-- class _GuardSlot, for one address of one guard
pub record GuardSlot : Type 0 where
  pub ip : Str
  pub is_held : Bool

-- __aenter__(), and __aexit__(), which lets an exception of the body through
unfoldable pub slot_enter :
    HandshakeGuard → GuardSlot → ℕ → (HandshakeGuard × GuardSlot) × Result Rejected Unit
slot_enter g slot now =
    let (g', outcome) = acquire g slot.ip now in
    elim outcome [
      | raise why ↦ ((g', slot), raise why)
      | ok _ ↦ ((g', record slot { is_held = true }), ok tt)
    ]

unfoldable pub slot_exit : HandshakeGuard → GuardSlot → HandshakeGuard × GuardSlot
slot_exit g slot =
    if slot.is_held then (release g slot.ip, record slot { is_held = false }) else (g, slot)
