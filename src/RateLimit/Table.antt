-- ===== src/RateLimit/Table.antt =====
-- The table of addresses of memnode/ratelimit.py: its limits, and what an eviction keeps of them.
use peer_memory.Prelude.{
  ℕ, ◌+◌, ◌≤◌, ◌<◌, ◌≡◌, refl, ap, ◌∙◌, inl, inr, false, none, List, ltb, nat_eq, list_eq, length,
  arith, Bool-cases, Option-cases,
}
use peer_memory.Prelude.Dict.{Dict, get, Distinct, total, at_key}
use peer_memory.Prelude.Text.{Str}
use peer_memory.Prelude.{take, map, max, ◌/◌}
use peer_memory.Prelude.Dict.{
  remove_all, remove_all-Distinct, remove_all-AllValues, AllValues, get-AllValues,
  length-remove_all-le,
}
use peer_memory.RateLimit.{
  IpState, Limits, HandshakeGuard, stale, sorted, idle, evict_idle, evict_if_needed, fresh_state,
  enter,
}
use peer_memory.RateLimit.Eviction.{
  inflight_of, idle_at, Idle, stale-Idle, oldest-Idle, oldest-nonempty, inflight-remove_all,
  length-remove_all-lt, get-remove_all_busy, get-remove_all_absent,
}

-- What holds of every address in the table.
abbrev pub Within : Limits → IpState → Type 0
Within limits st =
    (st.inflight ≤ limits.max_inflight_per_ip) × (length st.attempts ≤ limits.max_per_ip_per_window)

pub record Bounded (limits : Limits) (g : HandshakeGuard) : Type 0 where
  pub same : g.limits ≡ limits
  pub distinct : Distinct g.ips
  pub counted : total inflight_of g.ips ≡ g.inflight_total
  pub total_cap : g.inflight_total ≤ limits.max_inflight_total
  pub each : AllValues (Within limits) g.ips
  pub tracked : length g.ips ≤ limits.max_tracked_ips

-- A table after some idle entries went.
pub record Shrunk (limits : Limits) (d e : Dict Str IpState) : Type 0 where
  pub distinct : Distinct e
  pub inflight : total inflight_of e ≡ total inflight_of d
  pub each : AllValues (Within limits) e
  pub busy : (ip : Str) → idle_at (get d ip) ≡ false → get e ip ≡ get d ip
  pub absent : (ip : Str) → get d ip ≡ none → get e ip ≡ none

pub remove_all-Shrunk :
    (limits : Limits) (d : Dict Str IpState) (ks : List Str)
    → Distinct d
    → AllValues (Within limits) d
    → Idle d ks
    → Shrunk limits d (remove_all d ks)
remove_all-Shrunk limits d ks u a h = record {
  distinct = remove_all-Distinct d ks u;
  inflight = inflight-remove_all d ks u h;
  each = remove_all-AllValues (Within limits) d ks a;
  busy = λ ip f. get-remove_all_busy d ks ip f h;
  absent = λ ip f. get-remove_all_absent d ks ip f;
}

pub Shrunk-trans :
    {limits : Limits} {c d e : Dict Str IpState}
    → Shrunk limits c d
    → Shrunk limits d e
    → Shrunk limits c e
Shrunk-trans s t = record {
  distinct = t.distinct;
  inflight = t.inflight ∙ s.inflight;
  each = t.each;
  busy = λ ip f. t.busy ip (ap idle_at (s.busy ip f) ∙ f) ∙ s.busy ip f;
  absent = λ ip f. t.absent ip (s.absent ip f);
}

-- The whole eviction: the table has room for one address afterwards.
pub evict-Shrunk :
    (limits : Limits) (g : HandshakeGuard) (now : ℕ)
    → limits.max_inflight_total < limits.max_tracked_ips
    → Bounded limits g
    → Shrunk limits g.ips (evict_if_needed g now).ips
      × (length (evict_if_needed g now).ips < limits.max_tracked_ips)
unfolding evict_if_needed evict_idle
evict-Shrunk limits g now room b =
    let d = remove_all g.ips (stale g.limits.window now g.ips) in
    let ks =
      map (λ (p : ℕ × Str). p.1) (take (max 1 (length (sorted (idle d)) / 10)) (sorted (idle d))) in
    let first : Shrunk limits g.ips d =
      remove_all-Shrunk limits g.ips (stale g.limits.window now g.ips) b.distinct b.each
        (stale-Idle g.limits.window now g.ips b.distinct) in
    let second : Shrunk limits d (remove_all d ks) =
      remove_all-Shrunk limits d ks first.distinct first.each
        (oldest-Idle d (max 1 (length (sorted (idle d)) / 10)) first.distinct) in
    elim (Bool-cases (ltb (length g.ips) g.limits.max_tracked_ips)) [
      | inl free ↦ rw (free) (
        record {
          distinct = b.distinct;
          inflight = refl;
          each = b.each;
          busy = λ ip f. refl;
          absent = λ ip f. f;
        },
        ground (arith, b.same),
      )
      | inr full ↦ elim (Bool-cases (ltb (length d) g.limits.max_tracked_ips)) [
        | inl free ↦ rw (full, free) (first, ground (arith, b.same))
        | inr still ↦
            rw (full, still)
              (
                Shrunk-trans first second,
                (let h : limits.max_tracked_ips ≤ length d = ground (arith, b.same) in
                    let n =
                      length-remove_all-lt d ks first.distinct
                        (oldest-Idle d (max 1 (length (sorted (idle d)) / 10)) first.distinct)
                        (oldest-nonempty d (length (sorted (idle d)) / 10)
                          (omega (arith, first.inflight, b.counted, b.total_cap))) in
                    omega (
                      arith,
                      n,
                      length-remove_all-le g.ips (stale g.limits.window now g.ips),
                      b.tracked,
                    )),
              )
      ]
    ]

-- The entry that acquire() works on, and the table without it.
pub record Entered (limits : Limits) (d : Dict Str IpState) (ip : Str) (g : HandshakeGuard)
    (st : IpState) : Type 0 where
  pub shrunk : Shrunk limits d g.ips
  pub here : at_key inflight_of (get g.ips ip) ≡ st.inflight
  pub within : Within limits st
  pub room : length g.ips + 1 ≤ limits.max_tracked_ips + at_key (λ _. 1) (get g.ips ip)

pub enter_lem :
    (limits : Limits) (g : HandshakeGuard) (ip : Str) (now : ℕ)
    → limits.max_inflight_total < limits.max_tracked_ips
    → Bounded limits g
    → Entered limits g.ips ip (enter g ip now).0 (enter g ip now).1
unfolding enter fresh_state
enter_lem limits g ip now room b = elim (Option-cases (get g.ips ip)) [
  | inl new ↦
      let (s, n) = evict-Shrunk limits g now room b in
      rw (new, enter)
        (record {
          shrunk = s;
          here = rw (s.absent ip new) refl;
          within = (omega arith, omega arith);
          room = omega (arith, n);
        })
  | inr (st, e) ↦
      rw (e, enter)
        (record {
          shrunk = record {
            distinct = b.distinct;
            inflight = refl;
            each = b.each;
            busy = λ ip f. refl;
            absent = λ ip f. f;
          };
          here = rw e refl;
          within = get-AllValues (Within limits) g.ips ip st b.each e;
          room = rw e (omega (arith, b.tracked));
        })
]
