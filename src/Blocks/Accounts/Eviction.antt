-- ===== src/Blocks/Accounts/Eviction.antt =====
-- The accounts through an eviction.
use mathlib.Core.Path.{subst}
use peer_memory.Prelude.{
  if_both, ℕ, ◌+◌, ◌-◌, ◌≤◌, ◌<◌, ◌≡◌, refl, ap, ◌∙◌, inl, inr, Bool, none, some, List, [], ◌∷◌,
  ◌++◌, leb, nat_eq, list_eq, ◌==◌, All, sum_of, arith, Option-cases,
}
use peer_memory.Prelude.Dict.{
  get, put, remove, at_key, get-put, get-remove, put-Distinct, remove-Distinct, total-put,
  total-remove, total_at,
}
use peer_memory.Prelude.Text.{Str}
use peer_memory.Blocks.State.{
  Entry, Stripe, BlockManager, stripe_at, set_stripe, stripe_of, drop_key, release, size_of,
}
use peer_memory.Blocks.Evict.{
  Shuffles, Victim, cache_ids, Sweep, take_victim, sweep, release_victims, enough_freed,
  evict_stripe, evict_loop, evict_to_free,
}
use peer_memory.Blocks.Accounts.{
  SameShape, SameShape-refl, drop_key-SameShape, StripeOk, Accounts, set_stripe-Accounts,
  release-Accounts, drop_key-Accounts,
}

-- The stripe without one of its blocks.
pub remove-StripeOk :
    (n : ℕ) (s : Stripe) (block_id : ℕ) (e : Entry)
    → StripeOk n s
    → get s.blocks block_id ≡ some e
    → StripeOk n
        (record { blocks = remove s.blocks block_id; used_bytes = s.used_bytes - size_of e })
remove-StripeOk n s block_id e o there = record {
  distinct = remove-Distinct s.blocks block_id o.distinct;
  counted = omega (
    arith,
    o.counted,
    total-remove size_of s.blocks block_id o.distinct,
    ap (at_key size_of) there,
  );
  issued = λ j le. rw get-remove (if_both (λ r. r ≡ none) (block_id == j) refl (o.issued j le));
}

-- The stripe with the block of the next id.
pub put-StripeOk :
    (n : ℕ) (s : Stripe) (e : Entry)
    → StripeOk n s
    → StripeOk (n + 1) (record { blocks = put s.blocks n e; used_bytes = s.used_bytes + size_of e })
put-StripeOk n s e o = record {
  distinct = put-Distinct s.blocks n e o.distinct;
  counted = omega (
    arith,
    o.counted,
    total-put size_of s.blocks n e,
    ap (at_key size_of) (o.issued n (omega arith)),
  );
  issued = λ j le. rw get-put (ground (arith, o.issued j (omega arith)));
}

pub stripe_of-lt :
    (b : BlockManager) (block_id : ℕ) → 0 < b.stripe_count → stripe_of b block_id < b.stripe_count
unfolding stripe_of
stripe_of-lt b block_id h = omega arith

abbrev pub issue : BlockManager → BlockManager
issue b = record b { next_id = b.next_id + 1 }

pub issue-Accounts : (p : ℕ) (b : BlockManager) → Accounts p b → Accounts p (issue b)
unfolding stripe_at
issue-Accounts p b a = record {
  positive = a.positive;
  width = a.width;
  key_width = a.key_width;
  stripe = λ i. record {
    distinct = (a.stripe i).distinct;
    counted = (a.stripe i).counted;
    issued = λ j le. (a.stripe i).issued j (omega arith);
  };
  reserved = a.reserved;
  fits = a.fits;
}

-- A popped block is at most what the stripe counts.
pub size-le-used :
    (n : ℕ) (s : Stripe) (block_id : ℕ) (e : Entry)
    → StripeOk n s
    → get s.blocks block_id ≡ some e
    → size_of e ≤ s.used_bytes
size-le-used n s block_id e o there =
    omega (arith, o.counted, total_at size_of s.blocks block_id, ap (at_key size_of) there)

abbrev victim_bytes : List Victim → ℕ
victim_bytes = sum_of (λ v. v.1)

record SweepOk (n : ℕ) (start : Stripe) (s : Sweep) : Type 0 where
  stripe : StripeOk n s.stripe
  moved : s.stripe.used_bytes + victim_bytes s.victims ≡ start.used_bytes

victim_bytes-append :
    (vs : List Victim) (v : Victim) → victim_bytes (vs ++ v ∷ []) ≡ victim_bytes vs + v.1
victim_bytes-append [] v = omega arith
victim_bytes-append (w ∷ vs) v = omega (arith, victim_bytes-append vs v)

take_victim-SweepOk :
    (n : ℕ) (start : Stripe) (s : Sweep) (bid : ℕ) (e : Entry)
    → SweepOk n start s
    → get s.stripe.blocks bid ≡ some e
    → SweepOk n start (take_victim s bid e)
unfolding take_victim
take_victim-SweepOk n start s bid e o there = record {
  stripe = remove-StripeOk n s.stripe bid e o.stripe there;
  moved = omega (
    arith,
    o.moved,
    victim_bytes-append s.victims (bid, size_of e, e.key),
    size-le-used n s.stripe bid e o.stripe there,
  );
}

sweep-SweepOk :
    (enough : ℕ → Bool) (candidates : List ℕ) (n : ℕ) (start : Stripe) (s : Sweep)
    → SweepOk n start s
    → SweepOk n start (sweep enough candidates s)
unfolding sweep
sweep-SweepOk enough [] n start s o = o
sweep-SweepOk enough (bid ∷ rest) n start s o = elim (Option-cases (get s.stripe.blocks bid)) [
  | inl gone ↦ rw (gone, sweep) (sweep-SweepOk enough rest n start s o)
  | inr (e, there) ↦
      let o' = take_victim-SweepOk n start s bid e o there in
      rw (there, sweep)
        (if_both (SweepOk n start) (enough (take_victim s bid e).freed) o'
          (sweep-SweepOk enough rest n start (take_victim s bid e) o'))
]

module _ (hash : Str → ℕ) where
  release_victims-Accounts :
      (p : ℕ) (b : BlockManager) (vs : List Victim)
      → Accounts (victim_bytes vs + p) b
      → Accounts p (release_victims hash b vs)
  unfolding release_victims
  release_victims-Accounts p b [] a = subst (λ q. Accounts q b) (omega arith) a
  release_victims-Accounts p b ((bid, size, key) ∷ rest) a =
      release_victims-Accounts p (drop_key hash (release b size) key bid) rest (
        drop_key-Accounts hash _ (release b size) key bid
          (release-Accounts _ size b (subst (λ q. Accounts q b) (omega arith) a)))

  release_victims-SameShape :
      (b : BlockManager) (vs : List Victim) → SameShape b (release_victims hash b vs)
  unfolding release_victims release
  release_victims-SameShape b [] = SameShape-refl b
  release_victims-SameShape b ((bid, size, key) ∷ rest) =
      let d = drop_key-SameShape hash (release b size) key bid in
      let r = release_victims-SameShape (drop_key hash (release b size) key bid) rest in
      record { count = r.count ∙ d.count; cap = r.cap ∙ d.cap; next = r.next ∙ d.next }

  module _ (shuffles : Shuffles) (needed : ℕ) where
    pub evict_stripe-Accounts :
        (b : BlockManager) (freed idx : ℕ)
        → idx < b.stripe_count
        → Accounts 0 b
        → Accounts 0 (evict_stripe hash shuffles b needed freed idx).0
    unfolding evict_stripe
    evict_stripe-Accounts b freed idx small a =
        let start : Sweep = record { stripe = stripe_at b idx; freed = freed; victims = [] } in
        let candidates = shuffles.candidates idx (cache_ids (stripe_at b idx).blocks) in
        let s = sweep (enough_freed b needed) candidates start in
        let o =
          sweep-SweepOk (enough_freed b needed) candidates b.next_id (stripe_at b idx) start
            (record { stripe = a.stripe idx; moved = omega arith }) in
        release_victims-Accounts 0 (set_stripe b idx s.stripe) s.victims
          (set_stripe-Accounts 0 _ b idx s.stripe a small o.stripe (omega (arith, o.moved)))

    pub evict_stripe-SameShape :
        (b : BlockManager) (freed idx : ℕ)
        → SameShape b (evict_stripe hash shuffles b needed freed idx).0
    unfolding evict_stripe set_stripe
    evict_stripe-SameShape b freed idx =
        let s =
          sweep (enough_freed b needed)
            (shuffles.candidates idx (cache_ids (stripe_at b idx).blocks))
            (record { stripe = stripe_at b idx; freed = freed; victims = [] }) in
        let r = release_victims-SameShape (set_stripe b idx s.stripe) s.victims in
        record { count = r.count; cap = r.cap; next = r.next }

    evict_loop-Accounts :
        (b : BlockManager) (freed : ℕ) (order : List ℕ)
        → All (λ i. i < b.stripe_count) order
        → Accounts 0 b
        → Accounts 0 (evict_loop hash shuffles b needed freed order).0
    unfolding evict_loop
    evict_loop-Accounts b freed [] inside a = a
    evict_loop-Accounts b freed (idx ∷ rest) inside a =
        let a' = evict_stripe-Accounts b freed idx inside.0 a in
        let b' = (evict_stripe hash shuffles b needed freed idx).0 in
        let f' = (evict_stripe hash shuffles b needed freed idx).1 in
        let r =
          evict_loop-Accounts b' f' rest (rw (evict_stripe-SameShape b freed idx).count inside.1)
            a' in
        if_both (λ (r : BlockManager × ℕ). Accounts 0 r.0)
          (leb (b'.reserved_bytes + needed) b'.max_memory_bytes) a' r

  pub evict_to_free-Accounts :
      (shuffles : Shuffles) (b : BlockManager) (needed : ℕ)
      → All (λ i. i < b.stripe_count) shuffles.order
      → Accounts 0 b
      → Accounts 0 (evict_to_free hash shuffles b needed).0
  unfolding evict_to_free
  evict_to_free-Accounts shuffles b needed inside a =
      evict_loop-Accounts shuffles needed b 0 shuffles.order inside a

-- The limits of the store are never changed.
abbrev pub SameLimits : BlockManager → BlockManager → Type 0
SameLimits b c = (c.stripe_count ≡ b.stripe_count) × (c.max_memory_bytes ≡ b.max_memory_bytes)

SameLimits-trans : (a b c : BlockManager) → SameLimits a b → SameLimits b c → SameLimits a c
SameLimits-trans a b c p q = (q.0 ∙ p.0, q.1 ∙ p.1)

module _ (hash : Str → ℕ) (shuffles : Shuffles) (needed : ℕ) where
  evict_loop-SameLimits :
      (b : BlockManager) (freed : ℕ) (order : List ℕ)
      → SameLimits b (evict_loop hash shuffles b needed freed order).0
  unfolding evict_loop
  evict_loop-SameLimits b freed [] = (refl, refl)
  evict_loop-SameLimits b freed (idx ∷ rest) =
      let shape = evict_stripe-SameShape hash shuffles needed b freed idx in
      let b' = (evict_stripe hash shuffles b needed freed idx).0 in
      let f' = (evict_stripe hash shuffles b needed freed idx).1 in
      let step : SameLimits b b' = (shape.count, shape.cap) in
      if_both (λ (r : BlockManager × ℕ). SameLimits b r.0)
        (leb (b'.reserved_bytes + needed) b'.max_memory_bytes) step
        (SameLimits-trans b b' (evict_loop hash shuffles b' needed f' rest).0 step
          (evict_loop-SameLimits b' f' rest))

  pub evict_to_free-SameLimits :
      (b : BlockManager) → SameLimits b (evict_to_free hash shuffles b needed).0
  unfolding evict_to_free
  evict_to_free-SameLimits b = evict_loop-SameLimits b 0 shuffles.order
