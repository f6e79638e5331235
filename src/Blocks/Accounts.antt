-- ===== src/Blocks/Accounts.antt =====
-- The quota accounting of memnode/blocks.py: the byte counters of the stripes and of the whole store
-- against the blocks that are there. One lemma for each step that the methods are made of.
pub mod Eviction
pub mod Methods
pub mod Limits
use peer_memory.Prelude.{
  if_both, ℕ, zero, suc, ◌+◌, ◌-◌, ◌%◌, ◌≤◌, ◌<◌, ◌≡◌, ◌≢◌, refl, sym, ap, ◌∙◌, ◌⊎◌, inl, inr, Bool,
  true, false, not, ◌&&◌, ◌||◌, Option, none, some, List, [], ◌∷◌, ◌++◌, ltb, leb, nat_beq,
  nat_beq_iff, if◌then◌else◌, nat_eq, list_eq, ◌==◌, ==_iff, ==_refl, Result, ok, raise, length,
  All, get_or, set, sum_of, arith, Bool-cases, Option-cases, leb→le, ltb→lt, lt→ltb, length-set,
  length-replicate, get_or-set_self, get_or-set_ne, sum_of-set, sum_of-replicate, get_or-replicate,
}
use peer_memory.Prelude.Dict.{
  Dict, get, put, remove, Distinct, total, at_key, get-put, get-remove, put-Distinct,
  remove-Distinct, total-put, total-remove, total_at,
}
use peer_memory.Prelude.Text.{Str, Bytes}
use peer_memory.Blocks.State.{
  Durability, pinned, cache, BlockError, block_too_large, out_of_memory, Entry, Stripe,
  BlockManager, init, empty_stripe, stripe_at, set_stripe, stripe_of, block, key_entry,
  key_stripe_of, bind_key, unbind_key, drop_key, reserve, release, size_of,
}
use peer_memory.Blocks.Evict.{
  Shuffles, Victim, is_cache, cache_ids, Sweep, take_victim, sweep, release_victims, enough_freed,
  evict_stripe, evict_loop, evict_to_free,
}

-- One stripe: each id once, none from `next` on, and the counter is the sum of the sizes.
pub record StripeOk (next : ℕ) (s : Stripe) : Type 0 where
  pub distinct : Distinct s.blocks
  pub counted : s.used_bytes ≡ total size_of s.blocks
  pub issued : (block_id : ℕ) → next ≤ block_id → get s.blocks block_id ≡ none

-- The whole store, with `pending` bytes that are reserved and in no stripe: those of a block that is
-- about to be added, or of blocks that were popped and not yet released.
pub record Accounts (pending : ℕ) (b : BlockManager) : Type 0 where
  pub positive : 0 < b.stripe_count
  pub width : length b.stripes ≡ b.stripe_count
  pub key_width : length b.key_stripes ≡ b.stripe_count
  pub stripe : (i : ℕ) → StripeOk b.next_id (stripe_at b i)
  pub reserved : b.reserved_bytes ≡ sum_of (λ s. s.used_bytes) b.stripes + pending
  pub fits : b.reserved_bytes ≤ b.max_memory_bytes

-- What no step of the store but an issue of an id changes.
pub record SameShape (b c : BlockManager) : Type 0 where
  pub count : c.stripe_count ≡ b.stripe_count
  pub cap : c.max_memory_bytes ≡ b.max_memory_bytes
  pub next : c.next_id ≡ b.next_id

pub SameShape-refl : (b : BlockManager) → SameShape b b
SameShape-refl b = record { count = refl; cap = refl; next = refl }

pub SameShape-trans : {a b c : BlockManager} → SameShape a b → SameShape b c → SameShape a c
SameShape-trans p q = record {
  count = q.count ∙ p.count;
  cap = q.cap ∙ p.cap;
  next = q.next ∙ p.next;
}

stripe_at-set_stripe :
    (b : BlockManager) (i j : ℕ) (s : Stripe)
    → i < length b.stripes
    → stripe_at (set_stripe b i s) j ≡ (if nat_beq i j then s else stripe_at b j)
unfolding set_stripe stripe_at
stripe_at-set_stripe b i j s small = elim (Bool-cases (nat_beq i j)) [
  | inl here ↦
      rw (here, ← (nat_beq_iff i j).0 here, get_or-set_self b.stripes i s empty_stripe small)
  | inr there ↦
      rw (there, get_or-set_ne b.stripes i j s empty_stripe (λ e. ground (arith, nat_beq_iff i j)))
]

set_stripe-stripe :
    (b : BlockManager) (i : ℕ) (s : Stripe)
    → i < length b.stripes
    → StripeOk b.next_id s
    → ((j : ℕ) → StripeOk b.next_id (stripe_at b j))
    → (j : ℕ) → StripeOk b.next_id (stripe_at (set_stripe b i s) j)
set_stripe-stripe b i s small fine others j =
    rw (stripe_at-set_stripe b i j s small)
      (if_both (StripeOk b.next_id) (nat_beq i j) fine (others j))

set_stripe-Accounts :
    (p q : ℕ) (b : BlockManager) (i : ℕ) (s : Stripe)
    → Accounts p b
    → i < b.stripe_count
    → StripeOk b.next_id s
    → q + s.used_bytes ≡ p + (stripe_at b i).used_bytes
    → Accounts q (set_stripe b i s)
unfolding set_stripe stripe_at
set_stripe-Accounts p q b i s a small fine same = record {
  positive = a.positive;
  width = length-set b.stripes i s ∙ a.width;
  key_width = a.key_width;
  stripe = set_stripe-stripe b i s (omega (arith, a.width)) fine a.stripe;
  reserved = omega (
    arith,
    a.reserved,
    sum_of-set (λ (s : Stripe). s.used_bytes) b.stripes i s empty_stripe (omega (arith, a.width)),
  );
  fits = a.fits;
}

release-Accounts :
    (p size : ℕ) (b : BlockManager) → Accounts (size + p) b → Accounts p (release b size)
unfolding release stripe_at
release-Accounts p size b a = record {
  positive = a.positive;
  width = a.width;
  key_width = a.key_width;
  stripe = a.stripe;
  reserved = omega (arith, a.reserved);
  fits = omega (arith, a.fits);
}

reserve_granted :
    (size : ℕ) (b : BlockManager)
    → (reserve b size).1 ≡ true
    → (reserve b size ≡ (record b { reserved_bytes = b.reserved_bytes + size }, true))
      × (b.reserved_bytes + size ≤ b.max_memory_bytes)
unfolding reserve
reserve_granted size b h = ground arith

reserve_refused :
    (size : ℕ) (b : BlockManager) → (reserve b size).1 ≡ false → (reserve b size).0 ≡ b
unfolding reserve
reserve_refused size b h = ground arith

reserve-Accounts :
    (size : ℕ) (b : BlockManager)
    → Accounts 0 b
    → (reserve b size).1 ≡ true
    → Accounts size (reserve b size).0
unfolding stripe_at
reserve-Accounts size b a h =
    let (e, room) = reserve_granted size b h in
    rw e (record {
      positive = a.positive;
      width = a.width;
      key_width = a.key_width;
      stripe = a.stripe;
      reserved = omega (arith, a.reserved);
      fits = room;
    })

module _ (hash : Str → ℕ) where
  bind_key-Accounts :
      (p : ℕ) (b : BlockManager) (key : Str) (block_id : ℕ)
      → Accounts p b
      → Accounts p (bind_key hash b key block_id)
  unfolding bind_key stripe_at
  bind_key-Accounts p b key block_id a = record {
    positive = a.positive;
    width = a.width;
    key_width = length-set b.key_stripes _ _ ∙ a.key_width;
    stripe = a.stripe;
    reserved = a.reserved;
    fits = a.fits;
  }

  unbind_key-Accounts :
      (p : ℕ) (b : BlockManager) (key : Str) → Accounts p b → Accounts p (unbind_key hash b key)
  unfolding unbind_key stripe_at
  unbind_key-Accounts p b key a = record {
    positive = a.positive;
    width = a.width;
    key_width = length-set b.key_stripes _ _ ∙ a.key_width;
    stripe = a.stripe;
    reserved = a.reserved;
    fits = a.fits;
  }

  -- `drop_key` changes nothing, or removes the key from the index.
  pub drop_key_cases :
      (b : BlockManager) (key : Str) (block_id : ℕ)
      → (drop_key hash b (some key) block_id ≡ b)
        ⊎ (drop_key hash b (some key) block_id ≡ unbind_key hash b key)
  unfolding drop_key
  drop_key_cases b key block_id = ground arith

  drop_key-Accounts :
      (p : ℕ) (b : BlockManager) (key : Option Str) (block_id : ℕ)
      → Accounts p b
      → Accounts p (drop_key hash b key block_id)
  drop_key-Accounts p b none block_id a = unfold drop_key in a
  drop_key-Accounts p b (some key) block_id a = elim (drop_key_cases b key block_id) [
    | inl same ↦ rw same a
    | inr dropped ↦ rw dropped (unbind_key-Accounts p b key a)
  ]

  pub drop_key-SameShape :
      (b : BlockManager) (key : Option Str) (block_id : ℕ)
      → SameShape b (drop_key hash b key block_id)
  unfolding drop_key
  drop_key-SameShape b none block_id = SameShape-refl b
  drop_key-SameShape b (some key) block_id = elim (drop_key_cases b key block_id) [
    | inl same ↦ rw same (SameShape-refl b)
    | inr dropped ↦
        rw dropped (unfold unbind_key in record { count = refl; cap = refl; next = refl })
  ]
