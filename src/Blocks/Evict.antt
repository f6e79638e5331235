-- ===== src/Blocks/Evict.antt =====
-- `_evict_to_free` of memnode/blocks.py.
use peer_memory.Prelude.{
  ℕ, ◌+◌, ◌-◌, Bool, true, false, Option, none, some, List, [], ◌∷◌, ◌++◌, leb, if◌then◌else◌,
  nat_eq,
}
use peer_memory.Prelude.Dict.{Dict, get, remove}
use peer_memory.Prelude.Text.{Str}
use peer_memory.Blocks.State.{
  Durability, pinned, cache, Entry, Stripe, BlockManager, stripe_at, set_stripe, drop_key, release,
  size_of,
}

-- What `random.shuffle` made of the list of the stripes, and of the candidates of each stripe.
pub record Shuffles : Type 0 where
  pub order : List ℕ
  pub candidates : ℕ → List ℕ → List ℕ

-- (bid, size, entry.key)
abbrev pub Victim : Type 0
Victim = ℕ × ℕ × Option Str

unfoldable pub is_cache : Durability → Bool
is_cache pinned = false
is_cache cache = true

-- [bid for bid, e in stripe.blocks.items() if e.durability == Durability.CACHE]
unfoldable pub cache_ids : Dict ℕ Entry → List ℕ
unfolding is_cache
cache_ids [] = []
cache_ids ((bid, e) ∷ d) =
    let rest = cache_ids d in if is_cache e.durability then bid ∷ rest else rest

-- What the loop over the candidates of one stripe has done.
pub record Sweep : Type 0 where
  pub stripe : Stripe
  pub freed : ℕ
  pub victims : List Victim

-- One candidate that is still there: it is popped and noted.
unfoldable pub take_victim : Sweep → ℕ → Entry → Sweep
take_victim s bid e = record s {
  stripe = record {
    blocks = remove s.stripe.blocks bid;
    used_bytes = s.stripe.used_bytes - size_of e;
  };
  freed = s.freed + size_of e;
  victims = s.victims ++ (bid, size_of e, e.key) ∷ [];
}

-- The loop over the candidates. `enough freed` is the test that breaks it.
unfoldable pub sweep : (ℕ → Bool) → List ℕ → Sweep → Sweep
sweep enough [] s = s
sweep enough (bid ∷ rest) s = elim (get s.stripe.blocks bid) [
  | none ↦ sweep enough rest s
  | some e ↦ let s' = take_victim s bid e in if enough s'.freed then s' else sweep enough rest s'
]

-- The second loop, over the victims of one stripe.
unfoldable pub release_victims : (Str → ℕ) → BlockManager → List Victim → BlockManager
release_victims hash b [] = b
release_victims hash b ((bid, size, key) ∷ rest) =
    release_victims hash (drop_key hash (release b size) key bid) rest

-- reserved - freed + needed <= max, with the subtraction on the other side
unfoldable pub enough_freed : BlockManager → ℕ → ℕ → Bool
enough_freed b needed freed = leb (b.reserved_bytes + needed) (b.max_memory_bytes + freed)

-- The body of the loop over the stripes: the new state, and the bytes freed so far.
unfoldable pub evict_stripe : (Str → ℕ) → Shuffles → BlockManager → ℕ → ℕ → ℕ → BlockManager × ℕ
evict_stripe hash shuffles b needed freed idx =
    let candidates = shuffles.candidates idx (cache_ids (stripe_at b idx).blocks) in
    let s =
      sweep (enough_freed b needed) candidates
        (record { stripe = stripe_at b idx; freed = freed; victims = [] }) in
    (release_victims hash (set_stripe b idx s.stripe) s.victims, s.freed)

unfoldable pub evict_loop : (Str → ℕ) → Shuffles → BlockManager → ℕ → ℕ → List ℕ → BlockManager × ℕ
evict_loop hash shuffles b needed freed [] = (b, freed)
evict_loop hash shuffles b needed freed (idx ∷ rest) =
    let (b', freed') = evict_stripe hash shuffles b needed freed idx in
    let more = evict_loop hash shuffles b' needed freed' rest in
    if leb (b'.reserved_bytes + needed) b'.max_memory_bytes then (b', freed') else more

unfoldable pub evict_to_free : (Str → ℕ) → Shuffles → BlockManager → ℕ → BlockManager × ℕ
evict_to_free hash shuffles b needed = evict_loop hash shuffles b needed 0 shuffles.order
