-- ===== src/Blocks/State.antt =====
-- The state of `BlockManager`, the choice of a stripe and the quota counters.
use peer_memory.Prelude.{
  ℕ, ◌+◌, ◌-◌, ◌%◌, Bool, true, false, Option, none, some, List, [], ltb, if◌then◌else◌, nat_eq,
  list_eq, ◌==◌, Result, ok, raise, length, get_or, set, replicate,
}
use peer_memory.Prelude.Dict.{Dict, get, put, remove}
use peer_memory.Prelude.Text.{Str, Bytes}

pub data Durability : Type 0 where
  pinned cache : Durability

pub data BlockError : Type 0 where
  value_error block_too_large out_of_memory : BlockError

pub record Entry : Type 0 where
  pub content : Bytes
  pub durability : Durability
  pub last_access : ℕ
  pub key : Option Str

-- class _Stripe, without its lock
pub record Stripe : Type 0 where
  pub blocks : Dict ℕ Entry
  pub used_bytes : ℕ

pub record BlockManager : Type 0 where
  pub max_memory_bytes : ℕ
  pub stripe_count : ℕ
  pub stripes : List Stripe
  pub key_stripes : List (Dict Str ℕ)
  pub reserved_bytes : ℕ
  pub next_id : ℕ

abbrev pub empty_stripe : Stripe
empty_stripe = record { blocks = []; used_bytes = 0 }

unfoldable pub init : ℕ → ℕ → Result BlockError BlockManager
init max_memory_bytes stripe_count =
    if ltb stripe_count 1
    then raise value_error
    else ok (record {
      max_memory_bytes = max_memory_bytes;
      stripe_count = stripe_count;
      stripes = replicate stripe_count empty_stripe;
      key_stripes = replicate stripe_count [];
      reserved_bytes = 0;
      next_id = 1;
    })

-- self._stripes[i]
unfoldable pub stripe_at : BlockManager → ℕ → Stripe
stripe_at b i = get_or b.stripes i empty_stripe

unfoldable pub set_stripe : BlockManager → ℕ → Stripe → BlockManager
set_stripe b i s = record b { stripes = set b.stripes i s }

-- self._stripe(block_id), as an index
unfoldable pub stripe_of : BlockManager → ℕ → ℕ
stripe_of b block_id = block_id % b.stripe_count

-- The block that is stored under an id.
unfoldable pub block : BlockManager → ℕ → Option Entry
unfolding stripe_at stripe_of
block b block_id = get (stripe_at b (stripe_of b block_id)).blocks block_id

module _ (hash : Str → ℕ) where
  -- self._key_stripe(key), as an index
  unfoldable pub key_stripe_of : BlockManager → Str → ℕ
  key_stripe_of b key = hash key % b.stripe_count

  -- ks.index.get(key)
  unfoldable pub key_entry : BlockManager → Str → Option ℕ
  unfolding key_stripe_of
  key_entry b key = get (get_or b.key_stripes (key_stripe_of b key) []) key

  -- ks.index[key] = block_id
  unfoldable pub bind_key : BlockManager → Str → ℕ → BlockManager
  unfolding key_stripe_of
  bind_key b key block_id =
      let i = key_stripe_of b key in
      record b { key_stripes = set b.key_stripes i (put (get_or b.key_stripes i []) key block_id) }

  -- del ks.index[key]
  unfoldable pub unbind_key : BlockManager → Str → BlockManager
  unfolding key_stripe_of
  unbind_key b key =
      let i = key_stripe_of b key in
      record b { key_stripes = set b.key_stripes i (remove (get_or b.key_stripes i []) key) }

  -- if ks.index.get(key) == block_id: del ks.index[key]
  unfoldable pub drop_key : BlockManager → Option Str → ℕ → BlockManager
  unfolding key_entry unbind_key
  drop_key b none block_id = b
  drop_key b (some key) block_id = elim (key_entry b key) [
    | none ↦ b
    | some bid ↦ if bid == block_id then unbind_key b key else b
  ]

unfoldable pub reserve : BlockManager → ℕ → BlockManager × Bool
reserve b size =
    if ltb b.max_memory_bytes (b.reserved_bytes + size)
    then (b, false)
    else (record b { reserved_bytes = b.reserved_bytes + size }, true)

-- max(0, self._reserved_bytes - size)
unfoldable pub release : BlockManager → ℕ → BlockManager
release b size = record b { reserved_bytes = b.reserved_bytes - size }

abbrev pub size_of : Entry → ℕ
size_of e = length e.content
