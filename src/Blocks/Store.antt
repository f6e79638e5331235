-- ===== src/Blocks/Store.antt =====
-- The public methods of `BlockManager`.
use peer_memory.Prelude.{
  ℕ, ◌+◌, ◌-◌, Bool, true, false, Option, none, some, ltb, if◌then◌else◌, nat_eq, ◌==◌, Result, ok,
  raise, length, sum_of,
}
use peer_memory.Prelude.Dict.{get, put, remove}
use peer_memory.Prelude.Text.{Str, Bytes}
use peer_memory.Config.{max_block_size}
use peer_memory.Blocks.State.{
  Durability, BlockError, block_too_large, out_of_memory, Entry, Stripe, BlockManager, stripe_at,
  set_stripe, stripe_of, key_entry, bind_key, drop_key, reserve, release, size_of,
}
use peer_memory.Blocks.Evict.{Shuffles, evict_to_free}

-- The stripe without one of its blocks.
unfoldable pub pop_block : BlockManager → ℕ → Entry → BlockManager
pop_block b block_id e =
    let i = stripe_of b block_id in
    let s = stripe_at b i in
    set_stripe b i
      (record { blocks = remove s.blocks block_id; used_bytes = s.used_bytes - size_of e })

-- The stripe with one more block.
unfoldable pub add_block : BlockManager → ℕ → Entry → BlockManager
add_block b block_id e =
    let i = stripe_of b block_id in
    let s = stripe_at b i in
    set_stripe b i
      (record { blocks = put s.blocks block_id e; used_bytes = s.used_bytes + size_of e })

module _ (hash : Str → ℕ) where
  unfoldable pub free : BlockManager → ℕ → Bool → BlockManager × Bool
  free b block_id drop = elim (get (stripe_at b (stripe_of b block_id)).blocks block_id) [
    | none ↦ (b, false)
    | some e ↦
        let b' = release (pop_block b block_id e) (size_of e) in
        (if drop then drop_key hash b' e.key block_id else b', true)
  ]

  unfoldable pub free_by_key : BlockManager → Str → BlockManager × Bool
  free_by_key b key = elim (key_entry hash b key) [
    | none ↦ (b, false)
    | some block_id ↦ free b block_id true
  ]

  -- The quota step of `store`: a reservation, after an eviction if need be.
  unfoldable pub make_room : Shuffles → BlockManager → ℕ → BlockManager × Bool
  make_room shuffles b size =
      let (b', room) = reserve b size in
      if room then (b', true) else reserve (evict_to_free hash shuffles b size).0 size

  -- The key step of `store`: the key is bound to the new block, and the block that it named is freed.
  unfoldable pub rebind : BlockManager → Option Str → ℕ → BlockManager
  rebind b none block_id = b
  rebind b (some key) block_id =
      let b' = bind_key hash b key block_id in
      elim (key_entry hash b key) [
        | none ↦ b'
        | some previous ↦ if previous == block_id then b' else (free b' previous false).0
      ]

  unfoldable pub store :
      Shuffles
      → ℕ
      → BlockManager
      → Bytes
      → Durability
      → Option Str
      → BlockManager × Result BlockError ℕ
  store shuffles now b content durability key =
      let size = length content in
      let (b', room) = make_room shuffles b size in
      let block_id = b'.next_id in
      let entry : Entry = record {
        content = content;
        durability = durability;
        last_access = now;
        key = key;
      } in
      let stored =
        rebind (add_block (record b' { next_id = block_id + 1 }) block_id entry) key block_id in
      if ltb max_block_size size
      then (b, raise block_too_large)
      else if room
      then (stored, ok block_id)
      else (b', raise out_of_memory)

unfoldable pub load : ℕ → BlockManager → ℕ → BlockManager × Option Bytes
load now b block_id =
    let i = stripe_of b block_id in
    let s = stripe_at b i in
    elim (get s.blocks block_id) [
      | none ↦ (b, none)
      | some e ↦ (
        set_stripe b i
            (record s { blocks = put s.blocks block_id (record e { last_access = now }) }),
        some e.content,
      )
    ]

unfoldable pub load_by_key : (Str → ℕ) → ℕ → BlockManager → Str → BlockManager × Option Bytes
load_by_key hash now b key = elim (key_entry hash b key) [
  | none ↦ (b, none)
  | some block_id ↦ load now b block_id
]

pub record Stats : Type 0 where
  pub used_bytes : ℕ
  pub max_bytes : ℕ
  pub free_bytes : ℕ
  pub block_count : ℕ
  pub stripes : ℕ

unfoldable pub stats : BlockManager → Stats
stats b = record {
  used_bytes = b.reserved_bytes;
  max_bytes = b.max_memory_bytes;
  free_bytes = b.max_memory_bytes - b.reserved_bytes;
  block_count = sum_of (λ (s : Stripe). length s.blocks) b.stripes;
  stripes = b.stripe_count;
}
