-- ===== src/Blocks/Accounts/Limits.antt =====
-- No method of `BlockManager` changes its limits: the quota and the number of stripes.
use peer_memory.Prelude.{ℕ, refl, Bool, Option, none, some, nat_eq, list_eq, length, arith}
use peer_memory.Prelude.Text.{Str, Bytes}
use peer_memory.Blocks.State.{
  Durability, BlockManager, set_stripe, bind_key, drop_key, reserve, release,
}
use peer_memory.Blocks.Evict.{Shuffles}
use peer_memory.Blocks.Store.{
  pop_block, add_block, free, free_by_key, make_room, rebind, store, load, load_by_key,
}
use peer_memory.Blocks.Accounts.Eviction.{evict_to_free-SameLimits}
pub use peer_memory.Blocks.Accounts.Eviction.{SameLimits}

drop_key-SameLimits :
    (hash : Str → ℕ) (b : BlockManager) (key : Option Str) (block_id : ℕ)
    → SameLimits b (drop_key hash b key block_id)
unfolding drop_key
drop_key-SameLimits hash b none block_id = (refl, refl)
drop_key-SameLimits hash b (some key) block_id = (ground arith, ground arith)

module _ (hash : Str → ℕ) where
  pub free-SameLimits :
      (b : BlockManager) (block_id : ℕ) (drop : Bool) → SameLimits b (free hash b block_id drop).0
  unfolding free pop_block set_stripe release
  free-SameLimits b block_id drop = grind (arith, drop_key-SameLimits)

  pub free_by_key-SameLimits :
      (b : BlockManager) (key : Str) → SameLimits b (free_by_key hash b key).0
  unfolding free_by_key
  free_by_key-SameLimits b key = grind (arith, free-SameLimits)

  rebind-SameLimits :
      (b : BlockManager) (key : Option Str) (block_id : ℕ)
      → SameLimits b (rebind hash b key block_id)
  unfolding rebind bind_key
  rebind-SameLimits b none block_id = (refl, refl)
  rebind-SameLimits b (some key) block_id = grind (arith, free-SameLimits)

  make_room-SameLimits :
      (shuffles : Shuffles) (b : BlockManager) (size : ℕ)
      → SameLimits b (make_room hash shuffles b size).0
  unfolding make_room reserve
  make_room-SameLimits shuffles b size =
      ground (arith, evict_to_free-SameLimits hash shuffles size b)

  pub store-SameLimits :
      (shuffles : Shuffles) (now : ℕ) (b : BlockManager) (content : Bytes) (durability : Durability)
      (key : Option Str)
      → SameLimits b (store hash shuffles now b content durability key).0
  unfolding store add_block set_stripe
  store-SameLimits shuffles now b content durability key =
      grind (arith, rebind-SameLimits, make_room-SameLimits shuffles b (length content))

pub load-SameLimits :
    (now : ℕ) (b : BlockManager) (block_id : ℕ) → SameLimits b (load now b block_id).0
unfolding load set_stripe
load-SameLimits now b block_id = (ground arith, ground arith)

pub load_by_key-SameLimits :
    (hash : Str → ℕ) (now : ℕ) (b : BlockManager) (key : Str)
    → SameLimits b (load_by_key hash now b key).0
unfolding load_by_key
load_by_key-SameLimits hash now b key = grind (arith, load-SameLimits)
