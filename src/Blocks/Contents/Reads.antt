-- ===== src/Blocks/Contents/Reads.antt =====
-- What a `load` after a `store` of memnode/blocks.py returns.
use peer_memory.Prelude.{
  ℕ, ◌<◌, ◌≡◌, refl, sym, ap, ◌∙◌, true, Option, some, nat_eq, list_eq, ==_refl, ok, length, All,
  arith,
}
use peer_memory.Prelude.Text.{Str, Bytes}
use peer_memory.Blocks.State.{Durability, Entry, BlockManager, block, key_entry}
use peer_memory.Blocks.Evict.{Shuffles}
use mathlib.Core.Option
use mathlib.Core.Path.{subst}
use peer_memory.Blocks.Store.{add_block, make_room, rebind, store, load, load_by_key}
use peer_memory.Blocks.Accounts.{Accounts}
use peer_memory.Blocks.Accounts.Eviction.{issue}
use peer_memory.Blocks.Accounts.Methods.{make_room-Accounts}
use peer_memory.Blocks.Contents.{
  Shaped, Accounts-Shaped, block-add_block, block-rebind, key_entry-rebind_self, add_block-Shaped,
}

-- `load` returns the bytes of the block, or nothing where no block is.
load_lem :
    (now : ℕ) (b : BlockManager) (block_id : ℕ)
    → (load now b block_id).1 ≡ Option.map (λ e. e.content) (block b block_id)
unfolding load block
load_lem now b block_id = ground arith

load_by_key_lem :
    (hash : Str → ℕ) (now : ℕ) (b : BlockManager) (key : Str) (block_id : ℕ)
    → key_entry hash b key ≡ some block_id
    → (load_by_key hash now b key).1 ≡ Option.map (λ e. e.content) (block b block_id)
unfolding load_by_key
load_by_key_lem hash now b key block_id h = rw (h, load_by_key) (load_lem now b block_id)

module _ (hash : Str → ℕ) (shuffles : Shuffles) (now : ℕ) (b : BlockManager) (content : Bytes)
    (durability : Durability) (key : Option Str) where
  abbrev new_entry : Entry
  new_entry = record { content = content; durability = durability; last_access = now; key = key }

  abbrev room : BlockManager
  room = (make_room hash shuffles b (length content)).0

  -- How a `store` succeeds.
  store_succeeded :
      (b' : BlockManager) (block_id : ℕ)
      → store hash shuffles now b content durability key ≡ (b', ok block_id)
      → ((make_room hash shuffles b (length content)).1 ≡ true)
        × (block_id ≡ room.next_id)
        × (b' ≡ rebind hash (add_block (issue room) room.next_id new_entry) key room.next_id)
  unfolding store
  store_succeeded b' block_id h = ground arith

  block-stored :
      Shaped room
      → block
          (rebind hash (add_block (issue room) room.next_id new_entry) key room.next_id)
          room.next_id
        ≡ some new_entry
  block-stored shape =
      block-rebind hash (add_block (issue room) room.next_id new_entry)
        (add_block-Shaped room room.next_id new_entry shape) key room.next_id room.next_id
        (λ k e f. refl)
      ∙ rw (block-add_block room shape new_entry room.next_id, ==_refl room.next_id) refl

  -- A block that was stored, on a store whose accounts are right and whatever was evicted for it, is
  -- read back whole: by the id that `store` returned and, where it has a key, by the key.
  pub load-store :
      (b' : BlockManager) (block_id later : ℕ)
      → Accounts 0 b
      → All (λ i. i < b.stripe_count) shuffles.order
      → store hash shuffles now b content durability key ≡ (b', ok block_id)
      → ((load later b' block_id).1 ≡ some content)
        × ((k : Str) → key ≡ some k → (load_by_key hash later b' k).1 ≡ some content)
  load-store b' block_id later a inside h =
      let (granted, id_is, state_is) = store_succeeded b' block_id h in
      let shape = Accounts-Shaped (make_room-Accounts hash shuffles b (length content) inside a) in
      let there = block-stored shape in
      let added = add_block-Shaped room room.next_id new_entry shape in
      rw (id_is, state_is)
        (
          load_lem later _ room.next_id ∙ ap (Option.map (λ e. e.content)) there,
          λ k e.
              (let indexed =
                  subst
                    (λ q.
                      key_entry hash
                        (rebind hash (add_block (issue room) room.next_id new_entry) q room.next_id)
                        k
                      ≡ some room.next_id)
                    (sym e)
                    (key_entry-rebind_self hash (add_block (issue room) room.next_id new_entry)
                      added k room.next_id) in
                load_by_key_lem hash later _ k room.next_id indexed
                ∙ ap (Option.map (λ e. e.content)) there),
        )
