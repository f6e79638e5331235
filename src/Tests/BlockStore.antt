-- ===== src/Tests/BlockStore.antt =====
-- The block store of memnode/blocks.py on concrete calls.
use peer_memory.Prelude.{ℕ, ◌≡◌, ◌≤◌, refl, List, [], ◌∷◌, some, none, ok, raise, length, arith}
use peer_memory.Prelude.Text.{Str, codes}
use peer_memory.Blocks.State.{
  BlockManager, pinned, cache, Entry, value_error, out_of_memory, init, block, key_entry, bind_key,
  drop_key, stripe_at, set_stripe, stripe_of, reserve, release,
}
use peer_memory.Blocks.Evict.{
  Shuffles, cache_ids, take_victim, sweep, release_victims, enough_freed, evict_stripe, evict_loop,
  evict_to_free,
}
use peer_memory.Blocks.Store.{
  pop_block, add_block, free, free_by_key, make_room, rebind, store, load, load_by_key, stats,
}
use peer_memory.Blocks.Accounts.{Accounts}
use peer_memory.Blocks.Accounts.Methods.{store-Accounts}
use peer_memory.Blocks.Quota.{
  Call, store_call, load_call, load_by_key_call, free_call, free_by_key_call, run, held, fresh,
  fresh-Accounts, run_quota,
}
use peer_memory.Blocks.Contents.Reads.{load-store}
use peer_memory.Blocks.Contents.Pinned.{block-store_pinned}
use peer_memory.Prelude.Dict.{get, put, remove}

program : Unit {0}
unfolding init block key_entry bind_key drop_key stripe_at set_stripe stripe_of reserve release
    cache_ids take_victim sweep release_victims enough_freed evict_stripe evict_loop evict_to_free
    pop_block add_block free free_by_key make_room rebind store load load_by_key stats get put
    remove
program = tt

-- Python's hash of a string, and shuffles that leave the order.
abbrev hash : Str → ℕ
hash s = length s

abbrev in_order : Shuffles
in_order = record { order = 0 ∷ 1 ∷ []; candidates = λ _ ids. ids }

abbrev key_a : Str
key_a = codes "a"

abbrev empty : BlockManager
empty = fresh 5 2

-- One pinned block of two bytes, then one of three in the cache: the store is full.
abbrev one : BlockManager
one = (store hash in_order 10 empty (1 ∷ 2 ∷ []) pinned (some key_a)).0

abbrev full : BlockManager
full = (store hash in_order 20 one (3 ∷ 4 ∷ 5 ∷ []) cache none).0

init_zero : init 5 0 ≡ raise value_error
unfolding program
init_zero = refl

-- The block in the cache gives way; a pinned one does not.
stores :
    ((store hash in_order 30 full (6 ∷ 7 ∷ []) pinned none).1 ≡ ok 3)
    × (block (store hash in_order 30 full (6 ∷ 7 ∷ []) pinned none).0 2 ≡ none)
    × ((store hash in_order 30 full (6 ∷ 7 ∷ 8 ∷ 9 ∷ []) pinned none).1 ≡ raise out_of_memory)
unfolding program
stores = (refl, refl, refl)

-- A key that is bound again frees the block that it named.
rebound : block (store hash in_order 30 one (6 ∷ []) cache (some key_a)).0 1 ≡ none
unfolding program
rebound = refl

abbrev calls : List Call
calls =
    store_call in_order 10 (1 ∷ 2 ∷ []) pinned (some key_a)
    ∷ store_call in_order 20 (3 ∷ 4 ∷ 5 ∷ []) cache none
    ∷ store_call in_order 30 (6 ∷ []) cache (some key_a)
    ∷ load_by_key_call 40 key_a
    ∷ load_call 41 2
    ∷ free_call 2
    ∷ free_by_key_call key_a
    ∷ []

run_quota_example :
    (held (run hash empty calls) ≡ (run hash empty calls).reserved_bytes)
    × (held (run hash empty calls) ≤ 5)
unfolding init
run_quota_example = run_quota hash 5 2 empty calls refl (omega arith)

one-Accounts : Accounts 0 one
one-Accounts =
    store-Accounts hash in_order 10 empty (1 ∷ 2 ∷ []) pinned (some key_a) (omega arith)
      (fresh-Accounts 5 2 (omega arith))

load-store_example :
    ((load 50 one 1).1 ≡ some (1 ∷ 2 ∷ []))
    × ((k : Str) → some key_a ≡ some k → (load_by_key hash 50 one k).1 ≡ some (1 ∷ 2 ∷ []))
unfolding program
load-store_example =
    load-store hash in_order 10 empty (1 ∷ 2 ∷ []) pinned (some key_a) one 1 50
      (fresh-Accounts 5 2 (omega arith)) (omega arith) refl

abbrev pinned_entry : Entry
pinned_entry = record {
  content = 1 ∷ 2 ∷ [];
  durability = pinned;
  last_access = 10;
  key = some key_a;
}

block-store_pinned_example :
    block (store hash in_order 30 one (6 ∷ 7 ∷ 8 ∷ 9 ∷ []) cache none).0 1 ≡ some pinned_entry
unfolding program
block-store_pinned_example =
    block-store_pinned hash in_order 30 one (6 ∷ 7 ∷ 8 ∷ 9 ∷ []) cache none 1 pinned_entry
      one-Accounts (omega arith) (λ idx ids a h. h) refl refl (λ k e. λ named. cc)
