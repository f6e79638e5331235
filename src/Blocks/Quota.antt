-- ===== src/Blocks/Quota.antt =====
-- The quota of memnode/blocks.py over a whole sequence of calls.
use peer_memory.Prelude.{
  ℕ, ◌≤◌, ◌<◌, ◌≡◌, refl, ◌∙◌, true, Option, List, [], ◌∷◌, nat_eq, list_eq, ok, All, sum_of, arith,
  length-replicate, sum_of-replicate, get_or-replicate,
}
use peer_memory.Prelude.Dict.{Dict, get, total}
use peer_memory.Prelude.Text.{Str, Bytes}
use peer_memory.Blocks.State.{
  Durability, Stripe, BlockManager, init, empty_stripe, stripe_at, size_of,
}
use peer_memory.Blocks.Evict.{Shuffles}
use peer_memory.Blocks.Store.{free, free_by_key, store, load, load_by_key}
use peer_memory.Blocks.Accounts.Limits.{
  store-SameLimits, load-SameLimits, load_by_key-SameLimits, free-SameLimits,
  free_by_key-SameLimits, SameLimits,
}
use peer_memory.Prelude.{replicate}
use peer_memory.Blocks.Accounts.{Accounts}
use peer_memory.Prelude.{sum_of_congr}
use peer_memory.Blocks.Accounts.Methods.{
  store-Accounts, free-Accounts, free_by_key-Accounts, load-Accounts, load_by_key-Accounts,
}

-- A call of a public method, with what the clock and the shuffles gave it.
pub data Call : Type 0 where
  store_call : Shuffles → ℕ → Bytes → Durability → Option Str → Call
  load_call : ℕ → ℕ → Call
  load_by_key_call : ℕ → Str → Call
  free_call : ℕ → Call
  free_by_key_call : Str → Call

pub apply : (Str → ℕ) → BlockManager → Call → BlockManager
apply hash b (store_call shuffles now content durability key) =
    (store hash shuffles now b content durability key).0
apply hash b (load_call now block_id) = (load now b block_id).0
apply hash b (load_by_key_call now key) = (load_by_key hash now b key).0
apply hash b (free_call block_id) = (free hash b block_id true).0
apply hash b (free_by_key_call key) = (free_by_key hash b key).0

unfoldable pub run : (Str → ℕ) → BlockManager → List Call → BlockManager
run hash b [] = b
run hash b (call ∷ calls) = run hash (apply hash b call) calls

-- `random.shuffle(list(range(stripe_count)))` holds numbers of stripes.
abbrev pub InRange : ℕ → Call → Type 0
InRange count (store_call shuffles _ _ _ _) = All (λ i. i < count) shuffles.order
InRange count _ = Unit

-- The bytes of all the blocks that are there.
abbrev pub held : BlockManager → ℕ
held b = sum_of (λ (s : Stripe). total size_of s.blocks) b.stripes

abbrev pub fresh : ℕ → ℕ → BlockManager
fresh max_memory_bytes count = record {
  max_memory_bytes = max_memory_bytes;
  stripe_count = count;
  stripes = replicate count empty_stripe;
  key_stripes = replicate count [];
  reserved_bytes = 0;
  next_id = 1;
}

init_lem :
    (max_memory_bytes count : ℕ) (b : BlockManager)
    → init max_memory_bytes count ≡ ok b
    → (0 < count) × (b ≡ fresh max_memory_bytes count)
unfolding init
init_lem max_memory_bytes count b h = ground arith

pub fresh-Accounts :
    (max_memory_bytes count : ℕ) → 0 < count → Accounts 0 (fresh max_memory_bytes count)
unfolding stripe_at get
fresh-Accounts max_memory_bytes count h = record {
  positive = h;
  width = length-replicate count empty_stripe;
  key_width = length-replicate {A = Dict Str ℕ} count [];
  stripe = λ i.
      rw (get_or-replicate count i empty_stripe)
        (record { distinct = tt; counted = refl; issued = λ j le. refl });
  reserved = omega (arith, sum_of-replicate (λ (s : Stripe). s.used_bytes) count empty_stripe refl);
  fits = omega arith;
}

apply-Accounts :
    (hash : Str → ℕ) (b : BlockManager) (call : Call)
    → InRange b.stripe_count call
    → Accounts 0 b
    → Accounts 0 (apply hash b call)
unfolding apply
apply-Accounts hash b (store_call shuffles now content durability key) inside a =
    store-Accounts hash shuffles now b content durability key inside a
apply-Accounts hash b (load_call now block_id) inside a = load-Accounts now b block_id a
apply-Accounts hash b (load_by_key_call now key) inside a = load_by_key-Accounts hash now b key a
apply-Accounts hash b (free_call block_id) inside a = free-Accounts hash 0 b block_id true a
apply-Accounts hash b (free_by_key_call key) inside a = free_by_key-Accounts hash b key a

held-eq-used : (b : BlockManager) → Accounts 0 b → held b ≡ b.reserved_bytes
unfolding stripe_at
held-eq-used b a = omega (
  arith,
  a.reserved,
  sum_of_congr (λ (s : Stripe). s.used_bytes) (λ (s : Stripe). total size_of s.blocks) b.stripes
      empty_stripe (λ i. (a.stripe i).counted),
)

apply-SameLimits :
    (hash : Str → ℕ) (b : BlockManager) (call : Call) → SameLimits b (apply hash b call)
unfolding apply
apply-SameLimits hash b (store_call shuffles now content durability key) =
    store-SameLimits hash shuffles now b content durability key
apply-SameLimits hash b (load_call now block_id) = load-SameLimits now b block_id
apply-SameLimits hash b (load_by_key_call now key) = load_by_key-SameLimits hash now b key
apply-SameLimits hash b (free_call block_id) = free-SameLimits hash b block_id true
apply-SameLimits hash b (free_by_key_call key) = free_by_key-SameLimits hash b key

run-Accounts :
    (hash : Str → ℕ) (b : BlockManager) (calls : List Call)
    → All (InRange b.stripe_count) calls
    → Accounts 0 b
    → Accounts 0 (run hash b calls) × SameLimits b (run hash b calls)
unfolding run
run-Accounts hash b [] inside a = (a, (refl, refl))
run-Accounts hash b (call ∷ calls) inside a =
    let l = apply-SameLimits hash b call in
    let r =
      run-Accounts hash (apply hash b call) calls (rw l.0 inside.1)
        (apply-Accounts hash b call inside.0 a) in
    (r.0, (r.1.0 ∙ l.0, r.1.1 ∙ l.1))

-- After any calls on a new store, whatever they returned or raised, with the stripes visited in any
-- order and the candidates in any order: the counter of reserved bytes is exactly the size of the
-- blocks that are there, and that is at most the quota that the store was made with.
pub run_quota :
    (hash : Str → ℕ) (max_memory_bytes count : ℕ) (b : BlockManager) (calls : List Call)
    → init max_memory_bytes count ≡ ok b
    → All (InRange count) calls
    → (held (run hash b calls) ≡ (run hash b calls).reserved_bytes)
      × (held (run hash b calls) ≤ max_memory_bytes)
run_quota hash max_memory_bytes count b calls h inside =
    let (positive, e) = init_lem max_memory_bytes count b h in
    let (a, limits) =
      run-Accounts hash (fresh max_memory_bytes count) calls inside
        (fresh-Accounts max_memory_bytes count positive) in
    let used = held-eq-used _ a in rw e (used, omega (arith, used, a.fits, limits.1))
