-- ===== src/Blocks/Contents.antt =====
-- What the steps of memnode/blocks.py do to the blocks that are stored, id by id, and to the key
-- index, key by key.
mod Survival
pub mod Pinned
pub mod Reads
use peer_memory.Prelude.{
  if_both, get_or-set, ℕ, zero, suc, ◌+◌, ◌-◌, ◌%◌, ◌≤◌, ◌<◌, ◌≡◌, ◌≢◌, refl, sym, ap, ◌∙◌, ◌⊎◌,
  inl, inr, Bool, true, false, not, ◌&&◌, ◌||◌, Option, none, some, List, [], ◌∷◌, ◌++◌, ltb, leb,
  nat_beq, nat_beq_iff, if◌then◌else◌, nat_eq, list_eq, ◌==◌, ==_iff, ==_refl, Result, ok, raise,
  length, All, get_or, set, sum_of, arith, Bool-cases, Option-cases, leb→le, ltb→lt, lt→ltb,
  length-set, length-replicate, get_or-set_self, get_or-set_ne, sum_of-set, sum_of-replicate,
  get_or-replicate,
}
use peer_memory.Prelude.Dict.{
  Dict, get, put, remove, Distinct, total, at_key, get-put, get-remove, put-Distinct,
  remove-Distinct, total-put, total-remove, total_at,
}
use peer_memory.Prelude.Text.{Str, Bytes}
use peer_memory.Blocks.State.{
  Durability, pinned, cache, BlockError, block_too_large, out_of_memory, Entry, Stripe,
  BlockManager, init, empty_stripe, stripe_at, set_stripe, stripe_of, block, key_entry,
  key_stripe_of, bind_key, unbind_key, drop_key, reserve, release, size_of,
}
use peer_memory.Blocks.Evict.{
  Shuffles, Victim, is_cache, cache_ids, Sweep, take_victim, sweep, release_victims, enough_freed,
  evict_stripe, evict_loop, evict_to_free,
}
use peer_memory.Blocks.Store.{pop_block, add_block, free, rebind, load}
use peer_memory.Blocks.Accounts.{Accounts, drop_key_cases}
use peer_memory.Blocks.Accounts.Eviction.{issue, stripe_of-lt}

pub record Shaped (b : BlockManager) : Type 0 where
  pub positive : 0 < b.stripe_count
  pub width : length b.stripes ≡ b.stripe_count
  pub key_width : length b.key_stripes ≡ b.stripe_count

pub Accounts-Shaped : {p : ℕ} {b : BlockManager} → Accounts p b → Shaped b
Accounts-Shaped a = record { positive = a.positive; width = a.width; key_width = a.key_width }

pub block-set_stripe :
    (b : BlockManager)
    → Shaped b
    → (i : ℕ) (s : Stripe) (j : ℕ) → i < b.stripe_count
    → block (set_stripe b i s) j ≡ (if nat_beq i (stripe_of b j) then get s.blocks j else block b j)
unfolding block set_stripe stripe_at stripe_of
block-set_stripe b shape i s j small = elim (Bool-cases (nat_beq i (stripe_of b j))) [
  | inl here ↦
      rw
        (
          here,
          ← (nat_beq_iff i (stripe_of b j)).0 here,
          get_or-set_self b.stripes i s empty_stripe (omega (arith, shape.width)),
        )
        refl
  | inr there ↦
      rw
        (
          there,
          get_or-set_ne b.stripes i (stripe_of b j) s empty_stripe
              (λ e. ground (arith, nat_beq_iff i (stripe_of b j))),
        )
        refl
]

-- Two ids in one stripe, read in that stripe.
same_stripe :
    (b : BlockManager) (i j : ℕ) (x : Option Entry)
    → (if nat_beq (stripe_of b i) (stripe_of b j)
        then (if i == j then x else get (stripe_at b (stripe_of b i)).blocks j)
        else block b j)
      ≡ (if i == j then x else block b j)
unfolding block
same_stripe b i j x = elim (Bool-cases (i == j)) [
  | inl same ↦
      rw (same, (nat_beq_iff i j).0 same, (nat_beq_iff (stripe_of b j) (stripe_of b j)).1 refl) refl
  | inr differ ↦ rw differ (ground (arith, nat_beq_iff (stripe_of b i) (stripe_of b j)))
]

pub block-add_block :
    (b : BlockManager)
    → Shaped b
    → (e : Entry) (j : ℕ)
    → block (add_block (issue b) b.next_id e) j ≡ (if b.next_id == j then some e else block b j)
unfolding add_block stripe_at stripe_of block
block-add_block b shape e j =
    block-set_stripe (issue b)
      (record { positive = shape.positive; width = shape.width; key_width = shape.key_width })
      (stripe_of b b.next_id) _ j (stripe_of-lt b b.next_id shape.positive)
    ∙ rw get-put (same_stripe b b.next_id j (some e))

pub block-pop_block :
    (b : BlockManager)
    → Shaped b
    → (i : ℕ) (e : Entry) (j : ℕ) → block (pop_block b i e) j ≡ (if i == j then none else block b j)
unfolding pop_block
block-pop_block b shape i e j =
    block-set_stripe b shape (stripe_of b i) _ j (stripe_of-lt b i shape.positive)
    ∙ rw get-remove (same_stripe b i j none)

pub block-release : (b : BlockManager) (size j : ℕ) → block (release b size) j ≡ block b j
unfolding release block stripe_at stripe_of
block-release b size j = refl

none_at :
    (b : BlockManager) (i j : ℕ)
    → get (stripe_at b (stripe_of b i)).blocks i ≡ none
    → block b j ≡ (if i == j then none else block b j)
unfolding block
none_at b i j gone = elim (Bool-cases (i == j)) [
  | inl same ↦ rw (same, ← (nat_beq_iff i j).0 same) gone
  | inr differ ↦ rw differ refl
]

module _ (hash : Str → ℕ) where
  pub block-drop_key :
      (b : BlockManager) (key : Option Str) (i j : ℕ) → block (drop_key hash b key i) j ≡ block b j
  unfolding drop_key block stripe_at stripe_of
  block-drop_key b none i j = refl
  block-drop_key b (some key) i j = elim (drop_key_cases hash b key i) [
    | inl same ↦ rw same refl
    | inr dropped ↦ rw dropped (unfold unbind_key in refl)
  ]

  pub block-free :
      (b : BlockManager)
      → Shaped b
      → (i : ℕ) (drop : Bool) (j : ℕ)
      → block (free hash b i drop).0 j ≡ (if i == j then none else block b j)
  unfolding free
  block-free b shape i drop j = elim (Option-cases (get (stripe_at b (stripe_of b i)).blocks i)) [
    | inl gone ↦ rw (gone, free) (none_at b i j gone)
    | inr (e, there) ↦
        rw (there, free)
          (if_both (λ c. block c j ≡ (if i == j then none else block b j)) drop
            (block-drop_key (release (pop_block b i e) (size_of e)) e.key i j
              ∙ block-release _ _ j
              ∙ block-pop_block b shape i e j)
            (block-release _ _ j ∙ block-pop_block b shape i e j))
  ]

  block-bind_key :
      (b : BlockManager) (k : Str) (i j : ℕ) → block (bind_key hash b k i) j ≡ block b j
  unfolding bind_key block stripe_at stripe_of
  block-bind_key b k i j = refl

  bind_key-Shaped : (b : BlockManager) (k : Str) (i : ℕ) → Shaped b → Shaped (bind_key hash b k i)
  unfolding bind_key
  bind_key-Shaped b k i shape = record {
    positive = shape.positive;
    width = shape.width;
    key_width = length-set b.key_stripes _ _ ∙ shape.key_width;
  }

  pub block-rebind :
      (b : BlockManager)
      → Shaped b
      → (key : Option Str) (i j : ℕ)
      → (((k : Str) → key ≡ some k → key_entry hash b k ≡ some j → i ≡ j))
      → block (rebind hash b key i) j ≡ block b j
  unfolding rebind
  block-rebind b shape none i j kept = refl
  block-rebind b shape (some key) i j kept = elim (Option-cases (key_entry hash b key)) [
    | inl new ↦ rw (new, rebind) (block-bind_key b key i j)
    | inr (previous, old) ↦
        rw (old, rebind)
          (elim (Bool-cases (previous == i)) [
            | inl same ↦ rw same (block-bind_key b key i j)
            | inr differ ↦ rw differ (
                block-free (bind_key hash b key i) (bind_key-Shaped b key i shape) previous false j
                ∙ ground (
                  arith,
                  nat_beq_iff previous j,
                  nat_beq_iff previous i,
                  kept key refl,
                  block-bind_key b key i j,
                ))
          ])
  ]

  key_stripe_of-lt :
      (b : BlockManager) (k : Str) → Shaped b → key_stripe_of hash b k < length b.key_stripes
  unfolding key_stripe_of
  key_stripe_of-lt b k shape = omega (arith, shape.positive, shape.key_width)

  -- Two keys in one stripe of the index, read in that stripe.
  same_key_stripe :
      (b : BlockManager) (k k' : Str) (w : Dict Str ℕ) (x : Option ℕ)
      → get w k'
        ≡ (if k == k' then x else get (get_or b.key_stripes (key_stripe_of hash b k) []) k')
      → get
          (if nat_beq (key_stripe_of hash b k) (key_stripe_of hash b k')
            then w
            else get_or b.key_stripes (key_stripe_of hash b k') [])
          k'
        ≡ (if k == k' then x else key_entry hash b k')
  unfolding key_entry
  same_key_stripe b k k' w x h = elim (Bool-cases (k == k')) [
    | inl same ↦
        let there = (nat_beq_iff _ _).1 (ap (key_stripe_of hash b) ((==_iff k k').0 same)) in
        rw (there, h, same) refl
    | inr differ ↦ elim (Bool-cases (nat_beq (key_stripe_of hash b k) (key_stripe_of hash b k'))) [
      | inl there ↦ rw (there, h, differ, (nat_beq_iff _ _).0 there) refl
      | inr other ↦ rw (other, differ) refl
    ]
  ]

  -- The index after one binding.
  pub key_entry-bind_key :
      (b : BlockManager)
      → Shaped b
      → (k : Str) (i : ℕ) (k' : Str)
      → key_entry hash (bind_key hash b k i) k' ≡ (if k == k' then some i else key_entry hash b k')
  unfolding key_entry bind_key key_stripe_of
  key_entry-bind_key b shape k i k' =
      let v = put (get_or b.key_stripes (key_stripe_of hash b k) []) k i in
      ap (λ (d : Dict Str ℕ). get d k')
        (get_or-set b.key_stripes (key_stripe_of hash b k) (key_stripe_of hash b k') v []
          (key_stripe_of-lt b k shape))
      ∙ same_key_stripe b k k' v (some i) (get-put _ k k' i)

  pub key_entry-unbind_key :
      (b : BlockManager)
      → Shaped b
      → (k k' : Str)
      → key_entry hash (unbind_key hash b k) k' ≡ (if k == k' then none else key_entry hash b k')
  unfolding key_entry unbind_key key_stripe_of
  key_entry-unbind_key b shape k k' =
      let v = remove (get_or b.key_stripes (key_stripe_of hash b k) []) k in
      ap (λ (d : Dict Str ℕ). get d k')
        (get_or-set b.key_stripes (key_stripe_of hash b k) (key_stripe_of hash b k') v []
          (key_stripe_of-lt b k shape))
      ∙ same_key_stripe b k k' v none (get-remove _ k k')

  -- A free changes no entry of the index but to drop one.
  pub key_entry-free_kept :
      (b : BlockManager) (i : ℕ) (k : Str)
      → key_entry hash (free hash b i false).0 k ≡ key_entry hash b k
  unfolding free pop_block set_stripe release key_entry key_stripe_of
  key_entry-free_kept b i k = ground arith

  -- After the key step of `store` the key names the new block.
  pub key_entry-rebind_self :
      (b : BlockManager)
      → Shaped b
      → (k : Str) (i : ℕ) → key_entry hash (rebind hash b (some k) i) k ≡ some i
  unfolding rebind
  key_entry-rebind_self b shape k i =
      let bound : key_entry hash (bind_key hash b k i) k ≡ some i =
        rw (key_entry-bind_key b shape k i k, ==_refl k) refl in
      elim (Option-cases (key_entry hash b k)) [
        | inl new ↦ rw (new, rebind) bound
        | inr (previous, old) ↦
            rw (old, rebind)
              (if_both (λ c. key_entry hash c k ≡ some i) (previous == i) bound
                (key_entry-free_kept (bind_key hash b k i) previous k ∙ bound))
      ]

pub add_block-Shaped :
    (b : BlockManager) (i : ℕ) (e : Entry) → Shaped b → Shaped (add_block (issue b) i e)
unfolding add_block set_stripe
add_block-Shaped b i e shape = record {
  positive = shape.positive;
  width = length-set b.stripes _ _ ∙ shape.width;
  key_width = shape.key_width;
}

pub set_stripe-Shaped :
    (b : BlockManager) (i : ℕ) (s : Stripe) → Shaped b → Shaped (set_stripe b i s)
unfolding set_stripe
set_stripe-Shaped b i s shape = record {
  positive = shape.positive;
  width = length-set b.stripes i s ∙ shape.width;
  key_width = shape.key_width;
}

pub key_entry-add_block :
    (hash : Str → ℕ) (b : BlockManager) (e : Entry) (k : Str)
    → key_entry hash (add_block (issue b) b.next_id e) k ≡ key_entry hash b k
unfolding add_block set_stripe key_entry key_stripe_of
key_entry-add_block hash b e k = refl
