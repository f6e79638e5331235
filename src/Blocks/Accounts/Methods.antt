-- ===== src/Blocks/Accounts/Methods.antt =====
-- Every method of `BlockManager` keeps the accounts.
use peer_memory.Prelude.{
  if_both, ℕ, ◌+◌, ◌<◌, ◌≡◌, ap, inl, inr, Bool, true, false, Option, none, some, ltb, nat_beq_iff,
  if◌then◌else◌, nat_eq, list_eq, ◌==◌, length, All, arith, Bool-cases, Option-cases,
}
use peer_memory.Prelude.Dict.{get, put, at_key, get-put, put-Distinct, total-put}
use peer_memory.Prelude.Text.{Str, Bytes}
use peer_memory.Blocks.State.{
  Durability, Entry, Stripe, BlockManager, stripe_at, stripe_of, key_entry, bind_key, reserve,
  release, size_of,
}
use peer_memory.Blocks.Evict.{Shuffles, evict_to_free}
use peer_memory.Blocks.Store.{
  pop_block, add_block, free, free_by_key, make_room, rebind, store, load, load_by_key,
}
use peer_memory.Config.{max_block_size}
use peer_memory.Blocks.Accounts.{
  StripeOk, Accounts, set_stripe-Accounts, release-Accounts, reserve_refused, reserve-Accounts,
  bind_key-Accounts, drop_key-Accounts,
}
use peer_memory.Blocks.Accounts.Eviction.{
  remove-StripeOk, put-StripeOk, stripe_of-lt, issue-Accounts, size-le-used, issue,
  evict_to_free-Accounts,
}

module _ (hash : Str → ℕ) where
  pop_block-Accounts :
      (p : ℕ) (b : BlockManager) (block_id : ℕ) (e : Entry)
      → Accounts p b
      → get (stripe_at b (stripe_of b block_id)).blocks block_id ≡ some e
      → Accounts (size_of e + p) (pop_block b block_id e)
  unfolding pop_block
  pop_block-Accounts p b block_id e a there =
      set_stripe-Accounts p _ b (stripe_of b block_id) _ a (stripe_of-lt b block_id a.positive)
        (remove-StripeOk b.next_id _ block_id e (a.stripe (stripe_of b block_id)) there)
        (omega (arith, size-le-used b.next_id _ block_id e (a.stripe (stripe_of b block_id)) there))

  pub free-Accounts :
      (p : ℕ) (b : BlockManager) (block_id : ℕ) (drop : Bool)
      → Accounts p b
      → Accounts p (free hash b block_id drop).0
  unfolding free
  free-Accounts p b block_id drop a =
      elim (Option-cases (get (stripe_at b (stripe_of b block_id)).blocks block_id)) [
        | inl gone ↦ rw (free, gone) a
        | inr (e, there) ↦
            let b' = release (pop_block b block_id e) (size_of e) in
            let a' =
              release-Accounts p (size_of e) (pop_block b block_id e)
                (pop_block-Accounts p b block_id e a there) in
            rw (there, free)
              (if_both (Accounts p) drop (drop_key-Accounts hash p b' e.key block_id a') a')
      ]

  pub make_room-Accounts :
      (shuffles : Shuffles) (b : BlockManager) (size : ℕ)
      → All (λ i. i < b.stripe_count) shuffles.order
      → Accounts 0 b
      → Accounts
          (if (make_room hash shuffles b size).1 then size else 0)
          (make_room hash shuffles b size).0
  unfolding make_room
  make_room-Accounts shuffles b size inside a = elim (Bool-cases (reserve b size).1) [
    | inl room ↦ rw room (reserve-Accounts size b a room)
    | inr full ↦
        let evicted = evict_to_free-Accounts hash shuffles b size inside a in
        let b' = (evict_to_free hash shuffles b size).0 in
        elim (Bool-cases (reserve b' size).1) [
          | inl room ↦ rw (full, room) (reserve-Accounts size b' evicted room)
          | inr refused ↦ rw (full, refused, reserve_refused size b' refused) evicted
        ]
  ]

  add_block-Accounts :
      (b : BlockManager) (e : Entry)
      → Accounts (size_of e) b
      → Accounts 0 (add_block (issue b) b.next_id e)
  unfolding add_block stripe_at stripe_of
  add_block-Accounts b e a =
      let i = stripe_of b b.next_id in
      set_stripe-Accounts (size_of e) 0 (issue b) i _ (issue-Accounts _ b a)
        (stripe_of-lt b b.next_id a.positive)
        (put-StripeOk b.next_id (stripe_at b i) e (a.stripe i)) (omega arith)

  rebind-Accounts :
      (p : ℕ) (b : BlockManager) (key : Option Str) (block_id : ℕ)
      → Accounts p b
      → Accounts p (rebind hash b key block_id)
  unfolding rebind
  rebind-Accounts p b none block_id a = a
  rebind-Accounts p b (some key) block_id a =
      let b' = bind_key hash b key block_id in
      let a' = bind_key-Accounts hash p b key block_id a in
      elim (Option-cases (key_entry hash b key)) [
        | inl new ↦ rw (new, rebind) a'
        | inr (previous, old) ↦
            rw (old, rebind)
              (if_both (Accounts p) (previous == block_id) a'
                (free-Accounts p b' previous false a'))
      ]

  -- `store` keeps the accounts on every branch.
  pub store-Accounts :
      (shuffles : Shuffles) (now : ℕ) (b : BlockManager) (content : Bytes) (durability : Durability)
      (key : Option Str)
      → All (λ i. i < b.stripe_count) shuffles.order
      → Accounts 0 b
      → Accounts 0 (store hash shuffles now b content durability key).0
  unfolding store
  store-Accounts shuffles now b content durability key inside a =
      elim (Bool-cases (ltb max_block_size (length content))) [
        | inl big ↦ rw big a
        | inr small ↦
            let b' = (make_room hash shuffles b (length content)).0 in
            let m = make_room-Accounts shuffles b (length content) inside a in
            elim (Bool-cases (make_room hash shuffles b (length content)).1) [
              | inl room ↦
                  rw (small, room)
                    (rebind-Accounts 0 _ key b'.next_id (
                      add_block-Accounts b'
                        (record {
                          content = content;
                          durability = durability;
                          last_access = now;
                          key = key;
                        })
                        (rw room at m)))
              | inr refused ↦ rw (small, refused) (rw refused at m)
            ]
      ]

  pub free_by_key-Accounts :
      (b : BlockManager) (key : Str) → Accounts 0 b → Accounts 0 (free_by_key hash b key).0
  unfolding free_by_key
  free_by_key-Accounts b key a = elim (Option-cases (key_entry hash b key)) [
    | inl gone ↦ rw (free_by_key, gone) a
    | inr (block_id, there) ↦ rw (free_by_key, there) (free-Accounts 0 b block_id true a)
  ]

-- A block that is read keeps its size.
touch-StripeOk :
    (n : ℕ) (s : Stripe) (block_id now : ℕ) (e : Entry)
    → StripeOk n s
    → get s.blocks block_id ≡ some e
    → StripeOk n (record s { blocks = put s.blocks block_id (record e { last_access = now }) })
touch-StripeOk n s block_id now e o there = record {
  distinct = put-Distinct s.blocks block_id _ o.distinct;
  counted = omega (
    arith,
    o.counted,
    total-put size_of s.blocks block_id (record e { last_access = now }),
    ap (at_key size_of) there,
  );
  issued = λ j le. rw get-put (ground (arith, nat_beq_iff block_id j, o.issued j le));
}

pub load-Accounts :
    (now : ℕ) (b : BlockManager) (block_id : ℕ) → Accounts 0 b → Accounts 0 (load now b block_id).0
unfolding load
load-Accounts now b block_id a =
    elim (Option-cases (get (stripe_at b (stripe_of b block_id)).blocks block_id)) [
      | inl gone ↦ rw (gone, load) a
      | inr (e, there) ↦
          let i = stripe_of b block_id in
          rw (there, load)
            (set_stripe-Accounts 0 0 b i _ a (stripe_of-lt b block_id a.positive)
              (touch-StripeOk b.next_id (stripe_at b i) block_id now e (a.stripe i) there)
              (omega arith))
    ]

pub load_by_key-Accounts :
    (hash : Str → ℕ) (now : ℕ) (b : BlockManager) (key : Str)
    → Accounts 0 b
    → Accounts 0 (load_by_key hash now b key).0
unfolding load_by_key
load_by_key-Accounts hash now b key a = elim (Option-cases (key_entry hash b key)) [
  | inl gone ↦ rw (load_by_key, gone) a
  | inr (block_id, there) ↦ rw (load_by_key, there) (load-Accounts now b block_id a)
]
