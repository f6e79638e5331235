-- ===== src/Blocks/Contents/Pinned.antt =====
-- A `store` of memnode/blocks.py, whether it succeeds or not, leaves the pinned blocks in place.
use peer_memory.Prelude.{
  ℕ, ◌+◌, ◌<◌, ◌≡◌, ◌≢◌, refl, sym, ◌∙◌, inl, inr, Bool, false, Option, none, some, List, [], ◌∷◌,
  ltb, leb, nat_beq_iff, nat_eq, list_eq, ◌==◌, Result, length, All, arith, Bool-cases, length-set,
}
use peer_memory.Prelude.Text.{Str, Bytes}
use peer_memory.Blocks.State.{
  Durability, pinned, BlockError, Entry, Stripe, BlockManager, stripe_at, set_stripe, stripe_of,
  block, key_entry, key_stripe_of, unbind_key, drop_key, reserve, release,
}
use peer_memory.Blocks.Evict.{
  Shuffles, Victim, cache_ids, sweep, release_victims, enough_freed, evict_stripe, evict_loop,
  evict_to_free,
}
use peer_memory.Config.{max_block_size}
use peer_memory.Prelude.{if_both}
use peer_memory.Blocks.Store.{add_block, make_room, store}
use peer_memory.Blocks.Accounts.{Accounts, drop_key_cases}
use peer_memory.Blocks.Accounts.Methods.{make_room-Accounts}
use peer_memory.Blocks.Accounts.Eviction.{issue, evict_stripe-Accounts, evict_stripe-SameShape}
use peer_memory.Blocks.Contents.{
  Shaped, Accounts-Shaped, block-add_block, block-rebind, add_block-Shaped, key_entry-unbind_key,
  set_stripe-Shaped, key_entry-add_block,
}
use peer_memory.Blocks.Contents.Survival.{Sound, block-make_room}

-- A block that is there has an id that was given out.
issued_before :
    {p : ℕ} (m : BlockManager) (a : ℕ) (e : Entry)
    → Accounts p m
    → block m a ≡ some e
    → (m.next_id == a) ≡ false
unfolding block
issued_before m a e acc there = elim (Bool-cases (m.next_id == a)) [
  | inl same ↦
      cc ((acc.stripe (stripe_of m a)).issued a (omega (arith, (nat_beq_iff m.next_id a).0 same)))
  | inr differ ↦ differ
]

module _ (hash : Str → ℕ) (k : Str) (j : ℕ) where
  -- An entry of the index that is there after an eviction was there before it.
  abbrev Kept : BlockManager → BlockManager → Type 0
  Kept b c = key_entry hash c k ≡ some j → key_entry hash b k ≡ some j

  drop_key-Kept :
      (b : BlockManager) → Shaped b → (key : Option Str) (i : ℕ) → Kept b (drop_key hash b key i)
  unfolding drop_key
  drop_key-Kept b shape none i = λ h. h
  drop_key-Kept b shape (some key) i = elim (drop_key_cases hash b key i) [
    | inl same ↦ rw same (λ h. h)
    | inr dropped ↦ rw (dropped, key_entry-unbind_key hash b shape key k) (λ h. ground arith)
  ]

  drop_key-Shaped :
      (b : BlockManager) (key : Option Str) (i : ℕ) → Shaped b → Shaped (drop_key hash b key i)
  unfolding drop_key
  drop_key-Shaped b none i shape = shape
  drop_key-Shaped b (some key) i shape = elim (drop_key_cases hash b key i) [
    | inl same ↦ rw same shape
    | inr dropped ↦ rw dropped (
        unfold unbind_key in
        record {
          positive = shape.positive;
          width = shape.width;
          key_width = length-set b.key_stripes _ _ ∙ shape.key_width;
        })
  ]

  key_entry-release :
      (b : BlockManager) (size : ℕ) → key_entry hash (release b size) k ≡ key_entry hash b k
  unfolding release key_entry key_stripe_of
  key_entry-release b size = refl

  key_entry-set_stripe :
      (b : BlockManager) (i : ℕ) (s : Stripe)
      → key_entry hash (set_stripe b i s) k ≡ key_entry hash b k
  unfolding set_stripe key_entry key_stripe_of
  key_entry-set_stripe b i s = refl

  key_entry-reserve :
      (b : BlockManager) (size : ℕ) → key_entry hash (reserve b size).0 k ≡ key_entry hash b k
  unfolding reserve
  key_entry-reserve b size =
      if_both (λ (r : BlockManager × Bool). key_entry hash r.0 k ≡ key_entry hash b k)
        (ltb b.max_memory_bytes (b.reserved_bytes + size)) refl
        (unfold key_entry key_stripe_of in refl)

  release_victims-Kept :
      (b : BlockManager) (vs : List Victim) → Shaped b → Kept b (release_victims hash b vs)
  unfolding release_victims
  release_victims-Kept b [] shape = λ h. h
  release_victims-Kept b ((bid, size, key) ∷ rest) shape = λ h.
      let shape' : Shaped (release b size) =
        unfold release in
        record { positive = shape.positive; width = shape.width; key_width = shape.key_width } in
      let h' =
        release_victims-Kept (drop_key hash (release b size) key bid) rest
          (drop_key-Shaped (release b size) key bid shape') h in
      sym (key_entry-release b size) ∙ drop_key-Kept (release b size) shape' key bid h'

  module _ (shuffles : Shuffles) (needed : ℕ) where
    evict_stripe-Kept :
        (b : BlockManager) (freed idx : ℕ)
        → Shaped b
        → Kept b (evict_stripe hash shuffles b needed freed idx).0
    unfolding evict_stripe
    evict_stripe-Kept b freed idx shape = λ h.
        let s =
          sweep (enough_freed b needed)
            (shuffles.candidates idx (cache_ids (stripe_at b idx).blocks))
            (record { stripe = stripe_at b idx; freed = freed; victims = [] }) in
        sym (key_entry-set_stripe b idx s.stripe)
        ∙ release_victims-Kept (set_stripe b idx s.stripe) s.victims
            (set_stripe-Shaped b idx s.stripe shape) h

    evict_loop-Kept :
        (b : BlockManager) (freed : ℕ) (order : List ℕ)
        → Accounts 0 b
        → All (λ i. i < b.stripe_count) order
        → Kept b (evict_loop hash shuffles b needed freed order).0
    unfolding evict_loop
    evict_loop-Kept b freed [] acc inside = λ h. h
    evict_loop-Kept b freed (idx ∷ rest) acc inside =
        let b' = (evict_stripe hash shuffles b needed freed idx).0 in
        let f' = (evict_stripe hash shuffles b needed freed idx).1 in
        let one = evict_stripe-Kept b freed idx (Accounts-Shaped acc) in
        let more =
          evict_loop-Kept b' f' rest
            (evict_stripe-Accounts hash shuffles needed b freed idx inside.0 acc)
            (rw (evict_stripe-SameShape hash shuffles needed b freed idx).count inside.1) in
        if_both (λ (r : BlockManager × ℕ). Kept b r.0)
          (leb (b'.reserved_bytes + needed) b'.max_memory_bytes) one (λ h. one (more h))

    make_room-Kept :
        (b : BlockManager)
        → Accounts 0 b
        → All (λ i. i < b.stripe_count) shuffles.order
        → Kept b (make_room hash shuffles b needed).0
    unfolding make_room
    make_room-Kept b acc inside =
        let v = (evict_loop hash shuffles b needed 0 shuffles.order).0 in
        elim (Bool-cases (reserve b needed).1) [
          | inl room ↦ rw room (λ h. sym (key_entry-reserve b needed) ∙ h)
          | inr full ↦ rw full (
              unfold evict_to_free in
              λ h.
                evict_loop-Kept b 0 shuffles.order acc inside
                  (sym (key_entry-reserve v needed) ∙ h))
        ]

module _ (hash : Str → ℕ) (shuffles : Shuffles) (now : ℕ) (b : BlockManager) (content : Bytes)
    (durability : Durability) (key : Option Str) where
  -- A `store`, whether it returns or raises, and whatever it evicts, leaves a pinned block as it was,
  -- unless the block is the one that the key of the call names. The hypotheses: the accounts are
  -- right, and the shuffles give numbers of stripes and candidates.
  pub block-store_pinned :
      (a : ℕ) (e : Entry)
      → Accounts 0 b
      → All (λ i. i < b.stripe_count) shuffles.order
      → Sound shuffles
      → block b a ≡ some e
      → e.durability ≡ pinned
      → ((k : Str) → key ≡ some k → key_entry hash b k ≢ some a)
      → block (store hash shuffles now b content durability key).0 a ≡ some e
  unfolding store
  block-store_pinned a e acc inside sound there is_pinned other =
      let size = length content in
      let m = (make_room hash shuffles b size).0 in
      let kept = block-make_room hash shuffles sound size a e is_pinned b acc inside there in
      let m-acc = make_room-Accounts hash shuffles b size inside acc in
      let shape = Accounts-Shaped m-acc in
      let entry : Entry = record {
        content = content;
        durability = durability;
        last_access = now;
        key = key;
      } in
      if_both (λ (r : BlockManager × Result BlockError ℕ). block r.0 a ≡ some e)
        (ltb max_block_size size) there
        (if_both (λ (r : BlockManager × Result BlockError ℕ). block r.0 a ≡ some e)
          (make_room hash shuffles b size).1
          (block-rebind hash (add_block (issue m) m.next_id entry)
              (add_block-Shaped m m.next_id entry shape) key m.next_id a
              (λ k is_key named. absurd (
                other k is_key (
                  make_room-Kept hash k a shuffles size b acc inside
                    (sym (key_entry-add_block hash m entry k) ∙ named))))
            ∙ block-add_block m shape entry a
            ∙ rw (issued_before m a e m-acc kept) kept)
          kept)
