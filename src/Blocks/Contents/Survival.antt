-- ===== src/Blocks/Contents/Survival.antt =====
-- What an eviction and a store of memnode/blocks.py leave in place: every pinned block.
use peer_memory.Prelude.{
  ℕ, ◌+◌, ◌%◌, ◌<◌, ◌≡◌, refl, ◌∙◌, inl, inr, Bool, true, false, ◌||◌, none, some, List, [], ◌∷◌,
  ltb, leb, nat_beq, nat_beq_iff, if◌then◌else◌, nat_eq, list_eq, ◌==◌, All, get_or, arith,
  Bool-cases, Option-cases,
}
use peer_memory.Prelude.Dict.{Dict, get, Distinct, get-remove}
use peer_memory.Prelude.Text.{Str}
use peer_memory.Blocks.State.{
  pinned, Entry, BlockManager, empty_stripe, stripe_at, set_stripe, stripe_of, block, drop_key,
  reserve, release,
}
use peer_memory.Blocks.Evict.{
  Shuffles, Victim, is_cache, cache_ids, Sweep, take_victim, sweep, release_victims, enough_freed,
  evict_stripe, evict_loop, evict_to_free,
}
use peer_memory.Prelude.{if_both}
use peer_memory.Blocks.Store.{make_room}
use peer_memory.Blocks.Accounts.{Accounts}
use peer_memory.Blocks.Accounts.Eviction.{evict_stripe-Accounts, evict_stripe-SameShape}
use peer_memory.Blocks.Contents.{Accounts-Shaped, block-set_stripe, block-drop_key, block-release}

abbrev pub member : List ℕ → ℕ → Bool
member [] a = false
member (x ∷ xs) a = a == x || member xs a

-- A shuffle of the candidates brings no id of its own.
abbrev pub Sound : Shuffles → Type 0
Sound shuffles =
    (idx : ℕ) (ids : List ℕ) (a : ℕ)
    → member (shuffles.candidates idx ids) a ≡ true
    → member ids a ≡ true

cache_ids_absent : (d : Dict ℕ Entry) (a : ℕ) → get d a ≡ none → member (cache_ids d) a ≡ false
unfolding cache_ids get
cache_ids_absent [] a h = refl
cache_ids_absent ((i, w) ∷ d) a h =
    ground (arith, nat_beq_iff a i, nat_beq_iff i a, cache_ids_absent d a)

-- The candidates of a stripe hold no pinned block.
cache_ids_pinned :
    (d : Dict ℕ Entry) (a : ℕ) (e : Entry)
    → Distinct d
    → get d a ≡ some e
    → e.durability ≡ pinned
    → member (cache_ids d) a ≡ false
unfolding cache_ids get is_cache
cache_ids_pinned [] a e u h p = refl
cache_ids_pinned ((i, w) ∷ d) a e u h p =
    ground
      (arith, nat_beq_iff a i, nat_beq_iff i a, cache_ids_absent d a, cache_ids_pinned d a e u.1)

-- A sweep over ids that are not `a` leaves the block `a`.
get-sweep :
    (enough : ℕ → Bool) (candidates : List ℕ) (s : Sweep) (a : ℕ)
    → member candidates a ≡ false
    → get (sweep enough candidates s).stripe.blocks a ≡ get s.stripe.blocks a
unfolding sweep
get-sweep enough [] s a h = refl
get-sweep enough (bid ∷ rest) s a h = elim (Option-cases (get s.stripe.blocks bid)) [
  | inl gone ↦ rw (gone, sweep) (get-sweep enough rest s a (ground arith))
  | inr (e, there) ↦
      rw (there, sweep)
        (let s' = take_victim s bid e in
          let one : get s'.stripe.blocks a ≡ get s.stripe.blocks a =
            unfold take_victim in
            rw get-remove (ground (arith, nat_beq_iff a bid, nat_beq_iff bid a)) in
          if_both (λ (r : Sweep). get r.stripe.blocks a ≡ get s.stripe.blocks a) (enough s'.freed)
            one (get-sweep enough rest s' a (ground arith) ∙ one))
]

module _ (hash : Str → ℕ) where
  block-release_victims :
      (b : BlockManager) (vs : List Victim) (a : ℕ)
      → block (release_victims hash b vs) a ≡ block b a
  unfolding release_victims
  block-release_victims b [] a = refl
  block-release_victims b ((bid, size, key) ∷ rest) a =
      block-release_victims (drop_key hash (release b size) key bid) rest a
      ∙ block-drop_key hash (release b size) key bid a
      ∙ block-release b size a

  block-reserve : (b : BlockManager) (size a : ℕ) → block (reserve b size).0 a ≡ block b a
  unfolding reserve block stripe_at stripe_of
  block-reserve b size a =
      if_both
        (λ (r : BlockManager × Bool).
          get (get_or r.0.stripes (a % r.0.stripe_count) empty_stripe).blocks a
          ≡ get (get_or b.stripes (a % b.stripe_count) empty_stripe).blocks a)
        (ltb b.max_memory_bytes (b.reserved_bytes + size)) refl refl

  module _ (shuffles : Shuffles) (sound : Sound shuffles) (needed : ℕ) (a : ℕ) (e : Entry)
      (is_pinned : e.durability ≡ pinned) where
    not-candidate :
        (d : Dict ℕ Entry) (idx : ℕ)
        → Distinct d
        → get d a ≡ some e
        → member (shuffles.candidates idx (cache_ids d)) a ≡ false
    not-candidate d idx u h = elim (Bool-cases (member (shuffles.candidates idx (cache_ids d)) a)) [
      | inl chosen ↦ cc (cache_ids_pinned d a e u h is_pinned, sound idx (cache_ids d) a chosen)
      | inr fine ↦ fine
    ]

    swept_or_same :
        (b : BlockManager) (freed idx : ℕ)
        → Accounts 0 b
        → block b a ≡ some e
        → (if nat_beq idx (stripe_of b a)
            then get
                (sweep
                  (enough_freed b needed)
                  (shuffles.candidates idx (cache_ids (stripe_at b idx).blocks))
                  (record { stripe = stripe_at b idx; freed = freed; victims = [] })).stripe.blocks
                a
            else block b a)
          ≡ some e
    swept_or_same b freed idx acc h = elim (Bool-cases (nat_beq idx (stripe_of b a))) [
      | inl here ↦
          let h' : get (stripe_at b idx).blocks a ≡ some e =
            rw ((nat_beq_iff _ _).0 here) (unfold block in h) in
          rw here (
            get-sweep _ _ _ a
              (not-candidate (stripe_at b idx).blocks idx (acc.stripe idx).distinct h')
            ∙ h')
      | inr there ↦ rw there h
    ]

    block-evict_stripe :
        (b : BlockManager) (freed idx : ℕ)
        → Accounts 0 b
        → idx < b.stripe_count
        → block b a ≡ some e
        → block (evict_stripe hash shuffles b needed freed idx).0 a ≡ some e
    unfolding evict_stripe
    block-evict_stripe b freed idx acc small h =
        let s =
          sweep (enough_freed b needed)
            (shuffles.candidates idx (cache_ids (stripe_at b idx).blocks))
            (record { stripe = stripe_at b idx; freed = freed; victims = [] }) in
        block-release_victims (set_stripe b idx s.stripe) s.victims a
        ∙ block-set_stripe b (Accounts-Shaped acc) idx s.stripe a small
        ∙ swept_or_same b freed idx acc h

    block-evict_loop :
        (b : BlockManager) (freed : ℕ) (order : List ℕ)
        → Accounts 0 b
        → All (λ i. i < b.stripe_count) order
        → block b a ≡ some e
        → block (evict_loop hash shuffles b needed freed order).0 a ≡ some e
    unfolding evict_loop
    block-evict_loop b freed [] acc inside h = h
    block-evict_loop b freed (idx ∷ rest) acc inside h =
        let b' = (evict_stripe hash shuffles b needed freed idx).0 in
        let f' = (evict_stripe hash shuffles b needed freed idx).1 in
        let h' = block-evict_stripe b freed idx acc inside.0 h in
        if_both (λ (r : BlockManager × ℕ). block r.0 a ≡ some e)
          (leb (b'.reserved_bytes + needed) b'.max_memory_bytes) h'
          (block-evict_loop b' f' rest
            (evict_stripe-Accounts hash shuffles needed b freed idx inside.0 acc)
            (rw (evict_stripe-SameShape hash shuffles needed b freed idx).count inside.1) h')

    pub block-make_room :
        (b : BlockManager)
        → Accounts 0 b
        → All (λ i. i < b.stripe_count) shuffles.order
        → block b a ≡ some e
        → block (make_room hash shuffles b needed).0 a ≡ some e
    unfolding make_room
    block-make_room b acc inside h =
        let r = block-reserve b needed a in
        let h' = block-evict_loop b 0 shuffles.order acc inside h in
        let v = (evict_loop hash shuffles b needed 0 shuffles.order).0 in
        elim (Bool-cases (reserve b needed).1) [
          | inl room ↦ rw room (r ∙ h)
          | inr full ↦ rw full (unfold evict_to_free in block-reserve v needed a ∙ h')
        ]
