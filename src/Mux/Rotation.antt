-- ===== src/Mux/Rotation.antt =====
-- The rotation of memnode/mux.py, and what a new message does to it.
use peer_memory.Prelude.{
  ℕ, ◌+◌, ◌≤◌, ◌<◌, ◌≡◌, refl, sym, ap, inl, inr, Bool, true, false, ◌||◌, Option, none, some, List,
  [], ◌∷◌, ◌++◌, nat_beq, nat_beq_iff, if◌then◌else◌, nat_eq, list_eq, length, arith, Bool-cases,
  Option-cases,
}
use peer_memory.Prelude.Dict.{
  Dict, get, put, remove, Distinct, at_key, get-put, get-remove, put-Distinct, total-put,
  total-remove,
}
use mathlib.Core.Path.{subst}
use peer_memory.Prelude.{length-append}
use peer_memory.Mux.{ChannelMux, depth, enqueue, queue_at}
use peer_memory.Mux.Fifo.{queue_at-put, enqueue-queues}

abbrev pub member : List ℕ → ℕ → Bool
member [] k = false
member (j ∷ js) k = nat_beq j k || member js k

abbrev pub Unique : List ℕ → Type 0
Unique [] = Unit
Unique (j ∷ js) = (member js j ≡ false) × Unique js

pub member-append : (js : List ℕ) (j k : ℕ) → member (js ++ (j ∷ [])) k ≡ member js k || nat_beq j k
member-append [] j k = ground arith
member-append (i ∷ js) j k = ground (arith, member-append js j k)

pub append-Unique :
    (js : List ℕ) (j : ℕ) → Unique js → member js j ≡ false → Unique (js ++ (j ∷ []))
append-Unique [] j u h = (refl, tt)
append-Unique (i ∷ js) j u h = (
  ground (arith, member-append js j i, u.0, nat_beq_iff i j, nat_beq_iff j i),
  append-Unique js j u.1 (ground arith),
)

module _ {A : Type 0} where
  abbrev pub nonempty : List A → Bool
  nonempty [] = false
  nonempty (x ∷ xs) = true

  abbrev pub is_some : Option (List A) → Bool
  is_some none = false
  is_some (some q) = true

  abbrev pub in_hand : Option A → ℕ
  in_hand none = 0
  in_hand (some msg) = 1

  -- The rotation lists each stream with a queue once, no queue is empty, and each of `max_queued` slots is free, or
  -- taken by a queued message or by the one that the writer has in hand.
  pub record Scheduled (max_queued : ℕ) (g : ChannelMux A) : Type 0 where
    pub distinct : Distinct g.queues
    pub unique : Unique g.order
    pub listed : (k : ℕ) → member g.order k ≡ nonempty (queue_at g.queues k)
    pub present : (k : ℕ) → is_some (get g.queues k) ≡ nonempty (queue_at g.queues k)
    pub budget : g.slots + depth g.queues + in_hand g.writing ≡ max_queued
    pub deepest : g.max_queue_depth ≤ max_queued

  pub at_key-queue_at :
      (d : Dict ℕ (List A)) (k : ℕ) → at_key length (get d k) ≡ length (queue_at d k)
  unfolding queue_at
  at_key-queue_at d k = elim (Option-cases (get d k)) [
    | inl gone ↦ rw (gone, queue_at) refl
    | inr (q, e) ↦ rw (e, queue_at) refl
  ]

  pub depth-put :
      (d : Dict ℕ (List A)) (k : ℕ) (q : List A)
      → depth (put d k q) + length (queue_at d k) ≡ depth d + length q
  unfolding depth
  depth-put d k q = rw (← at_key-queue_at d k) (total-put length d k q)

  pub depth-remove :
      (d : Dict ℕ (List A)) (k : ℕ)
      → Distinct d
      → depth (remove d k) + length (queue_at d k) ≡ depth d
  unfolding depth
  depth-remove d k u = rw (← at_key-queue_at d k) (total-remove length d k u)

  pub nonempty-append : (q : List A) (msg : A) → nonempty (q ++ (msg ∷ [])) ≡ true
  nonempty-append [] msg = refl
  nonempty-append (x ∷ q) msg = refl

  -- The rotation after enqueue().
  pub enqueue-order :
      (g : ChannelMux A) (k : ℕ) (msg : A)
      → (enqueue g k msg).order
        ≡ (if is_some (get g.queues k) then g.order else g.order ++ (k ∷ []))
  unfolding enqueue
  enqueue-order g k msg = elim (Option-cases (get g.queues k)) [
    | inl gone ↦ rw (gone, enqueue) refl
    | inr (q, e) ↦ rw (e, enqueue) refl
  ]

  pub is_some-put :
      (d : Dict ℕ (List A)) (k j : ℕ) (q : List A)
      → is_some (get (put d k q) j) ≡ (if nat_beq k j then true else is_some (get d j))
  is_some-put d k j q = ground (arith, get-put d k j q)

  pub is_some-remove :
      (d : Dict ℕ (List A)) (k j : ℕ)
      → is_some (get (remove d k) j) ≡ (if nat_beq k j then false else is_some (get d j))
  is_some-remove d k j = ground (arith, get-remove d k j)

  pub enqueue-Scheduled :
      (n : ℕ) (g : ChannelMux A) (k : ℕ) (msg : A)
      → Scheduled n g
      → 0 < g.slots
      → Scheduled n (enqueue g k msg)
  unfolding enqueue
  enqueue-Scheduled n g k msg s free =
      let q = queue_at g.queues k ++ (msg ∷ []) in
      let e = enqueue-queues g k msg in
      let l : length q ≡ length (queue_at g.queues k) + 1 =
        length-append (queue_at g.queues k) (msg ∷ []) in
      let d : depth (put g.queues k q) ≡ depth g.queues + 1 =
        omega (arith, depth-put g.queues k q, l) in
      let p : (j : ℕ)
          → nonempty (queue_at (put g.queues k q) j)
            ≡ (if nat_beq k j then true else nonempty (queue_at g.queues j)) =
        λ j.
          ground (arith, queue_at-put g.queues k j q, nonempty-append (queue_at g.queues k) msg) in
      record {
        distinct = subst Distinct (sym e) (put-Distinct g.queues k q s.distinct);
        unique =
            subst Unique (sym (enqueue-order g k msg))
              (elim (Bool-cases (is_some (get g.queues k))) [
                | inl there ↦ rw there s.unique
                | inr absent ↦
                    rw absent
                      (append-Unique g.order k s.unique (ground (arith, s.listed k, s.present k)))
              ]);
        listed = λ j. ground (
          arith,
          enqueue-order g k msg,
          e,
          p j,
          s.listed j,
          s.listed k,
          s.present k,
          member-append g.order k j,
          nat_beq_iff k j,
        );
        present = λ j. ground (arith, e, p j, is_some-put g.queues k j q, s.present j);
        budget = omega (arith, ap depth e, d, s.budget);
        deepest = omega (arith, ap depth e, d, s.budget, s.deepest);
      }
