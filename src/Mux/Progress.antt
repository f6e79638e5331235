-- ===== src/Mux/Progress.antt =====
-- The writer of memnode/mux.py left to itself.
use peer_memory.Prelude.{
  ℕ, zero, suc, ◌+◌, ◌≤◌, ◌≡◌, refl, sym, ap, ◌∙◌, true, false, Option, some, List, [], ◌∷◌,
  nat_beq_iff, nat_eq, list_eq, length, arith,
}
use mathlib.Core.Path.{subst}
use peer_memory.Prelude.{length-append}
use peer_memory.Prelude.{get_elem?}
use peer_memory.Mux.{
  ChannelMux, serve, queue_at, is_writing, finish, done, Event, write_event, finish_event, step,
  written_by, written,
}
use peer_memory.Mux.Rotation.{Scheduled, member, nonempty}
use peer_memory.Mux.Invariant.{step-Scheduled}
use peer_memory.Mux.Fairness.{Waiting, served, taken_list, free_write, written_by-write, in_turn}

module _ {A : Type 0} where
  -- The writer looks and its write succeeds, `k` times.
  unfoldable pub rounds : ℕ → List (Event A)
  rounds zero = []
  rounds (suc k) = write_event ∷ finish_event done ∷ rounds k

  -- The writer is free and the connection is open.
  pub record Ready (g : ChannelMux A) : Type 0 where
    pub idle : is_writing g ≡ false
    pub live : g.is_closed ≡ false

  -- After one successful turn for a stream that has messages.
  after_turn :
      (g : ChannelMux A) (p : ℕ) (order : List ℕ) (q : List A) (h : ChannelMux A)
      → g.is_closed ≡ false
      → nonempty q ≡ true
      → h ≡ (served g p order q).0
      → Ready (step h (finish_event done))
        × (length order ≤ length (step h (finish_event done)).order)
  unfolding step serve finish is_writing
  after_turn g p order [] h o n e = absurd (let f : ⊥ = ground (arith, n) in f)
  after_turn g p order (m ∷ []) h o n e =
      subst
        (λ (k : ChannelMux A).
          Ready (step k (finish_event done))
          × (length order ≤ length (step k (finish_event done)).order))
        (sym e) (record { idle = refl; live = o }, omega arith)
  after_turn g p order (m ∷ next ∷ more) h o n e =
      subst
        (λ (k : ChannelMux A).
          Ready (step k (finish_event done))
          × (length order ≤ length (step k (finish_event done)).order))
        (sym e) (record { idle = refl; live = o }, omega (arith, length-append order (p ∷ [])))

  one_taken :
      (g : ChannelMux A) (p : ℕ) (order : List ℕ) (q : List A)
      → nonempty q ≡ true
      → length (taken_list (served g p order q).1) ≡ 1
  unfolding serve
  one_taken g p order [] n = absurd (let f : ⊥ = ground (arith, n) in f)
  one_taken g p order (m ∷ []) n = refl
  one_taken g p order (m ∷ next ∷ more) n = refl

  length-written-rounds :
      (n k : ℕ) (g : ChannelMux A) (order : List ℕ)
      → Scheduled n g
      → Ready g
      → g.order ≡ order
      → k ≤ length order
      → length (written g (rounds k)) ≡ k
  unfolding written rounds written_by step
  length-written-rounds n zero g order s r e h = refl
  length-written-rounds n (suc k) g [] s r e h = absurd (let f : ⊥ = omega (arith, h) in f)
  length-written-rounds n (suc k) g (p ∷ order) s r e h =
      let full : nonempty (queue_at g.queues p) ≡ true =
        ground (arith, s.listed p, ap (λ o. member o p) e, nat_beq_iff p p) in
      let f = free_write g p order (rw (r.idle, r.live) refl) e in
      let w =
        ap length
          (written_by-write g ∙ ap (λ (x : ChannelMux A × Option (ℕ × A)). taken_list x.1) f)
        ∙ one_taken g p order (queue_at g.queues p) full in
      let (ready, room) =
        after_turn g p order (queue_at g.queues p) (step g write_event) r.live full
          (ap (λ (x : ChannelMux A × Option (ℕ × A)). x.0) f) in
      let t = step (step g write_event) (finish_event done) in
      let rest =
        length-written-rounds n k t t.order
          (step-Scheduled n (step g write_event) (finish_event done)
            (step-Scheduled n g write_event s))
          ready refl (omega (arith, room)) in
      length-append (written_by g write_event) (written t (rounds k)) ∙ omega (arith, w, rest)

  -- A stream behind `pre` in the rotation of an open connection whose writer is free: after `length pre + 1` successful
  -- writes of the writer its first message has been written, as the last of them.
  pub rounds-in_turn :
      (n : ℕ) (g : ChannelMux A) (pre : List ℕ) (stream : ℕ) (msg : A)
      → Scheduled n g
      → Ready g
      → Waiting g pre stream msg
      → (length (written g (rounds (length pre + 1))) ≡ length pre + 1)
        × (get_elem? (written g (rounds (length pre + 1))) (length pre) ≡ some (stream, msg))
  rounds-in_turn n g pre stream msg s r w =
      let l =
        length-written-rounds n (length pre + 1) g g.order s r refl
          (omega (arith, ap length w.place, length-append pre (stream ∷ w.post))) in
      (l, in_turn n g (rounds (length pre + 1)) pre stream msg s w (omega (arith, l)))
