-- ===== src/Mux/Invariant.antt =====
-- The queues, the rotation and the slots of memnode/mux.py under every event.
use peer_memory.Prelude.{
  ℕ, ◌+◌, ◌≡◌, refl, ap, inl, inr, Bool, true, false, ◌||◌, Option, none, some, List, [], ◌∷◌,
  nat_beq, nat_beq_iff, nat_eq, list_eq, length, arith, Bool-cases,
}
use peer_memory.Prelude.Dict.{get, put-Distinct, remove-Distinct}
use mathlib.Core.Path.{subst}
use peer_memory.Prelude.{if_both}
use peer_memory.Mux.{
  ChannelMux, SendOutcome, init, depth, resume, send, serve, queue_at, take_next, is_writing, write,
  finish, WriteOutcome, done, failed, cancelled, receive, close, Event, send_event, resume_event,
  write_event, receive_event, close_event, finish_event, step, run,
}
use peer_memory.Mux.Fifo.{queue_at-put, queue_at-remove}
use peer_memory.Mux.Rotation.{
  member, Unique, member-append, append-Unique, nonempty, in_hand, Scheduled, depth-put,
  depth-remove, is_some-put, is_some-remove, enqueue-Scheduled,
}

module _ {A : Type 0} where
  -- Nothing is written: the same queues and rotation.
  reslot-Scheduled :
      (n m r c : ℕ) (b : Bool) (w : Option A) (g : ChannelMux A)
      → Scheduled n g
      → m + in_hand w ≡ g.slots + in_hand g.writing
      → Scheduled n (record g {
        slots = m;
        writing = w;
        is_closed = b;
        messages_sent = r;
        messages_received = c;
      })
  reslot-Scheduled n m r c b w g s h = record {
    distinct = s.distinct;
    unique = s.unique;
    listed = s.listed;
    present = s.present;
    budget = omega (arith, s.budget);
    deepest = s.deepest;
  }

  resume-Scheduled :
      (n : ℕ) (g : ChannelMux A) (k : ℕ) (msg : A) → Scheduled n g → Scheduled n (resume g k msg).0
  unfolding resume
  resume-Scheduled n g k msg s = elim (Bool-cases (nat_beq g.slots 0)) [
    | inl full ↦ simp full s
    | inr free ↦ simp free (enqueue-Scheduled n g k msg s (ground arith))
  ]

  send-Scheduled :
      (n : ℕ) (g : ChannelMux A) (own : ℕ) (msg : A) (stream : Option ℕ)
      → Scheduled n g
      → Scheduled n (send g own msg stream).0
  unfolding send
  send-Scheduled n g own msg none s =
      if_both (λ (r : ChannelMux A × SendOutcome). Scheduled n r.0) g.is_closed s
        (resume-Scheduled n g own msg s)
  send-Scheduled n g own msg (some stream) s =
      if_both (λ (r : ChannelMux A × SendOutcome). Scheduled n r.0) g.is_closed s
        (resume-Scheduled n g stream msg s)

  serve-Scheduled :
      (n : ℕ) (g : ChannelMux A) (k : ℕ) (order : List ℕ) (q : List A)
      → Scheduled n g
      → in_hand g.writing ≡ 0
      → g.order ≡ k ∷ order
      → queue_at g.queues k ≡ q
      → Scheduled n (record g {
        queues = (serve g.queues order k q).0.0;
        order = (serve g.queues order k q).0.1;
        writing = elim (serve g.queues order k q).1 as (λ _. Option A) [
          | none ↦ none
          | some (_, msg) ↦ some msg
        ];
      })
  unfolding serve
  serve-Scheduled n g k order [] s w e h =
      let f : ⊥ =
        ground (arith, s.listed k, ap (λ o. member o k) e, ap nonempty h, nat_beq_iff k k) in
      absurd f
  serve-Scheduled n g k order (msg ∷ []) s w e h =
      let u : Unique (k ∷ order) = subst Unique e s.unique in
      let listed : (j : ℕ) → member (k ∷ order) j ≡ nonempty (queue_at g.queues j) =
        λ j. subst (λ o. member o j ≡ nonempty (queue_at g.queues j)) e (s.listed j) in
      record {
        distinct = remove-Distinct g.queues k s.distinct;
        unique = u.1;
        listed = λ j. ground (arith, listed j, queue_at-remove g.queues k j, u.0, nat_beq_iff k j);
        present = λ j.
            ground (arith, is_some-remove g.queues k j, s.present j, queue_at-remove g.queues k j);
        budget = omega (arith, depth-remove g.queues k s.distinct, ap length h, w, s.budget);
        deepest = s.deepest;
      }
  serve-Scheduled n g k order (msg ∷ next ∷ more) s w e h =
      let u : Unique (k ∷ order) = subst Unique e s.unique in
      let listed : (j : ℕ) → member (k ∷ order) j ≡ nonempty (queue_at g.queues j) =
        λ j. subst (λ o. member o j ≡ nonempty (queue_at g.queues j)) e (s.listed j) in
      record {
        distinct = put-Distinct g.queues k (next ∷ more) s.distinct;
        unique = append-Unique order k u.1 u.0;
        listed = λ j. ground (
          arith,
          listed j,
          queue_at-put g.queues k j (next ∷ more),
          member-append order k j,
          u.0,
          nat_beq_iff k j,
        );
        present = λ j. ground (
          arith,
          is_some-put g.queues k j (next ∷ more),
          s.present j,
          queue_at-put g.queues k j (next ∷ more),
        );
        budget = omega (arith, depth-put g.queues k (next ∷ more), ap length h, w, s.budget);
        deepest = s.deepest;
      }

  take_next-Scheduled :
      (n : ℕ) (g : ChannelMux A) (order : List ℕ)
      → Scheduled n g
      → in_hand g.writing ≡ 0
      → g.order ≡ order
      → Scheduled n (take_next g).0
  unfolding take_next
  take_next-Scheduled n g [] s w e = rw (e, take_next) s
  take_next-Scheduled n g (k ∷ order) s w e =
      rw (e, take_next) (serve-Scheduled n g k order (queue_at g.queues k) s w e refl)

  hand_free :
      (w : Option A)
      → elim w as (λ _. Bool) [ none ↦ false | some _ ↦ true ] ≡ false
      → in_hand w ≡ 0
  hand_free none h = refl
  hand_free (some msg) h = ground (arith, h)

  write-Scheduled : (n : ℕ) (g : ChannelMux A) → Scheduled n g → Scheduled n (write g).0
  unfolding write is_writing
  write-Scheduled n g s = elim (Bool-cases (is_writing g || g.is_closed)) [
    | inl busy ↦ simp busy s
    | inr free ↦ simp free (
        take_next-Scheduled n g g.order s
          (let f : is_writing g ≡ false = ground arith in hand_free g.writing f) refl)
  ]

  finish-Scheduled :
      (n : ℕ) (g : ChannelMux A) (outcome : WriteOutcome)
      → Scheduled n g
      → in_hand g.writing ≡ 1
      → Scheduled n (finish g outcome)
  unfolding finish
  finish-Scheduled n g done s w =
      reslot-Scheduled n (g.slots + 1) (g.messages_sent + 1) g.messages_received g.is_closed none g
        s (omega (arith, w))
  finish-Scheduled n g failed s w =
      reslot-Scheduled n (g.slots + 1) g.messages_sent g.messages_received true none g s
        (omega (arith, w))
  finish-Scheduled n g cancelled s w =
      reslot-Scheduled n (g.slots + 1) g.messages_sent g.messages_received true none g s
        (omega (arith, w))

  hand_full :
      (w : Option A) → elim w as (λ _. Bool) [ none ↦ false | some _ ↦ true ] ≡ true → in_hand w ≡ 1
  hand_full none h = ground (arith, h)
  hand_full (some msg) h = refl

  pub step-Scheduled :
      (n : ℕ) (g : ChannelMux A) (event : Event A) → Scheduled n g → Scheduled n (step g event)
  unfolding step receive close is_writing
  step-Scheduled n g (send_event own msg stream) s = send-Scheduled n g own msg stream s
  step-Scheduled n g (resume_event stream msg) s = resume-Scheduled n g stream msg s
  step-Scheduled n g write_event s = write-Scheduled n g s
  step-Scheduled n g receive_event s =
      reslot-Scheduled n g.slots g.messages_sent (g.messages_received + 1) g.is_closed g.writing g s
        refl
  step-Scheduled n g close_event s =
      reslot-Scheduled n g.slots g.messages_sent g.messages_received true g.writing g s refl
  step-Scheduled n g (finish_event outcome) s = elim (Bool-cases (is_writing g)) [
    | inl busy ↦ simp busy (finish-Scheduled n g outcome s (hand_full g.writing busy))
    | inr free ↦ simp free s
  ]

  pub run_from :
      (n : ℕ) (g : ChannelMux A) (events : List (Event A))
      → Scheduled n g
      → Scheduled n (run g events)
  unfolding run
  run_from n g [] s = s
  run_from n g (event ∷ events) s = run_from n (step g event) events (step-Scheduled n g event s)

  pub init-Scheduled : (n : ℕ) → Scheduled n (init {A = A} n)
  unfolding init queue_at get depth
  init-Scheduled n = record {
    distinct = tt;
    unique = tt;
    listed = λ k. refl;
    present = λ k. refl;
    budget = omega arith;
    deepest = omega arith;
  }

-- Whatever happens on the event loop, in any order: the rotation lists each stream with a queue once and no other stream, no
-- queue is empty, and each slot is free or taken by one message, queued or in the writer's hands. So at most `max_queued`
-- messages are ever queued.
pub run-Scheduled :
    {A : Type 0} (max_queued : ℕ) (events : List (Event A))
    → Scheduled max_queued (run (init max_queued) events)
run-Scheduled max_queued events =
    run_from max_queued (init max_queued) events (init-Scheduled max_queued)
