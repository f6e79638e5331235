-- ===== src/Mux/Losses.antt =====
-- How many messages the writer of memnode/mux.py takes for channel.send_msg and does not send.
use peer_memory.Prelude.{
  ℕ, ◌+◌, ◌≤◌, ◌≡◌, refl, inl, inr, true, false, ◌||◌, Option, none, some, List, [], ◌∷◌,
  if◌then◌else◌, nat_beq, nat_eq, list_eq, length, sym, arith, Bool-cases,
}
use mathlib.Core.Path.{subst}
use peer_memory.Prelude.{length-append, if_both}
use peer_memory.Mux.Fairness.{served, taken_list, free_write, busy_write, written_by-write}
use peer_memory.Mux.{
  ChannelMux, SendOutcome, enqueue, resume, send, serve, queue_at, take_next, is_writing, write,
  finish, WriteOutcome, done, failed, cancelled, receive, close, Event, send_event, resume_event,
  write_event, receive_event, close_event, finish_event, step, run, written_by, written,
}

module _ {A : Type 0} where
  -- The message that is taken and not counted as sent: the one in hand, or at most one once the connection is closed.
  abbrev unsent : ChannelMux A → ℕ
  unsent g = if is_writing g || g.is_closed then 1 else 0

  -- An event takes no more messages than it adds to those sent or unsent.
  abbrev Counted : ChannelMux A → ℕ → ChannelMux A → Type 0
  Counted g taken h = taken + g.messages_sent + unsent g ≤ h.messages_sent + unsent h

  enqueue-Counted : (g : ChannelMux A) (k : ℕ) (msg : A) → Counted g 0 (enqueue g k msg)
  unfolding enqueue is_writing
  enqueue-Counted g k msg = omega arith

  resume-Counted : (g : ChannelMux A) (k : ℕ) (msg : A) → Counted g 0 (resume g k msg).0
  unfolding resume
  resume-Counted g k msg =
      if_both (λ (r : ChannelMux A × SendOutcome). Counted g 0 r.0) (nat_beq g.slots 0)
        (omega arith) (enqueue-Counted g k msg)

  send-Counted :
      (g : ChannelMux A) (own : ℕ) (msg : A) (stream : Option ℕ)
      → Counted g 0 (send g own msg stream).0
  unfolding send
  send-Counted g own msg none =
      if_both (λ (r : ChannelMux A × SendOutcome). Counted g 0 r.0) g.is_closed (omega arith)
        (resume-Counted g own msg)
  send-Counted g own msg (some stream) =
      if_both (λ (r : ChannelMux A × SendOutcome). Counted g 0 r.0) g.is_closed (omega arith)
        (resume-Counted g stream msg)

  -- A look that finds the writer free takes at most one message, which is then in hand.
  served-Counted :
      (g : ChannelMux A) (p : ℕ) (order : List ℕ) (q : List A)
      → is_writing g || g.is_closed ≡ false
      → Counted g (length (taken_list (served g p order q).1)) (served g p order q).0
  unfolding serve is_writing
  served-Counted g p order [] free = ground (arith, free)
  served-Counted g p order (m ∷ []) free = ground (arith, free)
  served-Counted g p order (m ∷ next ∷ more) free = ground (arith, free)

  free-Counted :
      (g : ChannelMux A) (order : List ℕ)
      → is_writing g || g.is_closed ≡ false
      → g.order ≡ order
      → Counted g (length (taken_list (write g).1)) (write g).0
  unfolding write take_next
  free-Counted g [] free e = rw (free, e) (omega arith)
  free-Counted g (p ∷ order) free e =
      subst (λ (r : ChannelMux A × Option (ℕ × A)). Counted g (length (taken_list r.1)) r.0)
        (sym (free_write g p order free e)) (served-Counted g p order (queue_at g.queues p) free)

  write-Counted :
      (g : ChannelMux A) → Counted g (length (written_by g write_event)) (step g write_event)
  unfolding step
  write-Counted g =
      subst (λ l. Counted g (length l) (write g).0) (sym (written_by-write g))
        (elim (Bool-cases (is_writing g || g.is_closed)) [
          | inl busy ↦
              subst (λ (r : ChannelMux A × Option (ℕ × A)). Counted g (length (taken_list r.1)) r.0)
                (sym (busy_write g busy)) (omega arith)
          | inr free ↦ free-Counted g g.order free refl
        ])

  finish-Counted :
      (g : ChannelMux A) (outcome : WriteOutcome)
      → is_writing g ≡ true
      → Counted g 0 (finish g outcome)
  unfolding finish is_writing
  finish-Counted g done busy = simp busy (omega arith)
  finish-Counted g failed busy = simp busy (omega arith)
  finish-Counted g cancelled busy = simp busy (omega arith)

  step-Counted :
      (g : ChannelMux A) (event : Event A) → Counted g (length (written_by g event)) (step g event)
  unfolding step written_by receive close is_writing
  step-Counted g (send_event own msg k) = send-Counted g own msg k
  step-Counted g (resume_event k msg) = resume-Counted g k msg
  step-Counted g write_event = write-Counted g
  step-Counted g receive_event = omega arith
  step-Counted g close_event = elim (Bool-cases (is_writing g)) [
    | inl busy ↦ simp busy (omega arith)
    | inr idle ↦ simp idle (
        if_both (λ n. 0 + g.messages_sent + n ≤ g.messages_sent + 1) g.is_closed (omega arith)
          (omega arith))
  ]
  step-Counted g (finish_event outcome) = elim (Bool-cases (is_writing g)) [
    | inl busy ↦
        subst (λ b. Counted g 0 (if b then finish g outcome else g)) (sym busy)
          (finish-Counted g outcome busy)
    | inr idle ↦
        subst (λ b. Counted g 0 (if b then finish g outcome else g)) (sym idle) (omega arith)
  ]

  run-Counted :
      (g : ChannelMux A) (events : List (Event A))
      → Counted g (length (written g events)) (run g events)
  unfolding written run
  run-Counted g [] = omega arith
  run-Counted g (event ∷ events) = omega (
    arith,
    length-append (written_by g event) (written (step g event) events),
    step-Counted g event,
    run-Counted (step g event) events,
  )

  unsent_le : (g : ChannelMux A) → unsent g ≤ 1
  unsent_le g = if_both (λ n. n ≤ 1) (is_writing g || g.is_closed) (omega arith) (omega arith)

  -- Whatever the events, of all the messages that are taken from the queues for channel.send_msg at most one is not counted as
  -- sent: no second one is taken while one is being written or after a write that failed or was cancelled.
  pub run-sent :
      (g : ChannelMux A) (events : List (Event A))
      → length (written g events) + g.messages_sent ≤ (run g events).messages_sent + 1
  run-sent g events = omega (arith, run-Counted g events, unsent_le (run g events))
