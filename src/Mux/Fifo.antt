-- ===== src/Mux/Fifo.antt =====
-- The order of the messages of one stream in memnode/mux.py.
use peer_memory.Prelude.{
  ℕ, ◌≡◌, refl, sym, ap, ◌∙◌, inl, inr, ◌||◌, Option, none, some, List, [], ◌∷◌, ◌++◌, nat_beq,
  nat_beq_iff, if◌then◌else◌, nat_eq, list_eq, arith, Bool-cases, Option-cases,
}
use peer_memory.Prelude.Dict.{Dict, get, put, remove, get-put, get-remove}
use peer_memory.Prelude.{append-nil, append_assoc}
use peer_memory.Mux.{
  ChannelMux, enqueue, resume, send, serve, queue_at, take_next, is_writing, write, finish,
  WriteOutcome, done, failed, cancelled, receive, close, Event, send_event, resume_event,
  write_event, receive_event, close_event, finish_event, step, run, written_by, written, accepted,
  sent_by, sent,
}

-- The stream that a call of send() names.
abbrev stream_named : ℕ → Option ℕ → ℕ
stream_named own none = own
stream_named own (some stream) = stream

module _ {A : Type 0} where
  -- The messages of one stream.
  abbrev pub of_stream : ℕ → List (ℕ × A) → List A
  of_stream stream [] = []
  of_stream stream ((k, msg) ∷ ms) =
      let rest = of_stream stream ms in if nat_beq k stream then msg ∷ rest else rest

  of_stream-append :
      (stream : ℕ) (xs ys : List (ℕ × A))
      → of_stream stream (xs ++ ys) ≡ of_stream stream xs ++ of_stream stream ys
  of_stream-append stream [] ys = refl
  of_stream-append stream ((k, msg) ∷ xs) ys = ground (arith, of_stream-append stream xs ys)

  pub queue_at-put :
      (d : Dict ℕ (List A)) (k j : ℕ) (q : List A)
      → queue_at (put d k q) j ≡ (if nat_beq k j then q else queue_at d j)
  unfolding queue_at
  queue_at-put d k j q = ground (arith, get-put d k j q)

  pub queue_at-remove :
      (d : Dict ℕ (List A)) (k j : ℕ)
      → queue_at (remove d k) j ≡ (if nat_beq k j then [] else queue_at d j)
  unfolding queue_at
  queue_at-remove d k j = ground (arith, get-remove d k j)

  pub enqueue-queues :
      (g : ChannelMux A) (k : ℕ) (msg : A)
      → (enqueue g k msg).queues ≡ put g.queues k (queue_at g.queues k ++ (msg ∷ []))
  unfolding enqueue queue_at
  enqueue-queues g k msg = elim (Option-cases (get g.queues k)) [
    | inl new ↦ rw (new, queue_at) refl
    | inr (q, e) ↦ rw (e, queue_at) refl
  ]

  pub queue_at-enqueue :
      (g : ChannelMux A) (k j : ℕ) (msg : A)
      → queue_at (enqueue g k msg).queues j ≡ queue_at g.queues j ++ of_stream j ((k, msg) ∷ [])
  queue_at-enqueue g k j msg =
      ap (λ d. queue_at d j) (enqueue-queues g k msg)
      ∙ queue_at-put g.queues k j (queue_at g.queues k ++ (msg ∷ []))
      ∙ elim (Bool-cases (nat_beq k j)) [
        | inl here ↦ rw (here, (nat_beq_iff k j).0 here) refl
        | inr there ↦ rw there (sym (append-nil (queue_at g.queues j)))
      ]

  serve-fifo :
      (d : Dict ℕ (List A)) (order : List ℕ) (k j : ℕ) (q : List A)
      → queue_at d k ≡ q
      → queue_at d j
        ≡ of_stream j (elim (serve d order k q).1 as (λ _. List (ℕ × A)) [
          | none ↦ []
          | some taken ↦ taken ∷ []
        ])
          ++ queue_at (serve d order k q).0.0 j
  unfolding serve
  serve-fifo d order k j [] e = ground (arith, nat_beq_iff k j, queue_at-remove d k j)
  serve-fifo d order k j (msg ∷ []) e = ground (arith, nat_beq_iff k j, queue_at-remove d k j)
  serve-fifo d order k j (msg ∷ next ∷ more) e =
      ground (arith, nat_beq_iff k j, queue_at-put d k j (next ∷ more))

  resume-fifo :
      (g : ChannelMux A) (k j : ℕ) (msg : A)
      → queue_at g.queues j ++ of_stream j (accepted (resume g k msg).1 k msg)
        ≡ queue_at (resume g k msg).0.queues j
  unfolding resume accepted
  resume-fifo g k j msg = elim (Bool-cases (nat_beq g.slots 0)) [
    | inl full ↦ rw full (append-nil (queue_at g.queues j))
    | inr free ↦ rw free (sym (queue_at-enqueue g k j msg))
  ]

  send-fifo :
      (g : ChannelMux A) (own j : ℕ) (msg : A) (stream : Option ℕ)
      → queue_at g.queues j
          ++ of_stream j (accepted (send g own msg stream).1 (stream_named own stream) msg)
        ≡ queue_at (send g own msg stream).0.queues j
  unfolding send accepted
  send-fifo g own j msg none = elim (Bool-cases g.is_closed) [
    | inl shut ↦ simp shut (append-nil (queue_at g.queues j))
    | inr free ↦ simp free (resume-fifo g own j msg)
  ]
  send-fifo g own j msg (some stream) = elim (Bool-cases g.is_closed) [
    | inl shut ↦ simp shut (append-nil (queue_at g.queues j))
    | inr free ↦ simp free (resume-fifo g stream j msg)
  ]

  take_next-fifo :
      (g : ChannelMux A) (order : List ℕ) (j : ℕ)
      → g.order ≡ order
      → queue_at g.queues j
        ≡ of_stream j
            (elim (take_next g).1 as (λ _. List (ℕ × A)) [ none ↦ [] | some taken ↦ taken ∷ [] ])
          ++ queue_at (take_next g).0.queues j
  unfolding take_next
  take_next-fifo g [] j e = rw (e, take_next) refl
  take_next-fifo g (k ∷ order) j e =
      rw (e, take_next) (serve-fifo g.queues order k j (queue_at g.queues k) refl)

  write-fifo :
      (g : ChannelMux A) (j : ℕ)
      → queue_at g.queues j
        ≡ of_stream j
            (elim (write g).1 as (λ _. List (ℕ × A)) [ none ↦ [] | some taken ↦ taken ∷ [] ])
          ++ queue_at (write g).0.queues j
  unfolding write
  write-fifo g j = elim (Bool-cases (is_writing g || g.is_closed)) [
    | inl busy ↦ rw busy refl
    | inr free ↦ rw free (take_next-fifo g g.order j refl)
  ]

  finish-queues :
      (g : ChannelMux A) (outcome : WriteOutcome)
      → (if is_writing g then finish g outcome else g).queues ≡ g.queues
  unfolding finish
  finish-queues g done = ground arith
  finish-queues g failed = ground arith
  finish-queues g cancelled = ground arith

  -- What one event does to one stream: the queue before, with what it accepts, is what it writes, with the queue after.
  pub step-fifo :
      (g : ChannelMux A) (event : Event A) (j : ℕ)
      → queue_at g.queues j ++ of_stream j (sent_by g event)
        ≡ of_stream j (written_by g event) ++ queue_at (step g event).queues j
  unfolding step sent_by written_by receive close
  step-fifo g (send_event own msg none) j = send-fifo g own j msg none
  step-fifo g (send_event own msg (some stream)) j = send-fifo g own j msg (some stream)
  step-fifo g (resume_event stream msg) j = resume-fifo g stream j msg
  step-fifo g write_event j = append-nil (queue_at g.queues j) ∙ write-fifo g j
  step-fifo g receive_event j = append-nil (queue_at g.queues j)
  step-fifo g close_event j = append-nil (queue_at g.queues j)
  step-fifo g (finish_event outcome) j =
      append-nil (queue_at g.queues j) ∙ sym (ap (λ d. queue_at d j) (finish-queues g outcome))

  -- Within a stream no message is dropped from the queue, doubled or overtaken, whatever the events: the messages queued before
  -- and those that were accepted since are, in this order, those that the writer took for channel.send_msg, whether or not
  -- that returned, and those still queued.
  pub run-fifo :
      (g : ChannelMux A) (events : List (Event A)) (j : ℕ)
      → queue_at g.queues j ++ of_stream j (sent g events)
        ≡ of_stream j (written g events) ++ queue_at (run g events).queues j
  unfolding sent written run
  run-fifo g [] j = append-nil (queue_at g.queues j)
  run-fifo g (event ∷ events) j =
      let w = of_stream j (written_by g event) in
      let rest = of_stream j (sent (step g event) events) in
      ap (λ l. queue_at g.queues j ++ l)
        (of_stream-append j (sent_by g event) (sent (step g event) events))
      ∙ sym (append_assoc (queue_at g.queues j) (of_stream j (sent_by g event)) rest)
      ∙ ap (λ l. l ++ rest) (step-fifo g event j)
      ∙ append_assoc w (queue_at (step g event).queues j) rest
      ∙ ap (λ l. w ++ l) (run-fifo (step g event) events j)
      ∙ sym (
          append_assoc w (of_stream j (written (step g event) events))
            (queue_at (run (step g event) events).queues j))
      ∙ ap (λ l. l ++ queue_at (run (step g event) events).queues j)
          (sym (of_stream-append j (written_by g event) (written (step g event) events)))
