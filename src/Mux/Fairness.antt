-- ===== src/Mux/Fairness.antt =====
-- The turn of a stream in the rotation of memnode/mux.py.
use peer_memory.Prelude.{
  ℕ, ◌<◌, ◌≡◌, refl, sym, ap, ◌∙◌, inl, inr, true, false, ◌||◌, Option, none, some, List, [], ◌∷◌,
  ◌++◌, nat_beq, nat_beq_iff, if◌then◌else◌, nat_eq, list_eq, length, arith, Bool-cases,
}
use peer_memory.Prelude.Dict.{Dict, get}
use mathlib.Core.Path.{subst}
use peer_memory.Prelude.{append-nil, append_assoc, get_elem?}
use peer_memory.Mux.{
  ChannelMux, enqueue, resume, send, serve, queue_at, take_next, is_writing, write, finish,
  WriteOutcome, done, failed, cancelled, receive, close, Event, send_event, resume_event,
  write_event, receive_event, close_event, finish_event, step, written_by, written, sent_by,
}
use peer_memory.Mux.Fifo.{of_stream, queue_at-put, queue_at-remove, step-fifo}
use peer_memory.Mux.Rotation.{Scheduled, member, Unique, is_some, nonempty, enqueue-order}
use peer_memory.Mux.Invariant.{step-Scheduled}

member-middle : (pre post : List ℕ) (k : ℕ) → member (pre ++ (k ∷ post)) k ≡ true
member-middle [] post k = ground (arith, nat_beq_iff k k)
member-middle (p ∷ pre) post k = ground (arith, member-middle pre post k)

module _ {A : Type 0} where
  -- Every event but a look of the writer only adds to the back of the rotation.
  abbrev Grows : ChannelMux A → ChannelMux A → Type 0
  Grows g h = (more : List ℕ) × (h.order ≡ g.order ++ more)

  same_order : (g h : ChannelMux A) → h.order ≡ g.order → Grows g h
  same_order g h e = ([], e ∙ sym (append-nil g.order))

  resume-Grows : (g : ChannelMux A) (k : ℕ) (msg : A) → Grows g (resume g k msg).0
  unfolding resume
  resume-Grows g k msg = elim (Bool-cases (nat_beq g.slots 0)) [
    | inl full ↦ simp full (same_order g g refl)
    | inr free ↦ simp free (elim (Bool-cases (is_some (get g.queues k))) [
      | inl there ↦ same_order g (enqueue g k msg) (enqueue-order g k msg ∙ rw there refl)
      | inr absent ↦ (k ∷ [], enqueue-order g k msg ∙ rw absent refl)
    ])
  ]

  send-Grows :
      (g : ChannelMux A) (own : ℕ) (msg : A) (stream : Option ℕ) → Grows g (send g own msg stream).0
  unfolding send
  send-Grows g own msg none = elim (Bool-cases g.is_closed) [
    | inl shut ↦ simp shut (same_order g g refl)
    | inr free ↦ simp free (resume-Grows g own msg)
  ]
  send-Grows g own msg (some stream) = elim (Bool-cases g.is_closed) [
    | inl shut ↦ simp shut (same_order g g refl)
    | inr free ↦ simp free (resume-Grows g stream msg)
  ]

  finish-order :
      (g : ChannelMux A) (outcome : WriteOutcome)
      → (if is_writing g then finish g outcome else g).order ≡ g.order
  unfolding finish
  finish-order g done = ground arith
  finish-order g failed = ground arith
  finish-order g cancelled = ground arith

  -- A stream whose first message is `msg` waits behind `pre`.
  pub record Waiting (g : ChannelMux A) (pre : List ℕ) (stream : ℕ) (msg : A) : Type 0 where
    pub post : List ℕ
    pub more : List A
    pub place : g.order ≡ pre ++ (stream ∷ post)
    pub first : queue_at g.queues stream ≡ msg ∷ more

  -- What an event writes that is no look of the writer.
  step-Waiting :
      (g : ChannelMux A) (event : Event A) (pre : List ℕ) (stream : ℕ) (msg : A)
      → written_by g event ≡ []
      → Grows g (step g event)
      → Waiting g pre stream msg
      → Waiting (step g event) pre stream msg
  step-Waiting g event pre stream msg quiet (z, grows) w = record {
    post = w.post ++ z;
    more = w.more ++ of_stream stream (sent_by g event);
    place = grows ∙ ap (λ l. l ++ z) w.place ∙ append_assoc pre (stream ∷ w.post) z;
    first =
        sym (
          step-fifo g event stream
          ∙ ap (λ l. of_stream stream l ++ queue_at (step g event).queues stream) quiet)
        ∙ ap (λ l. l ++ of_stream stream (sent_by g event)) w.first;
  }

  -- A look of the writer at the stream whose turn it is.
  serve_first :
      (d : Dict ℕ (List A)) (order : List ℕ) (k : ℕ) (msg : A) (more : List A)
      → (serve d order k (msg ∷ more)).1 ≡ some (k, msg)
  unfolding serve
  serve_first d order k msg [] = refl
  serve_first d order k msg (next ∷ more) = refl

  -- A look of the writer at another stream.
  serve_other :
      (g : ChannelMux A) (p k : ℕ) (pre post : List ℕ) (q more : List A) (msg : A)
      → nat_beq p k ≡ false
      → queue_at g.queues k ≡ msg ∷ more
      → nonempty q ≡ true
      → let ((queues, order), taken) = serve g.queues (pre ++ (k ∷ post)) p q in
        ((m : A) × (taken ≡ some (p, m)))
        × Waiting
            (record g {
              queues = queues;
              order = order;
              writing = elim taken as (λ _. Option A) [ none ↦ none | some (_, m) ↦ some m ];
            })
            pre
            k
            msg
  unfolding serve
  serve_other g p k pre post [] more msg ne e n = absurd (let f : ⊥ = ground (arith, n) in f)
  serve_other g p k pre post (m ∷ []) more msg ne e n = (
    (m, refl),
    record {
      post = post;
      more = more;
      place = refl;
      first = queue_at-remove g.queues p k ∙ rw ne e;
    },
  )
  serve_other g p k pre post (m ∷ next ∷ rest) more msg ne e n = (
    (m, refl),
    record {
      post = post ++ (p ∷ []);
      more = more;
      place = append_assoc pre (k ∷ post) (p ∷ []);
      first = queue_at-put g.queues p k (next ∷ rest) ∙ rw ne e;
    },
  )

  -- What a look of the writer does for a stream that waits: nothing, or it gives the turn to the first in the rotation.
  abbrev Turn : ChannelMux A → List ℕ → ℕ → A → Type 0
  Turn g [] stream msg = written_by g write_event ≡ (stream, msg) ∷ []
  Turn g (p ∷ pre) stream msg =
      ((m : A) × (written_by g write_event ≡ (p, m) ∷ []))
      × Waiting (step g write_event) pre stream msg

  abbrev pub served : ChannelMux A → ℕ → List ℕ → List A → ChannelMux A × Option (ℕ × A)
  served g p order q =
      let ((queues, order), taken) = serve g.queues order p q in
      (
        record g {
          queues = queues;
          order = order;
          writing = elim taken as (λ _. Option A) [ none ↦ none | some (_, m) ↦ some m ];
        },
        taken,
      )

  pub free_write :
      (g : ChannelMux A) (p : ℕ) (order : List ℕ)
      → is_writing g || g.is_closed ≡ false
      → g.order ≡ p ∷ order
      → write g ≡ served g p order (queue_at g.queues p)
  unfolding write take_next
  free_write g p order free e = rw (write, free, take_next, e) refl

  abbrev pub taken_list : Option (ℕ × A) → List (ℕ × A)
  taken_list none = []
  taken_list (some t) = t ∷ []

  pub written_by-write : (g : ChannelMux A) → written_by g write_event ≡ taken_list (write g).1
  unfolding written_by
  written_by-write g = taken_cases (write g).1
    where
      taken_cases :
          (o : Option (ℕ × A))
          → elim o as (λ _. List (ℕ × A)) [ none ↦ [] | some taken ↦ taken ∷ [] ] ≡ taken_list o
      taken_cases none = refl
      taken_cases (some t) = refl

  free-Turn :
      (n : ℕ) (g : ChannelMux A) (pre : List ℕ) (stream : ℕ) (msg : A)
      → Scheduled n g
      → is_writing g || g.is_closed ≡ false
      → Waiting g pre stream msg
      → Turn g pre stream msg
  unfolding step
  free-Turn n g [] stream msg s free w =
      written_by-write g
      ∙ ap (λ (r : ChannelMux A × Option (ℕ × A)). taken_list r.1)
          (free_write g stream w.post free w.place)
      ∙ ap taken_list (
          ap (λ q. (serve g.queues w.post stream q).1) w.first
          ∙ serve_first g.queues w.post stream msg w.more)
  free-Turn n g (p ∷ pre) stream msg s free w =
      let u : Unique (p ∷ pre ++ (stream ∷ w.post)) = subst Unique w.place s.unique in
      let ne : nat_beq p stream ≡ false =
        ground (arith, u.0, member-middle pre w.post stream, nat_beq_iff p stream) in
      let full : nonempty (queue_at g.queues p) ≡ true =
        ground (arith, s.listed p, ap (λ o. member o p) w.place, nat_beq_iff p p) in
      let ((m, e), next) =
        serve_other g p stream pre w.post (queue_at g.queues p) w.more msg ne w.first full in
      let f = free_write g p (pre ++ (stream ∷ w.post)) free w.place in
      (
        (
          m,
          written_by-write g
              ∙ ap (λ (r : ChannelMux A × Option (ℕ × A)). taken_list r.1) f
              ∙ ap taken_list e,
        ),
        subst (λ (r : ChannelMux A × Option (ℕ × A)). Waiting r.0 pre stream msg) (sym f) next,
      )

  pub busy_write : (g : ChannelMux A) → is_writing g || g.is_closed ≡ true → write g ≡ (g, none)
  unfolding write
  busy_write g busy = simp busy refl

  -- What a look wrote, in front of what is written later.
  abbrev Then : List ℕ → ℕ → A → List (ℕ × A) → List (ℕ × A) → Type 0
  Then pre stream msg now later =
      length pre < length (now ++ later)
      → get_elem? (now ++ later) (length pre) ≡ some (stream, msg)

  Turn-Then :
      (g : ChannelMux A) (events : List (Event A)) (pre : List ℕ) (stream : ℕ) (msg : A)
      → Turn g pre stream msg
      → ((rest : List ℕ)
          → Waiting (step g write_event) rest stream msg
          → Then rest stream msg [] (written (step g write_event) events))
      → Then pre stream msg (written_by g write_event) (written (step g write_event) events)
  Turn-Then g events [] stream msg t later =
      subst (λ l. Then [] stream msg l (written (step g write_event) events)) (sym t) (λ _. refl)
  Turn-Then g events (p ∷ pre) stream msg ((m, e), next) later =
      subst (λ l. Then (p ∷ pre) stream msg l (written (step g write_event) events)) (sym e)
        (λ h. later pre next (omega arith))

  -- A stream that stands behind `pre` in the rotation waits for no more than one message of each stream in `pre`: of the
  -- messages that are written, whatever events come between, the one after `length pre` others is the stream's first message.
  pub in_turn :
      (n : ℕ) (g : ChannelMux A) (events : List (Event A)) (pre : List ℕ) (stream : ℕ) (msg : A)
      → Scheduled n g
      → Waiting g pre stream msg
      → length pre < length (written g events)
      → get_elem? (written g events) (length pre) ≡ some (stream, msg)
  unfolding written step written_by receive close
  in_turn n g [] pre stream msg s w h = absurd (let f : ⊥ = omega (arith, h) in f)
  in_turn n g (write_event ∷ events) pre stream msg s w h =
      elim (Bool-cases (is_writing g || g.is_closed)) [
        | inl busy ↦
            let e = busy_write g busy in
            let later : Then pre stream msg [] (written (write g).0 events) =
              subst (λ (k : ChannelMux A). Then pre stream msg [] (written k events))
                (sym (ap (λ (r : ChannelMux A × Option (ℕ × A)). r.0) e))
                (in_turn n g events pre stream msg s w) in
            subst (λ l. Then pre stream msg l (written (write g).0 events))
              (sym
                (written_by-write g ∙ ap (λ (r : ChannelMux A × Option (ℕ × A)). taken_list r.1) e))
              later h
        | inr free ↦
            Turn-Then g events pre stream msg (free-Turn n g pre stream msg s free w)
              (λ rest next.
                in_turn n (write g).0 events rest stream msg (step-Scheduled n g write_event s)
                  next)
              h
      ]
  in_turn n g (send_event own m k ∷ events) pre stream msg s w h =
      in_turn n (step g (send_event own m k)) events pre stream msg
        (step-Scheduled n g (send_event own m k) s)
        (step-Waiting g (send_event own m k) pre stream msg refl (send-Grows g own m k) w) h
  in_turn n g (resume_event k m ∷ events) pre stream msg s w h =
      in_turn n (step g (resume_event k m)) events pre stream msg
        (step-Scheduled n g (resume_event k m) s)
        (step-Waiting g (resume_event k m) pre stream msg refl (resume-Grows g k m) w) h
  in_turn n g (receive_event ∷ events) pre stream msg s w h =
      in_turn n (step g receive_event) events pre stream msg (step-Scheduled n g receive_event s)
        (step-Waiting g receive_event pre stream msg refl (same_order g (step g receive_event) refl)
          w)
        h
  in_turn n g (close_event ∷ events) pre stream msg s w h =
      in_turn n (step g close_event) events pre stream msg (step-Scheduled n g close_event s)
        (step-Waiting g close_event pre stream msg refl (same_order g (step g close_event) refl) w)
        h
  in_turn n g (finish_event outcome ∷ events) pre stream msg s w h =
      in_turn n (step g (finish_event outcome)) events pre stream msg
        (step-Scheduled n g (finish_event outcome) s)
        (step-Waiting g (finish_event outcome) pre stream msg refl
          (same_order g (step g (finish_event outcome)) (finish-order g outcome)) w)
        h
