-- ===== src/Mux.antt =====
-- memnode/mux.py: the round-robin writer of one connection.
--
-- A message is of any type. The asyncio semaphore is its count, `slots`; `writing` is the local variable `msg` of the
-- writer while it awaits channel.send_msg, where the other tasks can run. The event `_wake` only tells the writer to look
-- again: a call of `take_next` is one such look. Stream ids are natural numbers, as this node gives them out.
pub mod Rotation
pub mod Invariant
pub mod Fifo
pub mod Fairness
pub mod Progress
pub mod Losses
use peer_memory.Prelude.{
  ℕ, ◌+◌, ◌-◌, Bool, true, false, ◌||◌, Option, none, some, List, [], ◌∷◌, ◌++◌, nat_beq,
  if◌then◌else◌, nat_eq, list_eq, length,
}
use peer_memory.Prelude.Dict.{Dict, get, put, remove, total}
use peer_memory.Prelude.{max}

pub record ChannelMux (A : Type 0) : Type 0 where
  pub queues : Dict ℕ (List A)
  pub order : List ℕ
  pub slots : ℕ
  pub writing : Option A
  pub is_closed : Bool
  pub messages_sent : ℕ
  pub messages_received : ℕ
  pub max_queue_depth : ℕ

-- What became of a call of send(): it raised ConnectionError, it waits for a slot, or the message is queued.
pub data SendOutcome : Type 0 where
  is_refused waits queued : SendOutcome

-- How the writer's await of channel.send_msg ended.
pub data WriteOutcome : Type 0 where
  done failed cancelled : WriteOutcome

pub record MuxStats : Type 0 where
  pub messages_sent : ℕ
  pub messages_received : ℕ
  pub open_streams : ℕ
  pub max_queue_depth : ℕ
  pub is_closed : Bool

module _ {A : Type 0} where
  unfoldable pub init : ℕ → ChannelMux A
  init max_queued = record {
    queues = [];
    order = [];
    slots = max_queued;
    writing = none;
    is_closed = false;
    messages_sent = 0;
    messages_received = 0;
    max_queue_depth = 0;
  }

  -- The sum of len(q) over the queues.
  unfoldable pub depth : Dict ℕ (List A) → ℕ
  depth = total length

  -- send() from the point where a slot was taken. The flag `_closed` is not read again.
  unfoldable pub enqueue : ChannelMux A → ℕ → A → ChannelMux A
  enqueue g stream msg =
      let (order, queue) = elim (get g.queues stream) as (λ _. List ℕ × List A) [
        | none ↦ (g.order ++ (stream ∷ []), [])
        | some q ↦ (g.order, q)
      ] in
      let queues = put g.queues stream (queue ++ (msg ∷ [])) in
      record g {
        queues = queues;
        order = order;
        slots = g.slots - 1;
        max_queue_depth = max g.max_queue_depth (depth queues);
      }

  -- `await self._slots.acquire()`, for a new call of send() or for one that waits
  unfoldable pub resume : ChannelMux A → ℕ → A → ChannelMux A × SendOutcome
  resume g stream msg = if nat_beq g.slots 0 then (g, waits) else (enqueue g stream msg, queued)

  -- send(msg, stream_id), where `own` is msg.stream_id
  unfoldable pub send : ChannelMux A → ℕ → A → Option ℕ → ChannelMux A × SendOutcome
  send g own msg none = if g.is_closed then (g, is_refused) else resume g own msg
  send g own msg (some stream) = if g.is_closed then (g, is_refused) else resume g stream msg

  -- What is taken from one queue: nothing, or the first message, with the stream at the back if it has more.
  unfoldable pub serve :
      Dict ℕ (List A) → List ℕ → ℕ → List A → (Dict ℕ (List A) × List ℕ) × Option (ℕ × A)
  serve queues order stream [] = ((remove queues stream, order), none)
  serve queues order stream (msg ∷ []) = ((remove queues stream, order), some (stream, msg))
  serve queues order stream (msg ∷ next ∷ more) =
      ((put queues stream (next ∷ more), order ++ (stream ∷ [])), some (stream, msg))

  -- queue = self._queues.get(stream_id), an absent queue being no different from an empty one
  unfoldable pub queue_at : Dict ℕ (List A) → ℕ → List A
  queue_at queues stream = elim (get queues stream) [ none ↦ [] | some q ↦ q ]

  -- One turn of the writer's loop up to channel.send_msg; with nothing to write it waits.
  unfoldable pub take_next : ChannelMux A → ChannelMux A × Option (ℕ × A)
  take_next g = elim g.order as (λ _. ChannelMux A × Option (ℕ × A)) [
    | [] ↦ (g, none)
    | stream ∷ order ↦
        let ((queues, order), taken) = serve g.queues order stream (queue_at g.queues stream) in
        (
          record g {
            queues = queues;
            order = order;
            writing = elim taken as (λ _. Option A) [ none ↦ none | some (_, msg) ↦ some msg ];
          },
          taken,
        )
  ]

  unfoldable pub is_writing : ChannelMux A → Bool
  is_writing g = elim g.writing [ none ↦ false | some _ ↦ true ]

  -- The writer looks: not while it awaits a write, and not once the connection is closed.
  unfoldable pub write : ChannelMux A → ChannelMux A × Option (ℕ × A)
  write g = if is_writing g || g.is_closed then (g, none) else take_next g

  -- channel.send_msg has ended: the slot goes back in every case. After an exception or a cancellation the writer has ended
  -- for good. Only close() cancels it, after it has set `_closed`, so that the flag is true in that case too.
  unfoldable pub finish : ChannelMux A → WriteOutcome → ChannelMux A
  finish g done = record g {
    messages_sent = g.messages_sent + 1;
    slots = g.slots + 1;
    writing = none;
  }
  finish g failed = record g { slots = g.slots + 1; writing = none; is_closed = true }
  finish g cancelled = record g { slots = g.slots + 1; writing = none; is_closed = true }

  -- One message from the channel; what the handler raises is caught.
  unfoldable pub receive : ChannelMux A → ChannelMux A
  receive g = record g { messages_received = g.messages_received + 1 }

  -- close(), which also cancels the writer: see `finish g cancelled`
  unfoldable pub close : ChannelMux A → ChannelMux A
  close g = record g { is_closed = true }

  unfoldable pub stats : ChannelMux A → MuxStats
  stats g = record {
    messages_sent = g.messages_sent;
    messages_received = g.messages_received;
    open_streams = length g.queues;
    max_queue_depth = g.max_queue_depth;
    is_closed = g.is_closed;
  }

-- What can happen next on the event loop.
pub data Event (A : Type 0) : Type 0 where
  send_event : ℕ → A → Option ℕ → Event A
  resume_event : ℕ → A → Event A
  write_event receive_event close_event : Event A
  finish_event : WriteOutcome → Event A

module _ {A : Type 0} where
  unfoldable pub step : ChannelMux A → Event A → ChannelMux A
  step g (send_event own msg stream) = (send g own msg stream).0
  step g (resume_event stream msg) = (resume g stream msg).0
  step g write_event = (write g).0
  step g receive_event = receive g
  step g close_event = close g
  step g (finish_event outcome) = if is_writing g then finish g outcome else g

  unfoldable pub run : ChannelMux A → List (Event A) → ChannelMux A
  run g [] = g
  run g (event ∷ events) = run (step g event) events

  -- The messages that an event takes from their queues for channel.send_msg, with their streams.
  unfoldable pub written_by : ChannelMux A → Event A → List (ℕ × A)
  written_by g write_event = elim (write g).1 as (λ _. List (ℕ × A)) [
    | none ↦ []
    | some taken ↦ taken ∷ []
  ]
  written_by g (send_event _ _ _) = []
  written_by g (resume_event _ _) = []
  written_by g receive_event = []
  written_by g close_event = []
  written_by g (finish_event _) = []

  unfoldable pub written : ChannelMux A → List (Event A) → List (ℕ × A)
  written g [] = []
  written g (event ∷ events) = written_by g event ++ written (step g event) events

  -- The messages that an event puts in a queue, with their streams.
  unfoldable pub accepted : SendOutcome → ℕ → A → List (ℕ × A)
  accepted queued stream msg = (stream, msg) ∷ []
  accepted waits stream msg = []
  accepted is_refused stream msg = []

  unfoldable pub sent_by : ChannelMux A → Event A → List (ℕ × A)
  sent_by g (send_event own msg none) = accepted (send g own msg none).1 own msg
  sent_by g (send_event own msg (some stream)) =
      accepted (send g own msg (some stream)).1 stream msg
  sent_by g (resume_event stream msg) = accepted (resume g stream msg).1 stream msg
  sent_by g write_event = []
  sent_by g receive_event = []
  sent_by g close_event = []
  sent_by g (finish_event _) = []

  unfoldable pub sent : ChannelMux A → List (Event A) → List (ℕ × A)
  sent g [] = []
  sent g (event ∷ events) = sent_by g event ++ sent (step g event) events
