-- ===== src/Tests/Writer.antt =====
-- The writer of memnode/mux.py on two streams, one of them with a long transfer.
use peer_memory.Prelude.{
  ℕ, ◌+◌, ◌≤◌, ◌≡◌, refl, ◌++◌, false, none, some, List, [], ◌∷◌, length, get_elem?, nat_eq, arith,
}
use peer_memory.Prelude.Dict.{get, put, remove}
use peer_memory.Mux.{
  ChannelMux, init, depth, enqueue, resume, send, serve, queue_at, take_next, is_writing, write,
  finish, done, failed, Event, send_event, resume_event, write_event, finish_event, step, run,
  written, written_by, sent, sent_by, accepted,
}
use peer_memory.Mux.Fifo.{of_stream, run-fifo}
use peer_memory.Mux.Losses.{run-sent}
use peer_memory.Mux.Rotation.{Scheduled}
use peer_memory.Mux.Invariant.{run-Scheduled}
use peer_memory.Mux.Fairness.{Waiting, in_turn}
use peer_memory.Mux.Progress.{rounds, rounds-in_turn}

-- Stream 7 queues three chunks, then the control stream 0 one message, which waits for one chunk.
abbrev calls : List (Event ℕ)
calls =
    send_event 7 71 none
    ∷ send_event 7 72 none
    ∷ send_event 9 73 (some 7)
    ∷ send_event 0 1 none
    ∷ []

abbrev loaded : ChannelMux ℕ
loaded = record {
  queues = (7, 71 ∷ 72 ∷ 73 ∷ []) ∷ (0, 1 ∷ []) ∷ [];
  order = 7 ∷ 0 ∷ [];
  slots = 1;
  writing = none;
  is_closed = false;
  messages_sent = 0;
  messages_received = 0;
  max_queue_depth = 4;
}

calls-run : run (init 5) calls ≡ loaded
unfolding run step send resume enqueue init get put depth
calls-run = refl

loaded-Scheduled : Scheduled 5 loaded
unfolding run step send resume enqueue init get put depth
loaded-Scheduled = run-Scheduled 5 calls

-- A full queue makes a caller wait, until the writer gives a slot back.
abbrev busy : List (Event ℕ)
busy =
    send_event 7 74 none
    ∷ send_event 8 81 none
    ∷ write_event
    ∷ resume_event 8 81
    ∷ finish_event done
    ∷ resume_event 8 81
    ∷ write_event
    ∷ finish_event failed
    ∷ write_event
    ∷ []

busy_written :
    (written loaded busy ≡ (7, 71) ∷ (0, 1) ∷ []) × (sent loaded busy ≡ (7, 74) ∷ (8, 81) ∷ [])
unfolding written written_by sent sent_by accepted step send resume enqueue write take_next serve
    queue_at is_writing finish get put remove depth
busy_written = (refl, refl)

run-Scheduled_example : Scheduled 5 (run (init 5) calls)
run-Scheduled_example = run-Scheduled 5 calls

run-fifo_example :
    queue_at loaded.queues 7 ++ of_stream 7 (sent loaded busy)
    ≡ of_stream 7 (written loaded busy) ++ queue_at (run loaded busy).queues 7
run-fifo_example = run-fifo loaded busy 7

control_waits : Waiting loaded (7 ∷ []) 0 1
unfolding queue_at get
control_waits = record { post = []; more = []; place = refl; first = refl }

in_turn_example : get_elem? (written loaded busy) 1 ≡ some (0, 1)
unfolding written written_by step send resume enqueue write take_next serve queue_at is_writing
    finish get put remove depth
in_turn_example = in_turn 5 loaded busy (7 ∷ []) 0 1 loaded-Scheduled control_waits (omega arith)

rounds-in_turn_example :
    (length (written loaded (rounds 2)) ≡ 2)
    × (get_elem? (written loaded (rounds 2)) 1 ≡ some (0, 1))
unfolding is_writing
rounds-in_turn_example =
    rounds-in_turn 5 loaded (7 ∷ []) 0 1 loaded-Scheduled (record { idle = refl; live = refl })
      control_waits

run-sent_example :
    length (written loaded busy) + loaded.messages_sent ≤ (run loaded busy).messages_sent + 1
run-sent_example = run-sent loaded busy
