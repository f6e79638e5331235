-- ===== src/Security/ReplayWindow/Refinement.antt =====
-- The window of memnode/security.py over a whole connection, against its specification: the list of
-- the numbers accepted so far.
use Prim.Native.Nat.{bit_or}
use peer_memory.Prelude.{
  ℕ, ◌-◌, ◌≤◌, ◌<◌, ◌≡◌, refl, Bool, true, false, List, [], ◌∷◌, if◌then◌else◌, ok, ◌⊎◌, pos, arith,
  nat_eq, ◌∙◌, ap, inl, inr,
}
use peer_memory.Bits.{shl, test_bit-one}
use peer_memory.Security.ReplayWindow.Decision.{
  contains, accepts, Tracks, slide-bits, mark-bits, check_and_update-accepts,
}
use peer_memory.Security.ReplayWindow.{ReplayWindow, init, slide, mark, check_and_update, run}

abbrev note : Bool → ℕ → List ℕ → List ℕ
note fresh seq accepted = if fresh then seq ∷ accepted else accepted

slide-Tracks :
    (w : ReplayWindow) (accepted : List ℕ) (seq : ℕ)
    → Tracks w accepted
    → w.seen_any ≡ true
    → w.highest < seq
    → Tracks (slide w seq) (seq ∷ accepted)
unfolding slide
slide-Tracks w accepted seq t seen above = record {
  positive = t.positive;
  first = seen;
  top = λ _. omega (arith, t.top seen);
  bits = λ _ s le near. slide-bits w accepted t seen seq s above le near;
}

abbrev marked : ReplayWindow → ℕ → ReplayWindow
marked w seq = record w { bitmap = bit_or w.bitmap (shl 1 (w.highest - seq)) }

mark_cases :
    (w : ReplayWindow) (seq : ℕ) → (mark w seq ≡ (w, false)) ⊎ (mark w seq ≡ (marked w seq, true))
unfolding mark
mark_cases w seq = ground arith

mark-Tracks :
    (w : ReplayWindow) (accepted : List ℕ) (seq : ℕ)
    → Tracks w accepted
    → w.seen_any ≡ true
    → seq ≤ w.highest
    → Tracks (mark w seq).0 (note (mark w seq).1 seq accepted)
mark-Tracks w accepted seq t seen below = elim (mark_cases w seq) [
  | inl stale ↦ rw stale t
  | inr fresh ↦ rw fresh (record {
    positive = t.positive;
    first = seen;
    top = λ _. omega (arith, t.top seen);
    bits = λ _ s le near. ground (arith, mark-bits w accepted t seen seq s below le near);
  })
]

first-Tracks :
    (w : ReplayWindow) (seq : ℕ)
    → 0 < w.size
    → Tracks (record w { seen_any = true; highest = seq; bitmap = 1 }) (seq ∷ [])
first-Tracks w seq positive = record {
  positive = positive;
  first = refl;
  top = λ _. omega arith;
  bits = λ _ s le near. ground (arith, test_bit-one (seq - s));
}

empty_of_first :
    (w : ReplayWindow) (accepted : List ℕ) → Tracks w accepted → w.seen_any ≡ false → accepted ≡ []
empty_of_first w [] t h = refl
empty_of_first w (x ∷ xs) t h = cc (t.first)

abbrev opened : ReplayWindow → ℕ → ReplayWindow
opened w seq = record w { seen_any = true; highest = seq; bitmap = 1 }

check_and_update_cases :
    (w : ReplayWindow) (seq : ℕ)
    → (check_and_update w (pos seq) ≡ (w, false))
      ⊎ ((w.seen_any ≡ false) × (check_and_update w (pos seq) ≡ (opened w seq, true)))
      ⊎ ((w.seen_any ≡ true)
          × (w.highest < seq)
          × (check_and_update w (pos seq) ≡ (slide w seq, true)))
      ⊎ ((w.seen_any ≡ true) × (seq ≤ w.highest) × (check_and_update w (pos seq) ≡ mark w seq))
unfolding check_and_update
check_and_update_cases w seq = ground arith

check_and_update-Tracks :
    (w : ReplayWindow) (accepted : List ℕ) (seq : ℕ)
    → Tracks w accepted
    → Tracks (check_and_update w (pos seq)).0 (note (check_and_update w (pos seq)).1 seq accepted)
check_and_update-Tracks w accepted seq t = elim (check_and_update_cases w seq) [
  | inl big ↦ rw big t
  | inr (inl (first, e)) ↦ rw (e, empty_of_first w accepted t first) (first-Tracks w seq t.positive)
  | inr (inr (inl (seen, above, e))) ↦ rw e (slide-Tracks w accepted seq t seen above)
  | inr (inr (inr (seen, below, e))) ↦ rw e (mark-Tracks w accepted seq t seen below)
]

size-check_and_update :
    (w : ReplayWindow) (seq : ℕ) → (check_and_update w (pos seq)).0.size ≡ w.size
unfolding check_and_update
size-check_and_update w seq = ground arith

-- The specification of a whole connection: each number is decided by `accepts`.
pub accepted_by : ℕ → List ℕ → List ℕ → List ℕ
accepted_by size accepted [] = accepted
accepted_by size accepted (seq ∷ rest) =
    accepted_by size (note (accepts size accepted seq) seq accepted) rest

run-accepted_by :
    (w : ReplayWindow) (accepted seqs : List ℕ)
    → Tracks w accepted
    → (run w accepted seqs).1 ≡ accepted_by w.size accepted seqs
unfolding run accepted_by
run-accepted_by w accepted [] t = refl
run-accepted_by w accepted (seq ∷ rest) t =
    run-accepted_by (check_and_update w (pos seq)).0
      (note (check_and_update w (pos seq)).1 seq accepted) rest
      (check_and_update-Tracks w accepted seq t)
    ∙ rw (size-check_and_update w seq, check_and_update-accepts w accepted seq t)

abbrev empty_window : ℕ → ReplayWindow
empty_window size = record { size = size; highest = 0; bitmap = 0; seen_any = false }

init_lem : (size : ℕ) (w : ReplayWindow) → init size ≡ ok w → (0 < size) × (w ≡ empty_window size)
unfolding init
init_lem size w h = ground arith

empty_window-Tracks : (size : ℕ) → 0 < size → Tracks (empty_window size) []
empty_window-Tracks size h = record {
  positive = h;
  first = refl;
  top = λ e. cc;
  bits = λ e s le near. cc;
}

pub init-Tracks : (size : ℕ) (w : ReplayWindow) → init size ≡ ok w → Tracks w [] × (w.size ≡ size)
init-Tracks size w h =
    let (positive, e) = init_lem size w h in (rw e (empty_window-Tracks size positive), rw e)

-- No number twice.
abbrev pub Unique : List ℕ → Type 0
Unique [] = Unit
Unique (x ∷ xs) = (contains xs x ≡ false) × Unique xs

accepts-not-contains :
    (size : ℕ) (accepted : List ℕ) (seq : ℕ)
    → accepts size accepted seq ≡ true
    → contains accepted seq ≡ false
accepts-not-contains size accepted seq h = ground arith

accepted_by-Unique :
    (size : ℕ) (accepted seqs : List ℕ) → Unique accepted → Unique (accepted_by size accepted seqs)
unfolding accepted_by
accepted_by-Unique size accepted [] u = u
accepted_by-Unique size accepted (seq ∷ rest) u =
    accepted_by-Unique size (note (accepts size accepted seq) seq accepted) rest
      (ground (arith, accepts-not-contains size accepted seq))

-- On a fresh window of any size, the frames that are accepted over a whole connection, in whatever
-- order and with whatever repetitions they arrive, are those that the specification `accepts`
-- lets through one by one: 64-bit numbers, never accepted before, less than `size` below the
-- highest accepted one.
pub run_lem :
    (size : ℕ) (w : ReplayWindow) (seqs : List ℕ)
    → init size ≡ ok w
    → (run w [] seqs).1 ≡ accepted_by size [] seqs
run_lem size w seqs h =
    let (t, e) = init-Tracks size w h in
    run-accepted_by w [] seqs t ∙ ap (λ n. accepted_by n [] seqs) e

-- On a fresh window of any size, no sequence number is ever accepted twice.
pub run-Unique :
    (size : ℕ) (w : ReplayWindow) (seqs : List ℕ) → init size ≡ ok w → Unique (run w [] seqs).1
run-Unique size w seqs h = rw (run_lem size w seqs h) (accepted_by-Unique size [] seqs tt)

-- A number above all others is accepted and becomes the highest.
pub newer_lem :
    (w : ReplayWindow) (seq : ℕ)
    → (w.seen_any ≡ true → w.highest < seq)
    → seq < 0x10000000000000000
    → let (next, fresh) = check_and_update w (pos seq) in
      (fresh ≡ true) × (next.seen_any ≡ true) × (next.highest ≡ seq)
unfolding check_and_update slide
newer_lem w seq above small =
    (ground (arith, above, small), ground (arith, above, small), ground (arith, above, small))
