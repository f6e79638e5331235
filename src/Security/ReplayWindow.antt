-- ===== src/Security/ReplayWindow.antt =====
-- class ReplayWindow of memnode/security.py: the highest sequence number seen and a bitmap of those
-- below it. A Python `int` is a number of any size, so the bitmap is one natural number.
mod Decision
pub mod Refinement
use Prim.Native.Nat.{bit_and, bit_or}
use peer_memory.Prelude.{
  ℕ, ◌+◌, ◌-◌, Bool, true, false, not, List, [], ◌∷◌, ltb, leb, if◌then◌else◌, ℤ, pos, negsuc,
  Result, ok, raise,
}
use peer_memory.Bits.{shl}

pub record ReplayWindow : Type 0 where
  pub size : ℕ
  pub highest : ℕ
  pub bitmap : ℕ
  pub seen_any : Bool

-- ValueError("replay window size must be >= 1")
pub data WindowError : Type 0 where
  bad_size : WindowError

unfoldable pub init : ℕ → Result WindowError ReplayWindow
init size =
    if ltb size 1
    then raise bad_size
    else ok (record { size = size; highest = 0; bitmap = 0; seen_any = false })

-- the property `highest`: -1 before the first frame
unfoldable pub highest_seen : ReplayWindow → ℤ
highest_seen w = if w.seen_any then pos w.highest else negsuc 0

abbrev pub max_seq : ℕ
max_seq = 0xFFFFFFFFFFFFFFFF

-- `seq > self._highest`: the window moves up
pub slide : ReplayWindow → ℕ → ReplayWindow
slide w seq =
    let shift = seq - w.highest in
    record w {
      highest = seq;
      bitmap =
          if leb w.size shift
          then 1
          else bit_and (bit_or (shl w.bitmap shift) 1) (shl 1 w.size - 1);
    }

-- a number at or below the highest: a look at its bit
pub mark : ReplayWindow → ℕ → ReplayWindow × Bool
mark w seq =
    let offset = w.highest - seq in
    let mask = shl 1 offset in
    if leb w.size offset
    then (w, false)
    else if ltb 0 (bit_and w.bitmap mask)
    then (w, false)
    else (record w { bitmap = bit_or w.bitmap mask }, true)

unfoldable pub check_and_update : ReplayWindow → ℤ → ReplayWindow × Bool
unfolding slide mark
check_and_update w (negsuc n) = (w, false)
check_and_update w (pos seq) =
    if ltb max_seq seq
    then (w, false)
    else if not w.seen_any
    then (record w { seen_any = true; highest = seq; bitmap = 1 }, true)
    else if ltb w.highest seq
    then (slide w seq, true)
    else mark w seq

-- The frames of one connection, in order of arrival: the final window, and the accepted numbers,
-- the last one first.
unfoldable pub run : ReplayWindow → List ℕ → List ℕ → ReplayWindow × List ℕ
run w accepted [] = (w, accepted)
run w accepted (seq ∷ rest) =
    let (w', fresh) = check_and_update w (pos seq) in
    run w' (if fresh then seq ∷ accepted else accepted) rest
