-- ===== src/Security/ReplayWindow/Decision.antt =====
-- One frame at the replay window of memnode/security.py: the specification of the decision, and the
-- bits of the window before and after it.
use Prim.Native.Nat.{bit_and, bit_or}
use peer_memory.Prelude.{
  ℕ, ◌+◌, ◌-◌, ◌≤◌, ◌<◌, ◌≡◌, refl, Bool, true, false, not, ◌&&◌, ◌||◌, List, [], ◌∷◌, ltb, leb,
  if◌then◌else◌, pos, max, arith, ◌==◌, nat_eq, nat_beq, lt→ltb,
}
use peer_memory.Bits.{
  test_bit, shl, test_bit-bit_and, test_bit-bit_or, test_bit-shl, test_bit-low_mask, test_bit-one,
  test_bit-shl_one, ltb-bit_and-shl,
}
use peer_memory.Security.ReplayWindow.{ReplayWindow, max_seq, slide, mark, check_and_update}

abbrev pub contains : List ℕ → ℕ → Bool
contains [] a = false
contains (x ∷ xs) a = a == x || contains xs a

abbrev pub max_of : List ℕ → ℕ
max_of [] = 0
max_of (x ∷ xs) = max x (max_of xs)

abbrev pub nonempty : List ℕ → Bool
nonempty [] = false
nonempty (x ∷ xs) = true

-- What the window is to decide: the number fits 64 bits, was not accepted before, and lies less
-- than `size` below the highest accepted one.
abbrev pub accepts : ℕ → List ℕ → ℕ → Bool
accepts size accepted seq =
    leb seq max_seq && (not (contains accepted seq) && ltb (max_of accepted) (seq + size))

pub record Tracks (w : ReplayWindow) (accepted : List ℕ) : Type 0 where
  pub positive : 0 < w.size
  pub first : w.seen_any ≡ nonempty accepted
  pub top : w.seen_any ≡ true → w.highest ≡ max_of accepted
  pub bits :
      w.seen_any ≡ true
      → (s : ℕ) → s ≤ w.highest
      → w.highest - s < w.size
      → test_bit w.bitmap (w.highest - s) ≡ contains accepted s

contains-le-max_of : (xs : List ℕ) (a : ℕ) → contains xs a ≡ true → a ≤ max_of xs
contains-le-max_of [] a h = absurd (ground arith)
contains-le-max_of (x ∷ xs) a h = ground (arith, contains-le-max_of xs a)

pub not-contains_above : (xs : List ℕ) (a : ℕ) → max_of xs < a → contains xs a ≡ false
not-contains_above [] a h = refl
not-contains_above (x ∷ xs) a h = ground (arith, not-contains_above xs a)

-- The bits of a window that moved up by `shift`.
pub slid_bit :
    (bitmap shift size i : ℕ)
    → i < size
    → test_bit (bit_and (bit_or (shl bitmap shift) 1) (shl 1 size - 1)) i
      ≡ ((if ltb i shift then false else test_bit bitmap (i - shift)) || nat_beq i 0)
slid_bit bitmap shift size i h =
    rw
      (
        test_bit-bit_and,
        test_bit-low_mask,
        test_bit-bit_or,
        test_bit-shl,
        test_bit-one,
        lt→ltb i size h,
      )
      (ground arith)

module _ (w : ReplayWindow) (accepted : List ℕ) (t : Tracks w accepted)
    (seen : w.seen_any ≡ true) where
  pub slide-bits :
      (seq s : ℕ)
      → w.highest < seq
      → s ≤ seq
      → seq - s < w.size
      → test_bit (slide w seq).bitmap (seq - s) ≡ contains (seq ∷ accepted) s
  unfolding slide
  slide-bits seq s above le near =
      let old : s ≤ w.highest → test_bit w.bitmap (w.highest - s) ≡ contains accepted s =
        λ h. t.bits seen s h (omega arith) in
      let new : w.highest < s → contains accepted s ≡ false =
        λ h. not-contains_above accepted s (omega (arith, t.top seen)) in
      let place : s ≤ w.highest → seq - s - (seq - w.highest) ≡ w.highest - s = λ h. omega arith in
      ground (
        arith,
        slid_bit w.bitmap (seq - w.highest) w.size (seq - s),
        test_bit-one (seq - s),
        old,
        new,
        place,
      )

  pub mark-bits :
      (seq s : ℕ)
      → seq ≤ w.highest
      → s ≤ w.highest
      → w.highest - s < w.size
      → (mark w seq).1 ≡ true
      → test_bit (mark w seq).0.bitmap (w.highest - s) ≡ contains (seq ∷ accepted) s
  unfolding mark
  mark-bits seq s below le near fresh = ground (
    arith,
    test_bit-bit_or w.bitmap (shl 1 (w.highest - seq)) (w.highest - s),
    test_bit-shl_one (w.highest - seq) (w.highest - s),
    t.bits seen s le near,
  )

  pub mark-accepts :
      (seq : ℕ)
      → seq ≤ w.highest
      → (mark w seq).1 ≡ (not (contains accepted seq) && ltb (max_of accepted) (seq + w.size))
  unfolding mark
  mark-accepts seq below =
      ground (arith, ltb-bit_and-shl w.bitmap (w.highest - seq), t.bits seen seq below, t.top seen)

pub check_and_update-accepts :
    (w : ReplayWindow) (accepted : List ℕ) (seq : ℕ)
    → Tracks w accepted
    → (check_and_update w (pos seq)).1 ≡ accepts w.size accepted seq
unfolding check_and_update
check_and_update-accepts w [] seq t = ground (arith)
check_and_update-accepts w (x ∷ xs) seq t =
    ground
      (arith, mark-accepts w (x ∷ xs) t t.first seq, not-contains_above (x ∷ xs) seq, t.top t.first)
