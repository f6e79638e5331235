-- ===== src/Bits.antt =====
-- The bits of a natural number, for the bitmap of the replay window in memnode/security.py.
use Prim.Native.Nat.{bit_and, bit_or, digits, bit_and-bitwise, bit_or-bitwise}
use native.Mathlib.Nat.{pow-suc, one-le-pow}
use peer_memory.Prelude.{
  ℕ, zero, suc, ◌+◌, ◌-◌, ◌*◌, ◌/◌, ◌%◌, ◌^◌, ◌≤◌, ◌<◌, min, max, ◌≡◌, refl, ap, Bool, true, false,
  ◌&&◌, ◌||◌, arith, ltb, nat_beq, nat_beq_iff, Bool-cases, inl, inr, lt→ltb, if◌then◌else◌,
}

-- bit `i` of `n`
unfoldable pub test_bit : ℕ → ℕ → Bool
test_bit n zero = nat_beq (n % 2) 1
test_bit n (suc i) = test_bit (n / 2) i

pub zero-test_bit : (i : ℕ) → test_bit 0 i ≡ false
unfolding test_bit
zero-test_bit zero = refl
zero-test_bit (suc i) = zero-test_bit i

-- The `and` and the `or` of two numbers, bit by bit. `n` is the count of digits to go.
test_bit-and_digits :
    (n a b i : ℕ)
    → a ≤ n
    → test_bit (digits (λ _. zero) min n a b) i ≡ (test_bit a i && test_bit b i)
unfolding test_bit
test_bit-and_digits zero zero b i h = rw zero-test_bit
test_bit-and_digits (suc n) zero b i h = rw zero-test_bit
test_bit-and_digits zero (suc a) b i h = absurd (omega arith)
test_bit-and_digits (suc n) (suc a) b zero h = ground arith
test_bit-and_digits (suc n) (suc a) b (suc i) h =
    let e : (digits (λ _. zero) min n (suc a / 2) (b / 2) * 2 + min (suc a % 2) (b % 2)) / 2
        ≡ digits (λ _. zero) min n (suc a / 2) (b / 2) =
      omega arith in
    rw e (test_bit-and_digits n (suc a / 2) (b / 2) i (omega arith))

test_bit-or_digits :
    (n a b i : ℕ) → a ≤ n → test_bit (digits (λ b. b) max n a b) i ≡ (test_bit a i || test_bit b i)
unfolding test_bit
test_bit-or_digits zero zero b i h = rw zero-test_bit
test_bit-or_digits (suc n) zero b i h = rw zero-test_bit
test_bit-or_digits zero (suc a) b i h = absurd (omega arith)
test_bit-or_digits (suc n) (suc a) b zero h = ground arith
test_bit-or_digits (suc n) (suc a) b (suc i) h =
    let e : (digits (λ b. b) max n (suc a / 2) (b / 2) * 2 + max (suc a % 2) (b % 2)) / 2
        ≡ digits (λ b. b) max n (suc a / 2) (b / 2) =
      omega arith in
    rw e (test_bit-or_digits n (suc a / 2) (b / 2) i (omega arith))

pub test_bit-bit_and : (a b i : ℕ) → test_bit (bit_and a b) i ≡ (test_bit a i && test_bit b i)
test_bit-bit_and a b i = rw bit_and-bitwise (test_bit-and_digits a a b i (omega arith))

pub test_bit-bit_or : (a b i : ℕ) → test_bit (bit_or a b) i ≡ (test_bit a i || test_bit b i)
test_bit-bit_or a b i = rw bit_or-bitwise (test_bit-or_digits a a b i (omega arith))

-- `a << k`
abbrev pub shl : ℕ → ℕ → ℕ
shl a k = a * 2 ^ k

shl-suc : (a k : ℕ) → shl a (suc k) ≡ shl a k * 2
shl-suc a k = omega (arith, ap (λ (t : ℕ). a * t) (pow-suc 2 k))

pub test_bit-shl :
    (a k i : ℕ) → test_bit (shl a k) i ≡ (if ltb i k then false else test_bit a (i - k))
unfolding test_bit
test_bit-shl a zero i =
    let e : shl a 0 ≡ a = omega arith in let f : i - 0 ≡ i = omega arith in rw (e, f) (ground arith)
test_bit-shl a (suc k) zero = ground (arith, shl-suc a k)
test_bit-shl a (suc k) (suc i) =
    let half : shl a (suc k) / 2 ≡ shl a k = omega (arith, shl-suc a k) in
    let less : suc i - suc k ≡ i - k = omega arith in
    rw (half, less) (ground (arith, test_bit-shl a k i))

-- `(1 << n) - 1`
abbrev pub low_mask : ℕ → ℕ
low_mask n = shl 1 n - 1

shl_pos : (n : ℕ) → 0 < shl 1 n
shl_pos n = omega (arith, one-le-pow n 2 (omega arith))

pub test_bit-low_mask : (n i : ℕ) → test_bit (low_mask n) i ≡ ltb i n
unfolding test_bit
test_bit-low_mask zero i = rw zero-test_bit (ground arith)
test_bit-low_mask (suc n) zero = ground (arith, shl-suc 1 n, shl_pos n)
test_bit-low_mask (suc n) (suc i) =
    let half : low_mask (suc n) / 2 ≡ low_mask n = omega (arith, shl-suc 1 n, shl_pos n) in
    rw half (ground (arith, test_bit-low_mask n i))

-- a number with a bit set is not zero
pub ne-zero_of_test_bit : (n i : ℕ) → test_bit n i ≡ true → 0 < n
unfolding test_bit
ne-zero_of_test_bit zero i h = cc (zero-test_bit i)
ne-zero_of_test_bit (suc n) i h = omega arith

zero_of_test_bits_fuel : (k n : ℕ) → n ≤ k → ((i : ℕ) → test_bit n i ≡ false) → n ≡ 0
unfolding test_bit
zero_of_test_bits_fuel zero n le h = omega arith
zero_of_test_bits_fuel (suc k) zero le h = refl
zero_of_test_bits_fuel (suc k) (suc n) le h =
    let half : suc n / 2 ≡ 0 =
      zero_of_test_bits_fuel k (suc n / 2) (omega arith) (λ i. h (suc i)) in
    ground (arith, h 0)

-- a number with no bit set is zero
pub zero_of_test_bits : (n : ℕ) → ((i : ℕ) → test_bit n i ≡ false) → n ≡ 0
zero_of_test_bits n h = zero_of_test_bits_fuel n n (omega arith) h

pub test_bit-one : (i : ℕ) → test_bit 1 i ≡ nat_beq i 0
unfolding test_bit
test_bit-one zero = refl
test_bit-one (suc i) = rw zero-test_bit (ground arith)

-- `1 << k` has the one bit `k`
pub test_bit-shl_one : (k i : ℕ) → test_bit (shl 1 k) i ≡ nat_beq i k
test_bit-shl_one k i = rw test_bit-shl (ground (arith, test_bit-one (i - k)))

other_bit : (a k i : ℕ) → test_bit a k ≡ false → (test_bit a i && nat_beq i k) ≡ false
other_bit a k i clear = elim (Bool-cases (nat_beq i k)) [
  | inl same ↦ rw ((nat_beq_iff i k).0 same, clear) refl
  | inr differ ↦ rw differ (ground arith)
]

-- `bool(a & (1 << k))` reads bit `k`
pub ltb-bit_and-shl : (a k : ℕ) → ltb 0 (bit_and a (shl 1 k)) ≡ test_bit a k
ltb-bit_and-shl a k = elim (Bool-cases (test_bit a k)) [
  | inl set ↦
      let one : test_bit (bit_and a (shl 1 k)) k ≡ true =
        rw (test_bit-bit_and, test_bit-shl_one, set) (ground arith) in
      rw set (lt→ltb _ _ (ne-zero_of_test_bit _ k one))
  | inr clear ↦
      let empty : bit_and a (shl 1 k) ≡ 0 =
        zero_of_test_bits _
          (λ i. rw (test_bit-bit_and, test_bit-shl_one) (ground (arith, other_bit a k i clear))) in
      rw (empty, clear) (ground arith)
]
