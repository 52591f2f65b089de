-- ===== src/Prelude/Bits.antt =====
-- Machine words as numbers: the bits of a number, and how the operations on words act on them.
use Prim.Native.Nat.{
  ℕ, zero, suc, ◌+◌, ◌-◌, ◌*◌, ◌/◌, ◌%◌, ◌^◌, ◌≤◌, ◌<◌, min, max, digits, bitwise, bit_and, bit_or,
  bit_and-bitwise, bit_or-bitwise,
}
use mathlib.Core.Path.{◌≡◌, refl, ap, sym, ◌∙◌}
use mathlib.Core.Bool.{Bool, false, not, ◌&&◌, ◌||◌}
use native.Mathlib.Omega.{arith}
use vinezombie.Prelude.Tests.{◌==◌, ltb}

-- Fuel beyond the first number changes nothing.
spare_fuel :
    (base : ℕ → ℕ) (digit : ℕ → ℕ → ℕ) (extra fuel x y : ℕ)
    → x ≤ fuel
    → digits base digit (extra + fuel) x y ≡ digits base digit fuel x y
spare_fuel base digit extra zero x y h =
    let e : x ≡ 0 = omega arith in rw e (empty_digits (extra + 0))
  where
    empty_digits : (n : ℕ) → digits base digit n 0 y ≡ digits base digit 0 0 y
    empty_digits zero = refl
    empty_digits (suc n) = refl
spare_fuel base digit extra (suc fuel) zero y h =
    let e : extra + suc fuel ≡ suc (extra + fuel) = omega arith in rw e refl
spare_fuel base digit extra (suc fuel) (suc x) y h =
    let e : extra + suc fuel ≡ suc (extra + fuel) = omega arith in
    let IH = spare_fuel base digit extra fuel (suc x / 2) (y / 2) (omega arith) in rw (e, IH) refl

-- An operation on words, digit by digit, acts on the lowest digit and on the halves.
by_digit :
    (base : ℕ → ℕ) (digit : ℕ → ℕ → ℕ) (x y : ℕ)
    → base y ≡ base (y / 2) * 2 + digit 0 (y % 2)
    → bitwise base digit x y ≡ bitwise base digit (x / 2) (y / 2) * 2 + digit (x % 2) (y % 2)
by_digit base digit zero y h = h
by_digit base digit (suc x) y h =
    let e : x ≡ (x - suc x / 2) + suc x / 2 = omega arith in
    let IH = spare_fuel base digit (x - suc x / 2) (suc x / 2) (suc x / 2) (y / 2) (omega arith) in
    ap (λ (n : ℕ). digits base digit n (suc x / 2) (y / 2) * 2 + digit (suc x % 2) (y % 2)) e
    ∙ ap (λ (d : ℕ). d * 2 + digit (suc x % 2) (y % 2)) IH

bit_or-step : (a b : ℕ) → bit_or a b ≡ bit_or (a / 2) (b / 2) * 2 + max (a % 2) (b % 2)
bit_or-step a b = simp bit_or-bitwise (by_digit (λ n. n) max a b (omega arith))

bit_and-step : (a b : ℕ) → bit_and a b ≡ bit_and (a / 2) (b / 2) * 2 + min (a % 2) (b % 2)
bit_and-step a b = simp bit_and-bitwise (by_digit (λ n. 0) min a b (omega arith))

-- Bit `i` of a number.
abbrev pub test_bit : ℕ → ℕ → Bool
test_bit a zero = a % 2 == 1
test_bit a (suc i) = test_bit (a / 2) i

-- `!a` in `w` bits.
abbrev pub bit_not : ℕ → ℕ → ℕ
bit_not w a = 2 ^ w - 1 - a

bit_or-half : (a b : ℕ) → bit_or a b / 2 ≡ bit_or (a / 2) (b / 2)
bit_or-half a b = omega (arith, bit_or-step a b)

bit_and-half : (a b : ℕ) → bit_and a b / 2 ≡ bit_and (a / 2) (b / 2)
bit_and-half a b = omega (arith, bit_and-step a b)

pub test_bit-or : (a b i : ℕ) → test_bit (bit_or a b) i ≡ (test_bit a i || test_bit b i)
test_bit-or a b zero = let e = bit_or-step a b in ground arith
test_bit-or a b (suc i) = rw (bit_or-half a b) (test_bit-or (a / 2) (b / 2) i)

pub test_bit-and : (a b i : ℕ) → test_bit (bit_and a b) i ≡ (test_bit a i && test_bit b i)
test_bit-and a b zero = let e = bit_and-step a b in ground arith
test_bit-and a b (suc i) = rw (bit_and-half a b) (test_bit-and (a / 2) (b / 2) i)

bit_not-half : (w a : ℕ) → a < 2 ^ suc w → bit_not (suc w) a / 2 ≡ bit_not w (a / 2)
bit_not-half w a h = omega arith

pub test_bit-zero : (i : ℕ) → test_bit 0 i ≡ false
test_bit-zero zero = refl
test_bit-zero (suc i) = test_bit-zero i

ltb-suc : (a b : ℕ) → ltb (suc a) (suc b) ≡ ltb a b
ltb-suc a b = ground arith

pub test_bit-not :
    (w a i : ℕ) → a < 2 ^ w → test_bit (bit_not w a) i ≡ (ltb i w && not (test_bit a i))
test_bit-not zero a i h =
    let e : bit_not 0 a ≡ 0 = omega arith in let z = test_bit-zero i in rw (e, z) (ground arith)
test_bit-not (suc w) a zero h =
    let e : bit_not (suc w) a % 2 ≡ 1 - a % 2 = omega arith in ground (arith, e)
test_bit-not (suc w) a (suc i) h =
    rw (bit_not-half w a h, ltb-suc i w) (test_bit-not w (a / 2) i (omega arith))

-- Numbers with the same bits are equal.
same_bits : (n a b : ℕ) → a ≤ n → b ≤ n → ((i : ℕ) → test_bit a i ≡ test_bit b i) → a ≡ b
same_bits zero a b p q h = omega arith
same_bits (suc n) a b p q h =
    let e = same_bits n (a / 2) (b / 2) (omega arith) (omega arith) (λ i. h (suc i)) in
    let z = h 0 in ground (arith, e)

pub test_bit-extensional : (a b : ℕ) → ((i : ℕ) → test_bit a i ≡ test_bit b i) → a ≡ b
test_bit-extensional a b h = same_bits (a + b) a b (omega arith) (omega arith) h

pub test_bit-power : (k i : ℕ) → test_bit (2 ^ k) i ≡ (i == k)
test_bit-power zero zero = refl
test_bit-power zero (suc i) = rw (test_bit-zero i) (ground arith)
test_bit-power (suc k) zero = let e : 2 ^ suc k % 2 ≡ 0 = omega arith in ground (arith, e)
test_bit-power (suc k) (suc i) =
    let e : 2 ^ suc k / 2 ≡ 2 ^ k = omega arith in rw (e, test_bit-power k i) (ground arith)

bit_and_zero : (a : ℕ) → bit_and a 0 ≡ 0
bit_and_zero a =
    test_bit-extensional (bit_and a 0) 0
      (λ i. let z = test_bit-zero i in let e = test_bit-and a 0 i in ground (arith, z, e))

double-zero : (x : ℕ) → (x * 2 == 0) ≡ (x == 0)
double-zero x = ground arith

-- Masking with one bit gives zero exactly if the bit is not set.
pub bit_and-power : (a k : ℕ) → (bit_and a (2 ^ k) == 0) ≡ not (test_bit a k)
bit_and-power a zero =
    let e = bit_and-step a (2 ^ 0) in let z = bit_and_zero (a / 2) in ground (arith, e, z)
bit_and-power a (suc k) =
    let e = bit_and-step a (2 ^ suc k) in
    let half : 2 ^ suc k / 2 ≡ 2 ^ k = omega arith in
    let IH = bit_and-power (a / 2) k in
    let twice : bit_and a (2 ^ suc k) ≡ bit_and (a / 2) (2 ^ k) * 2 = e ∙ rw half (omega arith) in
    rw twice (double-zero (bit_and (a / 2) (2 ^ k)) ∙ IH)

-- A number below a power of two has no bit from the exponent on, and only such a number.
pub test_bit-lt : (w a i : ℕ) → a < 2 ^ w → w ≤ i → test_bit a i ≡ false
test_bit-lt zero a i h k = let e : a ≡ 0 = omega arith in rw e (test_bit-zero i)
test_bit-lt (suc w) a zero h k = absurd (omega arith)
test_bit-lt (suc w) a (suc i) h k = test_bit-lt w (a / 2) i (omega arith) (omega arith)

pub lt-power : (w a : ℕ) → ((i : ℕ) → w ≤ i → test_bit a i ≡ false) → a < 2 ^ w
lt-power zero a h =
    omega (arith, test_bit-extensional a 0 (λ i. h i (omega arith) ∙ sym (test_bit-zero i)))
lt-power (suc w) a h =
    let IH = lt-power w (a / 2) (λ i k. h (suc i) (omega arith)) in omega (arith, IH)
