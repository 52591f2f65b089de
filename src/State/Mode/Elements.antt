-- ===== src/State/Mode/Elements.antt =====
-- What iterating over a `ModeSet` goes through, `src/state/mode.rs`.
use Prim.Native.Nat.{bit_and, bit_or}
use vinezombie.Prelude.{
  ℕ, zero, suc, ◌+◌, ◌/◌, ◌^◌, ◌<◌, ◌≤◌, ◌≡◌, refl, sym, ap, ◌∙◌, subst, Bool, true, false, ◌&&◌,
  ◌||◌, arith, ltb, ◌==◌, and_true, and_false, or_false, Bool-cases, inl, inr, lt_or_le, List, [],
  ◌∷◌, length, some, if◌then◌else◌, test_bit, bit_not, test_bit-or, test_bit-and, test_bit-power,
  test_bit-lt, lt-power, test_bit-zero, test_bit-extensional, ==_iff, lt→ltb,
}
use vinezombie.State.Mode.{
  ModeSet, is_letter, index, new_from_index, mask, set_mode, len, count_ones, ilog2, next, elements,
  extend, from_iter,
}
use vinezombie.State.Mode.Letters.{index-new_from_index}
use vinezombie.State.Mode.Sets.{IsValid, test_bit-without}

-- The letters of the set bits below `w`, from the highest.
abbrev pub bits_down : ℕ → ℕ → List ℕ
bits_down zero a = []
bits_down (suc w) a = if test_bit a w then new_from_index w ∷ bits_down w a else bits_down w a

bits_down_cong :
    (w a b : ℕ) → ((i : ℕ) → i < w → test_bit a i ≡ test_bit b i) → bits_down w a ≡ bits_down w b
bits_down_cong zero a b h = refl
bits_down_cong (suc w) a b h =
    rw (h w (omega arith), bits_down_cong w a b (λ i k. h i (omega arith))) refl

ilog2_at : (n w a : ℕ) → w ≤ n → 2 ^ w ≤ a → a < 2 ^ suc w → ilog2 n a ≡ w
ilog2_at zero zero a p h k = refl
ilog2_at zero (suc w) a p h k = absurd (omega arith)
ilog2_at (suc n) zero a p h k = let e : a / 2 ≡ 0 = omega arith in rw e refl
ilog2_at (suc n) (suc w) a p h k =
    let e : (a / 2 == 0) ≡ false = positive (a / 2) (omega (arith, one_le w)) in
    rw (e, ilog2_at n w (a / 2) (omega arith) (omega arith) (omega arith)) refl
  where
    positive : (b : ℕ) → 0 < b → (b == 0) ≡ false
    positive b h = ground arith

    one_le : (w : ℕ) → 1 ≤ 2 ^ w
    one_le zero = omega arith
    one_le (suc w) = omega (arith, one_le w)

high_bit : (w a : ℕ) → test_bit a w ≡ true → 2 ^ w ≤ a
high_bit zero a h = ground arith
high_bit (suc w) a h = omega (arith, high_bit w (a / 2) h)

low_part : (w a : ℕ) → a < 2 ^ suc w → test_bit a w ≡ false → a < 2 ^ w
low_part zero a h k = ground arith
low_part (suc w) a h k = omega (arith, low_part w (a / 2) (omega arith) k)

-- What is left of a number without its bit `w`.
abbrev drop_bit : ℕ → ℕ → ℕ
drop_bit a w = bit_and a (bit_not 64 (2 ^ w))

drop_bit-below : (a w i : ℕ) → w < 52 → i < w → test_bit (drop_bit a w) i ≡ test_bit a i
drop_bit-below a w i h k =
    let ne : (i == w) ≡ false = apart i w k in
    test_bit-without a w i (omega arith) h ∙ rw ne (and_true (test_bit a i))
  where
    apart : (i w : ℕ) → i < w → (i == w) ≡ false
    apart i w h = ground arith

drop_bit-lt : (a w : ℕ) → w < 52 → a < 2 ^ suc w → drop_bit a w < 2 ^ w
drop_bit-lt a w h k = lt-power w (drop_bit a w) (λ i p. elim (lt_or_le w i) [
  | inl q ↦
      test_bit-and a (bit_not 64 (2 ^ w)) i ∙ rw (test_bit-lt (suc w) a i k (omega arith)) refl
  | inr q ↦
      let e : i ≡ w = omega arith in
      rw e (
        test_bit-without a w w (omega arith) h
        ∙ rw ((==_iff w w).1 refl) (and_false (test_bit a w)))
])

next_at :
    (w a : ℕ)
    → w < 52
    → a < 2 ^ suc w
    → test_bit a w ≡ true
    → next a ≡ some (new_from_index w, drop_bit a w)
unfolding next mask
next_at w a h k t =
    let p = high_bit w a t in
    let log : ilog2 64 a ≡ w = ilog2_at 64 w a (omega arith) p k in
    let z : (a == 0) ≡ false = nonzero w a p in rw (next, z, log, (index-new_from_index w h).1) refl
  where
    lt_power_self : (w : ℕ) → 0 < 2 ^ w
    lt_power_self zero = omega arith
    lt_power_self (suc w) = omega (arith, lt_power_self w)

    nonzero : (w a : ℕ) → 2 ^ w ≤ a → (a == 0) ≡ false
    nonzero w a p = let q = lt_power_self w in ground (arith, q)

elements-bits_down : (n w a : ℕ) → w ≤ n → w ≤ 52 → a < 2 ^ w → elements n a ≡ bits_down w a
unfolding elements next
elements-bits_down zero zero a p q h = refl
elements-bits_down (suc n) zero a p q h = let e : a ≡ 0 = omega arith in rw (e, elements) refl
elements-bits_down zero (suc w) a p q h = absurd (omega arith)
elements-bits_down (suc n) (suc w) a p q h = elim (Bool-cases (test_bit a w)) [
  | inl t ↦
      let IH =
        elements-bits_down n w (drop_bit a w) (omega arith) (omega arith)
          (drop_bit-lt a w (omega arith) h) in
      let same = bits_down_cong w (drop_bit a w) a (λ i k. drop_bit-below a w i (omega arith) k) in
      rw (elements, next_at w a (omega arith) h t, t, IH, same) refl
  | inr t ↦ rw t (elements-bits_down (suc n) w a (omega arith) (omega arith) (low_part w a h t))
]

-- The letters go down in index.
abbrev pub Descends : ℕ → List ℕ → Type 0
Descends bound [] = Unit
Descends bound (m ∷ ms) = (is_letter m ≡ true) × (index m < bound) × Descends (index m) ms

Descends-weaken : (b c : ℕ) (ms : List ℕ) → b ≤ c → Descends b ms → Descends c ms
Descends-weaken b c [] p h = tt
Descends-weaken b c (m ∷ ms) p (hl, hi, h) = (hl, omega arith, h)

bits_down-Descends : (w a : ℕ) → w ≤ 52 → Descends w (bits_down w a)
bits_down-Descends zero a h = tt
bits_down-Descends (suc w) a h =
    let (hl, hi) = index-new_from_index w (omega arith) in
    let IH = bits_down-Descends w a (omega arith) in
    elim (Bool-cases (test_bit a w)) [
      | inl t ↦
          rw t (hl, omega (arith, hi), subst (λ (b : ℕ). Descends b (bits_down w a)) (sym hi) IH)
      | inr t ↦ rw t (Descends-weaken w (suc w) (bits_down w a) (omega arith) IH)
    ]

abbrev one_if : Bool → ℕ
one_if true = 1
one_if false = 0

count_ones-top : (w a : ℕ) → count_ones (suc w) a ≡ one_if (test_bit a w) + count_ones w a
count_ones-top zero a = ground arith
count_ones-top (suc w) a = omega (arith, count_ones-top w (a / 2))

bits_down-count_ones : (w a : ℕ) → length (bits_down w a) ≡ count_ones w a
bits_down-count_ones zero a = refl
bits_down-count_ones (suc w) a =
    let e = count_ones-top w a in
    let IH = bits_down-count_ones w a in
    elim (Bool-cases (test_bit a w)) [
      | inl t ↦ rw (t, IH) (sym (e ∙ rw t (omega arith)))
      | inr t ↦ rw (t, IH) (sym (e ∙ rw t (omega arith)))
    ]

count_ones_wide : (k w a : ℕ) → a < 2 ^ w → count_ones (k + w) a ≡ count_ones w a
count_ones_wide zero w a h = ap (λ (n : ℕ). count_ones n a) (omega arith)
count_ones_wide (suc k) w a h =
    let e : suc k + w ≡ suc (k + w) = omega arith in
    rw (e, count_ones-top (k + w) a, test_bit-lt w a (k + w) h (omega arith))
      (omega (arith, count_ones_wide k w a h))

-- A loop over a valid set meets letters only, with indices that strictly go down from below 52, and
-- as many as the set's length says.
pub elements-Descends :
    (s : ModeSet) → IsValid s → Descends 52 (elements 64 s) × (length (elements 64 s) ≡ len s)
unfolding len
elements-Descends s h =
    let e = elements-bits_down 64 52 s (omega arith) (omega arith) h in
    rw e (
      bits_down-Descends 52 s (omega arith),
      bits_down-count_ones 52 s ∙ sym (count_ones_wide 12 52 s h),
    )

merge_true :
    (i w : ℕ) (x y : Bool)
    → (i ≡ w → y ≡ true)
    → ((x || i == w) || (ltb i w && y)) ≡ (x || (ltb i (suc w) && y))
merge_true i w true y h = refl
merge_true i w false true h = ground arith
merge_true i w false false h = elim (Bool-cases (i == w)) [
  | inl e ↦ let k = h ((==_iff i w).0 e) in absurd (cc)
  | inr e ↦ ground arith
]

merge_false :
    (i w : ℕ) (x y : Bool)
    → (i ≡ w → y ≡ false)
    → (x || (ltb i w && y)) ≡ (x || (ltb i (suc w) && y))
merge_false i w true y h = refl
merge_false i w false false h = ground arith
merge_false i w false true h = elim (Bool-cases (i == w)) [
  | inl e ↦ let k = h ((==_iff i w).0 e) in absurd (cc)
  | inr e ↦ ground arith
]

test_bit-extend :
    (w a ms i : ℕ)
    → w ≤ 52
    → test_bit (extend ms (bits_down w a)) i ≡ (test_bit ms i || (ltb i w && test_bit a i))
unfolding extend set_mode mask
test_bit-extend zero a ms i h =
    let none_below : ltb i 0 ≡ false = ground arith in
    rw none_below (sym (or_false (test_bit ms i)))
test_bit-extend (suc w) a ms i h = elim (Bool-cases (test_bit a w)) [
  | inl t ↦
      rw (t, extend)
        (test_bit-extend w a (bit_or ms (mask (new_from_index w))) i (omega arith)
          ∙ rw
              (
                (index-new_from_index w (omega arith)).1,
                test_bit-or ms (2 ^ w) i,
                test_bit-power w i,
              )
              (merge_true i w (test_bit ms i) (test_bit a i) (λ e. ap (test_bit a) e ∙ t)))
  | inr t ↦ rw t (
      test_bit-extend w a ms i (omega arith)
      ∙ merge_false i w (test_bit ms i) (test_bit a i) (λ e. ap (test_bit a) e ∙ t))
]

-- Collecting what a loop over a valid set goes through gives the set again.
pub from_iter-elements : (s : ModeSet) → IsValid s → from_iter (elements 64 s) ≡ s
unfolding from_iter
from_iter-elements s h =
    ap (extend 0) (elements-bits_down 64 52 s (omega arith) (omega arith) h)
    ∙ test_bit-extensional _ s (λ i.
      test_bit-extend 52 s 0 i (omega arith)
      ∙ rw (test_bit-zero i) (elim (lt_or_le i 52) [
        | inl k ↦ rw (lt→ltb i 52 k) refl
        | inr k ↦ rw (test_bit-lt 52 s i h k) (and_false (ltb i 52))
      ]))
