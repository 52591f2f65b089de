-- ===== src/State/Mode/Sets.antt =====
-- The operations of `ModeSet`, `src/state/mode.rs`, as operations on sets of letters.
use Prim.Native.Nat.{bit_and, bit_or}
use vinezombie.Prelude.{
  ℕ, ◌^◌, ◌<◌, ◌≡◌, refl, sym, ap, ◌∙◌, Bool, true, false, not, ◌&&◌, ◌||◌, arith, ◌==◌, Bool-cases,
  subst, lt_or_le, inl, inr, test_bit, bit_not, test_bit-or, test_bit-and, test_bit-not,
  test_bit-power, test_bit-lt, lt-power, bit_and-power, test_bit-extensional, ==_iff, lt→ltb,
}
use vinezombie.State.Mode.{
  ModeSet, is_letter, index, new_from_index, mask, with_mode, set_mode, unset_mode, contains, union,
  intersection, difference,
}
use vinezombie.State.Mode.Letters.{new_from_index-index, index-new_from_index}

-- The guarantee of `ModeSet`: the bits are those of letters.
abbrev pub IsValid : ModeSet → Type 0
IsValid s = s < 2 ^ 52

pub contains-test_bit : (s m : ℕ) → contains s m ≡ test_bit s (index m)
unfolding contains mask
contains-test_bit s m = ap not (bit_and-power s (index m)) ∙ twice (test_bit s (index m))
  where
    twice : (b : Bool) → not (not b) ≡ b
    twice true = refl
    twice false = refl

same_test : (a b c d : ℕ) → (a ≡ b → c ≡ d) → (c ≡ d → a ≡ b) → (a == b) ≡ (c == d)
same_test a b c d f g = elim (Bool-cases (a == b)) [
  | inl e ↦ let h = f ((==_iff a b).0 e) in ground arith
  | inr e ↦ elim (Bool-cases (c == d)) [
    | inl k ↦ let h = g ((==_iff c d).0 k) in ground arith
    | inr k ↦ e ∙ sym k
  ]
]

index_eq : (x m : ℕ) → is_letter x ≡ true → is_letter m ≡ true → (index x == index m) ≡ (x == m)
index_eq x m hx hm =
    let ex = new_from_index-index x hx in
    let em = new_from_index-index m hm in
    let inj : index x ≡ index m → x ≡ m = λ e. sym ex.1 ∙ ap new_from_index e ∙ em.1 in
    same_test (index x) (index m) x m inj (λ e. ap index e)

power_lt : (k : ℕ) → k < 52 → 2 ^ k < 2 ^ 64
power_lt k h = lt-power 64 (2 ^ k) (λ i p. test_bit-power k i ∙ ne k i (omega arith))
  where
    ne : (k i : ℕ) → k < i → (i == k) ≡ false
    ne k i h = ground arith

pub test_bit-without :
    (s k i : ℕ)
    → i < 64
    → k < 52
    → test_bit (bit_and s (bit_not 64 (2 ^ k))) i ≡ (test_bit s i && not (i == k))
test_bit-without s k i hi hk =
    test_bit-and s (bit_not 64 (2 ^ k)) i
    ∙ rw (test_bit-not 64 (2 ^ k) i (power_lt k hk), test_bit-power k i, lt→ltb i 64 hi) refl

test_bit-difference :
    (s b i : ℕ)
    → i < 64
    → b < 2 ^ 64
    → test_bit (bit_and s (bit_not 64 b)) i ≡ (test_bit s i && not (test_bit b i))
test_bit-difference s b i hi hb =
    test_bit-and s (bit_not 64 b) i ∙ rw (test_bit-not 64 b i hb, lt→ltb i 64 hi) refl

-- A single operation on a set.
pub data SetOp : Type 0 where
  with_op set_op unset_op : ℕ → SetOp
  union_op intersection_op difference_op : ModeSet → SetOp

abbrev pub apply : SetOp → ModeSet → ModeSet
apply (with_op m) s = with_mode s m
apply (set_op m) s = (set_mode s m).1
apply (unset_op m) s = (unset_mode s m).1
apply (union_op b) s = union s b
apply (intersection_op b) s = intersection s b
apply (difference_op b) s = difference s b

-- The operand is a letter or a valid set.
abbrev pub Operand : SetOp → Type 0
Operand (with_op m) = is_letter m ≡ true
Operand (set_op m) = is_letter m ≡ true
Operand (unset_op m) = is_letter m ≡ true
Operand (union_op b) = IsValid b
Operand (intersection_op b) = IsValid b
Operand (difference_op b) = IsValid b

-- What the operation is on a set of letters, given by its characteristic function.
abbrev pub meaning : SetOp → (ℕ → Bool) → ℕ → Bool
meaning (with_op m) p x = p x || x == m
meaning (set_op m) p x = p x || x == m
meaning (unset_op m) p x = p x && not (x == m)
meaning (union_op b) p x = p x || contains b x
meaning (intersection_op b) p x = p x && contains b x
meaning (difference_op b) p x = p x && not (contains b x)

wide : (s : ModeSet) → IsValid s → s < 2 ^ 64
wide s h = omega arith

or-IsValid : (a b : ℕ) → IsValid a → IsValid b → IsValid (bit_or a b)
or-IsValid a b ha hb =
    lt-power 52 (bit_or a b)
      (λ i p. test_bit-or a b i ∙ rw (test_bit-lt 52 a i ha p, test_bit-lt 52 b i hb p) refl)

and-IsValid : (a b : ℕ) → IsValid a → IsValid (bit_and a b)
and-IsValid a b ha =
    lt-power 52 (bit_and a b) (λ i p. test_bit-and a b i ∙ rw (test_bit-lt 52 a i ha p) refl)

power-IsValid : (k : ℕ) → k < 52 → IsValid (2 ^ k)
power-IsValid k h = lt-power 52 (2 ^ k) (λ i p. test_bit-power k i ∙ ne k i (omega arith))
  where
    ne : (k i : ℕ) → k < i → (i == k) ≡ false
    ne k i h = ground arith

pub index_lt : (m : ℕ) → is_letter m ≡ true → index m < 52
index_lt m h = (new_from_index-index m h).0

set-bits :
    (s m x : ℕ)
    → is_letter m ≡ true
    → is_letter x ≡ true
    → contains (bit_or s (2 ^ index m)) x ≡ (contains s x || x == m)
set-bits s m x hm hx =
    contains-test_bit (bit_or s (2 ^ index m)) x
    ∙ test_bit-or s (2 ^ index m) (index x)
    ∙ rw (test_bit-power (index m) (index x), index_eq x m hx hm, contains-test_bit s x) refl

unset-bits :
    (s m x : ℕ)
    → is_letter m ≡ true
    → is_letter x ≡ true
    → contains (bit_and s (bit_not 64 (2 ^ index m))) x ≡ (contains s x && not (x == m))
unset-bits s m x hm hx =
    contains-test_bit (bit_and s (bit_not 64 (2 ^ index m))) x
    ∙ test_bit-without s (index m) (index x) (omega (arith, index_lt x hx)) (index_lt m hm)
    ∙ rw (index_eq x m hx hm, contains-test_bit s x) refl

-- Each operation on a valid set gives a valid set, and the set of letters that it has is the result of
-- the abstract operation on the sets of letters.
pub apply-meaning :
    (op : SetOp) (s : ModeSet)
    → Operand op
    → IsValid s
    → IsValid (apply op s)
      × ((x : ℕ) → is_letter x ≡ true → contains (apply op s) x ≡ meaning op (contains s) x)
unfolding with_mode set_mode unset_mode mask union intersection difference
apply-meaning (with_op m) s ho hs = (
  or-IsValid s (2 ^ index m) hs (power-IsValid (index m) (index_lt m ho)),
  λ x hx. set-bits s m x ho hx,
)
apply-meaning (set_op m) s ho hs = (
  or-IsValid s (2 ^ index m) hs (power-IsValid (index m) (index_lt m ho)),
  λ x hx. set-bits s m x ho hx,
)
apply-meaning (unset_op m) s ho hs =
    (and-IsValid s (bit_not 64 (2 ^ index m)) hs, λ x hx. unset-bits s m x ho hx)
apply-meaning (union_op b) s ho hs = (
  or-IsValid s b hs ho,
  λ x hx.
      contains-test_bit (bit_or s b) x
      ∙ test_bit-or s b (index x)
      ∙ rw (contains-test_bit s x, contains-test_bit b x) refl,
)
apply-meaning (intersection_op b) s ho hs = (
  and-IsValid s b hs,
  λ x hx.
      contains-test_bit (bit_and s b) x
      ∙ test_bit-and s b (index x)
      ∙ rw (contains-test_bit s x, contains-test_bit b x) refl,
)
apply-meaning (difference_op b) s ho hs = (
  and-IsValid s (bit_not 64 b) hs,
  λ x hx.
      contains-test_bit (bit_and s (bit_not 64 b)) x
      ∙ test_bit-difference s b (index x) (omega (arith, index_lt x hx)) (wide b ho)
      ∙ rw (contains-test_bit s x, contains-test_bit b x) refl,
)

-- Valid sets with the same letters are equal.
pub contains-extensional :
    (a b : ModeSet)
    → IsValid a
    → IsValid b
    → ((x : ℕ) → is_letter x ≡ true → contains a x ≡ contains b x)
    → a ≡ b
contains-extensional a b ha hb h = test_bit-extensional a b (λ i. elim (lt_or_le i 52) [
  | inl e ↦
      let (hl, hi) = index-new_from_index i e in
      subst (λ (j : ℕ). test_bit a j ≡ test_bit b j) hi
        (sym (contains-test_bit a (new_from_index i))
          ∙ h (new_from_index i) hl
          ∙ contains-test_bit b (new_from_index i))
  | inr e ↦ test_bit-lt 52 a i ha e ∙ sym (test_bit-lt 52 b i hb e)
])
