-- ===== src/State/Mode.antt =====
-- `Mode`, `ModeSet` and `ModeSetIter` of `src/state/mode.rs`. A mode is its letter, and a set of modes
-- is its `u64`.
pub mod Letters
pub mod Sets
pub mod Changes
pub mod Elements
use Prim.Native.Nat.{compare, bit_and, bit_or}
use vinezombie.Prelude.{
  ℕ, zero, suc, ◌+◌, ◌-◌, ◌*◌, ◌/◌, ◌%◌, ◌^◌, ◌<◌, ◌≡◌, Bool, true, false, not, ◌&&◌, ◌||◌, Option,
  none, some, List, [], ◌∷◌, Bytes, leb, ◌==◌, if◌then◌else◌, bit_not,
}
use Prim.Native.Nat.{Ordering}

abbrev pub is_letter : ℕ → Bool
is_letter letter = leb b'a' letter && leb letter b'z' || leb b'A' letter && leb letter b'Z'

-- `Mode::new`; a mode is a letter that it accepts.
unfoldable pub new_mode : ℕ → Option ℕ
new_mode letter = if is_letter letter then some letter else none

-- `Mode::index`; `raw & 31` is the remainder by 32.
unfoldable pub index : ℕ → ℕ
index raw =
    let letter_id = 26 - raw % 32 in
    let case = if leb b'a' raw then 1 else 0 in letter_id * 2 + case

unfoldable pub cmp : ℕ → ℕ → Ordering
unfolding index
cmp a b = compare (index b) (index a)

unfoldable pub new_from_index : ℕ → ℕ
new_from_index i = b'A' + i % 2 * 32 + (25 - i / 2)

unfoldable pub mask : ℕ → ℕ
unfolding index
mask m = 2 ^ index m

abbrev pub ModeSet : Type 0
ModeSet = ℕ

abbrev pub empty : ModeSet
empty = 0

unfoldable pub with_mode : ModeSet → ℕ → ModeSet
unfolding mask
with_mode s m = bit_or s (mask m)

-- `ModeSet::set` and `ModeSet::unset`: whether there was a change, and the new set.
unfoldable pub set_mode : ModeSet → ℕ → Bool × ModeSet
unfolding mask
set_mode s m = let new = bit_or s (mask m) in (not (s == new), new)

unfoldable pub unset_mode : ModeSet → ℕ → Bool × ModeSet
unfolding mask
unset_mode s m = let new = bit_and s (bit_not 64 (mask m)) in (not (s == new), new)

unfoldable pub contains : ModeSet → ℕ → Bool
unfolding mask
contains s m = not (bit_and s (mask m) == 0)

unfoldable pub is_empty : ModeSet → Bool
is_empty s = s == 0

-- `count_ones` of the lowest bits.
abbrev pub count_ones : ℕ → ℕ → ℕ
count_ones zero a = 0
count_ones (suc w) a = a % 2 + count_ones w (a / 2)

unfoldable pub len : ModeSet → ℕ
len s = count_ones 64 s

unfoldable pub union : ModeSet → ModeSet → ModeSet
union s b = bit_or s b

unfoldable pub intersection : ModeSet → ModeSet → ModeSet
intersection s b = bit_and s b

unfoldable pub difference : ModeSet → ModeSet → ModeSet
difference s b = bit_and s (bit_not 64 b)

unfoldable pub partial_cmp : ModeSet → ModeSet → Option Ordering
unfolding intersection
partial_cmp s b = elim (intersection s b == s) [
  | true ↦ elim (intersection s b == b) [ true ↦ some Ordering.eq | false ↦ some Ordering.lt ]
  | false ↦ elim (intersection s b == b) [ true ↦ some Ordering.gt | false ↦ none ]
]

-- `ilog2` and `trailing_zeros` of a number that is not 0, with fuel for its bits.
abbrev pub ilog2 : ℕ → ℕ → ℕ
ilog2 zero a = 0
ilog2 (suc n) a = if a / 2 == 0 then 0 else suc (ilog2 n (a / 2))

abbrev pub trailing_zeros : ℕ → ℕ → ℕ
trailing_zeros zero a = 0
trailing_zeros (suc n) a = if a % 2 == 1 then 0 else suc (trailing_zeros n (a / 2))

-- `ModeSetIter::next` and `next_back`: the mode and the rest.
unfoldable pub next : ModeSet → Option (ℕ × ModeSet)
unfolding new_from_index mask
next s = elim (s == 0) [
  | true ↦ none
  | false ↦
      let mode = new_from_index (ilog2 64 s) in some (mode, bit_and s (bit_not 64 (mask mode)))
]

unfoldable pub next_back : ModeSet → Option (ℕ × ModeSet)
unfolding new_from_index mask
next_back s = elim (s == 0) [
  | true ↦ none
  | false ↦
      let mode = new_from_index (trailing_zeros 64 s) in
      some (mode, bit_and s (bit_not 64 (mask mode)))
]

unfoldable pub size_hint : ModeSet → ℕ × Option ℕ
size_hint s = let retval = count_ones 64 s in (retval, some retval)

-- What a loop over the set goes through, on fuel for its rounds; `Display` writes these letters.
unfoldable pub elements : ℕ → ModeSet → List ℕ
unfolding next
elements zero s = []
elements (suc n) s = elim (next s) [ none ↦ [] | some r ↦ r.0 ∷ elements n r.1 ]

-- The loop of `ModeSet::from_iter`.
unfoldable pub extend : ModeSet → List ℕ → ModeSet
unfolding set_mode
extend ms [] = ms
extend ms (m ∷ modes) = extend ((set_mode ms m).1) modes

unfoldable pub from_iter : List ℕ → ModeSet
unfolding extend
from_iter modes = extend empty modes
