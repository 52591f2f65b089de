-- ===== src/State/Types.antt =====
-- `ModeType` and `ModeTypes` of `src/state/mode.rs`, with the part of `ServerChanModes` that reads a
-- `CHANMODES` token.
pub mod Lookup
pub mod Coherent
pub mod Overlap
pub mod Parsing
use vinezombie.Prelude.{
  ℕ, zero, suc, Bool, true, false, Option, none, some, List, [], ◌∷◌, ◌++◌, Bytes, ◌==◌,
  if◌then◌else◌,
}
use vinezombie.State.Mode.{
  ModeSet, empty, new_mode, set_mode, unset_mode, contains, union, intersection, difference,
  elements, is_empty,
}

pub data ModeType : Type 0 where
  type_a type_b type_c type_d status : ModeType

unfoldable pub index : ModeType → ℕ
index type_a = 0
index type_b = 1
index type_c = 2
index type_d = 3
index status = 4

unfoldable pub is_listlike : ModeType → Bool
is_listlike type_a = true
is_listlike status = true
is_listlike _ = false

unfoldable pub needs_arg_to_set : ModeType → Bool
needs_arg_to_set type_d = false
needs_arg_to_set _ = true

unfoldable pub needs_arg_to_unset : ModeType → Bool
needs_arg_to_unset type_a = true
needs_arg_to_unset type_b = true
needs_arg_to_unset status = true
needs_arg_to_unset _ = false

-- The array of four sets.
pub record ModeTypes : Type 0 where
  pub set_a : ModeSet
  pub set_b : ModeSet
  pub set_c : ModeSet
  pub set_d : ModeSet

abbrev pub new : ModeTypes
new = record { set_a = empty; set_b = empty; set_c = empty; set_d = empty }

unfoldable pub from_set : ModeSet → ModeType → ModeTypes
from_set set type_a = record new { set_a = set }
from_set set type_b = record new { set_b = set }
from_set set type_c = record new { set_c = set }
from_set set type_d = record new { set_d = set }
from_set set status = new

unfoldable pub overlap : ModeSet → ModeSet → ModeSet → ModeSet → ModeSet
unfolding union intersection
overlap a b c d =
    union
      (union (union (union (intersection a b) (intersection b c)) (intersection c d))
        (intersection b d))
      (intersection c d)

unfoldable pub from_sets : ModeSet → ModeSet → ModeSet → ModeSet → ModeTypes × ModeSet
unfolding overlap difference
from_sets a b c d =
    let both = overlap a b c d in
    (
      record {
        set_a = difference a both;
        set_b = difference b both;
        set_c = difference c both;
        set_d = difference d both;
      },
      both,
    )

-- The test of `get` at one of the four indices, and the tests that follow.
abbrev pub or_type : ModeSet → ℕ → ModeType → Option ModeType → Option ModeType
or_type set mode t rest = if contains set mode then some t else rest

unfoldable pub get : ModeTypes → ℕ → Option ModeType
unfolding contains
get ts mode = or_type ts.set_d mode type_d (
    or_type ts.set_a mode type_a (or_type ts.set_b mode type_b (or_type ts.set_c mode type_c none)))

-- One round of the loop of `insert`, and of that of `insert_set`.
abbrev pub insert_at : ℕ → ℕ → ℕ → ModeSet → ModeSet
insert_at idx i mode set = if idx == i then (set_mode set mode).1 else (unset_mode set mode).1

abbrev pub insert_set_at : ℕ → ℕ → ModeSet → ModeSet → ModeSet
insert_set_at idx i modes set = if idx == i then union set modes else difference set modes

unfoldable pub insert : ModeTypes → ℕ → ModeType → ModeTypes
unfolding index set_mode unset_mode
insert ts mode t = record {
  set_a = insert_at 0 (index t) mode ts.set_a;
  set_b = insert_at 1 (index t) mode ts.set_b;
  set_c = insert_at 2 (index t) mode ts.set_c;
  set_d = insert_at 3 (index t) mode ts.set_d;
}

unfoldable pub insert_set : ModeTypes → ModeSet → ModeType → ModeTypes
unfolding index union difference
insert_set ts modes t = record {
  set_a = insert_set_at 0 (index t) modes ts.set_a;
  set_b = insert_set_at 1 (index t) modes ts.set_b;
  set_c = insert_set_at 2 (index t) modes ts.set_c;
  set_d = insert_set_at 3 (index t) modes ts.set_d;
}

-- A byte of a `CHANMODES` value, added to a set.
abbrev pub add_mode : Option ℕ → ModeSet → ModeSet
add_mode none set = set
add_mode (some m) set = (set_mode set m).1

-- The set that `set` borrows, changed: the one at the index of the loop.
abbrev pub at : ℕ → (ModeSet → ModeSet) → ModeTypes → ModeTypes
at zero f sets = record sets { set_a = f (sets.set_a) }
at (suc zero) f sets = record sets { set_b = f (sets.set_b) }
at (suc (suc zero)) f sets = record sets { set_c = f (sets.set_c) }
at (suc (suc (suc n))) f sets = record sets { set_d = f (sets.set_d) }

-- The loop of `parse`: the bytes to come, how far `set_iter` has gone, and `sets`.
unfoldable pub parse_loop : Bytes → ℕ → ModeTypes → ModeTypes × Bytes
unfolding new_mode set_mode
parse_loop [] i sets = (sets, [])
parse_loop (byte ∷ bytes) i sets = elim (byte == b',') [
  | true ↦ elim (i == 3) [ true ↦ (sets, bytes) | false ↦ parse_loop bytes (suc i) sets ]
  | false ↦ parse_loop bytes i (at i (add_mode (new_mode byte)) sets)
]

unfoldable pub parse : Bytes → ModeTypes × ModeSet × Bytes
unfolding parse_loop from_sets
parse bytes =
    let (sets, rest) = parse_loop bytes 0 new in
    let (types, both) = from_sets sets.set_a sets.set_b sets.set_c sets.set_d in (types, both, rest)

-- `Display` of a set and of the four sets.
abbrev pub display_set : ModeSet → Bytes
display_set s = elements 64 s

unfoldable pub display : ModeTypes → Bytes
unfolding elements
display ts =
    display_set ts.set_a
    ++ b',' ∷ (display_set ts.set_b ++ b',' ∷ (display_set ts.set_c ++ b',' ∷ display_set ts.set_d))

-- The loop of `ServerChanModes::from_isupport` over the rest of a `CHANMODES` value, and the set that is
-- left at its end.
unfoldable pub extra_loop : Bytes → ModeSet → List ModeSet → List ModeSet
unfolding new_mode set_mode is_empty
extra_loop [] set extra = if is_empty set then extra else extra ++ set ∷ []
extra_loop (byte ∷ bytes) set extra = elim (byte == b',') [
  | true ↦ extra_loop bytes empty (extra ++ set ∷ [])
  | false ↦ extra_loop bytes (add_mode (new_mode byte) set) extra
]

-- The nonstatus modes, the overlap and the extra sets of `from_isupport`, from the token's value.
unfoldable pub chanmodes : Option Bytes → ModeTypes × ModeSet × List ModeSet
unfolding parse extra_loop
chanmodes none = (new, empty, [])
chanmodes (some raw) =
    let (types, both, rest) = parse raw in (types, both, extra_loop rest empty [])
