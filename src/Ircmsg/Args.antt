-- ===== src/Ircmsg/Args.antt =====
-- `Args` of `src/ircmsg/args.rs`: the words of a message and an optional long last argument.
pub mod RoundTrip
pub mod Sound
pub mod Edit
use vinezombie.Prelude.{
  ◌&&◌, ℕ, zero, suc, ◌+◌, ◌≡◌, Bool, true, false, not, Option, none, some, List, [], ◌∷◌, ◌++◌,
  Bytes, length, ◌==◌, if◌then◌else◌,
}
use vinezombie.Text.Kinds.{
  InvalidString, colon, Kind, arg, line, Result, ok, err, find_invalid, IsValid as IsKind,
}
use vinezombie.Text.Splitter.{Splitter, new, consume_whitespace, string, next_byte, rest_or_default}

pub record Args : Type 0 where
  pub words : List Bytes
  pub long : Option Bytes

abbrev pub is_some {ℓ} : {A : Type ℓ} → Option A → Bool
is_some none = false
is_some (some a) = true

-- `Args::empty`, and `clear`.
abbrev pub empty_args : Args
empty_args = record { words = []; long = none }

-- `add_impl`: the arguments with `s` added, and the long argument that it displaced.
unfoldable pub add : Args → Bytes → Args × Option Bytes
add a s = elim (find_invalid arg s) [
  | some e ↦ (record { words = a.words; long = some s }, a.long)
  | none ↦ (record { words = a.words ++ s ∷ []; long = none }, a.long)
]

-- `Args::new`.
unfoldable pub new_args : List Bytes → Option Bytes → Args
unfolding add
new_args words none = record { words = words; long = none }
new_args words (some last) = (add (record { words = words; long = none }) last).0

unfoldable pub add_word : Args → Bytes → Args
add_word a w = record a { words = a.words ++ w ∷ [] }

-- `mem::swap(&mut s, last)` and `push(s)`: `w` goes in front of the last word, if there is one.
abbrev pub insert_before_last : Bytes → List Bytes → List Bytes
insert_before_last w [] = w ∷ []
insert_before_last w (x ∷ []) = w ∷ x ∷ []
insert_before_last w (x ∷ y ∷ ws) = x ∷ insert_before_last w (y ∷ ws)

unfoldable pub add_before_last : Args → Bytes → Args
add_before_last a w = elim a.long [
  | none ↦ record a { words = insert_before_last w a.words }
  | some l ↦ record a { words = a.words ++ w ∷ [] }
]

-- `Args::set`.
unfoldable pub set_args : List Bytes → Option Bytes → Args
set_args words none = record { words = words; long = none }
set_args words (some last) = elim (find_invalid arg last) [
  | none ↦ record { words = words ++ last ∷ []; long = none }
  | some e ↦ record { words = words; long = some last }
]

unfoldable pub is_empty : Args → Bool
is_empty a = length a.words == 0 && not (is_some a.long)

unfoldable pub args_len : Args → ℕ
args_len a = length a.words + (if is_some a.long then 1 else 0)

unfoldable pub words_bytes : List Bytes → ℕ
words_bytes [] = 0
words_bytes (w ∷ ws) = length w + 1 + words_bytes ws

unfoldable pub len_bytes : Args → ℕ
unfolding words_bytes
len_bytes a = elim a.long [
  | none ↦ words_bytes a.words
  | some l ↦ words_bytes a.words + (length l + 1)
]

unfoldable pub is_last_long : Args → Bool
is_last_long a = is_some a.long

unfoldable pub all : Args → Option (List Bytes)
all a = if is_some a.long then none else some a.words

-- A list without its last element, and that element.
abbrev pub unsnoc : List Bytes → List Bytes × Option Bytes
unsnoc [] = ([], none)
unsnoc (w ∷ []) = ([], some w)
unsnoc (w ∷ x ∷ ws) = (w ∷ (unsnoc (x ∷ ws)).0, (unsnoc (x ∷ ws)).1)

unfoldable pub split_last : Args → List Bytes × Option Bytes
split_last a = elim a.long [ some l ↦ (a.words, some l) | none ↦ unsnoc a.words ]

-- One round of the loop of `Args::parse`, on what `line.string::<Arg>(false)` returned.
abbrev pub parse_round :
    Result InvalidString Bytes × Splitter
    → List Bytes
    → (Splitter → List Bytes → Option Args)
    → Option Args
parse_round (ok w, s) words loop = loop s (words ++ w ∷ [])
parse_round (err colon, s) words loop =
    some (add (record { words = words; long = none }) (rest_or_default line (next_byte s).1).0).0
parse_round (err e, s) words loop = some (record { words = words; long = none })

-- `none` means that the fuel ran out.
unfoldable pub parse_loop : ℕ → Splitter → List Bytes → Option Args
unfolding add
parse_loop zero s words = none
parse_loop (suc fuel) s words =
    parse_round (string arg false (consume_whitespace s)) words (parse_loop fuel)

unfoldable pub parse : Bytes → Option Args
unfolding parse_loop
parse l = parse_loop (suc (length l)) (new l false) []

abbrev pub ArgWords : List Bytes → Type 0
ArgWords [] = Unit
ArgWords (w ∷ ws) = IsKind arg w × ArgWords ws

-- A long argument is one that could not be a word.
abbrev pub IsLong : Option Bytes → Type 0
IsLong none = Unit
IsLong (some l) = IsKind line l × (e : InvalidString) × (find_invalid arg l ≡ some e)

-- The invariant that the type's documentation states: only the last argument may be longer than
-- one word.
pub record IsValid (a : Args) : Type 0 where
  pub words_valid : ArgWords a.words
  pub long_valid : IsLong a.long
