-- ===== src/State/Status.antt =====
-- `StatusModes` and `ServerChanModes` of `src/state/mode.rs`.
pub mod Bijection
pub mod Parsing
use vinezombie.Prelude.{
  ℕ, zero, suc, Bool, true, false, Option, none, some, List, [], ◌∷◌, ◌++◌, Bytes, ◌==◌,
  if◌then◌else◌, is_ascii,
}
use vinezombie.Text.Kinds.{Result, ok, err}
use vinezombie.Ircmsg.Failure.{
  ParseError, invalid_field, FieldError, missing_open, empty_after_open, missing_close,
  duplicate_mode, duplicate_prefix,
}
use vinezombie.State.Mode.{ModeSet, new_mode}
use vinezombie.State.Types.{ModeType, status, ModeTypes, chanmodes, get as get_type}

abbrev pub StatusModes : Type 0
StatusModes = List (ℕ × ℕ)

-- `splitn(2, |c| *c == b')')`: the first piece, and the second if there is one.
abbrev pub add_first : ℕ → Bytes × Option Bytes → Bytes × Option Bytes
add_first c (cs, rest) = (c ∷ cs, rest)

abbrev pub split_close : Bytes → Bytes × Option Bytes
split_close [] = ([], none)
split_close (c ∷ cs) = elim (c == b')') [
  | true ↦ ([], some cs)
  | false ↦ add_first c (split_close cs)
]

-- The prefix of a round, what is left of `prefix_iter`, and `skip_prefixes`.
abbrev pub next_prefix : Bool → Bytes → ℕ × Bytes × Bool
next_prefix true ps = (0, ps, true)
next_prefix false [] = (0, [], true)
next_prefix false (p ∷ ps) = if is_ascii p then (p, ps, false) else (0, ps, true)

-- The loop over `map` that refuses duplicates.
unfoldable pub duplicate : ℕ → ℕ → StatusModes → Option FieldError
duplicate mode prefix [] = none
duplicate mode prefix ((mode_b, prefix_b) ∷ map) = elim (mode == mode_b) [
  | true ↦ some (duplicate_mode mode)
  | false ↦ elim (prefix == prefix_b) [
    | true ↦ some (duplicate_prefix prefix)
    | false ↦ duplicate mode prefix map
  ]
]

-- The loop of `parse`, on `modes`, with the state of `prefix_iter`, `skip_prefixes` and `map`.
unfoldable pub parse_loop : Bytes → Bytes → Bool → StatusModes → Result ParseError StatusModes
unfolding new_mode duplicate
parse_loop [] prefixes skip map = ok map
parse_loop (letter ∷ modes) prefixes skip map =
    let (prefix, prefixes', skip') = next_prefix skip prefixes in
    elim (new_mode letter) [
      | none ↦ parse_loop modes prefixes' skip' map
      | some mode ↦ elim (duplicate mode prefix map) [
        | none ↦ parse_loop modes prefixes' skip' (map ++ (mode, prefix) ∷ [])
        | some e ↦ err (invalid_field e)
      ]
    ]

abbrev pub with_pieces : Bytes × Option Bytes → Result ParseError StatusModes
with_pieces (modes, none) = err (invalid_field missing_close)
with_pieces (modes, some prefixes) = parse_loop modes prefixes false []

-- `splitn` has a first piece always, so `empty_after_open` is not returned.
unfoldable pub parse : Bytes → Result ParseError StatusModes
unfolding parse_loop
parse [] = err (invalid_field missing_open)
parse (c ∷ arg) =
    if c == b'(' then with_pieces (split_close arg) else err (invalid_field missing_open)

unfoldable pub contains : StatusModes → ℕ → Bool
contains [] mode = false
contains ((m, p) ∷ map) mode = elim (m == mode) [ true ↦ true | false ↦ contains map mode ]

-- `NonZeroU8::new`.
abbrev pub nonzero : ℕ → Option ℕ
nonzero zero = none
nonzero (suc n) = some (suc n)

unfoldable pub get_prefix : StatusModes → ℕ → Option ℕ
get_prefix [] mode = none
get_prefix ((m, p) ∷ map) mode = elim (m == mode) [ true ↦ nonzero p | false ↦ get_prefix map mode ]

unfoldable pub get_mode : StatusModes → ℕ → Option ℕ
get_mode [] prefix = none
get_mode ((m, p) ∷ map) prefix = elim (p == prefix) [ true ↦ some m | false ↦ get_mode map prefix ]

pub record ServerChanModes : Type 0 where
  pub nonstatus : ModeTypes
  pub status_modes : StatusModes
  pub overlap : ModeSet
  pub extra : List ModeSet

abbrev pub or_default : Result ParseError StatusModes → StatusModes
or_default (ok map) = map
or_default (err e) = []

abbrev pub parse_status : Option Bytes → StatusModes
parse_status none = []
parse_status (some raw) = or_default (parse raw)

-- `from_isupport`, on the values of the tokens `CHANMODES` and `PREFIX`, if the map has them.
unfoldable pub from_isupport : Option Bytes → Option Bytes → ServerChanModes
unfolding chanmodes parse
from_isupport chan prefix =
    let (nonstatus, overlap, extra) = chanmodes chan in
    record {
      nonstatus = nonstatus;
      status_modes = parse_status prefix;
      overlap = overlap;
      extra = extra;
    }

unfoldable pub get : ServerChanModes → ℕ → Option ModeType
unfolding contains get_type
get s mode = if contains s.status_modes mode then some status else get_type s.nonstatus mode
