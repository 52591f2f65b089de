-- ===== src/Ircmsg/Tags.antt =====
-- `Tags` of `src/ircmsg/tags.rs`: message tags in a `FlatMap` ordered by key.
pub mod RoundTrip
pub mod Stuck
pub mod Edit
use Prim.Native.Nat.{Ordering, compare}
use vinezombie.Prelude.{
  ℕ, zero, suc, ◌≡◌, Bool, true, false, Option, none, some, List, [], ◌∷◌, ◌++◌, Bytes, ◌==◌,
  if◌then◌else◌,
}
use vinezombie.Text.Kinds.{InvalidString, Kind, key, nonul, Result, ok, err}
use vinezombie.Text.Splitter.{
  Splitter, new, is_empty, string, consume_invalid, next_byte, rest_or_default, until_byte_eq,
  save_end,
}
use vinezombie.Text.Escape.{escape, unescape}
use vinezombie.Util.FlatMap.{from_vec, IsSorted}

-- A tag is its key and its value, which is empty for a tag without one.
abbrev pub Tag : Type 0
Tag = Bytes × Bytes

abbrev pub Tags : Type 0
Tags = List Tag

-- The order of slices: lexicographic by bytes.
abbrev pub then_compare : Ordering → Ordering → Ordering
then_compare Ordering.eq o = o
then_compare Ordering.lt o = Ordering.lt
then_compare Ordering.gt o = Ordering.gt

unfoldable pub compare_bytes : Bytes → Bytes → Ordering
compare_bytes [] [] = Ordering.eq
compare_bytes [] (y ∷ ys) = Ordering.lt
compare_bytes (x ∷ xs) [] = Ordering.gt
compare_bytes (x ∷ xs) (y ∷ ys) = then_compare (compare x y) (compare_bytes xs ys)

abbrev pub tag_key : Tag → Bytes
tag_key t = t.0

-- `Tags::write_to`: the bytes that are written; the number is `prefix`.
abbrev pub value_text : Bytes → Bytes
value_text [] = []
value_text (c ∷ cs) = b'=' ∷ escape (c ∷ cs)

unfoldable pub write_from : ℕ → Tags → Bytes
write_from prefix [] = []
write_from prefix ((k, v) ∷ ts) = prefix ∷ (k ++ (value_text v ++ write_from b';' ts))

unfoldable pub write_tags : Tags → Bytes
unfolding write_from
write_tags ts = write_from b'@' ts

-- `splitter.save_end().until_byte_eq(b';').rest::<NoNul>()`
abbrev pub value_part : Splitter → Bytes × Splitter
value_part = save_end (λ t. rest_or_default nonul (until_byte_eq b';' t))

-- The value behind the byte that follows the key, given `splitter.next_byte()`.
abbrev pub parse_value : Option ℕ × Splitter → Bytes × Splitter
parse_value (none, s) = ([], s)
parse_value (some c, s) = elim (c == b'=') [
  | true ↦ let (v, t) = value_part s in (unescape v, (next_byte t).1)
  | false ↦ ([], s)
]

-- One round of the loop, on what `splitter.string::<Key>(false)` returned.
abbrev pub parse_round :
    Result InvalidString Bytes × Splitter → Tags → (Splitter → Tags → Option Tags) → Option Tags
parse_round (err e, s) tags loop = loop (consume_invalid key s) tags
parse_round (ok k, s) tags loop =
    let (v, t) = parse_value (next_byte s) in loop t (tags ++ (k, v) ∷ [])

-- The loop with fuel: `none` means that it is still running.
unfoldable pub parse_loop : ℕ → Splitter → Tags → Option Tags
parse_loop zero s tags = none
parse_loop (suc fuel) s tags =
    let round = parse_round (string key false s) tags (parse_loop fuel) in
    if is_empty s then some tags else round

-- `Tags::parse`.
unfoldable pub parse_tags : ℕ → Bytes → Option Tags
unfolding parse_loop
parse_tags fuel [] = some []
parse_tags fuel (c ∷ cs) = elim (parse_loop fuel (new (c ∷ cs) false) []) [
  | none ↦ none
  | some tags ↦ some (from_vec tag_key compare_bytes tags)
]
