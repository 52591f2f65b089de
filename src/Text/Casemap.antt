-- ===== src/Text/Casemap.antt =====
-- The casemaps of `src/string/tf/casemap.rs`, and `map_bytes` of `src/string/tf.rs` that applies them.
pub mod Laws
use vinezombie.Prelude.{
  ℕ, ◌+◌, ◌≡◌, Bool, true, false, ◌&&◌, List, [], ◌∷◌, ◌++◌, Bytes, ◌==◌, leb, if◌then◌else◌,
  is_ascii, to_ascii_lowercase, to_ascii_uppercase, Option, none, some, take, drop,
}
use vinezombie.Text.Kinds.{Kind, any, nonul, line, word, arg, key, nick, user, cmd}

-- `Utf8Policy`, of which the casemaps use two values.
pub data Utf8Policy : Type 0 where
  preserve_strict valid : Utf8Policy

-- The first loop of `map_bytes`: the number of bytes that are mapped to themselves, the first that
-- is not as it is mapped, and `ascii_only`.
unfoldable pub scan : (ℕ → ℕ) → Bytes → Bytes × Option (ℕ × Bytes) × Bool
scan f [] = ([], none, true)
scan f (b ∷ bs) =
    let (same, found, ascii) = scan f bs in
    if f b == b
    then (b ∷ same, found, is_ascii (f b) && ascii)
    else ([], some (f b, bs), is_ascii (f b))

-- The second loop: the mapped rest, and `ascii_only`.
unfoldable pub map_rest : (ℕ → ℕ) → Bytes → Bool → Bytes × Bool
map_rest f [] ascii = ([], ascii)
map_rest f (b ∷ bs) ascii =
    let (mapped, all) = map_rest f bs (ascii && is_ascii (f b)) in (f b ∷ mapped, all)

abbrev pub policy : Bool → Utf8Policy → Utf8Policy
policy ascii utf8 = if ascii then valid else utf8

-- A borrowed string if no byte is changed.
abbrev pub replaced :
    (ℕ → ℕ) → Bytes → Utf8Policy → Bytes × Option (ℕ × Bytes) × Bool → Bytes × Utf8Policy
replaced f bytes utf8 (same, none, ascii) = (bytes, policy ascii utf8)
replaced f bytes utf8 (same, some (replace, rest), ascii) =
    let (mapped, all) = map_rest f rest ascii in (same ++ replace ∷ mapped, policy all utf8)

unfoldable pub map_bytes : Bytes → Utf8Policy → (ℕ → ℕ) → Bytes × Utf8Policy
unfolding scan map_rest
map_bytes bytes utf8 f = replaced f bytes utf8 (scan f bytes)

-- `AsciiCasemap`; the flag is the constant `UPPERCASE`.
unfoldable pub ascii_casemap : Bool → Bytes → Bytes × Utf8Policy
unfolding map_bytes
ascii_casemap true bs = map_bytes bs preserve_strict to_ascii_uppercase
ascii_casemap false bs = map_bytes bs preserve_strict to_ascii_lowercase

pub data IrcCasemap : Type 0 where
  ascii rfc1459_strict rfc1459 : IrcCasemap

unfoldable pub lower_rfc1459_strict : ℕ → ℕ
lower_rfc1459_strict b = if leb b'[' b && leb b b']' then b + 32 else to_ascii_lowercase b

unfoldable pub lower_rfc1459 : ℕ → ℕ
unfolding lower_rfc1459_strict
lower_rfc1459 b = if b == b'~' then b'^' else lower_rfc1459_strict b

unfoldable pub irc_casemap : IrcCasemap → Bytes → Bytes × Utf8Policy
unfolding map_bytes lower_rfc1459 lower_rfc1459_strict
irc_casemap ascii bs = map_bytes bs preserve_strict to_ascii_lowercase
irc_casemap rfc1459_strict bs = map_bytes bs preserve_strict lower_rfc1459_strict
irc_casemap rfc1459 bs = map_bytes bs preserve_strict lower_rfc1459

-- The string types that `IrcCasemap` is marked safe for.
abbrev pub irc_safe : Kind → Bool
irc_safe cmd = false
irc_safe _ = true
