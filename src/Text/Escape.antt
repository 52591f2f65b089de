-- ===== src/Text/Escape.antt =====
-- Escaping of tag values, `src/string/tf/escape.rs`.
pub mod Safe
pub mod Inverse
use vinezombie.Prelude.{
  ℕ, Bool, true, false, Option, none, some, [], ◌∷◌, ◌++◌, Bytes, take, drop, position, ◌==◌,
  if◌then◌else◌,
}

unfoldable pub unescape_byte : ℕ → ℕ
unescape_byte b =
    if b == b':'
    then b';'
    else if b == b's'
    then b' '
    else if b == b'r'
    then b'\r'
    else if b == b'n'
    then b'\n'
    else b

unfoldable pub escape_byte : ℕ → Option ℕ
escape_byte b =
    if b == b';'
    then some b':'
    else if b == b' '
    then some b's'
    else if b == b'\r'
    then some b'r'
    else if b == b'\n'
    then some b'n'
    else if b == b'\\'
    then some b'\\'
    else none

abbrev pub is_some : Option ℕ → Bool
is_some none = false
is_some (some b) = true

-- `escape_byte(c).is_some()`
unfoldable pub needs_escape : ℕ → Bool
unfolding escape_byte
needs_escape b = is_some (escape_byte b)

-- What the loop pushes for one byte, given its escape code.
abbrev pub pushed : ℕ → Option ℕ → Bytes
pushed b none = b ∷ []
pushed b (some e) = b'\\' ∷ e ∷ []

unfoldable pub escape_loop : Bytes → Bytes → Bytes
unfolding escape_byte
escape_loop out [] = out
escape_loop out (b ∷ bs) = escape_loop (out ++ pushed b (escape_byte b)) bs

-- The part from the first byte to escape on; that byte is escaped before the loop.
abbrev pub escape_rest : Bytes → Bytes → Bytes
escape_rest out [] = out
escape_rest out (b ∷ bs) = escape_loop (out ++ pushed b (escape_byte b)) bs

abbrev pub escape_at : Bytes → Option ℕ → Bytes
escape_at bs none = bs
escape_at bs (some i) = escape_rest (take i bs) (drop i bs)

unfoldable pub escape : Bytes → Bytes
unfolding needs_escape escape_loop
escape bs = escape_at bs (position needs_escape bs)

-- The loop with its flag `esc`.
unfoldable pub unescape_loop : Bytes → Bool → Bytes → Bytes
unfolding unescape_byte
unescape_loop out esc [] = out
unescape_loop out true (b ∷ bs) = unescape_loop (out ++ unescape_byte b ∷ []) false bs
unescape_loop out false (b ∷ bs) = elim (b == b'\\') [
  | true ↦ unescape_loop out true bs
  | false ↦ unescape_loop (out ++ b ∷ []) false bs
]

-- The part from the first backslash on. `unescape_byte` is applied to that backslash itself.
abbrev pub unescape_rest : Bytes → Bytes → Bytes
unescape_rest out [] = out
unescape_rest out (b ∷ bs) = unescape_loop (out ++ unescape_byte b ∷ []) false bs

abbrev pub unescape_at : Bytes → Option ℕ → Bytes
unescape_at bs none = bs
unescape_at bs (some i) = unescape_rest (take i bs) (drop i bs)

unfoldable pub unescape : Bytes → Bytes
unfolding unescape_loop
unescape bs = unescape_at bs (position (λ c. c == b'\\') bs)
