-- ===== src/Ircmsg/Ctcp.antt =====
-- `MaybeCtcp` of `src/ircmsg/ctcp.rs`. A flag is what `is_utf8_lazy` says of a string.
pub mod RoundTrip
mod Tests
use vinezombie.Prelude.{
  ℕ, ◌+◌, Bool, true, false, not, ◌&&◌, Option, none, some, List, [], ◌∷◌, map, ◌==◌, if◌then◌else◌,
  Bytes, length,
}
use vinezombie.Text.Kinds.{Result, ok, err, line, word}
use vinezombie.Text.Splitter.{
  Splitter, new, next_byte, until_byte_eq, string_or_default, rest_or_default,
}
use vinezombie.Text.Casemap.{ascii_casemap}
use vinezombie.Text.Builder.{Builder, new as new_builder, append, try_append_str, build}

pub record MaybeCtcp {ℓ} (T : Type ℓ) : Type ℓ where
  pub cmd : Bytes
  pub body : T

-- `== Some(1)`
abbrev pub is_start : Option ℕ → Bool
is_start none = false
is_start (some c) = c == 1

-- What follows the leading byte.
unfoldable pub parse_rest : Splitter → MaybeCtcp Bytes
unfolding next_byte until_byte_eq string_or_default rest_or_default ascii_casemap
parse_rest s =
    let read = string_or_default word false (until_byte_eq 1 s) in
    let cmd = (ascii_casemap true (read.0)).0 in
    let body = (rest_or_default line (next_byte (read.1)).1).0 in record { cmd = cmd; body = body }

abbrev pub parse_from : Bytes → Option ℕ × Splitter → MaybeCtcp Bytes
unfolding parse_rest
parse_from value (first, s) =
    if is_start first then parse_rest s else record { cmd = []; body = value }

unfoldable pub parse : Bool → Bytes → MaybeCtcp Bytes
unfolding new next_byte parse_rest
parse utf8 value = parse_from value (next_byte (new value utf8))

-- `is_empty` of a string.
abbrev pub no_bytes : Bytes → Bool
no_bytes [] = true
no_bytes (c ∷ cs) = false

unfoldable pub is_ctcp {ℓ} : {T : Type ℓ} → MaybeCtcp T → Bool
is_ctcp m = not (no_bytes m.cmd)

unfoldable pub is_empty : MaybeCtcp Bytes → Bool
is_empty m = no_bytes m.cmd && no_bytes m.body

unfoldable pub len : MaybeCtcp Bytes → ℕ
len m = if no_bytes m.cmd then length m.body else length m.cmd + 3 + length m.body

-- `let _ = builder.try_push_char(c)` for an ASCII `c`, which is encoded as one byte.
unfoldable pub push_char : ℕ → Builder → Builder
unfolding try_append_str
push_char c b = (try_append_str line (c ∷ []) b).1

-- The query in its builder.
unfoldable pub put_query : Bool → Bool → MaybeCtcp Bytes → Builder
unfolding new_builder append push_char
put_query cmd_utf8 body_utf8 m =
    let opened = push_char 1 (new_builder [] true) in
    let named = push_char b' ' (append m.cmd cmd_utf8 opened) in
    push_char 1 (append m.body body_utf8 named)

unfoldable pub into_line : Bool → Bool → MaybeCtcp Bytes → Bytes
unfolding is_ctcp put_query build
into_line cmd_utf8 body_utf8 m =
    if is_ctcp m then build (put_query cmd_utf8 body_utf8 m) else m.body

-- `MaybeCtcp::map`
abbrev pub map_body {ℓ κ} : {T : Type ℓ} {U : Type κ} → (T → U) → MaybeCtcp T → MaybeCtcp U
map_body f m = record { cmd = m.cmd; body = f m.body }

abbrev with_body {ℓ κ ι} :
    {T : Type ℓ} {U : Type κ} {E : Type ι} → MaybeCtcp T → Result E U → Result E (MaybeCtcp U)
with_body m (ok body) = ok (record { cmd = m.cmd; body = body })
with_body m (err e) = err e

abbrev pub map_result {ℓ κ ι} :
    {T : Type ℓ} {U : Type κ} {E : Type ι} → (T → Result E U) → MaybeCtcp T → Result E (MaybeCtcp U)
map_result f m = with_body m (f m.body)

-- The iterator is the list of what it yields.
abbrev pub map_iter {ℓ κ} :
    {T : Type ℓ} {U : Type κ} → (T → List U) → MaybeCtcp T → List (MaybeCtcp U)
map_iter f m = map (λ body. record { cmd = m.cmd; body = body }) (f m.body)
