-- ===== src/Text/Builder.antt =====
-- `Builder` of `src/string/builder.rs`: concatenation that keeps the guarantee of a string type.
pub mod Sound
use vinezombie.Prelude.{
  ℕ, ◌≡◌, Bool, true, false, not, ◌&&◌, Option, none, some, List, [], ◌∷◌, ◌++◌, if◌then◌else◌,
  Bytes, is_ascii, is_ascii_whitespace,
}
use vinezombie.Text.Kinds.{InvalidString, byte, Result, ok, err, Kind, nonul, line, is_invalid}

pub record Builder : Type 0 where
  pub bytes : Bytes
  pub utf8 : Bool

-- The flag is what `is_utf8_lazy` says of the string.
unfoldable pub new : Bytes → Bool → Builder
new init utf8 = record { bytes = init; utf8 = utf8 }

unfoldable pub build : Builder → Bytes
build b = b.bytes

unfoldable pub append_unchecked : Bytes → Bool → Builder → Builder
append_unchecked string utf8 b = record { bytes = b.bytes ++ string; utf8 = b.utf8 && utf8 }

unfoldable pub append : Bytes → Bool → Builder → Builder
unfolding append_unchecked
append string utf8 b = append_unchecked string utf8 b

-- The loop of `try_append`: the first byte that is refused, or `ascii`.
unfoldable pub check_loop : Kind → Bool → Bytes → Result InvalidString Bool
check_loop k ascii [] = ok ascii
check_loop k ascii (c ∷ cs) =
    let rest = check_loop k (ascii && is_ascii c) cs in
    if is_invalid k c then err (byte c) else rest

abbrev pub appended :
    Result InvalidString Bool → Bytes → Builder → Result InvalidString (Unit {0}) × Builder
appended (err e) string b = (err e, b)
appended (ok ascii) string b = (ok tt, record { bytes = b.bytes ++ string; utf8 = b.utf8 && ascii })

unfoldable pub try_append : Kind → Bytes → Builder → Result InvalidString (Unit {0}) × Builder
unfolding check_loop
try_append k string b = appended (check_loop k true string) string b

abbrev pub appended_str :
    Result InvalidString Bool → Bytes → Builder → Result InvalidString (Unit {0}) × Builder
appended_str (err e) string b = (err e, b)
appended_str (ok ascii) string b = (ok tt, record b { bytes = b.bytes ++ string })

-- The loop is that of `try_append` without its flag, which is not used.
unfoldable pub try_append_str : Kind → Bytes → Builder → Result InvalidString (Unit {0}) × Builder
unfolding check_loop
try_append_str k string b = appended_str (check_loop k true string) string b

unfoldable pub try_push : Kind → ℕ → Builder → Result InvalidString (Unit {0}) × Builder
try_push k c b =
    if is_invalid k c
    then (err (byte c), b)
    else (ok tt, record { bytes = b.bytes ++ c ∷ []; utf8 = b.utf8 && is_ascii c })
