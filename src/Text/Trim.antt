-- ===== src/Text/Trim.antt =====
-- `TrimAscii` of `src/string/tf/trim.rs`.
pub mod Sound
use vinezombie.Prelude.{Bool, true, false, ℕ, [], ◌∷◌, if◌then◌else◌, Bytes, is_ascii_whitespace}
use vinezombie.Text.Kinds.{Kind, nonul, line}

-- `StringSide` of `src/string/tf.rs`.
pub data StringSide : Type 0 where
  start end start_first end_first : StringSide

-- The loop over `split_first`.
unfoldable pub trim_start : Bytes → Bytes
trim_start [] = []
trim_start (c ∷ cs) = let rest = trim_start cs in if is_ascii_whitespace c then rest else c ∷ cs

abbrev pub cons_end : ℕ → Bytes → Bytes
cons_end c [] = if is_ascii_whitespace c then [] else c ∷ []
cons_end c (d ∷ ds) = c ∷ d ∷ ds

-- The loop over `split_last`, as a recursion on the list: what is left of the tail, and the first
-- byte in front of it, which goes too if nothing is left.
unfoldable pub trim_end : Bytes → Bytes
trim_end [] = []
trim_end (c ∷ cs) = cons_end c (trim_end cs)

abbrev is_start : StringSide → Bool
is_start start = true
is_start _ = false

abbrev is_end : StringSide → Bool
is_end end = true
is_end _ = false

unfoldable pub trim_ascii : StringSide → Bytes → Bytes
unfolding trim_start trim_end
trim_ascii side bs =
    let slice = if is_start side then bs else trim_end bs in
    if is_end side then slice else trim_start slice

-- The string types that `TrimAscii` is marked safe for.
abbrev pub trim_safe : Kind → Bool
trim_safe nonul = true
trim_safe line = true
trim_safe _ = false
