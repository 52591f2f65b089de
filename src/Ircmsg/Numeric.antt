-- ===== src/Ircmsg/Numeric.antt =====
-- `Numeric` of `src/ircmsg/numeric.rs`: a reply code of three digits, and
-- `Cmd::from_word` of `src/string/subtypes/impls.rs`.
pub mod Digits
use vinezombie.Prelude.{
  ℕ, ◌+◌, ◌-◌, ◌*◌, ◌/◌, ◌%◌, ◌^◌, ◌≡◌, Bool, true, false, not, ◌&&◌, ◌||◌, Option, none, some, [],
  ◌∷◌, ltb, ◌==◌, if◌then◌else◌, Bytes, map, position, drop, is_ascii_digit, is_ascii_uppercase,
  is_ascii_lowercase, to_ascii_uppercase,
}
use vinezombie.Text.Kinds.{InvalidString, byte, empty, Result, ok, err}

-- The three bytes.
pub record Numeric : Type 0 where
  pub hundreds : ℕ
  pub tens : ℕ
  pub ones : ℕ

-- `from_bytes`. The loop over the three bytes returns at the first that is no digit.
unfoldable pub from_bytes : Bytes → Option Numeric
from_bytes (a ∷ b ∷ c ∷ []) =
    if is_ascii_digit a && is_ascii_digit b && is_ascii_digit c
    then some (record { hundreds = a; tens = b; ones = c })
    else none
from_bytes _ = none

-- A `u8` sum wraps.
abbrev pub add_u8 : ℕ → ℕ → ℕ
add_u8 a b = (a + b) % 2 ^ 8

unfoldable pub from_int_unchecked : ℕ → Numeric
from_int_unchecked int = record {
  hundreds = add_u8 (int / 100 % 2 ^ 8) b'0';
  tens = add_u8 (int / 10 % 10) b'0';
  ones = add_u8 (int % 10) b'0';
}

unfoldable pub from_int : ℕ → Option Numeric
unfolding from_int_unchecked
from_int int = if ltb int 1000 then some (from_int_unchecked int) else none

-- `wrapping_sub(b'0')`
abbrev pub digit : ℕ → ℕ
digit b = (b + 2 ^ 8 - b'0') % 2 ^ 8

unfoldable pub into_int : Numeric → ℕ
into_int n = digit n.hundreds * 100 + digit n.tens * 10 + digit n.ones

unfoldable pub as_bytes : Numeric → Bytes
as_bytes n = n.hundreds ∷ n.tens ∷ n.ones ∷ []

-- The table of `is_error` for the numerics from 569 on.
abbrev pub is_error_high : ℕ → Option Bool
is_error_high n =
    if n == 670
      || n == 671
      || n == 704
      || n == 705
      || n == 706
      || n == 740
      || n == 741
      || n == 900
      || n == 901
      || n == 903
      || n == 908
    then some false
    else if n == 691
        || n == 696
        || n == 723
        || n == 902
        || n == 904
        || n == 905
        || n == 906
        || n == 907
    then some true
    else none

unfoldable pub is_error : Numeric → Option Bool
unfolding into_int
is_error n =
    if ltb (into_int n) 400
    then some false
    else if ltb (into_int n) 569
    then some true
    else is_error_high (into_int n)

abbrev pub is_ascii_alphabetic : ℕ → Bool
is_ascii_alphabetic c = is_ascii_uppercase c || is_ascii_lowercase c

-- `Err(InvalidString::Byte(*inval))`, on the word from that byte on, which is not empty.
abbrev pub refuse : Bytes → Result InvalidString Bytes
refuse [] = err empty
refuse (c ∷ cs) = err (byte c)

abbrev pub command_or : Bytes → Option ℕ → Result InvalidString Bytes
command_or w none = ok (map to_ascii_uppercase w)
command_or w (some i) = refuse (drop i w)

-- `Cmd::from_word`, with the index of the first byte that is no letter.
unfoldable pub from_word : Bytes → Result InvalidString Bytes
from_word w = command_or w (position (λ c. not (is_ascii_alphabetic c)) w)

-- All three bytes are digits.
pub record IsValid (n : Numeric) : Type 0 where
  pub hundreds_digit : is_ascii_digit n.hundreds ≡ true
  pub tens_digit : is_ascii_digit n.tens ≡ true
  pub ones_digit : is_ascii_digit n.ones ≡ true
