-- ===== src/Ircmsg/Numeric/Digits.antt =====
-- Numerics and the integers below 1000 are the same thing, and commands are upper case letters.
use vinezombie.Prelude.{
  ℕ, ◌<◌, ◌≡◌, ◌≢◌, refl, ap, not, Option, none, some, [], ◌∷◌, arith, Bytes, map, drop, Lacks,
  position, position-Lacks, position-none, to_ascii_uppercase,
}
use vinezombie.Text.Kinds.{
  InvalidString, empty, byte, ok, err, cmd, is_invalid, check_others, IsValid as IsKind,
}
use vinezombie.Ircmsg.Numeric.{
  Numeric, from_bytes, from_int, from_int_unchecked, into_int, as_bytes, IsValid, from_word,
  is_ascii_alphabetic, command_or, refuse,
}

-- Every integer below 1000 becomes a numeric with that value.
pub from_int-into_int :
    (i : ℕ) → i < 1000 → (n : Numeric) × (from_int i ≡ some n) × IsValid n × (into_int n ≡ i)
unfolding from_int into_int
from_int-into_int i h = (from_int_unchecked i, ground arith, ground arith, ground arith)

-- The bytes of a valid numeric are read back, and so is its value.
pub numeric_round_trip :
    (n : Numeric)
    → IsValid n
    → (from_bytes (as_bytes n) ≡ some n) × (from_int (into_int n) ≡ some n)
unfolding from_bytes as_bytes from_int into_int
numeric_round_trip n v = (ground arith, ground arith)

upper-id : (w : Bytes) → Lacks (is_invalid cmd) w → map to_ascii_uppercase w ≡ w
unfolding is_invalid
upper-id [] h = refl
upper-id (c ∷ cs) h = ground (arith, upper-id cs h.1)

cmd-letters : (w : Bytes) → Lacks (is_invalid cmd) w → Lacks (λ c. not (is_ascii_alphabetic c)) w
unfolding is_invalid
cmd-letters [] h = tt
cmd-letters (c ∷ cs) h = ground (arith, cmd-letters cs h.1)

-- A valid command is read as itself.
pub from_word-cmd : (w : Bytes) → IsKind cmd w → from_word w ≡ ok w
unfolding from_word
from_word-cmd w v =
    rw (position-Lacks _ w (cmd-letters w v.bytes_valid)) (ap ok (upper-id w v.bytes_valid))

upper-cmd :
    (w : Bytes)
    → Lacks (λ c. not (is_ascii_alphabetic c)) w
    → Lacks (is_invalid cmd) (map to_ascii_uppercase w)
unfolding is_invalid
upper-cmd [] h = tt
upper-cmd (c ∷ cs) h = ground (arith, upper-cmd cs h.1)

upper-others :
    (w : Bytes)
    → w ≢ []
    → Lacks (is_invalid cmd) (map to_ascii_uppercase w)
    → check_others cmd (map to_ascii_uppercase w) ≡ none
unfolding is_invalid check_others
upper-others [] ne h = absurd (ne refl)
upper-others (c ∷ cs) ne h = ground arith

refuse-err : (cs : Bytes) → (e : InvalidString) × (refuse cs ≡ err e)
refuse-err [] = (empty, refl)
refuse-err (c ∷ cs) = (byte c, refl)

command_or-ok :
    (w : Bytes) (o : Option ℕ) {c : Bytes}
    → command_or w o ≡ ok c
    → (o ≡ none) × (c ≡ map to_ascii_uppercase w)
command_or-ok w none h = (refl, cc)
command_or-ok w (some i) h = let (e, f) = refuse-err (drop i w) in absurd (cc (rw f at h))

-- A word that is not empty and is accepted holds letters only; the result is the word in upper
-- case, and it is a valid command.
pub from_word-ok :
    (w : Bytes) {c : Bytes}
    → from_word w ≡ ok c
    → w ≢ []
    → Lacks (λ b. not (is_ascii_alphabetic b)) w × (c ≡ map to_ascii_uppercase w) × IsKind cmd c
unfolding from_word
from_word-ok w h ne =
    let (all, is_c) = command_or-ok w (position (λ b. not (is_ascii_alphabetic b)) w) h in
    let letters = position-none _ w all in
    (
      letters,
      is_c,
      rw is_c (record {
        bytes_valid = upper-cmd w letters;
        others_valid = upper-others w ne (upper-cmd w letters);
      }),
    )

-- The empty word is accepted too, though no command is empty.
pub from_word-nil : (from_word [] ≡ ok []) × (IsKind cmd [] → ⊥)
unfolding from_word check_others
from_word-nil = (refl, λ v. cc v.others_valid)
