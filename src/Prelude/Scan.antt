-- ===== src/Prelude/Scan.antt =====
-- Byte strings: slices of `u8`, the scans of `Iterator`, and the ASCII classes of `core`.
use Prim.Native.Char.{code}
use Prim.Native.String.{String}
use Prim.Native.Nat.{ℕ, zero, suc, ◌+◌, ◌-◌, ◌<◌}
use mathlib.Core.Path.{◌≡◌, refl}
use mathlib.Core.Bool.{Bool, true, false, ◌&&◌, ◌||◌}
use mathlib.Core.List.{List, [], ◌∷◌, ◌++◌}
use mathlib.Core.Option.{Option, none, some}
use native.Mathlib.Omega.{arith}
use vinezombie.Prelude.Tests.{◌==◌, leb, ltb, if◌then◌else◌}
use vinezombie.Prelude.Lists.{length, take, drop}

abbrev pub Bytes : Type 0
Bytes = List ℕ

-- The code points of a literal, which are its bytes where it is ASCII.
abbrev pub codes : String → Bytes
codes String.[] = []
codes (String.◌∷◌ c s) = code c ∷ codes s

abbrev pub is_ascii : ℕ → Bool
is_ascii c = ltb c 128

abbrev pub is_ascii_whitespace : ℕ → Bool
is_ascii_whitespace c = c == b' ' || c == b'\t' || c == b'\n' || c == 12 || c == b'\r'

abbrev pub is_ascii_lowercase : ℕ → Bool
is_ascii_lowercase c = leb b'a' c && leb c b'z'

abbrev pub is_ascii_uppercase : ℕ → Bool
is_ascii_uppercase c = leb b'A' c && leb c b'Z'

abbrev pub is_ascii_digit : ℕ → Bool
is_ascii_digit c = leb b'0' c && leb c b'9'

abbrev pub to_ascii_lowercase : ℕ → ℕ
to_ascii_lowercase c = if is_ascii_uppercase c then c + 32 else c

abbrev pub to_ascii_uppercase : ℕ → ℕ
to_ascii_uppercase c = if is_ascii_lowercase c then c - 32 else c

-- No byte passes the test.
abbrev pub Lacks : (ℕ → Bool) → Bytes → Type 0
Lacks p [] = Unit
Lacks p (c ∷ cs) = (p c ≡ false) × Lacks p cs

-- The first byte passes the test, if there is one.
abbrev pub Starts : (ℕ → Bool) → Bytes → Type 0
Starts p [] = Unit
Starts p (c ∷ cs) = p c ≡ true

-- `slice.iter().position(p)`
abbrev pub position : (ℕ → Bool) → Bytes → Option ℕ
position p [] = none
position p (c ∷ cs) = elim (p c) [
  | true ↦ some 0
  | false ↦ elim (position p cs) [ none ↦ none | some i ↦ some (suc i) ]
]

-- The bytes before the first one that passes, and those from it on.
abbrev pub before : (ℕ → Bool) → Bytes → Bytes
before p [] = []
before p (c ∷ cs) = elim (p c) [ true ↦ [] | false ↦ c ∷ before p cs ]

abbrev pub from : (ℕ → Bool) → Bytes → Bytes
from p [] = []
from p (c ∷ cs) = elim (p c) [ true ↦ c ∷ cs | false ↦ from p cs ]

-- A slice up to an index, or whole where there is none.
abbrev pub take_to : Option ℕ → Bytes → Bytes
take_to none cs = cs
take_to (some i) cs = take i cs

abbrev pub drop_to : Option ℕ → Bytes → Bytes
drop_to none cs = []
drop_to (some i) cs = drop i cs

module _ (p : ℕ → Bool) where
  pub take_to-position : (cs : Bytes) → take_to (position p cs) cs ≡ before p cs
  take_to-position [] = refl
  take_to-position (c ∷ cs) = ground (arith, take_to-position cs)

  pub drop_to-position : (cs : Bytes) → drop_to (position p cs) cs ≡ from p cs
  drop_to-position [] = refl
  drop_to-position (c ∷ cs) = ground (arith, drop_to-position cs)

  pub before-append-from : (cs : Bytes) → before p cs ++ from p cs ≡ cs
  before-append-from [] = refl
  before-append-from (c ∷ cs) = ground (arith, before-append-from cs)

  pub position-lt-length : (cs : Bytes) (i : ℕ) → position p cs ≡ some i → i < length cs
  position-lt-length [] i h = absurd (cc)
  position-lt-length (c ∷ cs) zero h = omega arith
  position-lt-length (c ∷ cs) (suc i) h = ground (arith, position-lt-length cs i)

  pub before-Lacks : (cs : Bytes) → Lacks p (before p cs)
  before-Lacks [] = tt
  before-Lacks (c ∷ cs) = ground (arith, before-Lacks cs)

  pub from-Starts : (cs : Bytes) → Starts p (from p cs)
  from-Starts [] = tt
  from-Starts (c ∷ cs) = ground (arith, from-Starts cs)

  -- A run that lacks such bytes, and then one that passes, or the end.
  pub before-append : (xs ys : Bytes) → Lacks p xs → Starts p ys → before p (xs ++ ys) ≡ xs
  before-append [] [] h s = refl
  before-append [] (y ∷ ys) h s = ground arith
  before-append (x ∷ xs) ys h s = ground (arith, before-append xs ys h.1 s)

  pub from-append : (xs ys : Bytes) → Lacks p xs → Starts p ys → from p (xs ++ ys) ≡ ys
  from-append [] [] h s = refl
  from-append [] (y ∷ ys) h s = ground arith
  from-append (x ∷ xs) ys h s = ground (arith, from-append xs ys h.1 s)

  pub position-Lacks : (xs : Bytes) → Lacks p xs → position p xs ≡ none
  position-Lacks [] h = refl
  position-Lacks (x ∷ xs) h = ground (arith, position-Lacks xs h.1)

  pub Lacks-append : (xs ys : Bytes) → Lacks p xs → Lacks p ys → Lacks p (xs ++ ys)
  Lacks-append [] ys h k = k
  Lacks-append (x ∷ xs) ys h k = (h.0, Lacks-append xs ys h.1 k)

  pub position-none : (xs : Bytes) → position p xs ≡ none → Lacks p xs
  position-none [] h = tt
  position-none (x ∷ xs) h = ground (arith, position-none xs)

pub from-Lacks : (p q : ℕ → Bool) (bs : Bytes) → Lacks p bs → Lacks p (from q bs)
from-Lacks p q [] h = tt
from-Lacks p q (c ∷ cs) h = ground (arith, from-Lacks p q cs h.1)

pub position-append :
    (p : ℕ → Bool) (xs : Bytes) (y : ℕ) (ys : Bytes)
    → Lacks p xs
    → p y ≡ true
    → position p (xs ++ y ∷ ys) ≡ some (length xs)
position-append p [] y ys h e = ground arith
position-append p (x ∷ xs) y ys h e = ground (arith, position-append p xs y ys h.1 e)
