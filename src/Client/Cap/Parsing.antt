-- ===== src/Client/Cap/Parsing.antt =====
-- The parser of `src/client/cap.rs` returns.
use vinezombie.Prelude.{
  ℕ, zero, suc, ◌-◌, ◌<◌, ◌≤◌, ◌≡◌, refl, ap, Bool, true, false, Option, none, some, List, [], ◌∷◌,
  arith, Bytes, codes, length, from, from-Starts, Lacks, from-Lacks, Starts, Bool-cases, inl, inr,
  if◌then◌else◌,
}
use vinezombie.Text.Kinds.{
  InvalidString, Result, ok, err, word, line, nick, is_invalid, check_others, from_super,
  IsValid as IsKind,
}
use vinezombie.Text.Splitter.{Splitter, new, is_empty, consume_whitespace, string_or_default}
use vinezombie.Text.Splitter.View.{
  View, new-View, View-length, is_solid, consume_whitespace-View, string_or_default-ok,
}
use vinezombie.Ircmsg.Failure.{ParseError, invalid_field, not_a_star}
use vinezombie.Ircmsg.Args.{Args, split_last}
use vinezombie.Ircmsg.Args.Sound.{from-length}
use vinezombie.Client.Nick.{bytes_eq}
use vinezombie.Text.Casemap.{ascii_casemap}
use vinezombie.Client.Cap.{
  Caps, CapArgs, SubCmd, from_bytes, parse_round, parse_loop, with_caps, parse_caps, parse_last,
  known_subcmd, parse_subcmd, with_nick, parse_nick, parse_split, parse,
}

solid-word : (c : ℕ) → is_solid c ≡ true → is_invalid line c ≡ false → is_invalid word c ≡ false
unfolding is_invalid
solid-word c s l = ground arith

from-skip : (p : ℕ → Bool) (c : ℕ) (cs : Bytes) → p c ≡ false → from p (c ∷ cs) ≡ from p cs
from-skip p c cs h = ground arith

-- Behind white space and a word, less is left.
left-shorter :
    (bs : Bytes)
    → Starts is_solid bs
    → Lacks (is_invalid line) bs
    → length (from (is_invalid word) bs) ≤ length bs - 1
left-shorter [] s l = omega arith
left-shorter (c ∷ cs) s l =
    let same : length (from (is_invalid word) (c ∷ cs)) ≡ length (from (is_invalid word) cs) =
      ap length (from-skip (is_invalid word) c cs (solid-word c s l.0)) in
    omega (arith, same, from-length (is_invalid word) cs)

abbrev Returns : {A : Type 0} → Option A → Type 0
Returns none = ⊥
Returns (some a) = Unit

empty-length : (s : Splitter) (bs : Bytes) → View s bs → is_empty s ≡ false → 1 ≤ length bs
unfolding is_empty
empty-length s bs v e = let n = View-length v in ground (arith, n)

parse_loop-Returns :
    (fuel : ℕ) (s : Splitter) (bs : Bytes) (caps : Caps)
    → View s bs
    → length bs < fuel
    → Lacks (is_invalid line) bs
    → Returns (parse_loop fuel s caps)
unfolding parse_loop check_others parse_round
parse_loop-Returns zero s bs caps v h l = absurd (omega arith)
parse_loop-Returns (suc fuel) s bs caps v h l = elim (Bool-cases (is_empty s)) [
  | inl e ↦ rw e tt
  | inr e ↦
      let at = consume_whitespace-View v in
      let (read, left) = string_or_default-ok at word refl in
      let lines = from-Lacks (is_invalid line) is_solid bs l in
      let shorter = left-shorter (from is_solid bs) (from-Starts is_solid bs) lines in
      rw e (
        parse_loop-Returns fuel (string_or_default word false (consume_whitespace s)).1
          (from (is_invalid word) (from is_solid bs)) _ left
          (omega (arith, shorter, from-length is_solid bs, empty-length s bs v e, h))
          (from-Lacks (is_invalid line) (is_invalid word) (from is_solid bs) lines))
]

with_caps-Returns :
    (n : Bytes) (c : SubCmd) (b : Bool) (o : Option Caps) → Returns o → Returns (with_caps n c b o)
with_caps-Returns n c b none r = r
with_caps-Returns n c b (some caps) r = tt

if-Returns :
    {A : Type 0} (b : Bool) (x y : Option A) → Returns x → Returns y → Returns (if b then x else y)
if-Returns true x y p q = p
if-Returns false x y p q = q

module _ (last : Bytes) (valid : IsKind line last) where
  parse_caps-Returns : (n : Bytes) (c : SubCmd) (b : Bool) → Returns (parse_caps last n c b)
  unfolding parse_caps
  parse_caps-Returns n c b =
      with_caps-Returns n c b (parse_loop (suc (length last)) (new last false) []) (
        parse_loop-Returns (suc (length last)) (new last false) last [] (new-View last false)
          (omega arith) valid.bytes_valid)

  parse_last-Returns : (ws : List Bytes) (n : Bytes) (c : SubCmd) → Returns (parse_last ws last n c)
  parse_last-Returns [] n c = parse_caps-Returns n c true
  parse_last-Returns (w ∷ ws) n c =
      if-Returns (bytes_eq w (codes "*")) (parse_caps last n c false)
        (some (err (invalid_field (not_a_star w)))) (parse_caps-Returns n c false) tt

  known_subcmd-Returns :
      (o : Option SubCmd) (w : Bytes) (ws : List Bytes) (n : Bytes)
      → Returns (known_subcmd o w ws last n)
  known_subcmd-Returns none w ws n = tt
  known_subcmd-Returns (some c) w ws n = parse_last-Returns ws n c

  parse_subcmd-Returns : (ws : List Bytes) (n : Bytes) → Returns (parse_subcmd ws last n)
  unfolding parse_subcmd
  parse_subcmd-Returns [] n = tt
  parse_subcmd-Returns (w ∷ ws) n =
      let upper = (ascii_casemap true w).0 in known_subcmd-Returns (from_bytes upper) upper ws n

  with_nick-Returns :
      (r : Result InvalidString Bytes) (ws : List Bytes) → Returns (with_nick r ws last)
  with_nick-Returns (err e) ws = tt
  with_nick-Returns (ok n) ws = parse_subcmd-Returns ws n

  parse_nick-Returns : (ws : List Bytes) → Returns (parse_nick ws last)
  unfolding parse_nick
  parse_nick-Returns [] = tt
  parse_nick-Returns (n ∷ ws) = with_nick-Returns (from_super nick n) ws

returned : {A : Type 0} (o : Option A) → Returns o → (a : A) × (o ≡ some a)
returned none r = absurd r
returned (some a) r = (a, refl)

-- The arguments of a CAP message are parsed, without running out of fuel, if the last one is a line.
pub parse-returned :
    (args : Args) (last : Bytes)
    → (split_last args).1 ≡ some last
    → IsKind line last
    → (r : Result ParseError CapArgs) × (parse args ≡ some r)
unfolding parse
parse-returned args last e valid =
    returned (parse_split (split_last args)) (by_split (split_last args) e)
  where
    by_split : (p : List Bytes × Option Bytes) → p.1 ≡ some last → Returns (parse_split p)
    by_split (ws, none) k = absurd (cc)
    by_split (ws, some x) k = let same : x ≡ last = cc in rw same (parse_nick-Returns last valid ws)
