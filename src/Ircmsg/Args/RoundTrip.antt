-- ===== src/Ircmsg/Args/RoundTrip.antt =====
-- `Args::parse` on the text that a message's arguments are written as.
use vinezombie.Prelude.{
  ℕ, zero, suc, ◌<◌, ◌≤◌, ◌∙◌, ap, ◌≡◌, refl, Bool, false, Option, none, some, List, [], ◌∷◌, ◌++◌,
  arith, Bytes, length, append-nil, append_assoc, Starts, length-append,
}
use vinezombie.Text.Kinds.{
  InvalidString, empty, colon, arg, line, Result, ok, err, check_others, is_invalid,
  IsValid as IsKind,
}
use vinezombie.Text.Splitter.{Splitter, consume_whitespace, string, next_byte, rest_or_default}
use vinezombie.Text.Splitter.View.{
  View, new-View, is_solid, consume_whitespace_solid, consume_whitespace_space, string_prefix,
  string-err, next_byte-View, rest_or_default-ok,
}
use vinezombie.Ircmsg.Args.{Args, add, parse, parse_loop, parse_round, ArgWords, IsLong}

-- Words that do not begin with a tab or a form feed, which the parser takes for space.
abbrev pub Plain : List Bytes → Type 0
Plain [] = Unit
Plain (w ∷ ws) = Starts is_solid w × Plain ws

-- Each word behind a space, and then the long argument behind a space and a colon.
abbrev pub spaced_long : Option Bytes → Bytes
spaced_long none = []
spaced_long (some l) = b' ' ∷ b':' ∷ l

abbrev pub spaced : List Bytes → Option Bytes → Bytes
spaced [] long = spaced_long long
spaced (w ∷ ws) long = b' ' ∷ (w ++ spaced ws long)

spaced-Starts : (ws : List Bytes) (long : Option Bytes) → Starts (is_invalid arg) (spaced ws long)
unfolding is_invalid
spaced-Starts [] none = tt
spaced-Starts [] (some l) = refl
spaced-Starts (w ∷ ws) long = refl

-- An argument is not empty and does not begin with a colon.
arg-cons : (w : Bytes) → IsKind arg w → (c : ℕ) × (cs : Bytes) × (w ≡ c ∷ cs) × (c ≡ b':' → ⊥)
unfolding check_others
arg-cons [] v = absurd (cc v.others_valid)
arg-cons (c ∷ cs) v = (c, cs, refl, ground (arith, v.others_valid))

append-Starts : (p : ℕ → Bool) (w rest : Bytes) → IsKind arg w → Starts p w → Starts p (w ++ rest)
unfolding check_others
append-Starts p [] rest k h = absurd (cc k.others_valid)
append-Starts p (c ∷ cs) rest k h = h

module _ (s : Splitter) where
  parse_word :
      (w rest : Bytes)
      → View s (b' ' ∷ (w ++ rest))
      → IsKind arg w
      → Starts is_solid w
      → Starts (is_invalid arg) rest
      → ((string arg false (consume_whitespace s)).0 ≡ ok w)
        × View (string arg false (consume_whitespace s)).1 rest
  parse_word w rest v k plain stop =
      string_prefix w rest (consume_whitespace_space v (append-Starts is_solid w rest k plain)) arg
        k.bytes_valid k.others_valid stop

  parse_end : View s [] → (string arg false (consume_whitespace s)).0 ≡ err empty
  unfolding check_others
  parse_end v = (string-err (consume_whitespace_solid v tt) arg refl).0

  parse_colon :
      (l : Bytes)
      → View s (b' ' ∷ b':' ∷ l)
      → ((string arg false (consume_whitespace s)).0 ≡ err colon)
        × ((rest_or_default line (next_byte (string arg false (consume_whitespace s)).1).1).0 ≡ l)
  unfolding check_others is_invalid
  parse_colon l v =
      let at : View (consume_whitespace s) (b':' ∷ l) = consume_whitespace_space v refl in
      let (failed, same) = string-err at arg {e = colon} refl in
      (failed, rw same (rest_or_default-ok (next_byte-View at) line refl).0)

module _ (r : Result InvalidString Bytes × Splitter) (acc : List Bytes)
    (loop : Splitter → List Bytes → Option Args) where
  pub round-ok : {w : Bytes} → r.0 ≡ ok w → parse_round r acc loop ≡ loop r.1 (acc ++ w ∷ [])
  round-ok h = rw (h, parse_round)

  pub round-empty :
      r.0 ≡ err empty → parse_round r acc loop ≡ some (record { words = acc; long = none })
  round-empty h = rw (h, parse_round)

  pub round-colon :
      r.0 ≡ err colon
      → parse_round r acc loop
        ≡ some
            (add (record { words = acc; long = none }) (rest_or_default line (next_byte r.1).1).0).0
  round-colon h = rw (h, parse_round)

add-long :
    (acc : List Bytes) (l : Bytes)
    → IsLong (some l)
    → (add (record { words = acc; long = none }) l).0 ≡ record { words = acc; long = some l }
unfolding add
add-long acc l (_, e, h) = rw (h, add)

-- What the loop makes of the written arguments.
parse_loop-spaced :
    (fuel : ℕ) (s : Splitter) (ws acc : List Bytes) (long : Option Bytes)
    → View s (spaced ws long)
    → length ws < fuel
    → ArgWords ws
    → Plain ws
    → IsLong long
    → parse_loop fuel s acc ≡ some (record { words = acc ++ ws; long = long })
unfolding parse_loop
parse_loop-spaced zero s ws acc long v h valid plain is_long = elim h [ ]
parse_loop-spaced (suc fuel) s [] acc none v h valid plain is_long =
    round-empty _ acc _ (parse_end s v) ∙ rw append-nil
parse_loop-spaced (suc fuel) s [] acc (some l) v h valid plain is_long =
    let (failed, text) = parse_colon s l v in
    round-colon _ acc _ failed ∙ rw text (ap some (add-long acc l is_long ∙ rw append-nil))
parse_loop-spaced (suc fuel) s (w ∷ ws) acc long v h valid plain is_long =
    let (read, left) = parse_word s w (spaced ws long) v valid.0 plain.0 (spaced-Starts ws long) in
    round-ok _ acc _ read
    ∙ parse_loop-spaced fuel _ ws (acc ++ w ∷ []) long left (omega arith) valid.1 plain.1 is_long
    ∙ rw append_assoc

length-spaced : (ws : List Bytes) (long : Option Bytes) → length ws ≤ length (spaced ws long)
length-spaced [] long = omega arith
length-spaced (w ∷ ws) long = omega (arith, length-append w (spaced ws long), length-spaced ws long)

-- Valid words that do not begin with a tab or a form feed, each behind a space, and then a long
-- argument behind a space and a colon, are parsed back.
pub parse-spaced :
    (ws : List Bytes) (long : Option Bytes)
    → ArgWords ws
    → Plain ws
    → IsLong long
    → parse (spaced ws long) ≡ some (record { words = ws; long = long })
unfolding parse
parse-spaced ws long valid plain is_long =
    parse_loop-spaced (suc (length (spaced ws long))) _ ws [] long (new-View (spaced ws long) false)
      (omega (arith, length-spaced ws long)) valid plain is_long
