-- ===== src/Ircmsg/Args/Sound.antt =====
-- `Args::parse` returns on every line, and what it returns upholds the invariant of `Args`.
use vinezombie.Prelude.{
  ℕ, zero, suc, ◌<◌, ◌≤◌, ◌≡◌, refl, ap, Bool, false, Option, none, some, List, [], ◌∷◌, ◌++◌,
  arith, Bytes, length, drop, before, from, Lacks, from-Lacks, before-Lacks, before-append-from,
  length-append, Option-cases, inl, inr,
}
use vinezombie.Text.Kinds.{
  InvalidString, empty, colon, byte, arg, line, Result, err, find_invalid, check_others, is_invalid,
  from_bytes, IsValid as IsKind,
}
use vinezombie.Text.Kinds.Checks.{from_bytes-IsValid}
use vinezombie.Text.Splitter.{Splitter, consume_whitespace, string, next_byte, rest_or_default, new}
use vinezombie.Text.Splitter.View.{
  View, new-View, is_solid, consume_whitespace-View, string-ok, string-err, next_byte-View,
  rest_or_default-ok,
}
use vinezombie.Ircmsg.Args.{Args, add, parse, parse_loop, parse_round, ArgWords, IsValid}
use vinezombie.Ircmsg.Args.RoundTrip.{round-ok}

pub ArgWords-snoc :
    (ws : List Bytes) (w : Bytes) → ArgWords ws → IsKind arg w → ArgWords (ws ++ w ∷ [])
ArgWords-snoc [] w h k = (k, tt)
ArgWords-snoc (x ∷ ws) w h k = (h.0, ArgWords-snoc ws w h.1 k)

drop-Lacks : (p : ℕ → Bool) (bs : Bytes) → Lacks p bs → Lacks p (drop 1 bs)
drop-Lacks p [] h = tt
drop-Lacks p (c ∷ cs) h = h.1

pub from-length : (q : ℕ → Bool) (bs : Bytes) → length (from q bs) ≤ length bs
from-length q bs =
    let e : length (before q bs ++ from q bs) ≡ length bs = ap length (before-append-from q bs) in
    omega (arith, length-append (before q bs) (from q bs))

arg-length : (w : Bytes) → check_others arg w ≡ none → 0 < length w
unfolding check_others
arg-length [] h = absurd (cc h)
arg-length (c ∷ cs) h = omega arith

-- Adding a line to arguments with none that is long.
pub add-IsValid :
    (ws : List Bytes) (old : Option Bytes) (l : Bytes)
    → ArgWords ws
    → IsKind line l
    → IsValid (add (record { words = ws; long = old }) l).0
unfolding add
add-IsValid ws old l h k = elim (Option-cases (find_invalid arg l)) [
  | inl e ↦
      rw (e, add)
        (record {
          words_valid =
              ArgWords-snoc ws l h ((from_bytes-IsValid arg l).0 (unfold from_bytes in rw e));
          long_valid = tt;
        })
  | inr (why, e) ↦ rw (e, add) (record { words_valid = h; long_valid = (k, why, e) })
]

abbrev Sound : Option Args → Type 0
Sound none = ⊥
Sound (some a) = IsValid a

err-Sound :
    (e : InvalidString) (s : Splitter) (acc : List Bytes)
    (loop : Splitter → List Bytes → Option Args)
    → ArgWords acc
    → IsKind line (rest_or_default line (next_byte s).1).0
    → Sound (parse_round (err e, s) acc loop)
err-Sound empty s acc loop h k = record { words_valid = h; long_valid = tt }
err-Sound (byte b) s acc loop h k = record { words_valid = h; long_valid = tt }
err-Sound colon s acc loop h k = add-IsValid acc none _ h k

round-err :
    (r : Result InvalidString Bytes × Splitter) (acc : List Bytes)
    (loop : Splitter → List Bytes → Option Args) (e : InvalidString)
    → r.0 ≡ err e
    → parse_round r acc loop ≡ parse_round (err e, r.1) acc loop
round-err r acc loop e h = rw (h, parse_round)

-- What follows a word is shorter than what it was read from.
word-shorter :
    (bs : Bytes)
    → check_others arg (before (is_invalid arg) bs) ≡ none
    → length (from (is_invalid arg) bs) < length bs
word-shorter bs h =
    let e : length (before (is_invalid arg) bs ++ from (is_invalid arg) bs) ≡ length bs =
      ap length (before-append-from (is_invalid arg) bs) in
    omega (
      arith,
      arg-length (before (is_invalid arg) bs) h,
      length-append (before (is_invalid arg) bs) (from (is_invalid arg) bs),
    )

-- The text behind the colon is a line.
rest-IsKind :
    (s : Splitter) (bs : Bytes)
    → View s bs
    → Lacks (is_invalid line) bs
    → IsKind line (rest_or_default line (next_byte s).1).0
unfolding check_others
rest-IsKind s bs v l =
    rw ((rest_or_default-ok (next_byte-View v) line refl).0)
      (record { bytes_valid = drop-Lacks (is_invalid line) bs l; others_valid = refl })

parse_loop-Sound :
    (fuel : ℕ) (s : Splitter) (bs : Bytes) (acc : List Bytes)
    → View s bs
    → length bs < fuel
    → Lacks (is_invalid line) bs
    → ArgWords acc
    → Sound (parse_loop fuel s acc)
unfolding parse_loop
parse_loop-Sound zero s bs acc v h l ws = elim h [ ]
parse_loop-Sound (suc fuel) s bs acc v h l ws =
    elim (Option-cases (check_others arg (before (is_invalid arg) (from is_solid bs)))) [
      | inl e ↦
          let (read, left) = string-ok at arg e in
          rw (round-ok (string arg false (consume_whitespace s)) acc (parse_loop fuel) read) (
            parse_loop-Sound fuel _ (from (is_invalid arg) (from is_solid bs)) _ left
              (omega (arith, word-shorter (from is_solid bs) e, from-length is_solid bs))
              (from-Lacks (is_invalid line) (is_invalid arg) (from is_solid bs) lines)
              (ArgWords-snoc acc _ ws (record {
                bytes_valid = before-Lacks (is_invalid arg) (from is_solid bs);
                others_valid = e;
              })))
      | inr (why, e) ↦
          let (failed, same) = string-err at arg e in
          rw (round-err (string arg false (consume_whitespace s)) acc (parse_loop fuel) why failed)
            (err-Sound why _ acc (parse_loop fuel) ws (rw same (rest-IsKind _ _ at lines)))
    ]
  where
    at : View (consume_whitespace s) (from is_solid bs)
    at = consume_whitespace-View v

    lines : Lacks (is_invalid line) (from is_solid bs)
    lines = from-Lacks (is_invalid line) is_solid bs l

found : (o : Option Args) → Sound o → (a : Args) × (o ≡ some a) × IsValid a
found none h = absurd h
found (some a) h = (a, refl, h)

-- Parsing returns for every line, without running out of fuel, and its words are valid words and
-- its long argument, if any, is a line that could not be a word.
pub parse-IsValid : (l : Bytes) → IsKind line l → (a : Args) × (parse l ≡ some a) × IsValid a
unfolding parse
parse-IsValid l k = found (parse_loop (suc (length l)) (new l false) []) (
    parse_loop-Sound (suc (length l)) (new l false) l [] (new-View l false) (omega arith)
      k.bytes_valid tt)
