-- ===== src/State/Status/Parsing.antt =====
-- `StatusModes::parse` on `PREFIX` values, `src/state/mode.rs`.
use vinezombie.Prelude.{
  ℕ, ◌≡◌, refl, sym, ap, ◌∙◌, Bool, true, false, none, some, [], ◌∷◌, ◌++◌, append_assoc,
  append-nil, Bytes, ◌==◌, arith, is_ascii, Lacks,
}
use vinezombie.Text.Kinds.{ok, err}
use vinezombie.Ircmsg.Failure.{invalid_field, duplicate_prefix}
use vinezombie.State.Mode.{is_letter, new_mode}
use vinezombie.State.Status.{
  StatusModes, duplicate, parse_loop, parse, next_prefix, split_close, with_pieces, add_first,
}
use vinezombie.State.Status.Bijection.{Fresh, Distinct, Fresh-append, duplicate-Fresh, flip}

abbrev pub modes_of : StatusModes → Bytes
modes_of [] = []
modes_of ((m, p) ∷ map) = m ∷ modes_of map

abbrev pub prefixes_of : StatusModes → Bytes
prefixes_of [] = []
prefixes_of ((m, p) ∷ map) = p ∷ prefixes_of map

-- The entries have letters for modes and ASCII bytes for prefixes.
abbrev pub Plain : StatusModes → Type 0
Plain [] = Unit
Plain ((m, p) ∷ map) = (is_letter m ≡ true) × (is_ascii p ≡ true) × Plain map

-- The `PREFIX` value of a map.
abbrev pub print : StatusModes → Bytes
print map = b'(' ∷ (modes_of map ++ b')' ∷ prefixes_of map)

split_close-append :
    (xs rest : Bytes)
    → Lacks (λ c. c == b')') xs
    → split_close (xs ++ b')' ∷ rest) ≡ (xs, some rest)
split_close-append [] rest h = refl
split_close-append (x ∷ xs) rest h =
    rw (split_close, h.0) (ap (add_first x) (split_close-append xs rest h.1))

modes_of-close : (map : StatusModes) → Plain map → Lacks (λ c. c == b')') (modes_of map)
modes_of-close [] h = tt
modes_of-close ((m, p) ∷ map) (hl, ha, h) = (ground arith, modes_of-close map h)

letter-new : (m : ℕ) → is_letter m ≡ true → new_mode m ≡ some m
unfolding new_mode
letter-new m h = rw h refl

-- Distinct entries behind distinct ones that they share nothing with.
abbrev Apart : StatusModes → StatusModes → Type 0
Apart done [] = Unit
Apart done ((m, p) ∷ map) = Fresh m p done × Apart (done ++ (m, p) ∷ []) map

next_prefix-ascii :
    (p : ℕ) (ps : Bytes) → is_ascii p ≡ true → next_prefix false (p ∷ ps) ≡ (p, ps, false)
next_prefix-ascii p ps h = rw (next_prefix, h) refl

-- A round that finds a letter, with a prefix, and no duplicate.
parse_loop-push :
    (m p : ℕ) (ms ps ps' : Bytes) (skip skip' : Bool) (map : StatusModes)
    → next_prefix skip ps ≡ (p, ps', skip')
    → is_letter m ≡ true
    → Fresh m p map
    → parse_loop (m ∷ ms) ps skip map ≡ parse_loop ms ps' skip' (map ++ (m, p) ∷ [])
unfolding parse_loop
parse_loop-push m p ms ps ps' skip skip' map e hl f =
    let d : duplicate m (next_prefix skip ps).0 map ≡ none = rw e ((duplicate-Fresh m p map).1 f) in
    rw (parse_loop, letter-new m hl, d, e) refl

parse_loop-entries :
    (map done : StatusModes)
    → Plain map
    → Apart done map
    → parse_loop (modes_of map) (prefixes_of map) false done ≡ ok (done ++ map)
unfolding parse_loop
parse_loop-entries [] done h a = ap ok (sym (append-nil done))
parse_loop-entries ((m, p) ∷ map) done (hl, ha, h) (f, a) =
    parse_loop-push m p (modes_of map) (p ∷ prefixes_of map) (prefixes_of map) false false done
      (next_prefix-ascii p _ ha) hl f
    ∙ (parse_loop-entries map (done ++ (m, p) ∷ []) h a
        ∙ ap ok (append_assoc done ((m, p) ∷ []) map))

abbrev AllFresh : StatusModes → StatusModes → Type 0
AllFresh done [] = Unit
AllFresh done ((m, p) ∷ map) = Fresh m p done × AllFresh done map

AllFresh-append :
    (m p : ℕ) (done map : StatusModes)
    → Fresh m p map
    → AllFresh done map
    → AllFresh (done ++ (m, p) ∷ []) map
AllFresh-append m p done [] f a = tt
AllFresh-append m p done ((n, q) ∷ map) (x, y, f) (g, a) =
    (Fresh-append n q m p done g (flip m n x) (flip p q y), AllFresh-append m p done map f a)

Distinct-Apart : (done map : StatusModes) → Distinct map → AllFresh done map → Apart done map
Distinct-Apart done [] d a = tt
Distinct-Apart done ((m, p) ∷ map) (f, d) (g, a) =
    (g, Distinct-Apart (done ++ (m, p) ∷ []) map d (AllFresh-append m p done map f a))

AllFresh-nil : (map : StatusModes) → AllFresh [] map
AllFresh-nil [] = tt
AllFresh-nil ((m, p) ∷ map) = (tt, AllFresh-nil map)

-- A map from letters to ASCII prefixes, no two of them the same, is read back from its `PREFIX` value.
pub parse-print : (map : StatusModes) → Plain map → Distinct map → parse (print map) ≡ ok map
unfolding parse
parse-print map h d =
    ap with_pieces (split_close-append (modes_of map) (prefixes_of map) (modes_of-close map h))
    ∙ parse_loop-entries map [] h (Distinct-Apart [] map d (AllFresh-nil map))

-- A `PREFIX` value with two different modes first, and no prefixes, is refused with a duplicate of the
-- prefix NUL, whatever modes follow.
pub parse-no_prefixes :
    (m n : ℕ) (modes : Bytes)
    → is_letter m ≡ true
    → is_letter n ≡ true
    → (n == m) ≡ false
    → Lacks (λ c. c == b')') modes
    → parse (b'(' ∷ m ∷ n ∷ (modes ++ b')' ∷ [])) ≡ err (invalid_field (duplicate_prefix 0))
unfolding parse parse_loop
parse-no_prefixes m n modes hm hn ne h =
    let em : (m == b')') ≡ false = ground arith in
    let en : (n == b')') ≡ false = ground arith in
    ap with_pieces (split_close-append (m ∷ n ∷ modes) [] (em, (en, h)))
    ∙ parse_loop-push m 0 (n ∷ modes) [] [] false true [] refl hm tt
    ∙ second
  where
    second : parse_loop (n ∷ modes) [] true ((m, 0) ∷ []) ≡ err (invalid_field (duplicate_prefix 0))
    second = rw (parse_loop, letter-new n hn, duplicate, ne) refl
