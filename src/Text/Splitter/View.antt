-- ===== src/Text/Splitter/View.antt =====
-- What each operation of the splitter does to the bytes that are still to be read.
use vinezombie.Prelude.{
  before-append, from-append, Starts, Lacks, ℕ, ◌+◌, ◌-◌, ◌≤◌, ◌≡◌, refl, sym, subst, ap, ◌∙◌, Bool,
  true, false, not, Option, none, some, [], ◌∷◌, ◌++◌, arith, Bytes, length, take, drop,
  length-take, length-drop, length-append, drop-drop, drop-take, take-take, drop-append_length,
  take-length, position, before, from, take_to, drop_to, before-append-from, take_to-position,
  drop_to-position, position-lt-length, is_ascii_whitespace, ◌==◌, ◌<◌, drop-length,
  drop-append_length, position-Lacks, Lacks,
}
use vinezombie.Text.Kinds.{InvalidString, ok, err, Kind, is_invalid, check_others}
use vinezombie.Text.Splitter.{
  Splitter, as_slice, skip, IsValid, next_byte, consume_whitespace, consume_invalid, string,
  string_or_default, peek_string, rest, rest_or_default, peek_rest, until_byte_eq, new, accept,
  skip_to, first, len, advance_byte, valid_part, cut_to,
}

-- The splitter is in bounds and shows these bytes.
pub record View (s : Splitter) (bs : Bytes) : Type 0 where
  pub valid : IsValid s
  pub slice : as_slice s ≡ bs

pub new-View : (bs : Bytes) (u : Bool) → View (new bs u) bs
unfolding new
new-View bs u = record {
  valid = omega arith;
  slice = let e : length bs - 0 ≡ length bs = omega arith in rw e (take-length bs);
}

pub drop-before : (p : ℕ → Bool) (bs : Bytes) → drop (length (before p bs)) bs ≡ from p bs
drop-before p bs =
    ap (drop (length (before p bs))) (sym (before-append-from p bs))
    ∙ drop-append_length (before p bs) (from p bs)

module _ {s : Splitter} {bs : Bytes} (v : View s bs) where
  pub View-length : length bs ≡ len s
  View-length = rw (← v.slice) (
      omega (
        arith,
        length-take (len s) (drop s.range.start s.string),
        length-drop s.range.start s.string,
        v.valid,
      ))

  -- A new start, and a new end, with whatever encoding.
  pub start-View :
      (n : ℕ) (t : Splitter)
      → n ≤ length bs
      → t.string ≡ s.string
      → t.range.start ≡ s.range.start + n
      → t.range.end ≡ s.range.end
      → View t (drop n bs)
  start-View n t h str a b = record {
    valid = record {
      ordered = omega (arith, View-length, v.valid);
      within = rw str (omega (arith, v.valid));
    };
    slice =
        let e : s.range.end - (s.range.start + n) ≡ len s - n = omega arith in
        rw (str, a, b, e, ← v.slice, drop-take n (len s), drop-drop n s.range.start);
  }

  pub end-View :
      (n : ℕ) (t : Splitter)
      → n ≤ length bs
      → t.string ≡ s.string
      → t.range.start ≡ s.range.start
      → t.range.end ≡ s.range.start + n
      → View t (take n bs)
  end-View n t h str a b = record {
    valid = record {
      ordered = omega (arith, View-length, v.valid);
      within = rw str (omega (arith, View-length, v.valid));
    };
    slice =
        let e : s.range.start + n - s.range.start ≡ n = omega arith in
        rw (str, a, b, e, ← v.slice) (sym (take-take n (len s) _ (omega (arith, View-length))));
  }

  pub skip-View : (n : ℕ) → n ≤ length bs → View (skip n s) (drop n bs)
  skip-View n h = start-View n (skip n s) h refl refl refl

  skip_to_at :
      (o : Option ℕ) → ((i : ℕ) → o ≡ some i → i < length bs) → View (skip_to o s) (drop_to o bs)
  skip_to_at none h = rw (← drop-length bs) (
      start-View (length bs) (skip_to none s) (omega arith) refl
        (omega (arith, View-length, v.valid)) refl)
  skip_to_at (some i) h = skip-View i (omega (arith, h i refl))

  -- Skipping to the first byte that passes a test.
  pub skip_to-View : (p : ℕ → Bool) → View (skip_to (position p bs) s) (from p bs)
  skip_to-View p =
      rw (← drop_to-position p bs) (skip_to_at (position p bs) (position-lt-length p bs))

  pub consume_whitespace-View :
      View (consume_whitespace s) (from (λ c. not (is_ascii_whitespace c)) bs)
  unfolding consume_whitespace
  consume_whitespace-View = rw v.slice (skip_to-View _)

  pub consume_invalid-View :
      (k : Kind) → View (consume_invalid k s) (from (λ c. not (is_invalid k c)) bs)
  unfolding consume_invalid
  consume_invalid-View k = rw v.slice (skip_to-View _)

  pub length-before : (p : ℕ → Bool) → length (before p bs) ≤ length bs
  length-before p =
      let e : length (before p bs ++ from p bs) ≡ length bs = ap length (before-append-from p bs) in
      omega (arith, length-append (before p bs) (from p bs))

  skip-before : (p : ℕ → Bool) → View (skip (length (before p bs)) s) (from p bs)
  skip-before p = rw (← drop-before p bs) (skip-View _ (length-before p))

  skip_all : View (skip (length bs) s) []
  skip_all = rw (← drop-length bs) (skip-View (length bs) (omega arith))

  pub next_byte-first : (next_byte s).0 ≡ first bs
  unfolding next_byte
  next_byte-first = rw v.slice

  pub next_byte-View : View (next_byte s).1 (drop 1 bs)
  unfolding next_byte
  next_byte-View = rw v.slice (by_first bs refl)
    where
      by_first : (cs : Bytes) → bs ≡ cs → View (advance_byte (first cs) s) (drop 1 cs)
      by_first [] e = rw e at v
      by_first (c ∷ cs) e =
          subst (λ (xs : Bytes). View (advance_byte (some c) s) (drop 1 xs)) e
            (start-View 1 (advance_byte (some c) s) (rw e (omega arith)) refl refl refl)

  valid_part_at : (o : Option ℕ) → valid_part false bs o ≡ ok (take_to o bs)
  valid_part_at none = refl
  valid_part_at (some i) = refl

  pub peek_string-before :
      (k : Kind)
      → peek_string k false s
        ≡ accept (check_others k (before (is_invalid k) bs)) (before (is_invalid k) bs)
  unfolding peek_string
  peek_string-before k =
      rw (v.slice, valid_part_at (position (is_invalid k) bs), take_to-position (is_invalid k) bs)

  pub peek_string_all :
      (k : Kind) → Lacks (is_invalid k) bs → peek_string k true s ≡ accept (check_others k bs) bs
  unfolding peek_string
  peek_string_all k h = rw (v.slice, position-Lacks (is_invalid k) bs h)

  -- A string that is read up to the first byte that its type refuses.
  pub string-ok :
      (k : Kind)
      → check_others k (before (is_invalid k) bs) ≡ none
      → ((string k false s).0 ≡ ok (before (is_invalid k) bs))
        × View (string k false s).1 (from (is_invalid k) bs)
  string-ok k h =
      let peek : peek_string k false s ≡ ok (before (is_invalid k) bs) =
        peek_string-before k ∙ rw h in
      unfold string in (rw peek, rw peek (skip-before (is_invalid k)))

  pub string-err :
      (k : Kind) {e : InvalidString}
      → check_others k (before (is_invalid k) bs) ≡ some e
      → ((string k false s).0 ≡ err e) × ((string k false s).1 ≡ s)
  string-err k {e} h =
      let peek : peek_string k false s ≡ err e = peek_string-before k ∙ rw h in
      unfold string in (rw peek, rw peek)

  pub string_or_default-ok :
      (k : Kind)
      → check_others k (before (is_invalid k) bs) ≡ none
      → ((string_or_default k false s).0 ≡ before (is_invalid k) bs)
        × View (string_or_default k false s).1 (from (is_invalid k) bs)
  string_or_default-ok k h =
      let peek : peek_string k false s ≡ ok (before (is_invalid k) bs) =
        peek_string-before k ∙ rw h in
      unfold string_or_default in (rw peek, rw peek (skip-before (is_invalid k)))

  pub peek_rest-all : (k : Kind) → check_others k bs ≡ none → peek_rest k s ≡ ok bs
  unfolding peek_rest
  peek_rest-all k h = rw (v.slice, h)

  pub rest-ok :
      (k : Kind) → check_others k bs ≡ none → ((rest k s).0 ≡ ok bs) × View (rest k s).1 []
  rest-ok k h = unfold rest in (rw (peek_rest-all k h), rw (peek_rest-all k h) skip_all)

  pub rest_or_default-ok :
      (k : Kind)
      → check_others k bs ≡ none
      → ((rest_or_default k s).0 ≡ bs) × View (rest_or_default k s).1 []
  rest_or_default-ok k h =
      unfold rest_or_default in (rw (peek_rest-all k h), rw (peek_rest-all k h) skip_all)

  cut_to_at :
      (b : ℕ) (o : Option ℕ)
      → ((i : ℕ) → o ≡ some i → i < length bs)
      → View (cut_to b o s) (take_to o bs)
  cut_to_at b none h = v
  cut_to_at b (some i) h = end-View i _ (omega (arith, h i refl)) refl refl refl

  pub until_byte_eq-View : (b : ℕ) → View (until_byte_eq b s) (before (λ c. c == b) bs)
  unfolding until_byte_eq
  until_byte_eq-View b =
      rw (v.slice, ← take_to-position (λ c. c == b) bs)
        (cut_to_at b (position (λ c. c == b) bs) (position-lt-length (λ c. c == b) bs))

abbrev pub is_solid : ℕ → Bool
is_solid c = not (is_ascii_whitespace c)

-- White space in front of what does not begin with any.
pub consume_whitespace_solid :
    {s : Splitter} {bs : Bytes} → View s bs → Starts is_solid bs → View (consume_whitespace s) bs
consume_whitespace_solid {s} {bs} v h =
    subst (View (consume_whitespace s)) (from-append is_solid [] bs tt h)
      (consume_whitespace-View v)

pub consume_whitespace_space :
    {s : Splitter} {bs : Bytes}
    → View s (b' ' ∷ bs)
    → Starts is_solid bs
    → View (consume_whitespace s) bs
consume_whitespace_space {s} {bs} v h =
    subst (View (consume_whitespace s)) (from-append is_solid [] bs tt h)
      (consume_whitespace-View v)

module _ {s : Splitter} (bs rest : Bytes) (v : View s (bs ++ rest)) (k : Kind)
    (valid : Lacks (is_invalid k) bs) (others : check_others k bs ≡ none)
    (stop : Starts (is_invalid k) rest) where
  -- A valid string in front of a byte that cannot be part of one is read whole.
  pub string_prefix : ((string k false s).0 ≡ ok bs) × View (string k false s).1 rest
  string_prefix =
      let cut : before (is_invalid k) (bs ++ rest) ≡ bs =
        before-append (is_invalid k) bs rest valid stop in
      let (read, left) = string-ok v k (rw cut others) in
      (read ∙ ap ok cut, subst (View _) (from-append (is_invalid k) bs rest valid stop) left)

  pub string_or_default_prefix :
      ((string_or_default k false s).0 ≡ bs) × View (string_or_default k false s).1 rest
  string_or_default_prefix =
      let cut : before (is_invalid k) (bs ++ rest) ≡ bs =
        before-append (is_invalid k) bs rest valid stop in
      let (read, left) = string_or_default-ok v k (rw cut others) in
      (read ∙ cut, subst (View _) (from-append (is_invalid k) bs rest valid stop) left)
