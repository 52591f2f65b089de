-- ===== src/Text/Splitter/Saved.antt =====
-- Reading one delimited string under `save_end`: the end is put back, and what follows is kept.
use vinezombie.Prelude.{
  ℕ, ◌≡◌, refl, sym, ap, ◌∙◌, subst, Bool, true, false, Option, none, some, [], ◌∷◌, Bytes, length,
  drop, before, before-Lacks, from, position, position-none, ◌==◌,
}
use vinezombie.Text.Kinds.{
  InvalidString, empty, byte, Result, ok, err, ◌>>=◌, Kind, is_invalid, check_others, IsValid,
}
use vinezombie.Text.Splitter.{
  Splitter, rest_or_default, peek_rest, string, peek_string, until_byte_eq, save_end, with_saved,
  cut_to, as_slice, accept, valid_part, consume_ok, refuse, restore,
}
use vinezombie.Text.Splitter.View.{
  View, until_byte_eq-View, peek_string_all, start-View, length-before, drop-before, peek_rest-all,
  string-ok, peek_string-before,
}

-- `save_end().until_byte_eq(c).string::<U>(true)`
abbrev pub read_until : Kind → ℕ → Splitter → Result InvalidString Bytes × Splitter
read_until k c = save_end (λ t. string k true (until_byte_eq c t))

cut_to-start :
    (c : ℕ) (o : Option ℕ) (s : Splitter)
    → ((cut_to c o s).range.start ≡ s.range.start) × ((cut_to c o s).string ≡ s.string)
cut_to-start c none s = (refl, refl)
cut_to-start c (some i) s = (refl, refl)

until_byte_eq-start :
    (c : ℕ) (s : Splitter)
    → ((until_byte_eq c s).range.start ≡ s.range.start) × ((until_byte_eq c s).string ≡ s.string)
unfolding until_byte_eq
until_byte_eq-start c s = cut_to-start c (position (λ b. b == c) (as_slice s)) s

refuse-err : (cs : Bytes) → (e : InvalidString) × (refuse cs ≡ err e)
refuse-err [] = (empty, refl)
refuse-err (c ∷ cs) = (byte c, refl)

consume_ok-fst : (r : Result InvalidString Bytes) (s : Splitter) → (consume_ok r s).0 ≡ r
consume_ok-fst (ok bs) s = refl
consume_ok-fst (err e) s = refl

string-peek : (k : Kind) (r : Bool) (s : Splitter) → (string k r s).0 ≡ peek_string k r s
unfolding string
string-peek k r s = consume_ok-fst (peek_string k r s) s

accept-ok :
    (o : Option InvalidString) (bs : Bytes) {w : Bytes} → accept o bs ≡ ok w → (w ≡ bs) × (o ≡ none)
accept-ok none bs h = (cc, refl)
accept-ok (some e) bs h = absurd (cc)

-- What `peek_string(true)` returns is the whole slice, which is a valid string.
pub peek_string-true-ok :
    {s : Splitter} {bs : Bytes} (v : View s bs) (k : Kind) {w : Bytes}
    → peek_string k true s ≡ ok w
    → (w ≡ bs) × IsValid k bs
unfolding peek_string
peek_string-true-ok {s} {bs} v k {w} h = whole (position (is_invalid k) bs) refl (rw v.slice at h)
  where
    whole :
        (o : Option ℕ)
        → position (is_invalid k) bs ≡ o
        → (valid_part true bs o >>= λ (slice : Bytes). accept (check_others k slice) slice) ≡ ok w
        → (w ≡ bs) × IsValid k bs
    whole (some i) e g = let (why, f) = refuse-err (drop i bs) in absurd (cc (rw f at g))
    whole none e g =
        let (same, others) = accept-ok (check_others k bs) bs g in
        (same, record { bytes_valid = position-none (is_invalid k) bs e; others_valid = others })

module _ {s : Splitter} {bs : Bytes} (v : View s bs) (k : Kind) (c : ℕ) where
  cut : View (until_byte_eq c s) (before (λ b. b == c) bs)
  cut = until_byte_eq-View v c

  restored :
      peek_string k true (until_byte_eq c s) ≡ ok (before (λ b. b == c) bs)
      → View (read_until k c s).1 (from (λ b. b == c) bs)
  unfolding with_saved string restore
  restored h = subst (View (read_until k c s).1) (drop-before (λ b. b == c) bs) (
      start-View v (length (before (λ b. b == c) bs)) _ (length-before v (λ b. b == c))
        (rw h (until_byte_eq-start c s).1) (rw (h, (until_byte_eq-start c s).0) refl) refl)

  read_until-peek : (read_until k c s).0 ≡ peek_string k true (until_byte_eq c s)
  unfolding with_saved string
  read_until-peek = consume_ok-fst _ _

  -- What is read up to the delimiter is a valid string, and the delimiter comes next.
  pub read_until-ok :
      {w : Bytes}
      → (read_until k c s).0 ≡ ok w
      → (w ≡ before (λ b. b == c) bs)
        × IsValid k (before (λ b. b == c) bs)
        × View (read_until k c s).1 (from (λ b. b == c) bs)
  read_until-ok {w} h =
      let peek : peek_string k true (until_byte_eq c s) ≡ ok w = sym read_until-peek ∙ h in
      let (same, valid) = peek_string-true-ok cut k peek in
      (same, valid, restored (peek ∙ ap ok same))

  pub read_until-View :
      IsValid k (before (λ b. b == c) bs)
      → ((read_until k c s).0 ≡ ok (before (λ b. b == c) bs))
        × View (read_until k c s).1 (from (λ b. b == c) bs)
  read_until-View h =
      let peek : peek_string k true (until_byte_eq c s) ≡ ok (before (λ b. b == c) bs) =
        peek_string_all cut k h.bytes_valid ∙ rw h.others_valid in
      (read_until-peek ∙ peek, restored peek)

module _ {s : Splitter} {bs : Bytes} (v : View s bs) (k : Kind) where
  -- A string that is read up to an invalid byte is the bytes before it.
  pub string_false-ok :
      {w : Bytes}
      → (string k false s).0 ≡ ok w
      → (w ≡ before (is_invalid k) bs)
        × IsValid k w
        × View (string k false s).1 (from (is_invalid k) bs)
  string_false-ok {w} h =
      let peek : peek_string k false s ≡ ok w = sym (string-peek k false s) ∙ h in
      let (same, others) =
        accept-ok (check_others k (before (is_invalid k) bs)) (before (is_invalid k) bs)
          (sym (peek_string-before v k) ∙ peek) in
      (
        same,
        rw same (record { bytes_valid = before-Lacks (is_invalid k) bs; others_valid = others }),
        (string-ok v k others).1,
      )

-- `save_end().until_byte_eq(c).rest::<U>()`, for a type whose check never fails.
abbrev pub rest_until : Kind → ℕ → Splitter → Bytes × Splitter
rest_until k c = save_end (λ t. rest_or_default k (until_byte_eq c t))

module _ {s : Splitter} {bs : Bytes} (v : View s bs) (k : Kind) (c : ℕ) where
  pub rest_until-View :
      check_others k (before (λ b. b == c) bs) ≡ none
      → ((rest_until k c s).0 ≡ before (λ b. b == c) bs)
        × View (rest_until k c s).1 (from (λ b. b == c) bs)
  unfolding with_saved rest_or_default restore
  rest_until-View h =
      let peek : peek_rest k (until_byte_eq c s) ≡ ok (before (λ b. b == c) bs) =
        peek_rest-all (until_byte_eq-View v c) k h in
      (
        rw peek,
        subst (View (rest_until k c s).1) (drop-before (λ b. b == c) bs) (
            start-View v (length (before (λ b. b == c) bs)) _ (length-before v (λ b. b == c))
              (rw peek (until_byte_eq-start c s).1) (rw (peek, (until_byte_eq-start c s).0) refl)
              refl),
      )
