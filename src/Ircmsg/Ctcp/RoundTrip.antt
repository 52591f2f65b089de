-- ===== src/Ircmsg/Ctcp/RoundTrip.antt =====
-- What `MaybeCtcp::parse` of `src/ircmsg/ctcp.rs` reads, and what it makes of a written message.
use vinezombie.Prelude.{
  ℕ, ◌≡◌, refl, ap, ◌∙◌, Bool, true, false, Option, none, some, [], ◌∷◌, ◌++◌, ◌==◌, Bytes, length,
  length-append, drop, before, from, before-append, from-append, Lacks, Lacks-append, append_assoc,
  arith,
}
use vinezombie.Text.Kinds.{line, word, is_invalid, check_others}
use vinezombie.Text.Splitter.{Splitter, new, next_byte, first}
use vinezombie.Text.Splitter.View.{
  View, new-View, next_byte-first, next_byte-View, until_byte_eq-View, string_or_default-ok,
  rest_or_default-ok,
}
use vinezombie.Text.Casemap.{ascii_casemap}
use vinezombie.Text.Builder.{
  Builder, new as new_builder, append, append_unchecked, try_append_str, check_loop, build,
}
use vinezombie.Ircmsg.Ctcp.{
  MaybeCtcp, is_start, parse_rest, parse_from, parse, is_ctcp, len, push_char, put_query, into_line,
}

-- What stands before the byte that ends a query.
abbrev pub inner : Bytes → Bytes
inner bs = before (λ c. c == 1) bs

abbrev pub name_of : Bytes → Bytes
name_of bs = before (is_invalid word) (inner bs)

abbrev pub body_of : Bytes → Bytes
body_of bs = drop 1 (from (is_invalid word) (inner bs))

no_check : (bs : Bytes) → check_others word bs ≡ none
unfolding check_others
no_check bs = refl

no_check_line : (bs : Bytes) → check_others line bs ≡ none
unfolding check_others
no_check_line bs = refl

parse_rest-inner :
    {s : Splitter} {bs : Bytes}
    → View s bs
    → parse_rest s ≡ record { cmd = (ascii_casemap true (name_of bs)).0; body = body_of bs }
unfolding parse_rest
parse_rest-inner {s} {bs} v =
    let (name, behind) =
      string_or_default-ok (until_byte_eq-View v 1) word (no_check (name_of bs)) in
    let (body, nothing) =
      rest_or_default-ok (next_byte-View behind) line (no_check_line (body_of bs)) in
    rw (name, body)

parse_from-start :
    (value : Bytes) (p : Option ℕ × Splitter) → p.0 ≡ some 1 → parse_from value p ≡ parse_rest (p.1)
unfolding parse_from parse_rest
parse_from-start value p h = rw h

parse_from-other :
    (value : Bytes) (p : Option ℕ × Splitter) {o : Option ℕ}
    → p.0 ≡ o
    → is_start o ≡ false
    → parse_from value p ≡ record { cmd = []; body = value }
unfolding parse_from
parse_from-other value p h k = rw (h, k)

-- A line that begins with the byte 1 is a query, with the name in front of the first byte that no word
-- has in upper case and, one byte on, the body, both before the next byte 1.
pub parse-query :
    (utf8 : Bool) (bs : Bytes)
    → parse utf8 (1 ∷ bs) ≡ record { cmd = (ascii_casemap true (name_of bs)).0; body = body_of bs }
unfolding parse
parse-query utf8 bs =
    let v : View (new (1 ∷ bs) utf8) (1 ∷ bs) = new-View (1 ∷ bs) utf8 in
    parse_from-start (1 ∷ bs) (next_byte (new (1 ∷ bs) utf8)) (next_byte-first v)
    ∙ parse_rest-inner (next_byte-View v)

-- Any other line is the body whole.
pub parse-plain :
    (utf8 : Bool) (bs : Bytes)
    → is_start (first bs) ≡ false
    → parse utf8 bs ≡ record { cmd = []; body = bs }
unfolding parse
parse-plain utf8 bs h =
    parse_from-other bs (next_byte (new bs utf8)) (next_byte-first (new-View bs utf8)) h

push_char-append :
    (c : ℕ) (b : Builder) → is_invalid line c ≡ false → (push_char c b).bytes ≡ b.bytes ++ c ∷ []
unfolding push_char try_append_str check_loop
push_char-append c b h = rw (push_char, try_append_str, check_loop, h)

append-bytes : (bs : Bytes) (u : Bool) (b : Builder) → (append bs u b).bytes ≡ b.bytes ++ bs
unfolding append append_unchecked
append-bytes bs u b = refl

one-line : is_invalid line 1 ≡ false
unfolding is_invalid
one-line = refl

space-line : is_invalid line b' ' ≡ false
unfolding is_invalid
space-line = refl

space-word : is_invalid word b' ' ≡ true
unfolding is_invalid
space-word = refl

put_query-bytes :
    (u w : Bool) (cmd body : Bytes)
    → (put_query u w (record { cmd = cmd; body = body })).bytes
      ≡ 1 ∷ ((cmd ++ b' ' ∷ body) ++ 1 ∷ [])
unfolding put_query new_builder
put_query-bytes u w cmd body =
    rw
      (
        push_char-append 1 _ one-line,
        append-bytes,
        push_char-append b' ' _ space-line,
        append-bytes,
        push_char-append 1 _ one-line,
      )
      (ap (λ (bs : Bytes). 1 ∷ (bs ++ 1 ∷ [])) (append_assoc cmd (b' ' ∷ []) body))

into_line-query :
    (u w : Bool) (c : ℕ) (cs body : Bytes)
    → into_line u w (record { cmd = c ∷ cs; body = body })
      ≡ 1 ∷ (((c ∷ cs) ++ b' ' ∷ body) ++ 1 ∷ [])
unfolding into_line is_ctcp build
into_line-query u w c cs body = put_query-bytes u w (c ∷ cs) body

parse-written :
    (utf8 u w : Bool) (x : ℕ) (xs body : Bytes)
    → Lacks (is_invalid word) (x ∷ xs)
    → Lacks (λ c. c == 1) (x ∷ xs)
    → Lacks (λ c. c == 1) body
    → (ascii_casemap true (x ∷ xs)).0 ≡ x ∷ xs
    → parse utf8 (into_line u w (record { cmd = x ∷ xs; body = body }))
      ≡ record { cmd = x ∷ xs; body = body }
parse-written utf8 u w x xs body valid c b up =
    let cmd : Bytes = x ∷ xs in
    let cut : inner ((cmd ++ b' ' ∷ body) ++ 1 ∷ []) ≡ cmd ++ b' ' ∷ body =
      before-append (λ c. c == 1) (cmd ++ b' ' ∷ body) (1 ∷ [])
        (Lacks-append (λ c. c == 1) cmd (b' ' ∷ body) c (refl, b)) refl in
    let name : before (is_invalid word) (cmd ++ b' ' ∷ body) ≡ cmd =
      before-append (is_invalid word) cmd (b' ' ∷ body) valid space-word in
    let left : from (is_invalid word) (cmd ++ b' ' ∷ body) ≡ b' ' ∷ body =
      from-append (is_invalid word) cmd (b' ' ∷ body) valid space-word in
    ap (parse utf8) (into_line-query u w x xs body)
    ∙ parse-query utf8 ((cmd ++ b' ' ∷ body) ++ 1 ∷ [])
    ∙ rw (cut, name, left, up)

into_line-plain :
    (u w : Bool) (body : Bytes) → into_line u w (record { cmd = []; body = body }) ≡ body
unfolding into_line is_ctcp
into_line-plain u w body = refl

-- What a message must be like to come back: without a name, the body does not begin with the byte 1;
-- with one, it is a word in upper case, and neither it nor the body has that byte.
abbrev pub Readable : MaybeCtcp Bytes → Type 0
Readable m = elim (m.cmd) [
  | [] ↦ is_start (first m.body) ≡ false
  | x ∷ xs ↦
      Lacks (is_invalid word) (x ∷ xs)
      × Lacks (λ c. c == 1) (x ∷ xs)
      × Lacks (λ c. c == 1) m.body
      × ((ascii_casemap true (x ∷ xs)).0 ≡ x ∷ xs)
]

-- Such a message is parsed back from the line that it is made into.
pub parse-into_line :
    (utf8 u w : Bool) (m : MaybeCtcp Bytes) → Readable m → parse utf8 (into_line u w m) ≡ m
parse-into_line utf8 u w m h = by_name m.cmd h
  where
    by_name :
        (cmd : Bytes)
        → Readable (record { cmd = cmd; body = m.body })
        → parse utf8 (into_line u w (record { cmd = cmd; body = m.body }))
          ≡ record { cmd = cmd; body = m.body }
    by_name [] h = ap (parse utf8) (into_line-plain u w m.body) ∙ parse-plain utf8 m.body h
    by_name (x ∷ xs) (valid, c, b, up) = parse-written utf8 u w x xs m.body valid c b up

-- The length that is said beforehand is that of the line.
pub length-into_line : (u w : Bool) (m : MaybeCtcp Bytes) → length (into_line u w m) ≡ len m
length-into_line u w m = by_name m.cmd
  where
    by_name :
        (cmd : Bytes)
        → length (into_line u w (record { cmd = cmd; body = m.body }))
          ≡ len (record { cmd = cmd; body = m.body })
    by_name [] = unfold len in ap length (into_line-plain u w m.body)
    by_name (x ∷ xs) =
        unfold len in
        rw (into_line-query u w x xs m.body) (
          omega (
            arith,
            length-append ((x ∷ xs) ++ b' ' ∷ m.body) (1 ∷ []),
            length-append (x ∷ xs) (b' ' ∷ m.body),
          ))
