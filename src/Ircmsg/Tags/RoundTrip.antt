-- ===== src/Ircmsg/Tags/RoundTrip.antt =====
-- `Tags::parse` on what `Tags::write_to` writes behind the `@`.
use vinezombie.Prelude.{
  ℕ, zero, suc, ◌<◌, ◌≡◌, refl, ap, ◌∙◌, subst, false, Option, none, some, [], ◌∷◌, ◌++◌,
  append-nil, append_assoc, arith, Bytes, length, length-append, before, from, drop, Lacks, Starts,
  ◌==◌, from-append, before-append,
}
use vinezombie.Text.Kinds.{InvalidString, key, nonul, Result, ok, is_invalid, check_others, IsValid}
use vinezombie.Text.Splitter.{Splitter, new, string, next_byte}
use vinezombie.Text.Splitter.View.{View, new-View, string_prefix, next_byte-View, next_byte-first}
use vinezombie.Text.Splitter.Saved.{rest_until-View}
use vinezombie.Text.Escape.{needs_escape, escape, unescape}
use vinezombie.Text.Escape.Safe.{escape-IsValid}
use vinezombie.Text.Escape.Inverse.{unescape-escape_plain}
use vinezombie.Util.FlatMap.{IsSorted, from_vec}
use vinezombie.Util.FlatMap.Dedup.{from_vec-IsSorted}
use vinezombie.Ircmsg.Tags.{
  Tag, Tags, tag_key, compare_bytes, value_text, write_from, write_tags, value_part, parse_value,
  parse_loop, parse_round, parse_tags,
}
use vinezombie.Ircmsg.Tags.Stuck.{is_empty-nil, is_empty-cons}

-- Valid keys, and values without NUL or a byte that would be escaped.
abbrev pub Plain : Tags → Type 0
Plain [] = Unit
Plain ((k, v) ∷ ts) = IsValid key k × IsValid nonul v × Lacks needs_escape v × Plain ts

-- The tags as they are written behind the first prefix.
abbrev pub body : Tags → Bytes
body [] = []
body ((k, v) ∷ ts) = k ++ (value_text v ++ write_from b';' ts)

write_from-body : (c : ℕ) (t : Tag) (ts : Tags) → write_from c (t ∷ ts) ≡ c ∷ body (t ∷ ts)
unfolding write_from
write_from-body c (k, v) ts = refl

pub write_tags-body : (t : Tag) (ts : Tags) → write_tags (t ∷ ts) ≡ b'@' ∷ body (t ∷ ts)
unfolding write_tags
write_tags-body t ts = write_from-body b'@' t ts

drop-write_from : (ts : Tags) → drop 1 (write_from b';' ts) ≡ body ts
unfolding write_from
drop-write_from [] = refl
drop-write_from ((k, v) ∷ ts) = refl

write_from-Starts : (ts : Tags) → Starts (λ c. c == b';') (write_from b';' ts)
unfolding write_from
write_from-Starts [] = tt
write_from-Starts ((k, v) ∷ ts) = refl

value_text-Starts :
    (v : Bytes) (ts : Tags) → Starts (is_invalid key) (value_text v ++ write_from b';' ts)
unfolding is_invalid write_from
value_text-Starts [] [] = tt
value_text-Starts [] ((k, v) ∷ ts) = refl
value_text-Starts (c ∷ cs) ts = refl

module _ (r : Option ℕ × Splitter) where
  parse_value_end : r.0 ≡ none → parse_value r ≡ ([], r.1)
  parse_value_end h = rw (h, parse_value)

  parse_value_sep : r.0 ≡ some b';' → parse_value r ≡ ([], r.1)
  parse_value_sep h = rw (h, parse_value)

  parse_value_eq :
      r.0 ≡ some b'='
      → parse_value r ≡ (unescape (value_part r.1).0, (next_byte (value_part r.1).1).1)
  parse_value_eq h = rw (h, parse_value)

abbrev Reads : Bytes → Tags → Bytes × Splitter → Type 0
Reads v ts r = (r.0 ≡ v) × View r.1 (body ts)

-- The value and what follows it, from behind the key.
parse_value-Reads :
    (v : Bytes) (ts : Tags) (s : Splitter)
    → Lacks needs_escape v
    → IsValid nonul v
    → View s (value_text v ++ write_from b';' ts)
    → Reads v ts (parse_value (next_byte s))
parse_value-Reads [] [] s plain valid w =
    let bare : View s [] = unfold write_from in w in
    rw (parse_value_end (next_byte s) (next_byte-first bare)) (refl, next_byte-View bare)
parse_value-Reads [] (t ∷ ts) s plain valid w =
    let sep : View s (b';' ∷ body (t ∷ ts)) = rw (write_from-body b';' t ts) at w in
    rw (parse_value_sep (next_byte s) (next_byte-first sep)) (refl, next_byte-View sep)
parse_value-Reads (c ∷ cs) ts s plain valid w =
    rw (parse_value_eq (next_byte s) (next_byte-first w)) (
      ap unescape (taken.0 ∙ head) ∙ unescape-escape_plain (c ∷ cs) plain,
      subst (View _) (ap (drop 1) tail ∙ drop-write_from ts) (next_byte-View taken.1),
    )
  where
    rest : Bytes
    rest = escape (c ∷ cs) ++ write_from b';' ts

    lacks : Lacks (λ b. b == b';') (escape (c ∷ cs))
    lacks = (escape-IsValid (c ∷ cs) valid).1

    head : before (λ b. b == b';') rest ≡ escape (c ∷ cs)
    head = before-append _ (escape (c ∷ cs)) _ lacks (write_from-Starts ts)

    tail : from (λ b. b == b';') rest ≡ write_from b';' ts
    tail = from-append _ (escape (c ∷ cs)) _ lacks (write_from-Starts ts)

    taken :
        ((value_part (next_byte s).1).0 ≡ before (λ b. b == b';') rest)
        × View (value_part (next_byte s).1).1 (from (λ b. b == b';') rest)
    taken = rest_until-View (next_byte-View w) nonul b';' (unfold check_others in refl)

round-ok :
    (r : Result InvalidString Bytes × Splitter) (tags : Tags) (loop : Splitter → Tags → Option Tags)
    {k v : Bytes}
    → r.0 ≡ ok k
    → (parse_value (next_byte r.1)).0 ≡ v
    → parse_round r tags loop ≡ loop (parse_value (next_byte r.1)).1 (tags ++ (k, v) ∷ [])
round-ok r tags loop h e = rw (h, parse_round) (rw e)

key-length : (k : Bytes) → IsValid key k → 0 < length k
unfolding check_others
key-length [] v = absurd (cc v.others_valid)
key-length (c ∷ cs) v = omega arith

parse_loop-body :
    (fuel : ℕ) (s : Splitter) (ts acc : Tags)
    → View s (body ts)
    → length ts < fuel
    → Plain ts
    → parse_loop fuel s acc ≡ some (acc ++ ts)
unfolding parse_loop
parse_loop-body zero s ts acc w h plain = elim h [ ]
parse_loop-body (suc fuel) s [] acc w h plain = rw (is_empty-nil w refl, append-nil)
parse_loop-body (suc fuel) s ((k, v) ∷ ts) acc w h (kk, kv, esc, plain) =
    rw
      (is_empty-cons w
        (omega (arith, key-length k kk, length-append k (value_text v ++ write_from b';' ts))))
      (round-ok (string key false s) acc (parse_loop fuel) read.0 after.0
        ∙ parse_loop-body fuel _ ts (acc ++ (k, v) ∷ []) after.1 (omega arith) plain
        ∙ rw append_assoc)
  where
    read :
        ((string key false s).0 ≡ ok k)
        × View (string key false s).1 (value_text v ++ write_from b';' ts)
    read = string_prefix k _ w key kk.bytes_valid kk.others_valid (value_text-Starts v ts)

    after : Reads v ts (parse_value (next_byte (string key false s).1))
    after = parse_value-Reads v ts _ esc kv read.1

parse_tags-some :
    (fuel : ℕ) (bs : Bytes) {tags : Tags}
    → 0 < length bs
    → parse_loop fuel (new bs false) [] ≡ some tags
    → parse_tags fuel bs ≡ some (from_vec tag_key compare_bytes tags)
unfolding parse_tags
parse_tags-some fuel [] h e = elim h [ ]
parse_tags-some fuel (c ∷ cs) h e = rw (e, parse_tags)

-- Tags in key order with valid keys, whose values need no escape, are read back from what they
-- are written as.
pub parse_tags-body :
    (fuel : ℕ) (ts : Tags)
    → length ts < fuel
    → Plain ts
    → IsSorted tag_key compare_bytes ts
    → parse_tags fuel (body ts) ≡ some ts
parse_tags-body fuel [] h plain sorted = unfold parse_tags in refl
parse_tags-body fuel ((k, v) ∷ ts) h plain sorted =
    parse_tags-some fuel (body ((k, v) ∷ ts))
      (omega (arith, key-length k plain.0, length-append k (value_text v ++ write_from b';' ts)))
      (parse_loop-body fuel _ ((k, v) ∷ ts) [] (new-View (body ((k, v) ∷ ts)) false) h plain)
    ∙ ap some (from_vec-IsSorted tag_key compare_bytes ((k, v) ∷ ts) sorted)
