-- ===== src/Ircmsg/Codec/Round.antt =====
-- One round of the loop of `parse` of `src/ircmsg/codec.rs`, for each kind of word it can meet.
use vinezombie.Prelude.{
  ℕ, suc, ◌≡◌, refl, ◌∙◌, true, false, Option, none, some, ◌∷◌, ◌++◌, Bytes, Lacks, Starts,
}
use vinezombie.Text.Kinds.{word, Result, ok, is_invalid, check_others}
use vinezombie.Text.Splitter.{Splitter, consume_whitespace, string_or_default}
use vinezombie.Text.Splitter.View.{
  View, new-View, string_or_default_prefix, next_byte-View, rest_or_default-ok,
}
use vinezombie.Ircmsg.Failure.{ParseError}
use vinezombie.Ircmsg.Tags.{Tags, parse_tags}
use vinezombie.Ircmsg.Codec.{
  Head, arm, kind_word, word_tail, Outcome, with_tags, head_round, head_loop,
}

pub word_tail-cons : (c : ℕ) (cs : Bytes) → word_tail (c ∷ cs) ≡ cs
unfolding check_others
word_tail-cons c cs = (rest_or_default-ok (next_byte-View (new-View (c ∷ cs) false)) word refl).0

module _ {S K : Type 0} (fuel : ℕ) (source_of : Bytes → Result ParseError S)
    (kind_of : Bytes → Result ParseError K) (r : Bytes × Splitter) (h : Head S)
    (loop : Head S → Outcome (Head S × Bytes)) where
  round_kind :
      {w : Bytes}
      → r.0 ≡ w
      → arm h.expect_tags h.expect_source w ≡ kind_word
      → head_round fuel source_of kind_of r h loop ≡ some (ok (record h { rest = r.1 }, w))
  round_kind e k = rw (e, head_round) (rw k)

  round_tags :
      {cs : Bytes} (o : Option Tags)
      → r.0 ≡ b'@' ∷ cs
      → h.expect_tags ≡ true
      → parse_tags fuel cs ≡ o
      → head_round fuel source_of kind_of r h loop
        ≡ with_tags fuel source_of kind_of o (record h { rest = r.1 }) loop
  round_tags {cs} o e k p = rw (e, head_round) (rw (k, word_tail-cons b'@' cs, p))

  round_source :
      {cs : Bytes} {s : S}
      → r.0 ≡ b':' ∷ cs
      → h.expect_source ≡ true
      → source_of cs ≡ ok s
      → head_round fuel source_of kind_of r h loop
        ≡ loop
            (record h { source = some s; expect_tags = false; expect_source = false; rest = r.1 })
  round_source {cs} e k p = rw (e, head_round) (rw (k, word_tail-cons b':' cs, p))

-- The word `w` and then `rest` come next, behind any white space.
module _ {S K : Type 0} (fuel : ℕ) (source_of : Bytes → Result ParseError S)
    (kind_of : Bytes → Result ParseError K) (n : ℕ) (h : Head S) (w rest : Bytes)
    (v : View (consume_whitespace h.rest) (w ++ rest)) (valid : Lacks (is_invalid word) w)
    (stop : Starts (is_invalid word) rest) where
  read :
      ((string_or_default word false (consume_whitespace h.rest)).0 ≡ w)
      × View (string_or_default word false (consume_whitespace h.rest)).1 rest
  unfolding check_others
  read = string_or_default_prefix w rest v word valid refl stop

  pub head_loop-kind :
      arm h.expect_tags h.expect_source w ≡ kind_word
      → (s : Splitter) × View s rest
        × (head_loop fuel source_of kind_of (suc n) h ≡ some (ok (record h { rest = s }, w)))
  unfolding head_loop
  head_loop-kind k = (_, read.1, round_kind fuel source_of kind_of _ h _ read.0 k)

  pub head_loop-tags :
      {cs : Bytes} {ts : Tags}
      → w ≡ b'@' ∷ cs
      → h.expect_tags ≡ true
      → parse_tags fuel cs ≡ some ts
      → (s : Splitter) × View s rest
        × (head_loop fuel source_of kind_of (suc n) h
            ≡ head_loop fuel source_of kind_of n
                (record h { tags = ts; expect_tags = false; rest = s }))
  unfolding head_loop
  head_loop-tags e k p = (_, read.1, round_tags fuel source_of kind_of _ h _ _ (read.0 ∙ e) k p)

  pub head_loop_stuck :
      {cs : Bytes}
      → w ≡ b'@' ∷ cs
      → h.expect_tags ≡ true
      → parse_tags fuel cs ≡ none
      → head_loop fuel source_of kind_of (suc n) h ≡ none
  unfolding head_loop
  head_loop_stuck e k p = round_tags fuel source_of kind_of _ h _ _ (read.0 ∙ e) k p

  pub head_loop-source :
      {cs : Bytes} {src : S}
      → w ≡ b':' ∷ cs
      → h.expect_source ≡ true
      → source_of cs ≡ ok src
      → (s : Splitter) × View s rest
        × (head_loop fuel source_of kind_of (suc n) h
            ≡ head_loop fuel source_of kind_of n (record h {
              source = some src;
              expect_tags = false;
              expect_source = false;
              rest = s;
            }))
  unfolding head_loop
  head_loop-source e k p = (_, read.1, round_source fuel source_of kind_of _ h _ (read.0 ∙ e) k p)
