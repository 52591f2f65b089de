-- ===== src/Ircmsg/Codec/Whole.antt =====
-- `parse` of `src/ircmsg/codec.rs` on the parts that `write_to` puts together.
use vinezombie.Prelude.{
  ℕ, suc, ◌≡◌, refl, sym, ap, ◌∙◌, subst, Bool, true, false, not, ◌&&◌, Option, none, some, List,
  [], ◌∷◌, ◌++◌, append-nil, append_assoc, Bytes, Lacks, Starts, ◌==◌, arith,
}
use vinezombie.Text.Kinds.{word, line, Result, ok, is_invalid, check_others}
use vinezombie.Text.Splitter.{consume_whitespace}
use vinezombie.Text.Splitter.View.{
  View, new-View, consume_whitespace_solid, consume_whitespace_space, rest_or_default-ok, is_solid,
}
use vinezombie.Ircmsg.Failure.{ParseError}
use vinezombie.Ircmsg.Args
use vinezombie.Ircmsg.Args.{Args, ArgWords, IsLong, is_last_long, split_last, unsnoc}
use vinezombie.Ircmsg.Args.RoundTrip.{Plain, spaced, parse-spaced}
use vinezombie.Ircmsg.Tags.{Tags, parse_tags}
use vinezombie.Ircmsg.Codec.{
  Head, arm, kind_word, head_loop, after_head, initial, parse, write_words, write_last, write_args,
  Outcome,
}
use vinezombie.Ircmsg.Codec.Round.{head_loop-kind, head_loop-tags, head_loop-source}

-- A word that is neither tags nor a source.
abbrev pub plain_first : ℕ → Bool
plain_first c = not (c == b'@') && not (c == b':') && is_solid c

pub record KindWord (w : Bytes) : Type 0 where
  pub word_valid : Lacks (is_invalid word) w
  pub first_plain : (c : ℕ) × (cs : Bytes) × (w ≡ c ∷ cs) × (plain_first c ≡ true)

-- Arguments that are read back as they are.
pub record Readable (a : Args) : Type 0 where
  pub args_valid : Args.IsValid a
  pub words_plain : Plain a.words

write_words-unsnoc :
    (ws : List Bytes) → write_words (unsnoc ws).0 ++ write_last false (unsnoc ws).1 ≡ spaced ws none
unfolding write_words
write_words-unsnoc [] = refl
write_words-unsnoc (w ∷ []) = ap (◌∷◌ b' ') (sym (append-nil w))
write_words-unsnoc (w ∷ x ∷ ws) =
    ap (◌∷◌ b' ') (
      append_assoc w (write_words (unsnoc (x ∷ ws)).0) _
      ∙ ap (◌++◌ w) (write_words-unsnoc (x ∷ ws)))

write_words-long :
    (ws : List Bytes) (l : Bytes) → write_words ws ++ (b' ' ∷ b':' ∷ l) ≡ spaced ws (some l)
unfolding write_words
write_words-long [] l = refl
write_words-long (w ∷ ws) l =
    ap (◌∷◌ b' ') (append_assoc w (write_words ws) _ ∙ ap (◌++◌ w) (write_words-long ws l))

write_args-at :
    (ws : List Bytes) (l : Option Bytes)
    → write_args (record { words = ws; long = l }) ≡ spaced ws l
unfolding write_args split_last is_last_long
write_args-at ws none = write_words-unsnoc ws
write_args-at ws (some l) = write_words-long ws l

pub write_args-spaced : (a : Args) → write_args a ≡ spaced a.words a.long
write_args-spaced a = write_args-at a.words a.long

pub spaced_stop : (ws : List Bytes) (l : Option Bytes) → Starts (is_invalid word) (spaced ws l)
unfolding is_invalid
spaced_stop [] none = tt
spaced_stop [] (some l) = refl
spaced_stop (w ∷ ws) l = refl

pub parse-write_args : (a : Args) → Readable a → Args.parse (write_args a) ≡ some a
parse-write_args a r =
    ap Args.parse (write_args-spaced a)
    ∙ parse-spaced a.words a.long r.args_valid.words_valid r.words_plain r.args_valid.long_valid

kind_arm : (c : ℕ) (cs : Bytes) (t s : Bool) → plain_first c ≡ true → arm t s (c ∷ cs) ≡ kind_word
kind_arm c cs t s h = ground arith

pub plain-solid : (c : ℕ) → plain_first c ≡ true → is_solid c ≡ true
plain-solid c h = ground arith

module _ {S : Type 0} where
  -- The source, if there is one: its text and what it stands for.
  abbrev pub text_of : Option (Bytes × S) → Bytes
  text_of none = []
  text_of (some (bs, src)) = b':' ∷ (bs ++ b' ' ∷ [])

  abbrev pub value_of : Option (Bytes × S) → Option S
  value_of none = none
  value_of (some (bs, src)) = some src

  abbrev pub Sourced : (Bytes → Result ParseError S) → Option (Bytes × S) → Type 0
  Sourced source_of none = Unit
  Sourced source_of (some (bs, src)) = Lacks (is_invalid word) bs × (source_of bs ≡ ok src)

word_colon : (bs : Bytes) → Lacks (is_invalid word) bs → Lacks (is_invalid word) (b':' ∷ bs)
unfolding is_invalid
word_colon bs h = (refl, h)

word_at : (bs : Bytes) → Lacks (is_invalid word) bs → Lacks (is_invalid word) (b'@' ∷ bs)
unfolding is_invalid
word_at bs h = (refl, h)

space_stop : is_invalid word b' ' ≡ true
unfolding is_invalid
space_stop = refl

module _ {S K : Type 0} (fuel : ℕ) (source_of : Bytes → Result ParseError S)
    (kind_of : Bytes → Result ParseError K) (w : Bytes) (k : K) (a : Args) (kw : KindWord w)
    (is_kind : kind_of w ≡ ok k) (ready : Readable a) where
  abbrev finish : Outcome (Head S × Bytes) → Outcome (Tags × Option S × K × Args)
  finish = after_head fuel source_of kind_of

  abbrev loop : ℕ → Head S → Outcome (Head S × Bytes)
  loop = head_loop fuel source_of kind_of

  tail_solid : (rest : Bytes) → Starts is_solid (w ++ rest)
  tail_solid rest = let (c, cs, e, p) = kw.first_plain in rw e (plain-solid c p)

  -- What is done with the word and the arguments behind it.
  finish-kind :
      (h : Head S)
      → View h.rest (write_args a)
      → finish (some (ok (h, w))) ≡ some (ok (h.tags, h.source, k, a))
  unfolding check_others
  finish-kind h v = rw (is_kind, (rest_or_default-ok v line refl).0, parse-write_args a ready)

  kind_at : (t s : Bool) → arm t s w ≡ kind_word
  kind_at t s = let (c, cs, e, p) = kw.first_plain in rw e (kind_arm c cs t s p)

  from_kind :
      (n : ℕ) (h : Head S)
      → View (consume_whitespace h.rest) (w ++ write_args a)
      → finish (loop (suc n) h) ≡ some (ok (h.tags, h.source, k, a))
  from_kind n h v =
      let (s, left, e) =
        head_loop-kind fuel source_of kind_of n h w (write_args a) v kw.word_valid
          (rw (write_args-spaced a) (spaced_stop a.words a.long))
          (kind_at h.expect_tags h.expect_source) in
      ap finish e ∙ finish-kind (record h { rest = s }) left

  from_source :
      (n : ℕ) (h : Head S) (src : Option (Bytes × S))
      → Sourced source_of src
      → h.expect_source ≡ true
      → h.source ≡ none
      → View (consume_whitespace h.rest) (text_of src ++ (w ++ write_args a))
      → finish (loop (suc (suc n)) h) ≡ some (ok (h.tags, value_of src, k, a))
  from_source n h none good e f v = from_kind (suc n) h v ∙ rw f
  from_source n h (some (bs, src)) (good, g) e f v =
      let at : View (consume_whitespace h.rest) ((b':' ∷ bs) ++ (b' ' ∷ (w ++ write_args a))) =
        subst (View _) (ap (◌∷◌ b':') (append_assoc bs (b' ' ∷ []) _)) v in
      let (s, left, same) =
        head_loop-source fuel source_of kind_of (suc n) h (b':' ∷ bs) _ at (word_colon bs good)
          space_stop refl e g in
      ap finish same ∙ from_kind n _ (consume_whitespace_space left (tail_solid (write_args a)))

  source_solid : (src : Option (Bytes × S)) → Starts is_solid (text_of src ++ (w ++ write_args a))
  source_solid none = tail_solid (write_args a)
  source_solid (some (bs, src)) = refl

  -- A message without tags.
  pub parse-untagged :
      (src : Option (Bytes × S))
      → Sourced source_of src
      → parse fuel source_of kind_of (text_of src ++ (w ++ write_args a))
        ≡ some (ok ([], value_of src, k, a))
  unfolding parse
  parse-untagged src good =
      from_source 1 (initial fuel source_of kind_of (text_of src ++ (w ++ write_args a))) src good
        refl refl (consume_whitespace_solid (new-View _ false) (source_solid src))

  -- A message with the tags that are written as `bs`.
  pub parse-tagged :
      (bs : Bytes) (ts : Tags) (src : Option (Bytes × S))
      → Lacks (is_invalid word) bs
      → parse_tags fuel bs ≡ some ts
      → Sourced source_of src
      → parse fuel source_of kind_of ((b'@' ∷ bs) ++ (b' ' ∷ (text_of src ++ (w ++ write_args a))))
        ≡ some (ok (ts, value_of src, k, a))
  unfolding parse
  parse-tagged bs ts src valid e good =
      let v : View _ ((b'@' ∷ bs) ++ (b' ' ∷ (text_of src ++ (w ++ write_args a)))) =
        consume_whitespace_solid (new-View _ false) refl in
      let (s, left, same) =
        head_loop-tags fuel source_of kind_of 2
          (initial fuel source_of kind_of
            ((b'@' ∷ bs) ++ (b' ' ∷ (text_of src ++ (w ++ write_args a)))))
          (b'@' ∷ bs) _ v (word_at bs valid) space_stop refl refl e in
      ap finish same
      ∙ from_source 0 _ src good refl refl (consume_whitespace_space left (source_solid src))
