-- ===== src/Ircmsg/Codec/Lines.antt =====
-- What `write_to` of `src/ircmsg/codec.rs` writes is a line, which the parsers take.
use vinezombie.Prelude.{◌≡◌, refl, Option, none, some, List, [], ◌∷◌, Bytes, Lacks, Lacks-append}
use vinezombie.Text.Kinds.{
  Result, line, arg, is_invalid, check_others, from_bytes, IsValid as IsKind,
}
use vinezombie.Text.Kinds.Checks.{from_bytes-IsValid}
use vinezombie.Ircmsg.Failure.{ParseError}
use vinezombie.Ircmsg.Args
use vinezombie.Ircmsg.Args.{Args, ArgWords, IsLong}
use vinezombie.Ircmsg.Args.RoundTrip.{spaced}
use vinezombie.Ircmsg.Source.{Source, write_source}
use vinezombie.Ircmsg.Tags.{Tags, write_tags}
use vinezombie.Ircmsg.Codec.{with_line, write_to, write_args, tags_part, source_part}
use vinezombie.Ircmsg.Codec.Whole.{KindWord, write_args-spaced}
use vinezombie.Ircmsg.Codec.Parts.{
  TagsValid, SourceValid, write_tags-word, write_source-word, word-line,
}

-- A parser of lines on a line.
pub parse_line {ℓ} :
    {A : Type ℓ} (l : Bytes) (f : Bytes → Option (Result ParseError A))
    → IsKind line l
    → with_line (from_bytes line l) f ≡ f l
parse_line l f v = rw ((from_bytes-IsValid line l).1 v)

arg-line : (w : Bytes) → IsKind arg w → Lacks (is_invalid line) w
unfolding is_invalid
arg-line w v = word-line w v.bytes_valid

spaced-line :
    (ws : List Bytes) (l : Option Bytes)
    → ArgWords ws
    → IsLong l
    → Lacks (is_invalid line) (spaced ws l)
unfolding is_invalid
spaced-line [] none hw hl = tt
spaced-line [] (some l) hw hl = (refl, (refl, hl.0.bytes_valid))
spaced-line (w ∷ ws) l hw hl =
    (refl, Lacks-append _ w _ (arg-line w hw.0) (spaced-line ws l hw.1 hl))

write_args-line : (a : Args) → Args.IsValid a → Lacks (is_invalid line) (write_args a)
write_args-line a v =
    rw (write_args-spaced a) (spaced-line a.words a.long v.words_valid v.long_valid)

tags_part-line : (ts : Tags) → TagsValid ts → Lacks (is_invalid line) (tags_part ts)
unfolding is_invalid
tags_part-line [] h = tt
tags_part-line (t ∷ ts) h =
    Lacks-append _ (write_tags (t ∷ ts)) _ (word-line _ (write_tags-word (t ∷ ts) h)) (refl, tt)

source_part-line : (s : Option Source) → SourceValid s → Lacks (is_invalid line) (source_part s)
unfolding is_invalid
source_part-line none h = tt
source_part-line (some s) h =
    (refl, Lacks-append _ (write_source s) _ (word-line _ (write_source-word s h)) (refl, tt))

pub write_to-line :
    (ts : Tags) (s : Option Source) (w : Bytes) (a : Args)
    → TagsValid ts
    → SourceValid s
    → KindWord w
    → Args.IsValid a
    → Lacks (is_invalid line) (write_to ts s w a)
unfolding write_to
write_to-line ts s w a ht hs hw ha = Lacks-append _ (tags_part ts) _ (tags_part-line ts ht) (
    Lacks-append _ (source_part s) _ (source_part-line s hs)
      (Lacks-append _ w _ (word-line w hw.word_valid) (write_args-line a ha)))

pub write_to-IsKind :
    (ts : Tags) (s : Option Source) (w : Bytes) (a : Args)
    → TagsValid ts
    → SourceValid s
    → KindWord w
    → Args.IsValid a
    → IsKind line (write_to ts s w a)
unfolding check_others
write_to-IsKind ts s w a ht hs hw ha = record {
  bytes_valid = write_to-line ts s w a ht hs hw ha;
  others_valid = refl;
}
