-- ===== src/Ircmsg/Codec/RoundTrip.antt =====
-- The parsers of `src/ircmsg/client.rs` and `src/ircmsg/server.rs` on what the writers write.
use vinezombie.Prelude.{
  ℕ, ◌<◌, ◌≡◌, refl, ap, ◌∙◌, subst, Option, none, some, [], ◌∷◌, ◌++◌, append_assoc, Bytes, length,
  Lacks, arith,
}
use vinezombie.Text.Kinds.{word, cmd, Result, ok, is_invalid, IsValid as IsKind}
use vinezombie.Ircmsg.Failure.{ParseError}
use vinezombie.Ircmsg.Args.{Args}
use vinezombie.Ircmsg.Source.{Source, write_source, parse_source}
use vinezombie.Ircmsg.Source.RoundTrip.{parse-write}
use vinezombie.Ircmsg.Tags.{Tag, Tags, tag_key, compare_bytes}
use vinezombie.Ircmsg.Tags.RoundTrip.{Plain as PlainTags, body, parse_tags-body, write_tags-body}
use vinezombie.Util.FlatMap.{IsSorted}
use vinezombie.Ircmsg.Numeric
use vinezombie.Ircmsg.Numeric.{Numeric, from_word}
use vinezombie.Ircmsg.Numeric.Digits.{numeric_round_trip, from_word-cmd}
use vinezombie.Ircmsg.Codec.{
  ServerMsgKind, numeric, command, as_arg, server_kind, client_kind, parse, write_to, write_args,
  tags_part, source_part, ServerMsg, ClientMsg, parse_server, to_server, write_server, parse_client,
  to_client, write_client, no_source,
}
use vinezombie.Ircmsg.Codec.Whole.{
  KindWord, Readable, parse-untagged, parse-tagged, text_of, value_of, Sourced,
}
use vinezombie.Ircmsg.Codec.Lines.{parse_line, write_to-IsKind}
use vinezombie.Ircmsg.Codec.Parts.{
  SourceValid, TagsValid, KindValid, write_tags-word, write_source-word, cmd-KindWord,
  as_arg-KindWord,
}

from_bytes-cmd : (w : Bytes) → IsKind cmd w → Numeric.from_bytes w ≡ none
unfolding Numeric.from_bytes is_invalid
from_bytes-cmd [] v = refl
from_bytes-cmd (a ∷ []) v = refl
from_bytes-cmd (a ∷ b ∷ []) v = refl
from_bytes-cmd (a ∷ b ∷ c ∷ []) v = let h = v.bytes_valid.0 in ground arith
from_bytes-cmd (a ∷ b ∷ c ∷ d ∷ ds) v = refl

-- The kind is read back from its word.
server_kind-as_arg : (k : ServerMsgKind) → KindValid k → server_kind (as_arg k) ≡ ok k
unfolding server_kind as_arg
server_kind-as_arg (numeric n) v = rw (numeric_round_trip n v).0
server_kind-as_arg (command c) v = rw (from_bytes-cmd c v, from_word-cmd c v)

client_kind-cmd : (c : Bytes) → IsKind cmd c → client_kind c ≡ ok c
unfolding client_kind
client_kind-cmd c v = rw (from_word-cmd c v)

-- Tags whose values need no escape, in the order that the map keeps them in.
pub record TagsReadable (ts : Tags) : Type 0 where
  pub tags_plain : PlainTags ts
  pub tags_sorted : IsSorted tag_key compare_bytes ts

pub PlainTags-valid : (ts : Tags) → PlainTags ts → TagsValid ts
PlainTags-valid [] h = tt
PlainTags-valid ((k, v) ∷ ts) (hk, hv, esc, h) = (hk, hv, PlainTags-valid ts h)

body-word : (t : Tag) (ts : Tags) → PlainTags (t ∷ ts) → Lacks (is_invalid word) (body (t ∷ ts))
body-word t ts h =
    (subst (Lacks (is_invalid word)) (write_tags-body t ts)
      (write_tags-word (t ∷ ts) (PlainTags-valid (t ∷ ts) h))).1

abbrev texts : Option Source → Option (Bytes × Source)
texts none = none
texts (some s) = some (write_source s, s)

texts-value : (s : Option Source) → value_of (texts s) ≡ s
texts-value none = refl
texts-value (some s) = refl

texts-part : (s : Option Source) → text_of (texts s) ≡ source_part s
texts-part none = refl
texts-part (some s) = refl

texts-Sourced : (s : Option Source) → SourceValid s → Sourced parse_source (texts s)
texts-Sourced none v = tt
texts-Sourced (some s) v = (write_source-word s v, parse-write s v)

module _ {S K : Type 0} (fuel : ℕ) (source_of : Bytes → Result ParseError S)
    (kind_of : Bytes → Result ParseError K) (w : Bytes) (k : K) (a : Args) (kw : KindWord w)
    (is_kind : kind_of w ≡ ok k) (ready : Readable a) where
  -- The common part of the two messages' round trips.
  parse-parts :
      (ts : Tags) (src : Option (Bytes × S))
      → length ts < fuel
      → TagsReadable ts
      → Sourced source_of src
      → parse fuel source_of kind_of (tags_part ts ++ (text_of src ++ (w ++ write_args a)))
        ≡ some (ok (ts, value_of src, k, a))
  parse-parts [] src h tags good =
      parse-untagged fuel source_of kind_of w k a kw is_kind ready src good
  parse-parts (t ∷ ts) src h tags good =
      ap (parse fuel source_of kind_of) (
        rw (write_tags-body t ts)
          (append_assoc (b'@' ∷ body (t ∷ ts)) (b' ' ∷ []) (text_of src ++ (w ++ write_args a))))
      ∙ parse-tagged fuel source_of kind_of w k a kw is_kind ready (body (t ∷ ts)) (t ∷ ts) src
          (body-word t ts tags.tags_plain)
          (parse_tags-body fuel (t ∷ ts) h tags.tags_plain tags.tags_sorted) good

-- A server message whose parts can be written.
pub record ServerReadable (m : ServerMsg) : Type 0 where
  pub tags_readable : TagsReadable m.tags
  pub source_valid : SourceValid m.source
  pub kind_valid : KindValid m.kind
  pub args_readable : Readable m.args

pub record ClientReadable (m : ClientMsg) : Type 0 where
  pub tags_readable : TagsReadable m.tags
  pub command_valid : IsKind cmd m.command
  pub args_readable : Readable m.args

-- A server message with valid fields, tags in key order whose values need no escape, and words that
-- do not begin with a tab or a form feed is parsed back from what it is written as, given fuel for
-- one round more than it has tags.
pub parse_server-write_server :
    (fuel : ℕ) (m : ServerMsg)
    → ServerReadable m
    → length m.tags < fuel
    → parse_server fuel (write_server m) ≡ some (ok m)
unfolding parse_server write_server write_to
parse_server-write_server fuel m v h =
    let e : parse fuel parse_source server_kind
          (tags_part m.tags ++ (text_of (texts m.source) ++ (as_arg m.kind ++ write_args m.args)))
        ≡ some (ok (m.tags, value_of (texts m.source), m.kind, m.args)) =
      parse-parts fuel parse_source server_kind (as_arg m.kind) m.kind m.args
        (as_arg-KindWord m.kind v.kind_valid) (server_kind-as_arg m.kind v.kind_valid)
        v.args_readable m.tags (texts m.source) h v.tags_readable
        (texts-Sourced m.source v.source_valid) in
    parse_line (write_server m) _ (
      write_to-IsKind m.tags m.source (as_arg m.kind) m.args
        (PlainTags-valid m.tags v.tags_readable.tags_plain) v.source_valid
        (as_arg-KindWord m.kind v.kind_valid) v.args_readable.args_valid)
    ∙ ap to_server (rw (texts-part, texts-value) at e)

-- A client message with valid fields, tags in key order whose values need no escape, and words that
-- do not begin with a tab or a form feed is parsed back from what it is written as, given fuel for
-- one round more than it has tags.
pub parse_client-write_client :
    (fuel : ℕ) (m : ClientMsg)
    → ClientReadable m
    → length m.tags < fuel
    → parse_client fuel (write_client m) ≡ some (ok m)
unfolding parse_client write_client write_to
parse_client-write_client fuel m v h =
    parse_line (write_client m) _ (
      write_to-IsKind m.tags none m.command m.args
        (PlainTags-valid m.tags v.tags_readable.tags_plain) tt
        (cmd-KindWord m.command v.command_valid) v.args_readable.args_valid)
    ∙ ap to_client (
        parse-parts fuel no_source client_kind m.command m.command m.args
          (cmd-KindWord m.command v.command_valid) (client_kind-cmd m.command v.command_valid)
          v.args_readable m.tags none h v.tags_readable tt)
