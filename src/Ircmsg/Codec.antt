-- ===== src/Ircmsg/Codec.antt =====
-- `parse`, `write_to` and `bytes_left` of `src/ircmsg/codec.rs`, and the messages of
-- `src/ircmsg/client.rs` and `src/ircmsg/server.rs` that use them.
pub mod Round
pub mod Whole
pub mod Parts
pub mod Lines
pub mod Safe
pub mod RoundTrip
use vinezombie.Prelude.{
  ℕ, zero, suc, ◌+◌, ◌-◌, ◌^◌, min, ℤ, difference, ◌≡◌, Bool, true, false, not, ◌&&◌, Option, none,
  some, List, [], ◌∷◌, ◌++◌, Bytes, length, ◌==◌, if◌then◌else◌,
}
use vinezombie.Text.Kinds.{
  from_bytes, InvalidString, empty, word, line, cmd, Result, ok, err, IsValid as IsKind,
}
use vinezombie.Text.Splitter.{
  Splitter, new, consume_whitespace, string_or_default, next_byte, rest_or_default,
}
use vinezombie.Ircmsg.Failure.{ParseError, invalid_kind, invalid_line}
use vinezombie.Ircmsg.Args
use vinezombie.Ircmsg.Args.{Args}
use vinezombie.Ircmsg.Source.{Source, parse_source, write_source, source_len}
use vinezombie.Ircmsg.Tags.{Tags, parse_tags, write_tags}
use vinezombie.Ircmsg.Numeric
use vinezombie.Ircmsg.Numeric.{Numeric, from_word}

-- The local variables of `parse`.
pub record Head (S : Type 0) : Type 0 where
  pub tags : Tags
  pub source : Option S
  pub expect_tags : Bool
  pub expect_source : Bool
  pub rest : Splitter

-- The arms of the match on the first byte of a word.
pub data Arm : Type 0 where
  no_word tag_word source_word kind_word : Arm

abbrev pub arm : Bool → Bool → Bytes → Arm
arm expect_tags expect_source [] = no_word
arm expect_tags expect_source (c ∷ cs) =
    if c == b'@' && expect_tags
    then tag_word
    else if c == b':' && expect_source
    then source_word
    else kind_word

-- `word.next_byte(); word.rest_or_default()`
abbrev pub word_tail : Bytes → Bytes
word_tail w = (rest_or_default word (next_byte (new w false)).1).0

-- A whole message: `none` is a parse that does not end.
abbrev pub Outcome : Type 0 → Type 0
Outcome A = Option (Result ParseError A)

module _ {S K : Type 0} (fuel : ℕ) (source_of : Bytes → Result ParseError S)
    (kind_of : Bytes → Result ParseError K) where
  abbrev pub with_tags :
      Option Tags → Head S → (Head S → Outcome (Head S × Bytes)) → Outcome (Head S × Bytes)
  with_tags none h loop = none
  with_tags (some ts) h loop = loop (record h { tags = ts; expect_tags = false })

  abbrev pub with_source :
      Result ParseError S → Head S → (Head S → Outcome (Head S × Bytes)) → Outcome (Head S × Bytes)
  with_source (err e) h loop = some (err e)
  with_source (ok s) h loop =
      loop (record h { source = some s; expect_tags = false; expect_source = false })

  abbrev pub head_arm :
      Arm → Bytes → Head S → (Head S → Outcome (Head S × Bytes)) → Outcome (Head S × Bytes)
  head_arm no_word w h loop = some (err (invalid_kind empty))
  head_arm tag_word w h loop = with_tags (parse_tags fuel (word_tail w)) h loop
  head_arm source_word w h loop = with_source (source_of (word_tail w)) h loop
  head_arm kind_word w h loop = some (ok (h, w))

  abbrev pub head_round :
      Bytes × Splitter → Head S → (Head S → Outcome (Head S × Bytes)) → Outcome (Head S × Bytes)
  head_round (w, s) h loop =
      head_arm (arm h.expect_tags h.expect_source w) w (record h { rest = s }) loop

  -- The loop up to the word that is the kind. Each further round clears a flag, so that three
  -- rounds are enough.
  unfoldable pub head_loop : ℕ → Head S → Outcome (Head S × Bytes)
  head_loop zero h = none
  head_loop (suc n) h =
      head_round (string_or_default word false (consume_whitespace h.rest)) h (head_loop n)

  abbrev pub with_args : Head S → K → Option Args → Outcome (Tags × Option S × K × Args)
  with_args h k none = none
  with_args h k (some a) = some (ok (h.tags, h.source, k, a))

  abbrev pub with_kind : Head S → Result ParseError K → Outcome (Tags × Option S × K × Args)
  with_kind h (err e) = some (err e)
  with_kind h (ok k) = with_args h k (Args.parse (rest_or_default line h.rest).0)

  abbrev pub after_head : Outcome (Head S × Bytes) → Outcome (Tags × Option S × K × Args)
  after_head none = none
  after_head (some (err e)) = some (err e)
  after_head (some (ok (h, w))) = with_kind h (kind_of w)

  abbrev pub initial : Bytes → Head S
  initial msg = record {
    tags = [];
    source = none;
    expect_tags = true;
    expect_source = true;
    rest = new msg false;
  }

  unfoldable pub parse : Bytes → Outcome (Tags × Option S × K × Args)
  unfolding head_loop
  parse msg = after_head (head_loop 3 (initial msg))

-- The words and the last argument, as the loop of `write_to` writes them.
unfoldable pub write_words : List Bytes → Bytes
write_words [] = []
write_words (w ∷ ws) = b' ' ∷ (w ++ write_words ws)

abbrev pub write_last : Bool → Option Bytes → Bytes
write_last long none = []
write_last true (some l) = b' ' ∷ b':' ∷ l
write_last false (some l) = b' ' ∷ l

unfoldable pub write_args : Args → Bytes
unfolding write_words Args.split_last Args.is_last_long
write_args a =
    let (words, last) = Args.split_last a in
    write_words words ++ write_last (Args.is_last_long a) last

abbrev pub tags_part : Tags → Bytes
tags_part [] = []
tags_part (t ∷ ts) = write_tags (t ∷ ts) ++ b' ' ∷ []

abbrev pub source_part : Option Source → Bytes
source_part none = []
source_part (some s) = b':' ∷ (write_source s ++ b' ' ∷ [])

-- `write_to`: the bytes that are written.
unfoldable pub write_to : Tags → Option Source → Bytes → Args → Bytes
unfolding write_args
write_to tags source kind args = tags_part tags ++ (source_part source ++ (kind ++ write_args args))

-- `size` of `bytes_left`.
abbrev pub source_size : Option ℕ → ℕ
source_size none = 0
source_size (some n) = 2 + n

unfoldable pub message_size : Bytes → Option ℕ → Args → ℕ
unfolding Args.is_empty Args.len_bytes
message_size kind source args =
    length kind + source_size source + (if Args.is_empty args then 0 else Args.len_bytes args + 1)

-- `bytes_left`; the last `isize` is `2 ^ 63 - 1`.
unfoldable pub bytes_left : Bytes → Option ℕ → Args → ℤ
unfolding message_size
bytes_left kind source args = difference 510 (min (message_size kind source args) (2 ^ 63 - 1))

pub record ClientMsg : Type 0 where
  pub tags : Tags
  pub command : Bytes
  pub args : Args

-- `ServerMsgKindRaw` of `src/ircmsg/servermsgkind.rs`.
pub data ServerMsgKind : Type 0 where
  numeric : Numeric → ServerMsgKind
  command : Bytes → ServerMsgKind

pub record ServerMsg : Type 0 where
  pub tags : Tags
  pub source : Option Source
  pub kind : ServerMsgKind
  pub args : Args

unfoldable pub as_arg : ServerMsgKind → Bytes
unfolding Numeric.as_bytes
as_arg (numeric n) = Numeric.as_bytes n
as_arg (command c) = c

abbrev pub to_kind : Result InvalidString Bytes → Result ParseError ServerMsgKind
to_kind (ok c) = ok (command c)
to_kind (err e) = err (invalid_kind e)

-- The closure that `ServerMsg::parse` passes for the kind.
abbrev pub numeric_or : Option Numeric → Bytes → Result ParseError ServerMsgKind
numeric_or (some n) w = ok (numeric n)
numeric_or none w = to_kind (from_word w)

unfoldable pub server_kind : Bytes → Result ParseError ServerMsgKind
server_kind w = numeric_or (Numeric.from_bytes w) w

abbrev pub to_server : Outcome (Tags × Option Source × ServerMsgKind × Args) → Outcome ServerMsg
to_server none = none
to_server (some (err e)) = some (err e)
to_server (some (ok (ts, s, k, a))) =
    some (ok (record { tags = ts; source = s; kind = k; args = a }))

-- `msg.try_into().map_err(..)?`, and what is done with the line.
abbrev pub with_line {ℓ} :
    {A : Type ℓ}
    → Result InvalidString Bytes
    → (Bytes → Option (Result ParseError A))
    → Option (Result ParseError A)
with_line (err e) f = some (err (invalid_line e))
with_line (ok l) f = f l

unfoldable pub parse_server : ℕ → Bytes → Outcome ServerMsg
unfolding parse server_kind from_bytes
parse_server fuel msg =
    with_line (from_bytes line msg) (λ l. to_server (parse fuel parse_source server_kind l))

abbrev pub to_command : Result InvalidString Bytes → Result ParseError Bytes
to_command (ok c) = ok c
to_command (err e) = err (invalid_kind e)

unfoldable pub client_kind : Bytes → Result ParseError Bytes
client_kind w = to_command (from_word w)

-- The closure that ignores the source.
abbrev pub no_source : Bytes → Result ParseError (Unit {0})
no_source w = ok tt

abbrev pub to_client : Outcome (Tags × Option (Unit {0}) × Bytes × Args) → Outcome ClientMsg
to_client none = none
to_client (some (err e)) = some (err e)
to_client (some (ok (ts, s, k, a))) = some (ok (record { tags = ts; command = k; args = a }))

unfoldable pub parse_client : ℕ → Bytes → Outcome ClientMsg
unfolding parse client_kind from_bytes
parse_client fuel msg =
    with_line (from_bytes line msg) (λ l. to_client (parse fuel no_source client_kind l))

unfoldable pub write_client : ClientMsg → Bytes
unfolding write_to
write_client m = write_to m.tags none m.command m.args

unfoldable pub write_server : ServerMsg → Bytes
unfolding write_to as_arg
write_server m = write_to m.tags m.source (as_arg m.kind) m.args

module _ {W : Type 0} (write_all : W → Bytes → Bool × W) where
  -- The buffer is cleared once the writer has taken all of it.
  abbrev pub cleared : Bytes → Bool × W → Bool × W × Bytes
  cleared buf (true, w) = (true, w, [])
  cleared buf (false, w) = (false, w, buf)

  -- `send_to`, with the writer's `write_all`, which says whether it succeeded.
  unfoldable pub send_client : ClientMsg → W → Bytes → Bool × W × Bytes
  unfolding write_client
  send_client m w buf =
      let full = (buf ++ write_client m) ++ b'\r' ∷ b'\n' ∷ [] in cleared full (write_all w full)

  unfoldable pub send_server : ServerMsg → W → Bytes → Bool × W × Bytes
  unfolding write_server
  send_server m w buf =
      let full = (buf ++ write_server m) ++ b'\r' ∷ b'\n' ∷ [] in cleared full (write_all w full)
