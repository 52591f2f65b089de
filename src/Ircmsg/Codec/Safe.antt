-- ===== src/Ircmsg/Codec/Safe.antt =====
-- What `write_to` and `send_to` of `src/ircmsg/codec.rs` put on the wire: one line, of the length
-- that `bytes_left` counts; and tags on which `parse` does not end.
use mathlib.Core.Option
use vinezombie.Prelude.{
  ◌∙◌, ℕ, ◌+◌, ◌-◌, ◌^◌, ◌<◌, min, difference, ◌≡◌, refl, ap, Bool, true, false, ◌||◌, Option, none,
  some, List, [], ◌∷◌, ◌++◌, append_assoc, Bytes, length, length-append, Lacks, Starts, arith,
  if◌then◌else◌,
}
use vinezombie.Text.Kinds.{word, line, cmd, is_invalid, IsValid as IsKind}
use vinezombie.Text.Splitter.View.{new-View, consume_whitespace_solid}
use vinezombie.Ircmsg.Args
use vinezombie.Ircmsg.Args.{Args, ArgWords, IsLong, is_empty, len_bytes, words_bytes, is_last_long}
use vinezombie.Ircmsg.Args.RoundTrip.{spaced, spaced_long}
use vinezombie.Ircmsg.Source.{Source, write_source, source_len, parse_source}
use vinezombie.Ircmsg.Source.Exact.{length-write}
use vinezombie.Ircmsg.Tags.Stuck.{parse_tags-colon}
use vinezombie.Ircmsg.Codec.{
  ServerMsg, ClientMsg, as_arg, write_to, write_args, source_part, source_size, message_size,
  bytes_left, write_server, write_client, send_server, send_client, cleared, parse, initial,
  after_head, parse_server, server_kind, to_server,
}
use vinezombie.Ircmsg.Codec.Round.{head_loop_stuck}
use vinezombie.Ircmsg.Codec.Whole.{write_args-spaced}
use vinezombie.Ircmsg.Codec.Parts.{TagsValid, SourceValid, KindValid, cmd-KindWord, as_arg-KindWord}
use vinezombie.Ircmsg.Codec.Lines.{write_to-line, parse_line}

-- The guarantees of the types of a message's fields, and a host that is not empty if there is one.
pub record ServerValid (m : ServerMsg) : Type 0 where
  pub tags_valid : TagsValid m.tags
  pub source_valid : SourceValid m.source
  pub kind_valid : KindValid m.kind
  pub args_valid : Args.IsValid m.args

-- The guarantees of the types of a message's fields.
pub record ClientValid (m : ClientMsg) : Type 0 where
  pub tags_valid : TagsValid m.tags
  pub command_valid : IsKind cmd m.command
  pub args_valid : Args.IsValid m.args

-- What the buffer held, one line and its end.
abbrev pub one_line : Bytes → Bytes → Bytes
one_line buf l = buf ++ (l ++ b'\r' ∷ b'\n' ∷ [])

cleared-emptied :
    {W : Type 0} (write_all : W → Bytes → Bool × W) (full : Bytes) (r : Bool × W)
    → cleared write_all full r ≡ (r.0, r.1, if r.0 then [] else full)
cleared-emptied write_all full (true, w) = refl
cleared-emptied write_all full (false, w) = refl

-- Sending a server message with valid fields, and a host that is not empty if it has one, gives the
-- writer what the buffer held, the text of the message and one CRLF, all at once. The result is the
-- writer's; the buffer is empty if it succeeds, and else holds what was to be written. The text holds
-- no CR, LF or NUL.
pub send_server-one_line :
    {W : Type 0} (write_all : W → Bytes → Bool × W) (m : ServerMsg) (w : W) (buf : Bytes)
    → ServerValid m
    → let full = one_line buf (write_server m) in
      let (done, w') = write_all w full in
      (send_server write_all m w buf ≡ (done, w', if done then [] else full))
      × Lacks (is_invalid line) (write_server m)
unfolding send_server write_server
send_server-one_line write_all m w buf v = (
  ap (λ (full : Bytes). cleared write_all full (write_all w full))
        (append_assoc buf (write_server m) _)
      ∙ cleared-emptied write_all (one_line buf (write_server m))
          (write_all w (one_line buf (write_server m))),
  write_to-line m.tags m.source (as_arg m.kind) m.args v.tags_valid v.source_valid
      (as_arg-KindWord m.kind v.kind_valid) v.args_valid,
)

-- Sending a client message with valid fields gives the writer what the buffer held, the text of the
-- message and one CRLF, all at once. The result is the writer's; the buffer is empty if it succeeds,
-- and else holds what was to be written. The text holds no CR, LF or NUL.
pub send_client-one_line :
    {W : Type 0} (write_all : W → Bytes → Bool × W) (m : ClientMsg) (w : W) (buf : Bytes)
    → ClientValid m
    → let full = one_line buf (write_client m) in
      let (done, w') = write_all w full in
      (send_client write_all m w buf ≡ (done, w', if done then [] else full))
      × Lacks (is_invalid line) (write_client m)
unfolding send_client write_client
send_client-one_line write_all m w buf v = (
  ap (λ (full : Bytes). cleared write_all full (write_all w full))
        (append_assoc buf (write_client m) _)
      ∙ cleared-emptied write_all (one_line buf (write_client m))
          (write_all w (one_line buf (write_client m))),
  write_to-line m.tags none m.command m.args v.tags_valid tt
      (cmd-KindWord m.command v.command_valid) v.args_valid,
)

-- The byte of the colon that `bytes_left` counts though it may not be written.
abbrev pub spare : Args → ℕ
spare a = if is_last_long a || is_empty a then 0 else 1

abbrev long_size : Option Bytes → ℕ
long_size none = 0
long_size (some l) = length l + 2

length-spaced_long : (l : Option Bytes) → length (spaced_long l) ≡ long_size l
length-spaced_long none = refl
length-spaced_long (some l) = omega arith

length-spaced :
    (ws : List Bytes) (l : Option Bytes) → length (spaced ws l) ≡ words_bytes ws + long_size l
unfolding words_bytes
length-spaced [] l = omega (arith, length-spaced_long l)
length-spaced (w ∷ ws) l = omega (arith, length-append w (spaced ws l), length-spaced ws l)

args_size_at :
    (ws : List Bytes) (l : Option Bytes) (a : Args)
    → a ≡ record { words = ws; long = l }
    → length (spaced ws l) + spare a ≡ (if is_empty a then 0 else len_bytes a + 1)
unfolding is_empty len_bytes is_last_long words_bytes
args_size_at [] none a e = rw e refl
args_size_at [] (some l) a e = rw e (omega arith)
args_size_at (w ∷ ws) none a e = rw e (grind (arith, length-spaced (w ∷ ws) none))
args_size_at (w ∷ ws) (some l) a e = rw e (grind (arith, length-spaced (w ∷ ws) (some l)))

pub source_size-part :
    (s : Option Source) → length (source_part s) ≡ source_size (Option.map source_len s)
source_size-part none = refl
source_size-part (some s) =
    omega (arith, length-append (write_source s) (b' ' ∷ []), length-write s)

message_size-write_to :
    (s : Option Source) (w : Bytes) (a : Args)
    → message_size w (Option.map source_len s) a ≡ length (write_to [] s w a) + spare a
unfolding message_size write_to
message_size-write_to s w a = omega (
  arith,
  length-append (source_part s) (w ++ write_args a),
  length-append w (write_args a),
  ap length (write_args-spaced a),
  args_size_at a.words a.long a refl,
  source_size-part s,
)

-- For a message that fits in an `isize`, `bytes_left` is 510 less the length of what is written
-- without the tags, and one less still exactly if there are arguments and the last is not long.
pub bytes_left-write_to :
    (s : Option Source) (w : Bytes) (a : Args)
    → length (write_to [] s w a) + spare a < 2 ^ 63
    → bytes_left w (Option.map source_len s) a
      ≡ difference 510 (length (write_to [] s w a) + spare a)
unfolding bytes_left
bytes_left-write_to s w a h =
    let e : min (length (write_to [] s w a) + spare a) (2 ^ 63 - 1)
        ≡ length (write_to [] s w a) + spare a =
      omega arith in
    rw (message_size-write_to s w a, e) refl

-- A line with a word of tags whose first key begins with a colon is never parsed as a server
-- message: for no number of rounds does the loop over the tags end, whatever word `cs` follows the
-- colon and whatever comes behind it.
pub parse_server-stuck :
    (fuel : ℕ) (cs rest : Bytes)
    → IsKind line (b'@' ∷ b':' ∷ (cs ++ rest))
    → Lacks (is_invalid word) cs
    → Starts (is_invalid word) rest
    → parse_server fuel (b'@' ∷ b':' ∷ (cs ++ rest)) ≡ none
unfolding parse_server parse is_invalid
parse_server-stuck fuel cs rest k h stop =
    parse_line (b'@' ∷ b':' ∷ (cs ++ rest)) _ k
    ∙ ap (λ o. to_server (after_head fuel parse_source server_kind o))
        (head_loop_stuck fuel parse_source server_kind 2
          (initial fuel parse_source server_kind (b'@' ∷ b':' ∷ (cs ++ rest))) (b'@' ∷ b':' ∷ cs)
          rest (consume_whitespace_solid (new-View _ false) refl) (refl, (refl, h)) stop refl refl
          (parse_tags-colon fuel cs))
