-- ===== src/Ircmsg/Tests/Messages.antt =====
-- Runs of tags and of whole messages.
use vinezombie.Prelude.{
  Bool, true, ◌+◌, ◌<◌, ◌^◌, difference, ◌≡◌, refl, none, some, [], ◌∷◌, ◌++◌, length, Bytes, codes,
  Lacks, Starts, arith, if◌then◌else◌,
}
use vinezombie.Text.Kinds.{
  nonul, line, word, key, cmd, is_invalid, check_others, from_bytes, ok, IsValid as IsKind,
}
use vinezombie.Text.Kinds.Checks.{from_bytes-IsValid}
use vinezombie.Text.Escape.{needs_escape, escape_byte, escape}
use vinezombie.Util.FlatMap.{IsSorted}
use vinezombie.Ircmsg.Source.{write_source, source_len}
use vinezombie.Ircmsg.Args
use vinezombie.Ircmsg.Tags.{Tags, tag_key, compare_bytes, write_tags}
use vinezombie.Ircmsg.Tags.RoundTrip.{Plain}
use vinezombie.Ircmsg.Codec.{
  ServerMsg, ClientMsg, numeric, write_to, write_args, write_server, write_client, send_server,
  send_client, parse_server, parse_client, bytes_left,
}
use vinezombie.Ircmsg.Codec.Whole.{Readable}
use vinezombie.Ircmsg.Codec.Parts.{TagsValid}
use vinezombie.Ircmsg.Codec.RoundTrip.{
  TagsReadable, ServerReadable, ClientReadable, parse_server-write_server,
  parse_client-write_client,
}
use vinezombie.Ircmsg.Codec.Safe.{
  ServerValid, ClientValid, one_line, spare, send_server-one_line, send_client-one_line,
  bytes_left-write_to, parse_server-stuck,
}
use vinezombie.Ircmsg.Tests.{
  arguments, arguments-IsValid, sender, sender-IsValid, welcome, welcome-IsValid,
}

abbrev pub tags : Tags
tags = (codes "a", codes "b") ∷ (codes "c", []) ∷ []

tags-Plain : Plain tags
unfolding from_bytes is_invalid check_others needs_escape escape_byte
tags-Plain = (
  (from_bytes-IsValid key (codes "a")).0 refl,
  (from_bytes-IsValid nonul (codes "b")).0 refl,
  (refl, tt),
  ((from_bytes-IsValid key (codes "c")).0 refl, (from_bytes-IsValid nonul []).0 refl, tt, tt),
)

tags-IsSorted : IsSorted tag_key compare_bytes tags
unfolding compare_bytes
tags-IsSorted = (refl, tt)

pub two : length tags < 3
two = omega arith

abbrev pub server_msg : ServerMsg
server_msg = record { tags = tags; source = some sender; kind = numeric welcome; args = arguments }

arguments-Readable : Readable arguments
arguments-Readable = record { args_valid = arguments-IsValid; words_plain = (refl, tt) }

tags-readable : TagsReadable tags
tags-readable = record { tags_plain = tags-Plain; tags_sorted = tags-IsSorted }

pub server_msg-readable : ServerReadable server_msg
server_msg-readable = record {
  tags_readable = tags-readable;
  source_valid = sender-IsValid;
  kind_valid = welcome-IsValid;
  args_readable = arguments-Readable;
}

parse_server-write_server_example : parse_server 3 (write_server server_msg) ≡ some (ok server_msg)
parse_server-write_server_example = parse_server-write_server 3 server_msg server_msg-readable two

abbrev pub client_msg : ClientMsg
client_msg = record { tags = tags; command = codes "PRIVMSG"; args = arguments }

privmsg : IsKind cmd (codes "PRIVMSG")
unfolding from_bytes is_invalid check_others
privmsg = (from_bytes-IsValid cmd (codes "PRIVMSG")).0 refl

pub client_msg-readable : ClientReadable client_msg
client_msg-readable = record {
  tags_readable = tags-readable;
  command_valid = privmsg;
  args_readable = arguments-Readable;
}

parse_client-write_client_example : parse_client 3 (write_client client_msg) ≡ some (ok client_msg)
parse_client-write_client_example = parse_client-write_client 3 client_msg client_msg-readable two

write-client_msg : write_client client_msg ≡ codes "@a=b;c PRIVMSG #chan :hello world"
unfolding write_client write_tags write_args escape escape_byte Args.split_last Args.is_last_long
write-client_msg = refl

tags-valid : TagsValid tags
tags-valid = (tags-Plain.0, tags-Plain.1, (tags-Plain.3.0, tags-Plain.3.1, tt))

pub server_msg-valid : ServerValid server_msg
server_msg-valid = record {
  tags_valid = tags-valid;
  source_valid = sender-IsValid;
  kind_valid = welcome-IsValid;
  args_valid = arguments-IsValid;
}

pub client_msg-valid : ClientValid client_msg
client_msg-valid = record {
  tags_valid = tags-valid;
  command_valid = privmsg;
  args_valid = arguments-IsValid;
}

-- A writer that takes everything.
abbrev append_all : Bytes → Bytes → Bool × Bytes
append_all w bs = (true, w ++ bs)

send_server-one_line_example :
    let full = one_line [] (write_server server_msg) in
    let (done, w') = append_all [] full in
    (send_server append_all server_msg [] [] ≡ (done, w', if done then [] else full))
    × Lacks (is_invalid line) (write_server server_msg)
send_server-one_line_example = send_server-one_line append_all server_msg [] [] server_msg-valid

send_client-one_line_example :
    let full = one_line [] (write_client client_msg) in
    let (done, w') = append_all [] full in
    (send_client append_all client_msg [] [] ≡ (done, w', if done then [] else full))
    × Lacks (is_invalid line) (write_client client_msg)
send_client-one_line_example = send_client-one_line append_all client_msg [] [] client_msg-valid

short : length (write_to [] (some sender) (codes "PRIVMSG") arguments) + spare arguments < 2 ^ 63
unfolding write_to write_args Args.split_last Args.is_last_long Args.is_empty write_source
short = omega arith

bytes_left-write_to_example :
    bytes_left (codes "PRIVMSG") (some (source_len sender)) arguments
    ≡ difference 510
        (length (write_to [] (some sender) (codes "PRIVMSG") arguments) + spare arguments)
bytes_left-write_to_example = bytes_left-write_to (some sender) (codes "PRIVMSG") arguments short

Lacks-a : Lacks (is_invalid word) (codes "a")
unfolding is_invalid
Lacks-a = (refl, tt)

Starts-space : Starts (is_invalid word) (codes " PING")
unfolding is_invalid
Starts-space = refl

stuck-IsKind : IsKind line (codes "@:a PING")
unfolding from_bytes is_invalid check_others
stuck-IsKind = (from_bytes-IsValid line (codes "@:a PING")).0 refl

parse_server-stuck_example : parse_server 100 (codes "@:a PING") ≡ none
parse_server-stuck_example =
    parse_server-stuck 100 (codes "a") (codes " PING") stuck-IsKind Lacks-a Starts-space
