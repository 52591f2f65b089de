-- ===== src/Ircmsg/Tests/Streams.antt =====
-- Runs of the readers and of the decoders on bytes in memory.
use vinezombie.Prelude.{
  ℕ, zero, suc, ◌+◌, ◌<◌, ◌≤◌, ◌≡◌, refl, ap, ◌∙◌, true, false, Option, none, some, [], ◌∷◌, ◌++◌,
  Bytes, length, Lacks, codes, ◌==◌, arith,
}
use vinezombie.Text.Kinds.{byte, err, is_invalid, line}
use vinezombie.Text.Splitter.View.{is_solid}
use vinezombie.Text.Escape.{escape, escape_byte}
use vinezombie.Ircmsg.Args
use vinezombie.Ircmsg.Source.{write_source}
use vinezombie.Ircmsg.Tags.{write_tags}
use vinezombie.Ircmsg.Codec.{write_args, write_server, write_client, as_arg}
use vinezombie.Ircmsg.Read.{
  Feeds, client_max_len, server_max_len, client_read_owning, server_read_owning,
}
use vinezombie.Ircmsg.Read.EndToEnd.{
  Reads, ServerFit, ClientFit, server_text, client_text, client_read-sent, server_read-sent,
}
use vinezombie.Ircmsg.Frames.{
  invalid_string, client_decode, server_decode, encode_client, encode_server, scroll_buf,
}
use vinezombie.Ircmsg.Frames.Ends.{
  scroll_buf-line, server_decode-encode_client, client_decode-encode_server,
}
use vinezombie.Ircmsg.Tests.Messages.{
  server_msg, server_msg-readable, server_msg-valid, client_msg, client_msg-readable,
  client_msg-valid, two,
}

abbrev add_first : ℕ → Bytes × Bytes → Bytes × Bytes
add_first c (xs, ys) = (c ∷ xs, ys)

-- Up to `n` bytes of a slice, to the newline.
abbrev cut : ℕ → Bytes → Bytes × Bytes
cut zero bs = ([], bs)
cut (suc n) [] = ([], [])
cut (suc n) (c ∷ cs) = elim (c == b'\n') [ true ↦ (c ∷ [], cs) | false ↦ add_first c (cut n cs) ]

cut-line :
    (n : ℕ) (l rest : Bytes)
    → Lacks (λ c. c == b'\n') l
    → length l < n
    → cut n (l ++ b'\n' ∷ rest) ≡ (l ++ b'\n' ∷ [], rest)
cut-line zero l rest h k = absurd (omega arith)
cut-line (suc n) [] rest h k = refl
cut-line (suc n) (c ∷ cs) rest h k =
    rw (cut, h.0) (ap (add_first c) (cut-line n cs rest h.1 (omega arith)))

-- A slice as a reader, which has no errors.
abbrev slice_until : ℕ → Bytes → Option (Unit {0}) × Bytes × Bytes
slice_until n bs = let (new, rest) = cut n bs in (none, new, rest)

abbrev Holds : Bytes → Bytes → Type 0
Holds r bs = r ≡ bs

slice-feeds : Feeds slice_until Holds
slice-feeds = record {
  next_line = λ n r l rest s h k. (
    rest,
    ap (slice_until n) s ∙ ap (λ (c : Bytes × Bytes). (none, c.0, c.1)) (cut-line n l rest h k),
    refl,
  );
}

server-short : length (write_server server_msg) + 2 ≤ server_max_len
unfolding write_server write_tags write_source write_args escape escape_byte Args.split_last
    Args.is_last_long as_arg
server-short = omega arith

client-short : length (write_client client_msg) + 2 ≤ client_max_len
unfolding write_client write_tags write_args escape escape_byte Args.split_last Args.is_last_long
client-short = omega arith

server-fit : ServerFit 3 (server_msg ∷ server_msg ∷ [])
server-fit =
    let k : length (write_server server_msg) + 1 < server_max_len = omega (arith, server-short) in
    (server_msg-readable, k, two, (server_msg-readable, k, two, tt))

client-fit : ClientFit 3 (client_msg ∷ client_msg ∷ [])
client-fit =
    let k : length (write_client client_msg) + 1 < client_max_len = omega (arith, client-short) in
    (client_msg-readable, k, two, (client_msg-readable, k, two, tt))

abbrev server_stream : Bytes
server_stream = server_text (server_msg ∷ server_msg ∷ []) (codes "PING")

abbrev client_stream : Bytes
client_stream = client_text (client_msg ∷ client_msg ∷ []) (codes "PING")

client_read-sent_example :
    (r' : Bytes) × Reads
      (client_read_owning slice_until 3)
      server_stream
      (server_msg ∷ server_msg ∷ [])
      r'
    × Holds r' (codes "PING")
client_read-sent_example =
    client_read-sent slice_until Holds slice-feeds 2 (server_msg ∷ server_msg ∷ []) (codes "PING")
      server_stream server-fit refl

server_read-sent_example :
    (r' : Bytes) × Reads
      (server_read_owning slice_until 3)
      client_stream
      (client_msg ∷ client_msg ∷ [])
      r'
    × Holds r' (codes "PING")
server_read-sent_example =
    server_read-sent slice_until Holds slice-feeds 2 (client_msg ∷ client_msg ∷ []) (codes "PING")
      client_stream client-fit refl

blank : Lacks is_solid (codes " ")
blank = (refl, tt)

ping-line : Lacks (is_invalid line) (codes "PING")
unfolding is_invalid
ping-line = (refl, (refl, (refl, (refl, tt))))

ping-short : length (codes "PING") + 2 ≤ 10
ping-short = omega arith

scroll_buf-line_example :
    scroll_buf (codes " " ++ (codes "PING" ++ b'\r' ∷ b'\n' ∷ codes "Q")) 10
    ≡ (some (length (codes "PING") + 2), codes "PING" ++ b'\r' ∷ b'\n' ∷ codes "Q")
scroll_buf-line_example =
    scroll_buf-line 10 (codes " ") b'P' (codes "ING") (codes "Q") blank refl ping-line ping-short

server_decode-encode_client_example :
    server_decode 3 (encode_client client_msg []) ≡ some (err (invalid_string (byte b'\r')), [])
server_decode-encode_client_example =
    server_decode-encode_client 3 client_msg [] tt client_msg-valid client-short

client_decode-encode_server_example :
    client_decode 3 (encode_server server_msg []) ≡ some (err (invalid_string (byte b'\r')), [])
client_decode-encode_server_example =
    client_decode-encode_server 3 server_msg [] tt server_msg-valid server-short
