-- ===== src/Ircmsg/Read/EndToEnd.antt =====
-- The readers of `src/ircmsg/codec.rs` on a stream of lines that `send_to` has written.
use vinezombie.Prelude.{
  ℕ, suc, ◌+◌, ◌-◌, ◌<◌, ◌≡◌, refl, sym, subst, ap, ◌∙◌, Bool, true, Option, none, some, List, [],
  ◌∷◌, ◌++◌, reverse, reverse-append, reverse-reverse, append_assoc, Bytes, length, length-append,
  Lacks, Lacks-append, lt→ltb, ◌==◌, arith,
}
use vinezombie.Text.Kinds.{line, is_invalid, ok}
use vinezombie.Ircmsg.Codec.{
  ServerMsg, ClientMsg, Outcome, as_arg, tags_part, source_part, write_args, write_to, write_server,
  write_client, parse_server, parse_client,
}
use vinezombie.Ircmsg.Source.{Source}
use vinezombie.Ircmsg.Args.{Args}
use vinezombie.Ircmsg.Tags.{Tags}
use vinezombie.Ircmsg.Codec.Whole.{KindWord}
use vinezombie.Ircmsg.Codec.Parts.{as_arg-KindWord, cmd-KindWord}
use vinezombie.Ircmsg.Codec.Lines.{write_to-line}
use vinezombie.Ircmsg.Codec.RoundTrip.{
  PlainTags-valid, ServerReadable, ClientReadable, parse_server-write_server,
  parse_client-write_client,
}
use vinezombie.Ircmsg.Read.{
  found_line, read_buf, read_buf_loop, Reading, parsed, on_found, on_read, read_msg, Feeds,
  server_max_len, client_max_len, client_read_owning, server_read_owning,
}

reverse-Lacks : (p : ℕ → Bool) (xs : Bytes) → Lacks p xs → Lacks p (reverse xs)
reverse-Lacks p [] h = tt
reverse-Lacks p (x ∷ xs) h =
    subst (Lacks p) (sym (reverse-append (x ∷ []) xs))
      (Lacks-append p (reverse xs) (x ∷ []) (reverse-Lacks p xs h.1) (h.0, tt))

length-reverse : (xs : Bytes) → length (reverse xs) ≡ length xs
length-reverse [] = refl
length-reverse (x ∷ xs) = omega (
  arith,
  ap length (reverse-append (x ∷ []) xs),
  length-append (reverse xs) (x ∷ []),
  length-reverse xs,
)

read_buf_loop-found :
    (xs : Bytes)
    → Lacks (is_invalid line) xs
    → 0 < length xs
    → read_buf_loop true xs ≡ found_line (reverse xs)
unfolding read_buf_loop is_invalid
read_buf_loop-found [] h k = absurd (omega arith)
read_buf_loop-found (x ∷ xs) h k = let e = h.0 in ground arith

-- The bytes of a line and its end.
abbrev ended : Bytes → Bytes
ended l = (l ++ b'\r' ∷ []) ++ b'\n' ∷ []

-- A stretch of lines with no break inside, and with its break, is found as it was.
read_buf-ended :
    (l : Bytes) → Lacks (is_invalid line) l → 0 < length l → read_buf (ended l) ≡ found_line l
unfolding read_buf read_buf_loop
read_buf-ended l h k =
    rw (reverse-append (l ++ b'\r' ∷ []) (b'\n' ∷ []), reverse-append l (b'\r' ∷ []))
      (read_buf_loop-found (reverse l) (reverse-Lacks (is_invalid line) l h)
          (omega (arith, length-reverse l))
        ∙ ap found_line (reverse-reverse l))

line-newline : (l : Bytes) → Lacks (is_invalid line) l → Lacks (λ c. c == b'\n') (l ++ b'\r' ∷ [])
unfolding is_invalid
line-newline [] h = (refl, tt)
line-newline (c ∷ cs) h = let e = h.0 in (ground arith, line-newline cs h.1)

write_to-nonempty :
    (ts : Tags) (s : Option Source) (w : Bytes) (a : Args)
    → KindWord w
    → 0 < length (write_to ts s w a)
unfolding write_to
write_to-nonempty ts s w a v =
    let (c, cs, e, p) = v.first_plain in
    omega (
      arith,
      length-append (tags_part ts) (source_part s ++ (w ++ write_args a)),
      length-append (source_part s) (w ++ write_args a),
      length-append w (write_args a),
      ap length e,
    )

ended-append : (l rest : Bytes) → l ++ b'\r' ∷ b'\n' ∷ rest ≡ (l ++ b'\r' ∷ []) ++ b'\n' ∷ rest
ended-append l rest = sym (append_assoc l (b'\r' ∷ []) (b'\n' ∷ rest))

module _ {R E M : Type 0} (read_until : ℕ → R → Option E × Bytes × R) (Shows : R → Bytes → Type 0)
    (feeds : Feeds read_until Shows) (limit : ℕ) (parse : Bytes → Outcome M)
    (keep : Bytes → Bytes) where
  on_read-ended :
      (fuel : ℕ) (l : Bytes) (r : R)
      → Lacks (is_invalid line) l
      → 0 < length l
      → on_read read_until limit parse keep
          (none, ended l, r)
          []
          (read_msg read_until limit parse keep fuel)
        ≡ parsed read_until limit parse keep (parse l) (keep l) r
  on_read-ended fuel [] r h k = absurd (omega arith)
  on_read-ended fuel (c ∷ cs) r h k =
      ap (λ f. on_found read_until limit parse keep f r (read_msg read_until limit parse keep fuel))
        (read_buf-ended (c ∷ cs) h k)

  -- One round of the loop finds a line that fits with its end, and hands it to the parser.
  read_msg-line :
      (fuel : ℕ) (l rest : Bytes) (r : R)
      → Shows r (l ++ b'\r' ∷ b'\n' ∷ rest)
      → Lacks (is_invalid line) l
      → 0 < length l
      → length l + 1 < limit
      → (r' : R) × (read_msg read_until limit parse keep (suc fuel) [] r
          ≡ parsed read_until limit parse keep (parse l) (keep l) r')
        × Shows r' rest
  unfolding read_msg
  read_msg-line fuel l rest r shows h k fits =
      let (r', e, s) =
        feeds.next_line limit r (l ++ b'\r' ∷ []) rest (subst (Shows r) (ended-append l rest) shows)
          (line-newline l h) (omega (arith, length-append l (b'\r' ∷ []))) in
      let lim : limit - 0 ≡ limit = omega arith in
      (r', rw (lt→ltb 0 limit (omega arith), lim, e) (on_read-ended fuel l r' h k), s)

-- A run of calls, each of which finds an empty buffer, returns a message and leaves the buffer empty.
pub data Reads {R E M : Type 0} (read : Bytes → R → Reading R E M) : R → List M → R → Type 0 where
  done : (r : R) → Reads read r [] r
  next :
      (r r' r'' : R) (m : M) (ms : List M)
      → read [] r ≡ some (ok m, [], r')
      → Reads read r' ms r''
      → Reads read r (m ∷ ms) r''

-- What the messages are sent as, one after the other, and what comes behind them.
abbrev pub server_text : List ServerMsg → Bytes → Bytes
server_text [] rest = rest
server_text (m ∷ ms) rest = write_server m ++ b'\r' ∷ b'\n' ∷ server_text ms rest

abbrev pub client_text : List ClientMsg → Bytes → Bytes
client_text [] rest = rest
client_text (m ∷ ms) rest = write_client m ++ b'\r' ∷ b'\n' ∷ client_text ms rest

-- Messages that the parser reads back, which fit with their line's end, and have fewer tags than `n`.
abbrev pub ServerFit : ℕ → List ServerMsg → Type 0
ServerFit n [] = Unit
ServerFit n (m ∷ ms) =
    ServerReadable m
    × (length (write_server m) + 1 < server_max_len)
    × (length m.tags < n)
    × ServerFit n ms

abbrev pub ClientFit : ℕ → List ClientMsg → Type 0
ClientFit n [] = Unit
ClientFit n (m ∷ ms) =
    ClientReadable m
    × (length (write_client m) + 1 < client_max_len)
    × (length m.tags < n)
    × ClientFit n ms

server-line : (m : ServerMsg) → ServerReadable m → Lacks (is_invalid line) (write_server m)
unfolding write_server
server-line m v =
    write_to-line m.tags m.source (as_arg m.kind) m.args
      (PlainTags-valid m.tags v.tags_readable.tags_plain) v.source_valid
      (as_arg-KindWord m.kind v.kind_valid) v.args_readable.args_valid

server-nonempty : (m : ServerMsg) → ServerReadable m → 0 < length (write_server m)
unfolding write_server
server-nonempty m v =
    write_to-nonempty m.tags m.source (as_arg m.kind) m.args (as_arg-KindWord m.kind v.kind_valid)

client-line : (m : ClientMsg) → ClientReadable m → Lacks (is_invalid line) (write_client m)
unfolding write_client
client-line m v =
    write_to-line m.tags none m.command m.args (PlainTags-valid m.tags v.tags_readable.tags_plain)
      tt (cmd-KindWord m.command v.command_valid) v.args_readable.args_valid

client-nonempty : (m : ClientMsg) → ClientReadable m → 0 < length (write_client m)
unfolding write_client
client-nonempty m v =
    write_to-nonempty m.tags none m.command m.args (cmd-KindWord m.command v.command_valid)

module _ {R E : Type 0} (read_until : ℕ → R → Option E × Bytes × R) (Shows : R → Bytes → Type 0)
    (feeds : Feeds read_until Shows) where
  -- Where a reader feeds the stream of its bytes line by line, and the stream shows server messages as
  -- they are sent, each of which can be read back, fits in the client's limit with its CRLF and has
  -- fewer tags than the fuel, successive calls of the client's reader return exactly those messages
  -- in order, leave the buffer empty each time, and the stream at what comes behind them.
  pub client_read-sent :
      (n : ℕ) (ms : List ServerMsg) (rest : Bytes) (r : R)
      → ServerFit (suc n) ms
      → Shows r (server_text ms rest)
      → (r' : R) × Reads (client_read_owning read_until (suc n)) r ms r' × Shows r' rest
  unfolding client_read_owning
  client_read-sent n [] rest r fit shows = (r, done r, shows)
  client_read-sent n (m ∷ ms) rest r (v, short, few, fit) shows =
      let (r', e, shows') =
        read_msg-line read_until Shows feeds server_max_len (parse_server (suc n)) (λ l. []) n
          (write_server m) (server_text ms rest) r shows (server-line m v) (server-nonempty m v)
          short in
      let (r'', run, shows'') = client_read-sent n ms rest r' fit shows' in
      (
        r'',
        next r r' r'' m ms (e ∙ rw (parse_server-write_server (suc n) m v few) refl) run,
        shows'',
      )

  -- Where a reader feeds the stream of its bytes line by line, and the stream shows client messages as
  -- they are sent, each of which can be read back, fits in the server's limit with its CRLF and has
  -- fewer tags than the fuel, successive calls of the server's reader return exactly those messages
  -- in order, leave the buffer empty each time, and the stream at what comes behind them.
  pub server_read-sent :
      (n : ℕ) (ms : List ClientMsg) (rest : Bytes) (r : R)
      → ClientFit (suc n) ms
      → Shows r (client_text ms rest)
      → (r' : R) × Reads (server_read_owning read_until (suc n)) r ms r' × Shows r' rest
  unfolding server_read_owning
  server_read-sent n [] rest r fit shows = (r, done r, shows)
  server_read-sent n (m ∷ ms) rest r (v, short, few, fit) shows =
      let (r', e, shows') =
        read_msg-line read_until Shows feeds client_max_len (parse_client (suc n)) (λ l. []) n
          (write_client m) (client_text ms rest) r shows (client-line m v) (client-nonempty m v)
          short in
      let (r'', run, shows'') = server_read-sent n ms rest r' fit shows' in
      (
        r'',
        next r r' r'' m ms (e ∙ rw (parse_client-write_client (suc n) m v few) refl) run,
        shows'',
      )
