-- ===== src/Ircmsg/Read.antt =====
-- The readers of `src/ircmsg/codec.rs`: `read_msg!`, `read_buf!` and the functions that use them.
pub mod EndToEnd
use vinezombie.Prelude.{
  ℕ, zero, suc, ◌-◌, ◌<◌, ◌≡◌, Bool, true, false, ◌&&◌, ◌||◌, Option, none, some, List, [], ◌∷◌,
  ◌++◌, Bytes, length, reverse, Lacks, ltb, ◌==◌, if◌then◌else◌,
}
use vinezombie.Text.Kinds.{byte, Result, ok, err}
use vinezombie.Ircmsg.Failure.{ParseError, invalid_line, too_long}
use vinezombie.Ircmsg.Codec.{ServerMsg, ClientMsg, Outcome, parse_server, parse_client}

-- `ServerMsg::MAX_LEN` and `ClientMsg::MAX_LEN`.
abbrev pub server_max_len : ℕ
server_max_len = 8703

abbrev pub client_max_len : ℕ
client_max_len = 4608

-- The errors of the readers; `io` is one of the reader that is read from.
pub data ReadError (E : Type 0) : Type 0 where
  io : E → ReadError E
  unexpected_eof : ReadError E
  refused : ParseError → ReadError E

-- What `read_buf!` finds at the end of the buffer, and what is left of the buffer.
pub data Found : Type 0 where
  nothing : Found
  found_line : Bytes → Found
  found_error : ParseError → Bytes → Found

-- The loop of `read_buf!` on the buffer from its end; the flag is `found_newline`.
unfoldable pub read_buf_loop : Bool → Bytes → Found
read_buf_loop found [] = nothing
read_buf_loop found (c ∷ cs) =
    let rest = read_buf_loop (c == b'\n' || found) cs in
    if c == b'\n' || (c == b'\r' && found)
    then rest
    else if c == b'\r' || c == 0
    then found_error (invalid_line (byte c)) (reverse (c ∷ cs))
    else if found
    then found_line (reverse (c ∷ cs))
    else found_error too_long (reverse (c ∷ cs))

unfoldable pub read_buf : Bytes → Found
unfolding read_buf_loop
read_buf buf = read_buf_loop false (reverse buf)

-- What a reader returns, the buffer behind it and the stream; `none` is a read that does not end.
abbrev pub Reading : Type 0 → Type 0 → Type 0 → Type 0
Reading R E M = Option (Result (ReadError E) M × Bytes × R)

-- `take(limit).read_until(b'\n', buf)` of the stream: the error, if there is one, and the bytes that
-- are added to the buffer. Both are of `std`.
module _ {R E M : Type 0} (read_until : ℕ → R → Option E × Bytes × R) (limit : ℕ)
    (parse : Bytes → Outcome M) (keep : Bytes → Bytes) where
  abbrev pub parsed : Outcome M → Bytes → R → Reading R E M
  parsed none buf r = none
  parsed (some (ok m)) buf r = some (ok m, buf, r)
  parsed (some (err e)) buf r = some (err (refused e), buf, r)

  abbrev pub on_found : Found → R → (Bytes → R → Reading R E M) → Reading R E M
  on_found nothing r loop = loop [] r
  on_found (found_line l) r loop = parsed (parse l) (keep l) r
  on_found (found_error e buf) r loop = some (err (refused e), buf, r)

  abbrev pub on_read : Option E × Bytes × R → Bytes → (Bytes → R → Reading R E M) → Reading R E M
  on_read (some e, new, r) buf loop = some (err (io e), buf ++ new, r)
  on_read (none, [], r) buf loop = some (err unexpected_eof, buf, r)
  on_read (none, c ∷ cs, r) buf loop = on_found (read_buf (buf ++ c ∷ cs)) r loop

  -- The loop of `read_msg!`, with fuel for its rounds.
  unfoldable pub read_msg : ℕ → Bytes → R → Reading R E M
  unfolding read_buf
  read_msg zero buf r = none
  read_msg (suc fuel) buf r =
      if ltb (length buf) limit
      then on_read (read_until (limit - length buf) r) buf (read_msg fuel)
      else on_found (read_buf buf) r (read_msg fuel)

module _ {R E : Type 0} (read_until : ℕ → R → Option E × Bytes × R) (fuel : ℕ) where
  -- `std::mem::take(buf)` leaves an empty buffer; `buf.as_slice()` leaves it as it is. The fuel
  -- serves the rounds of the loop and those of the loop over the tags.
  unfoldable pub client_read_owning : Bytes → R → Reading R E ServerMsg
  unfolding read_msg parse_server
  client_read_owning buf r =
      read_msg read_until server_max_len (parse_server fuel) (λ l. []) fuel buf r

  unfoldable pub client_read_borrowing : Bytes → R → Reading R E ServerMsg
  unfolding read_msg parse_server
  client_read_borrowing buf r =
      read_msg read_until server_max_len (parse_server fuel) (λ l. l) fuel buf r

  unfoldable pub server_read_owning : Bytes → R → Reading R E ClientMsg
  unfolding read_msg parse_client
  server_read_owning buf r =
      read_msg read_until client_max_len (parse_client fuel) (λ l. []) fuel buf r

  unfoldable pub server_read_borrowing : Bytes → R → Reading R E ClientMsg
  unfolding read_msg parse_client
  server_read_borrowing buf r =
      read_msg read_until client_max_len (parse_client fuel) (λ l. l) fuel buf r

-- What `read_until` is documented to do where the stream has a newline within the limit: it returns
-- the bytes up to the newline, with the newline, and the stream goes on behind it.
pub record Feeds {R E : Type 0} (read_until : ℕ → R → Option E × Bytes × R)
    (Shows : R → Bytes → Type 0) : Type 0 where
  pub next_line :
      (n : ℕ) (r : R) (l rest : Bytes)
      → Shows r (l ++ b'\n' ∷ rest)
      → Lacks (λ c. c == b'\n') l
      → length l < n
      → (r' : R) × (read_until n r ≡ (none, l ++ b'\n' ∷ [], r')) × Shows r' rest
