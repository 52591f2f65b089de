-- ===== src/Ircmsg/Frames.antt =====
-- `scroll_buf`, the encoders and the decoders for `tokio_util` in `src/ircmsg/codec.rs`. A `BytesMut` is
-- its bytes; `reserve` is about its capacity only.
pub mod Ends
use vinezombie.Prelude.{
  ℕ, zero, suc, ◌+◌, Bool, true, false, ◌&&◌, ◌||◌, Option, none, some, [], ◌∷◌, ◌++◌, Bytes, take,
  drop, is_ascii_whitespace, leb, ◌==◌,
}
use vinezombie.Text.Kinds.{InvalidString, line, from_bytes, Result, ok, err}
use vinezombie.Ircmsg.Failure.{ParseError}
use vinezombie.Ircmsg.Codec.{
  ServerMsg, ClientMsg, Outcome, parse_server, parse_client, write_server, write_client,
}
use vinezombie.Ircmsg.Read.{server_max_len, client_max_len}

-- The `std::io::Error` of a decoder, by what it wraps.
pub data DecodeError : Type 0 where
  invalid_string : InvalidString → DecodeError
  parse_error : ParseError → DecodeError

abbrev pub nonzero : ℕ → Option ℕ
nonzero zero = none
nonzero (suc n) = some (suc n)

-- The loop of `scroll_buf`: `leading_ws`, `trimmed_ws`, `end_idx` and the bytes to come. It returns
-- the end of the line, if there is one, and how far the buffer advances.
unfoldable pub scroll_loop : ℕ → Bool → ℕ → ℕ → Bytes → Option ℕ × ℕ
scroll_loop limit leading trimmed end_idx [] = (none, trimmed)
scroll_loop limit leading trimmed end_idx (c ∷ cs) = elim (leading && is_ascii_whitespace c) [
  | true ↦ scroll_loop limit true (trimmed + 1) end_idx cs
  | false ↦ elim (leb limit (end_idx + 1) || c == b'\n' || c == 0) [
    | true ↦ (nonzero (end_idx + 1), trimmed)
    | false ↦ scroll_loop limit false trimmed (end_idx + 1) cs
  ]
]

unfoldable pub scroll_buf : Bytes → ℕ → Option ℕ × Bytes
unfolding scroll_loop
scroll_buf buf limit =
    let (end_idx, trimmed) = scroll_loop limit true 0 0 buf in (end_idx, drop trimmed buf)

unfoldable pub encode_client : ClientMsg → Bytes → Bytes
unfolding write_client
encode_client item dst = (dst ++ write_client item) ++ b'\r' ∷ b'\n' ∷ []

unfoldable pub encode_server : ServerMsg → Bytes → Bytes
unfolding write_server
encode_server item dst = (dst ++ write_server item) ++ b'\r' ∷ b'\n' ∷ []

-- What a decoder returns; `none` is a parser that does not end.
abbrev pub Decoding : Type 0 → Type 0
Decoding M = Option (Result DecodeError (Option M) × Bytes)

module _ {M : Type 0} (parse : Bytes → Outcome M) where
  abbrev pub decoded : Outcome M → Bytes → Decoding M
  decoded none src = none
  decoded (some (ok m)) src = some (ok (some m), src)
  decoded (some (err e)) src = some (err (parse_error e), src)

  abbrev pub with_raw : Result InvalidString Bytes → Bytes → Decoding M
  with_raw (err e) src = some (err (invalid_string e), src)
  with_raw (ok l) src = decoded (parse l) src

  abbrev pub on_scroll : Option ℕ × Bytes → Decoding M
  on_scroll (none, src) = some (ok none, src)
  on_scroll (some split_at, src) =
      with_raw (from_bytes line (take split_at src)) (drop split_at src)

-- The fuel is for the loop over the tags.
unfoldable pub client_decode : ℕ → Bytes → Decoding ServerMsg
unfolding scroll_buf from_bytes parse_server
client_decode fuel src = on_scroll (parse_server fuel) (scroll_buf src server_max_len)

unfoldable pub server_decode : ℕ → Bytes → Decoding ClientMsg
unfolding scroll_buf from_bytes parse_client
server_decode fuel src = on_scroll (parse_client fuel) (scroll_buf src client_max_len)
