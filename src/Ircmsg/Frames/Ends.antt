-- ===== src/Ircmsg/Frames/Ends.antt =====
-- What `scroll_buf` of `src/ircmsg/codec.rs` finds, and what the decoders do with it.
use vinezombie.Prelude.{
  or_true, ℕ, suc, ◌+◌, ◌≤◌, ◌<◌, ◌≡◌, refl, sym, ap, ◌∙◌, true, false, Option, none, some, [], ◌∷◌,
  ◌++◌, Bytes, length, length-append, drop, take-append_length, drop-append_length, append_assoc,
  Lacks, leb, subst, arith,
}
use vinezombie.Text.Splitter.View.{is_solid}
use vinezombie.Text.Kinds.{
  byte, line, from_bytes, find_invalid, check_others, check_bytes, is_invalid, err,
}
use vinezombie.Ircmsg.Args.{Args}
use vinezombie.Ircmsg.Source.{Source}
use vinezombie.Ircmsg.Tags.{Tags, write_tags, write_from}
use vinezombie.Ircmsg.Read.{server_max_len, client_max_len}
use vinezombie.Ircmsg.Codec.{
  ServerMsg, ClientMsg, Outcome, as_arg, write_to, write_args, write_server, write_client,
  parse_server, parse_client,
}
use vinezombie.Ircmsg.Codec.Whole.{KindWord, plain-solid}
use vinezombie.Ircmsg.Codec.Parts.{as_arg-KindWord, cmd-KindWord}
use vinezombie.Ircmsg.Codec.Lines.{write_to-line}
use vinezombie.Ircmsg.Codec.Safe.{ServerValid, ClientValid}
use vinezombie.Ircmsg.Frames.{
  invalid_string, scroll_loop, scroll_buf, on_scroll, client_decode, server_decode, encode_client,
  encode_server,
}

far : (a b : ℕ) → a < b → leb b a ≡ false
far a b h = ground arith

scroll_step :
    (limit trimmed end_idx c : ℕ) (cs : Bytes)
    → end_idx + 1 < limit
    → is_invalid line c ≡ false
    → scroll_loop limit false trimmed end_idx (c ∷ cs)
      ≡ scroll_loop limit false trimmed (end_idx + 1) cs
unfolding scroll_loop is_invalid
scroll_step limit trimmed end_idx c cs h k =
    rw (scroll_loop, far (end_idx + 1) limit h) (ground arith)

scroll_cr :
    (limit trimmed end_idx : ℕ) (cs : Bytes)
    → end_idx + 1 < limit
    → scroll_loop limit false trimmed end_idx (b'\r' ∷ cs)
      ≡ scroll_loop limit false trimmed (end_idx + 1) cs
unfolding scroll_loop
scroll_cr limit trimmed end_idx cs h = rw (scroll_loop, far (end_idx + 1) limit h) refl

scroll_lf :
    (limit trimmed end_idx : ℕ) (cs : Bytes)
    → scroll_loop limit false trimmed end_idx (b'\n' ∷ cs) ≡ (some (suc end_idx), trimmed)
unfolding scroll_loop
scroll_lf limit trimmed end_idx cs =
    let e : end_idx + 1 ≡ suc end_idx = omega arith in
    rw (scroll_loop, or_true (leb limit (end_idx + 1)), e) refl

zero_add : (n : ℕ) → 0 + n ≡ n
zero_add n = omega arith

scroll_line :
    (limit trimmed end_idx : ℕ) (l rest : Bytes)
    → Lacks (is_invalid line) l
    → end_idx + length l + 2 ≤ limit
    → scroll_loop limit false trimmed end_idx (l ++ b'\r' ∷ b'\n' ∷ rest)
      ≡ (some (end_idx + length l + 2), trimmed)
unfolding scroll_loop is_invalid
scroll_line limit trimmed end_idx [] rest h fits =
    let e : suc (end_idx + 1) ≡ end_idx + 0 + 2 = omega arith in
    scroll_cr limit trimmed end_idx (b'\n' ∷ rest) (omega arith)
    ∙ scroll_lf limit trimmed (end_idx + 1) rest
    ∙ ap (λ (n : ℕ). (some n, trimmed)) e
scroll_line limit trimmed end_idx (c ∷ cs) rest h fits =
    let e : end_idx + 1 + length cs + 2 ≡ end_idx + suc (length cs) + 2 = omega arith in
    scroll_step limit trimmed end_idx c (cs ++ b'\r' ∷ b'\n' ∷ rest) (omega arith) h.0
    ∙ scroll_line limit trimmed (end_idx + 1) cs rest h.1 (omega arith)
    ∙ ap (λ (n : ℕ). (some n, trimmed)) e

scroll_solid :
    (limit trimmed end_idx c : ℕ) (cs : Bytes)
    → is_solid c ≡ true
    → scroll_loop limit true trimmed end_idx (c ∷ cs)
      ≡ scroll_loop limit false trimmed end_idx (c ∷ cs)
unfolding scroll_loop
scroll_solid limit trimmed end_idx c cs h = ground arith

scroll_blank :
    (limit trimmed end_idx : ℕ) (ws bs : Bytes)
    → Lacks is_solid ws
    → scroll_loop limit true trimmed end_idx (ws ++ bs)
      ≡ scroll_loop limit true (trimmed + length ws) end_idx bs
unfolding scroll_loop
scroll_blank limit trimmed end_idx [] bs h =
    let e : trimmed ≡ trimmed + 0 = omega arith in
    ap (λ (t : ℕ). scroll_loop limit true t end_idx bs) e
scroll_blank limit trimmed end_idx (w ∷ ws) bs h =
    let e : trimmed + 1 + length ws ≡ trimmed + suc (length ws) = omega arith in
    let v = h.0 in
    let IH =
      scroll_blank limit (trimmed + 1) end_idx ws bs h.1
      ∙ ap (λ (t : ℕ). scroll_loop limit true t end_idx bs) e in
    ground arith

-- A line that does not begin with whitespace, behind whitespace and before its CRLF, is found by
-- `scroll_buf` if it fits in the limit with the CRLF: the whitespace is dropped, and the end is the
-- one behind the CRLF.
pub scroll_buf-line :
    (limit : ℕ) (ws : Bytes) (c : ℕ) (cs rest : Bytes)
    → Lacks is_solid ws
    → is_solid c ≡ true
    → Lacks (is_invalid line) (c ∷ cs)
    → length (c ∷ cs) + 2 ≤ limit
    → scroll_buf (ws ++ ((c ∷ cs) ++ b'\r' ∷ b'\n' ∷ rest)) limit
      ≡ (some (length (c ∷ cs) + 2), (c ∷ cs) ++ b'\r' ∷ b'\n' ∷ rest)
unfolding scroll_buf
scroll_buf-line limit ws c cs rest hw hc hl fits =
    let bs = (c ∷ cs) ++ b'\r' ∷ b'\n' ∷ rest in
    let e : scroll_loop limit true 0 0 (ws ++ bs) ≡ (some (length (c ∷ cs) + 2), length ws) =
      scroll_blank limit 0 0 ws bs hw
      ∙ ap (λ (t : ℕ). scroll_loop limit true t 0 bs) (zero_add (length ws))
      ∙ scroll_solid limit (length ws) 0 c (cs ++ b'\r' ∷ b'\n' ∷ rest) hc
      ∙ scroll_line limit (length ws) 0 (c ∷ cs) rest hl (omega arith)
      ∙ ap (λ (n : ℕ). (some (n + 2), length ws)) (zero_add (length (c ∷ cs))) in
    ap (λ (r : Option ℕ × ℕ). (r.0, drop r.1 (ws ++ bs))) e
    ∙ ap (λ (d : Bytes). (some (length (c ∷ cs) + 2), d)) (drop-append_length ws bs)

ended-append : (l rest : Bytes) → l ++ b'\r' ∷ b'\n' ∷ rest ≡ (l ++ b'\r' ∷ b'\n' ∷ []) ++ rest
ended-append l rest = sym (append_assoc l (b'\r' ∷ b'\n' ∷ []) rest)

check_bytes-cr :
    (l rest : Bytes)
    → Lacks (is_invalid line) l
    → check_bytes (is_invalid line) (l ++ b'\r' ∷ rest) ≡ some (byte b'\r')
unfolding check_bytes is_invalid
check_bytes-cr [] rest h = refl
check_bytes-cr (c ∷ cs) rest h = let e = h.0 in let IH = check_bytes-cr cs rest h.1 in ground arith

on_scroll-ended :
    {M : Type 0} (parse : Bytes → Outcome M) (l rest : Bytes)
    → Lacks (is_invalid line) l
    → on_scroll parse (some (length l + 2), l ++ b'\r' ∷ b'\n' ∷ rest)
      ≡ some (err (invalid_string (byte b'\r')), rest)
unfolding from_bytes find_invalid check_others
on_scroll-ended parse l rest h =
    let full = l ++ b'\r' ∷ b'\n' ∷ [] in
    let e : length l + 2 ≡ length full = omega (arith, length-append l (b'\r' ∷ b'\n' ∷ [])) in
    rw (ended-append l rest, e, take-append_length full rest, drop-append_length full rest)
      (rw (check_bytes-cr l (b'\n' ∷ []) h) refl)

-- A text that begins with a byte that is not whitespace.
abbrev Solid : Bytes → Type 0
Solid bs = (c : ℕ) × (cs : Bytes) × (bs ≡ c ∷ cs) × (is_solid c ≡ true)

write_to-Solid :
    (ts : Tags) (s : Option Source) (w : Bytes) (a : Args) → KindWord w → Solid (write_to ts s w a)
unfolding write_to write_tags write_from
write_to-Solid ((k, v) ∷ ts) s w a h = (b'@', _, refl, refl)
write_to-Solid [] (some s) w a h = (b':', _, refl, refl)
write_to-Solid [] none w a h =
    let (c, cs, e, p) = h.first_plain in (c, cs ++ write_args a, rw e refl, plain-solid c p)

module _ {M : Type 0} (parse : Bytes → Outcome M) (limit : ℕ) where
  on_scroll-line :
      (ws l rest : Bytes)
      → Lacks is_solid ws
      → Solid l
      → Lacks (is_invalid line) l
      → length l + 2 ≤ limit
      → on_scroll parse (scroll_buf (ws ++ (l ++ b'\r' ∷ b'\n' ∷ rest)) limit)
        ≡ some (err (invalid_string (byte b'\r')), rest)
  on_scroll-line ws [] rest hw (c, cs, e, p) h fits = absurd (cc)
  on_scroll-line ws (x ∷ xs) rest hw (c, cs, e, p) h fits =
      ap (on_scroll parse) (
        scroll_buf-line limit ws x xs rest hw
          (let q : c ≡ x = cc in subst (λ (y : ℕ). is_solid y ≡ true) q p) h fits)
      ∙ on_scroll-ended parse (x ∷ xs) rest h

-- What the client's encoder has written for a valid message, behind any whitespace, the server's
-- decoder refuses, if it fits in the limit: the line that it checks still has its CRLF.
pub server_decode-encode_client :
    (fuel : ℕ) (m : ClientMsg) (ws : Bytes)
    → Lacks is_solid ws
    → ClientValid m
    → length (write_client m) + 2 ≤ client_max_len
    → server_decode fuel (encode_client m ws) ≡ some (err (invalid_string (byte b'\r')), [])
unfolding server_decode encode_client write_client
server_decode-encode_client fuel m ws hw v fits =
    ap (λ bs. on_scroll (parse_client fuel) (scroll_buf bs client_max_len))
      (append_assoc ws (write_client m) (b'\r' ∷ b'\n' ∷ []))
    ∙ on_scroll-line (parse_client fuel) client_max_len ws (write_client m) [] hw
        (write_to-Solid m.tags none m.command m.args (cmd-KindWord m.command v.command_valid))
        (write_to-line m.tags none m.command m.args v.tags_valid tt
          (cmd-KindWord m.command v.command_valid) v.args_valid)
        fits

-- What the server's encoder has written for a valid message, behind any whitespace, the client's
-- decoder refuses, if it fits in the limit: the line that it checks still has its CRLF.
pub client_decode-encode_server :
    (fuel : ℕ) (m : ServerMsg) (ws : Bytes)
    → Lacks is_solid ws
    → ServerValid m
    → length (write_server m) + 2 ≤ server_max_len
    → client_decode fuel (encode_server m ws) ≡ some (err (invalid_string (byte b'\r')), [])
unfolding client_decode encode_server write_server
client_decode-encode_server fuel m ws hw v fits =
    ap (λ bs. on_scroll (parse_server fuel) (scroll_buf bs server_max_len))
      (append_assoc ws (write_server m) (b'\r' ∷ b'\n' ∷ []))
    ∙ on_scroll-line (parse_server fuel) server_max_len ws (write_server m) [] hw
        (write_to-Solid m.tags m.source (as_arg m.kind) m.args
          (as_arg-KindWord m.kind v.kind_valid))
        (write_to-line m.tags m.source (as_arg m.kind) m.args v.tags_valid v.source_valid
          (as_arg-KindWord m.kind v.kind_valid) v.args_valid)
        fits
