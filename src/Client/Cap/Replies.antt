-- ===== src/Client/Cap/Replies.antt =====
-- The server's acknowledgement of what `req` of `src/client/cap.rs` requests, and the bytes that `base_len`
-- leaves for it.
use vinezombie.Prelude.{
  ℕ, ◌+◌, ◌-◌, ◌≡◌, ◌∙◌, refl, sym, ap, Option, none, some, List, [], ◌∷◌, ◌++◌, append_assoc,
  Bytes, codes, length, length-append, difference, leb, min, ◌^◌, arith, Bool-cases, inl, inr,
}
use vinezombie.Ircmsg.Args.{split_last, is_last_long, is_empty, len_bytes, words_bytes, add_word}
use vinezombie.Ircmsg.Source.{Source}
use vinezombie.Ircmsg.Codec.{
  ServerMsg, command, as_arg, write_server, write_to, write_args, write_words, source_part,
  source_size, bytes_left, message_size,
}
use vinezombie.Ircmsg.Codec.Safe.{source_size-part}
use vinezombie.Client.Messages.{with_word}
use vinezombie.Client.Cap.{less, len_of, len_or_one, base_len, req_msg}

-- Capabilities with a space between each two of them.
abbrev pub spaced : List Bytes → Bytes
spaced [] = []
spaced (k ∷ []) = k
spaced (k ∷ l ∷ ks) = k ++ (b' ' ∷ spaced (l ∷ ks))

-- A client without a name is a `*`.
abbrev pub name : Option Bytes → Bytes
name none = codes "*"
name (some c) = c

-- `:server CAP client ACK :capabilities`
abbrev pub reply : Option Bytes → Option Source → List Bytes → ServerMsg
reply client server ks = record {
  tags = [];
  source = server;
  kind = command (codes "CAP");
  args = record { words = name client ∷ codes "ACK" ∷ []; long = some (spaced ks) };
}

-- Its bytes, without the end of the line.
abbrev pub reply_size : Option Bytes → Option Source → List Bytes → ℕ
reply_size client server ks = length (write_server (reply client server ks))

name-len_or_one : (client : Option Bytes) → length (name client) ≡ len_or_one client
name-len_or_one none = refl
name-len_or_one (some c) = refl

source_part-len_of :
    (server : Option Source) → length (source_part server) ≡ source_size (len_of server)
unfolding len_of
source_part-len_of none = refl
source_part-len_of (some s) = source_size-part (some s)

pub reply_size-spaced :
    (client : Option Bytes) (server : Option Source) (ks : List Bytes)
    → reply_size client server ks
      ≡ source_size (len_of server) + len_or_one client + 10 + length (spaced ks)
unfolding write_server write_to write_args write_words split_last is_last_long as_arg
reply_size-spaced client server ks =
    let cs = spaced ks in
    omega (
      arith,
      name-len_or_one client,
      source_part-len_of server,
      length-append (source_part server)
          (codes "CAP" ++ ((b' ' ∷ (name client ++ (b' ' ∷ codes "ACK"))) ++ (b' ' ∷ b':' ∷ cs))),
      length-append (b' ' ∷ (name client ++ (b' ' ∷ codes "ACK"))) (b' ' ∷ b':' ∷ cs),
      length-append (name client) (b' ' ∷ codes "ACK"),
    )

less-difference : (a b n : ℕ) → less (difference a b) n ≡ a - b - n
less-difference a b n = elim (Bool-cases (leb b a)) [
  | inl e ↦ rw e refl
  | inr e ↦ rw e (ground arith)
]

pub base_len-left :
    (client : Option Bytes) (server : Option Source)
    → base_len client server ≡ 498 - (source_size (len_of server) + len_or_one client)
unfolding base_len bytes_left req_msg with_word add_word message_size is_empty len_bytes words_bytes
base_len-left client server =
    let n = source_size (len_of server) in
    omega (arith, less-difference 510 (min (3 + n + 5) (2 ^ 63 - 1)) (4 + len_or_one client))

pub spaced-append :
    (x : Bytes) (g : List Bytes) (k : Bytes)
    → spaced ((x ∷ g) ++ k ∷ []) ≡ spaced (x ∷ g) ++ (b' ' ∷ k)
spaced-append x [] k = refl
spaced-append x (y ∷ g) k =
    ap (λ t. x ++ (b' ' ∷ t)) (spaced-append y g k)
    ∙ sym (append_assoc x (b' ' ∷ spaced (y ∷ g)) (b' ' ∷ k))

-- With one capability more there is one byte for the space.
pub reply_size-append :
    (client : Option Bytes) (server : Option Source) (x : Bytes) (g : List Bytes) (k : Bytes)
    → reply_size client server ((x ∷ g) ++ k ∷ [])
      ≡ source_size (len_of server) + len_or_one client + 11 + length (spaced (x ∷ g)) + length k
reply_size-append client server x g k = omega (
  arith,
  reply_size-spaced client server ((x ∷ g) ++ k ∷ []),
  ap length (spaced-append x g k),
  length-append (spaced (x ∷ g)) (b' ' ∷ k),
)
