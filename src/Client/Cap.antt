-- ===== src/Client/Cap.antt =====
-- Capability negotiation, `src/client/cap.rs`. A `BTreeMap` is the list of its entries in the order of their
-- keys. Parsing gives `none` if its loop runs out of fuel.
pub mod Replies
pub mod Requests
pub mod Parsing
mod Tests
use Prim.Native.Nat.{Ordering}
use vinezombie.Prelude.{
  ℕ, zero, suc, ◌+◌, ◌-◌, Bool, true, false, not, ◌||◌, Option, none, some, List, [], ◌∷◌, ◌++◌, ℤ,
  pos, negsuc, Bytes, codes, length, ltb, ◌==◌, if◌then◌else◌,
}
use vinezombie.Text.Kinds.{InvalidString, Result, ok, err, key, word, nick, from_super}
use vinezombie.Text.Splitter.{
  Splitter, new, is_empty, consume_whitespace, string, string_or_default, next_byte, rest,
}
use vinezombie.Text.Casemap.{ascii_casemap}
use vinezombie.Ircmsg.Failure.{
  ParseError, missing_field, invalid_field, unknown_subcmd, not_a_star, invalid_nick,
}
use vinezombie.Ircmsg.Args.{Args, add, split_last}
use vinezombie.Ircmsg.Source.{Source, source_len}
use vinezombie.Ircmsg.Codec.{ClientMsg, bytes_left}
use vinezombie.Ircmsg.Tags.{compare_bytes}
use vinezombie.Client.Nick.{bytes_eq}
use vinezombie.Client.Messages.{with_word}
use vinezombie.Client.Auth.{no_bytes}

-- `msg.args.edit().add(text)`
unfoldable pub with_text : ClientMsg → Bytes → ClientMsg
unfolding add
with_text msg text = record msg { args = (add msg.args text).0 }

-- `try_push_char(' ')` if there is something in front, and `append(cap)`.
abbrev pub append_cap : Bytes → Bytes → Bytes
append_cap [] cap = cap
append_cap (c ∷ cs) cap = c ∷ cs ++ (b' ' ∷ cap)

abbrev pub flush : ClientMsg → Bytes → List ClientMsg → List ClientMsg
flush msg [] rest = rest
flush msg (c ∷ cs) rest = with_text msg (c ∷ cs) ∷ rest

-- The loop of `req` over the capabilities, with the string that is built, and its end: what is sent.
unfoldable pub req_loop : ℕ → ClientMsg → List Bytes → Bytes → List ClientMsg
req_loop base_len msg [] cap_string = with_text msg cap_string ∷ []
req_loop base_len msg (cap ∷ caps) cap_string =
    elim (ltb (length cap_string + length cap) base_len) [
      | true ↦ req_loop base_len msg caps (append_cap cap_string cap)
      | false ↦ flush msg cap_string (req_loop base_len msg caps cap)
    ]

abbrev pub len_or_one : Option Bytes → ℕ
len_or_one none = 1
len_or_one (some c) = length c

unfoldable pub len_of : Option Source → Option ℕ
unfolding source_len
len_of none = none
len_of (some s) = some (source_len s)

-- `(bytes_left - len_mod).try_into().unwrap_or_default()`
abbrev pub less : ℤ → ℕ → ℕ
less (pos n) m = n - m
less (negsuc n) m = 0

unfoldable pub req_msg : ClientMsg
unfolding with_word
req_msg = with_word (codes "CAP") (codes "REQ")

unfoldable pub base_len : Option Bytes → Option Source → ℕ
unfolding bytes_left req_msg
base_len client server =
    less (bytes_left req_msg.command (len_of server) req_msg.args) (4 + len_or_one client)

unfoldable pub req : List Bytes → Option Bytes → Option Source → List ClientMsg
unfolding req_loop base_len
req caps client server = req_loop (base_len client server) req_msg caps []

pub data SubCmd : Type 0 where
  ls list ack nak new_caps del : SubCmd

unfoldable pub from_bytes : Bytes → Option SubCmd
from_bytes bytes =
    if bytes_eq bytes (codes "LS")
    then some ls
    else if bytes_eq bytes (codes "LIST")
    then some list
    else if bytes_eq bytes (codes "ACK")
    then some ack
    else if bytes_eq bytes (codes "NAK")
    then some nak
    else if bytes_eq bytes (codes "NEW")
    then some new_caps
    else if bytes_eq bytes (codes "DEL")
    then some del
    else none

-- `into_cmd`, and `into_arg` of the same bytes.
unfoldable pub into_cmd : SubCmd → Bytes
into_cmd ls = codes "LS"
into_cmd list = codes "LIST"
into_cmd ack = codes "ACK"
into_cmd nak = codes "NAK"
into_cmd new_caps = codes "NEW"
into_cmd del = codes "DEL"

abbrev pub Caps : Type 0
Caps = List (Bytes × Bytes)

-- `insert` of a `BTreeMap`.
abbrev pub place : Ordering → Bytes × Bytes → Bytes × Bytes → Caps → Caps → Caps
place Ordering.lt e e' caps inserted = e ∷ e' ∷ caps
place Ordering.eq e e' caps inserted = (e'.0, e.1) ∷ caps
place Ordering.gt e e' caps inserted = e' ∷ inserted

unfoldable pub insert : Bytes × Bytes → Caps → Caps
unfolding compare_bytes
insert e [] = e ∷ []
insert e (e' ∷ caps) = place (compare_bytes e.0 e'.0) e e' caps (insert e caps)

abbrev pub keys : Caps → List Bytes
keys [] = []
keys ((k, v) ∷ caps) = k ∷ keys caps

unfoldable pub contains_key : Bytes → Caps → Bool
contains_key k [] = false
contains_key k ((k', v) ∷ caps) = bytes_eq k' k || contains_key k caps

-- `ServerMsgArgs`.
pub record CapArgs : Type 0 where
  pub to : Bytes
  pub subcmd : SubCmd
  pub is_last : Bool
  pub caps : Caps

-- The value of a key, if it can be represented: `next_byte` and then `rest().unwrap()`, which does not fail, as
-- the rest of a word is a word.
unfoldable pub entry_value : Option ℕ × Splitter → Option Bytes
unfolding rest
entry_value (none, s) = some []
entry_value (some c, s) = if c == b'=' then value (rest word s).0 else none
  where
    value : Result InvalidString Bytes → Option Bytes
    value (ok v) = some v
    value (err e) = none

unfoldable pub put_entry : Bytes → Option Bytes → Caps → Caps
unfolding insert
put_entry k none caps = caps
put_entry k (some v) caps = insert (k, v) caps

-- What one word of the list adds.
unfoldable pub add_entry : Result InvalidString Bytes × Splitter → Caps → Caps
unfolding next_byte
add_entry (err e, s) caps = caps
add_entry (ok k, s) caps = put_entry k (entry_value (next_byte s)) caps

unfoldable pub parse_round : Bytes × Splitter → Caps → (Splitter → Caps → Option Caps) → Option Caps
unfolding string new
parse_round (w, s) caps loop = loop s (add_entry (string key false (new w false)) caps)

-- The loop over the words of the last argument, with fuel.
unfoldable pub parse_loop : ℕ → Splitter → Caps → Option Caps
unfolding is_empty consume_whitespace string_or_default
parse_loop zero s caps = none
parse_loop (suc fuel) s caps =
    let round =
      parse_round (string_or_default word false (consume_whitespace s)) caps (parse_loop fuel) in
    if is_empty s then some caps else round

abbrev pub with_caps : Bytes → SubCmd → Bool → Option Caps → Option (Result ParseError CapArgs)
with_caps n c b none = none
with_caps n c b (some caps) = some (ok (record { to = n; subcmd = c; is_last = b; caps = caps }))

unfoldable pub parse_caps : Bytes → Bytes → SubCmd → Bool → Option (Result ParseError CapArgs)
unfolding parse_loop
parse_caps last n c b = with_caps n c b (parse_loop (suc (length last)) (new last false) [])

abbrev pub parse_last : List Bytes → Bytes → Bytes → SubCmd → Option (Result ParseError CapArgs)
parse_last [] last n c = parse_caps last n c true
parse_last (w ∷ ws) last n c =
    let more = parse_caps last n c false in
    if bytes_eq w (codes "*") then more else some (err (invalid_field (not_a_star w)))

abbrev pub known_subcmd :
    Option SubCmd → Bytes → List Bytes → Bytes → Bytes → Option (Result ParseError CapArgs)
known_subcmd none w ws last n = some (err (invalid_field (unknown_subcmd w)))
known_subcmd (some c) w ws last n = parse_last ws last n c

unfoldable pub parse_subcmd : List Bytes → Bytes → Bytes → Option (Result ParseError CapArgs)
unfolding ascii_casemap from_bytes
parse_subcmd [] last n = some (err (missing_field (codes "subcmd")))
parse_subcmd (w ∷ ws) last n =
    let upper = (ascii_casemap true w).0 in known_subcmd (from_bytes upper) upper ws last n

abbrev pub with_nick :
    Result InvalidString Bytes → List Bytes → Bytes → Option (Result ParseError CapArgs)
with_nick (err e) ws last = some (err (invalid_nick e))
with_nick (ok n) ws last = parse_subcmd ws last n

unfoldable pub parse_nick : List Bytes → Bytes → Option (Result ParseError CapArgs)
unfolding from_super
parse_nick [] last = some (err (missing_field (codes "nick")))
parse_nick (n ∷ ws) last = with_nick (from_super nick n) ws last

abbrev pub parse_split : List Bytes × Option Bytes → Option (Result ParseError CapArgs)
parse_split (ws, none) = some (err (missing_field (codes "caps")))
parse_split (ws, some last) = parse_nick ws last

-- `ServerMsgArgs::parse`.
unfoldable pub parse : Args → Option (Result ParseError CapArgs)
unfolding split_last
parse args = parse_split (split_last args)

unfoldable pub same_subcmd : SubCmd → SubCmd → Bool
unfolding into_cmd
same_subcmd a b = bytes_eq (into_cmd a) (into_cmd b)

unfoldable pub insert_all : Caps → Caps → Caps
unfolding insert
insert_all [] caps = caps
insert_all (e ∷ es) caps = insert_all es (insert e caps)

-- `combine`: what could not be combined, and `self`.
unfoldable pub combine : CapArgs → CapArgs → Option CapArgs × CapArgs
unfolding same_subcmd insert_all
combine newer a =
    if a.is_last || not (same_subcmd a.subcmd newer.subcmd) || not (bytes_eq a.to newer.to)
    then (some newer, a)
    else (none, record a { is_last = newer.is_last; caps = insert_all newer.caps a.caps })

unfoldable pub contains : Bytes → CapArgs → Bool
unfolding contains_key
contains k a = contains_key k a.caps
