-- ===== src/Client/Ping.antt =====
-- `pong` and the handlers of `src/client/handlers/ping.rs`. The hash of an instant and the time that has passed
-- since are arguments.
use vinezombie.Prelude.{
  ℕ, ◌+◌, ◌-◌, ◌*◌, ◌%◌, ◌^◌, Bool, true, false, ◌&&◌, Option, none, some, List, [], ◌∷◌, Bytes,
  codes, leb, ◌==◌, if◌then◌else◌,
}
use vinezombie.Ircmsg.Args.{split_last}
use vinezombie.Ircmsg.Codec.{ClientMsg, ServerMsg, as_arg}
use vinezombie.Client.Nick.{bytes_eq}
use vinezombie.Client.Messages.{new_cmd, with_word}
use vinezombie.Client.Cap.{with_text}

unfoldable pub has_kind : ServerMsg → Bytes → Bool
unfolding as_arg
has_kind msg kind = bytes_eq (as_arg msg.kind) kind

abbrev pub with_last : ClientMsg → Option Bytes → ClientMsg
with_last reply none = reply
with_last reply (some last) = with_text reply last

-- `pong`: whether the message is a PING, and what is sent.
unfoldable pub pong : ServerMsg → Bool × List ClientMsg
unfolding has_kind split_last
pong msg =
    if has_kind msg (codes "PING")
    then (true, with_last (new_cmd (codes "PONG")) (split_last msg.args).1 ∷ [])
    else (false, [])

-- The loop of `Ping::handle` over the octal digits, in a `u32`; `none` is a byte that is no digit.
unfoldable pub octal : Bytes → ℕ → Option ℕ
octal [] value = some value
octal (b ∷ bs) value =
    let rest = octal bs (value * 8 % 2 ^ 32 + (b - b'0')) in
    if leb b'0' b && leb b b'7' then rest else none

abbrev is_hash : ℕ → Option ℕ → Bool
is_hash hash none = false
is_hash hash (some value) = hash == value

unfoldable answers : ℕ → Option Bytes → Bool
unfolding octal
answers hash none = false
answers hash (some last) = is_hash hash (octal last 0)

-- `Ping::handle`: whether it is the answer to the ping with this hash, and the handler is done.
unfoldable pub handle_ping : ℕ → ServerMsg → Bool
unfolding has_kind answers split_last
handle_ping hash msg = has_kind msg (codes "PONG") && answers hash (split_last msg.args).1

-- `queue_msgs` of `Ping`, with the hash as it is formatted.
unfoldable pub ping_msg : Bytes → ClientMsg
unfolding with_word
ping_msg hash = with_word (codes "PING") hash
