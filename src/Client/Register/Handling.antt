-- ===== src/Client/Register/Handling.antt =====
-- The handler of `src/client/register/handler.rs`. A step gives the result, the handler and the messages sent;
-- it is `none` if it panics, or if the fuel for the capabilities of a message runs out.
pub mod Moves
pub mod Negotiated
pub mod Steps
pub mod Login
pub mod Unrequired
use vinezombie.Prelude.{
  ℕ, zero, suc, ◌+◌, ◌*◌, ◌-◌, Bool, true, false, not, ◌&&◌, ◌||◌, Option, none, some, List, [],
  ◌∷◌, ◌++◌, Bytes, codes, ltb, leb, ◌==◌, is_ascii_digit, position, before, from, drop, length,
  reverse, if◌then◌else◌,
}
use vinezombie.Text.Kinds.{
  InvalidString, Result, ok, err, key, word, nick as nick_kind, from_super, from_bytes,
}
use vinezombie.Text.Splitter.{
  Splitter, new, is_empty, until_byte_eq, rest_or_default, save_end, next_byte, string,
}
use vinezombie.Text.Casemap.{ascii_casemap}
use vinezombie.Ircmsg.Failure.{ParseError}
use vinezombie.Ircmsg.Args.{Args, split_last, unsnoc}
use vinezombie.Ircmsg.Source.{Source, UserHost, parse_source}
use vinezombie.Ircmsg.Numeric as Numeric
use vinezombie.Ircmsg.Tags.{Tag, tag_key}
use vinezombie.Ircmsg.Codec.{ClientMsg, ServerMsg, ServerMsgKind, numeric, command, as_arg}
use vinezombie.Util.EditGuard.{Guard}
use vinezombie.Names as Names
use vinezombie.Client.Nick.{NickGen, bytes_eq}
use vinezombie.Client.Messages.{with_word, contains_bytes, retain_if}
use vinezombie.Client.Auth.{SaslLogic, retain}
use vinezombie.Client.Auth.Handler as AuthHandler
use vinezombie.Client.Auth.Handler.{first_word, or_empty}
use vinezombie.Client.Cap.{
  Caps, CapArgs, SubCmd, ls, list, ack, nak, new_caps, del, req, keys, parse as parse_cap,
}
use vinezombie.Client.Ping.{pong}
use vinezombie.Client.Register.{
  Registration, default_registration, parse_myinfo, Reason, early_myinfo, empty_bounce,
  unexpected_motd, unexpected_list, bad_port, bad_source, bad_cap, RegError, no_access, no_nicks,
  no_login, redirect, server_error, broken, missing_caps, difference, intersection, add_key,
  HandlerState, broken_state, cap_end, await_welcome, await_end, req_state, ack_state, sasl_state,
  Handler,
}
use vinezombie.Client.Register.Parts.{
  is_error, sasl_mechs, parse_u16, split_bounce, Arm, welcome, created, myinfo, isupport,
  redirected, no_motd, bad_nick, nick_used, denied, logged_in, logged_out, sasl_reply, cap_msg,
  other, arm_of, is_none, no_keys, kept_source, welcomed_nick, welcomed_source, whoami,
  with_isupport, add_caps, enable_caps, remove_caps, with_caps, Out, Step,
}
use vinezombie.Client.Register.Negotiation.{set_reg, lacks_login, cap_parsed, cap_arm}

-- The source at the end of 900 and of 901, if there is one.
unfoldable pub source_in : Option Bytes → Option (Result ParseError Source)
unfolding parse_source
source_in none = none
source_in (some w) = some (parse_source w)

-- 005 before 001.
abbrev pub bounced_to : Option (Bytes × ℕ) → Bytes → ServerMsg → RegError
bounced_to none last msg = server_error msg
bounced_to (some (server, port)) last msg = redirect server port last

unfoldable pub bounced : Option Bytes → ServerMsg → RegError
unfolding split_bounce
bounced none msg = broken empty_bounce
bounced (some last) msg = bounced_to (split_bounce last) last msg

-- 010, from `msg.args.split_last()`.
abbrev pub redirected_port : Option ℕ → Bytes → Bytes → Bytes → RegError
redirected_port none client port info = broken (bad_port port)
redirected_port (some p) client port info = redirect client p info

unfoldable pub redirected_to : List Bytes × Option Bytes → ServerMsg → RegError
unfolding parse_u16
redirected_to (_ ∷ client ∷ port ∷ [], some info) msg =
    redirected_port (parse_u16 port) client port info
redirected_to _ msg = server_error msg

abbrev pub is_true : Option Bool → Bool
is_true none = false
is_true (some b) = b

abbrev pub in_await_end : {L : Type 0} → HandlerState L → Bool
in_await_end await_end = true
in_await_end _ = false

module _ {G L : Type 0} where
  abbrev pub with_whoami : Option (Result ParseError Source) → Handler G L → Step G L
  with_whoami none h = (ok none, h, [])
  with_whoami (some (err e)) h = (err (broken (bad_source e)), h, [])
  with_whoami (some (ok s)) h = (ok none, set_reg (whoami s) h, [])

  -- 900, from the words in front of the last argument.
  unfoldable pub account_of : List Bytes × Option Bytes → Handler G L → Step G L
  unfolding source_in
  account_of (args, none) h = (ok none, h, [])
  account_of (args, some account) h =
      with_whoami (source_in (unsnoc args).1)
        (set_reg (λ reg. record reg { account = some account }) h)

  -- The last arm.
  unfoldable pub default_arm : ServerMsg → Handler G L → Step G L
  unfolding is_error
  default_arm msg h =
      if is_true (is_error msg.kind) then (err (server_error msg), h, []) else (ok none, h, [])

  -- What follows the match: the end of the negotiation.
  unfoldable pub by_state :
      HandlerState L → Option Registration → Handler G L → List ClientMsg → Step G L
  unfolding lacks_login with_word
  by_state cap_end reg h ms = if lacks_login h then (err no_login, h, ms) else (
    ok reg,
    record h { state = await_welcome },
    ms ++ with_word (codes "CAP") (codes "END") ∷ [],
  )
  by_state _ reg h ms = (ok reg, h, ms)

  unfoldable pub end_caps : Step G L → Step G L
  unfolding by_state
  end_caps (err e, h, ms) = (err e, h, ms)
  end_caps (ok reg, h, ms) = by_state h.state reg h ms

  -- With the messages that were sent before.
  unfoldable pub sent_before : List ClientMsg → Option (Step G L) → Option (Step G L)
  unfolding end_caps
  sent_before ms none = none
  sent_before ms (some (out, h, ms')) = some (end_caps (out, h, ms ++ ms'))

module _ {G L : Type 0} (gen : NickGen G) (ops : SaslLogic L) where
  unfoldable pub with_nick : Option G → Handler G L → Step G L
  unfolding with_word
  with_nick none h = (err no_nicks, h, [])
  with_nick (some g) h =
      let (n, g') = gen.next_nick g in
      (
        ok none,
        record h { nicks = g'; reg = record (h.reg) { nick = n } },
        with_word (codes "NICK") n ∷ [],
      )

  -- `next_nick`.
  unfoldable pub next_nick : Handler G L → Step G L
  unfolding with_nick
  next_nick h = with_nick h.nicks h

  abbrev pub invalid_nick : Option G → Bytes → Option G
  invalid_nick none n = none
  invalid_nick (some g) n = gen.handle_invalid g n

  -- The arms of the match, with whether errors of SASL are ignored.
  unfoldable pub handle_arm : Bool → Arm → ServerMsg → Handler G L → Option (Step G L)
  unfolding lacks_login next_nick account_of source_in bounced redirected_to split_last parse_myinfo
      with_isupport welcomed_nick parse_cap default_arm cap_arm
  handle_arm ignore welcome msg h = some (
      if lacks_login h then (err no_login, h, []) else (
        ok none,
        record (set_reg
            (λ reg. welcomed_source msg.source (welcomed_nick (first_word msg.args.words) reg)) h) {
              state = await_end;
            },
        [],
      ))
  handle_arm ignore created msg h =
      some (if lacks_login h then (err no_login, h, []) else default_arm msg h)
  handle_arm ignore myinfo msg h = some (
      if lacks_login h
      then (err no_login, h, [])
      else if in_await_end h.state
      then (ok none, set_reg (parse_myinfo msg.args.words) h, [])
      else (err (broken early_myinfo), h, []))
  handle_arm ignore isupport msg h = some (
      if in_await_end h.state
      then (ok none, set_reg (with_isupport msg.args.words) h, [])
      else (err (bounced (split_last msg.args).1 msg), h, []))
  handle_arm ignore redirected msg h = some (err (redirected_to (split_last msg.args) msg), h, [])
  handle_arm ignore no_motd msg h = some (
      if in_await_end h.state
      then (ok (some h.reg), set_reg (λ reg. default_registration) h, [])
      else (err (broken unexpected_motd), h, []))
  handle_arm ignore bad_nick msg h =
      some (next_nick (record h { nicks = invalid_nick h.nicks h.reg.nick }))
  handle_arm ignore nick_used msg h = some (next_nick h)
  handle_arm ignore denied msg h = some (err (no_access (or_empty (split_last msg.args).1)), h, [])
  handle_arm ignore logged_in msg h = some (account_of (unsnoc (split_last msg.args).0) h)
  handle_arm ignore logged_out msg h = some (
      with_whoami (source_in (unsnoc (split_last msg.args).0).1)
        (set_reg (λ reg. record reg { account = none }) h))
  handle_arm ignore sasl_reply msg h = some (if ignore then (ok none, h, []) else default_arm msg h)
  handle_arm ignore cap_msg msg h = cap_parsed ops (parse_cap msg.args) h
  handle_arm ignore other msg h = some (default_arm msg h)

  module _ {E : Type 0} (engine_encode : Bytes → Bytes)
      (engine_decode : Bytes → Result E Bytes) where
    -- What the SASL handler returned: the handler, with what it has sent.
    abbrev pub sasl_done : AuthHandler.Step L → Handler G L → Option (Handler G L × List ClientMsg)
    sasl_done (err e) h = none
    sasl_done (ok (ok false, sasl, ms)) h = some (record h { state = sasl_state sasl }, ms)
    sasl_done (ok (ok true, sasl, ms)) h = some (record h { state = cap_end }, ms)
    sasl_done (ok (err e, sasl, ms)) h = some (record h { state = cap_end }, ms)

    unfoldable pub and_match :
        Bool → ServerMsg → Option (Handler G L × List ClientMsg) → Option (Step G L)
    unfolding handle_arm arm_of as_arg
    and_match ignore msg none = none
    and_match ignore msg (some (h, ms)) =
        sent_before ms (handle_arm ignore (arm_of (as_arg msg.kind)) msg h)

    unfoldable pub by_sasl : HandlerState L → ServerMsg → Handler G L → Option (Step G L)
    unfolding AuthHandler.handle and_match
    by_sasl (sasl_state sasl) msg h =
        and_match true msg
          (sasl_done (AuthHandler.handle ops engine_encode engine_decode msg sasl) h)
    by_sasl _ msg h = and_match false msg (some (h, []))

    unfoldable pub unless_ping : Bool × List ClientMsg → ServerMsg → Handler G L → Option (Step G L)
    unfolding by_sasl
    unless_ping (true, ms) msg h = some (ok none, h, ms)
    unless_ping (false, ms) msg h = by_sasl h.state msg h

    -- `handle`.
    unfoldable pub handle : ServerMsg → Handler G L → Option (Step G L)
    unfolding unless_ping pong
    handle msg h =
        unless_ping (pong msg) msg (set_reg (λ reg. kept_source reg.source msg.source reg) h)
