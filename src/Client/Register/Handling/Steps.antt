-- ===== src/Client/Register/Handling/Steps.antt =====
-- What one message does to a property of the handler of `src/client/register/handler.rs`.
use vinezombie.Prelude.{
  ◌≡◌, refl, subst, Bool, true, false, ◌&&◌, Bool-cases, inl, inr, Option, none, some, List, [],
  ◌++◌, Bytes, if◌then◌else◌,
}
use vinezombie.Text.Kinds.{Result, ok, err}
use vinezombie.Ircmsg.Args.{unsnoc, split_last}
use vinezombie.Ircmsg.Codec.{ClientMsg, ServerMsg, as_arg}
use vinezombie.Client.Nick.{NickGen}
use vinezombie.Client.Auth.{SaslLogic}
use vinezombie.Client.Auth.Handler as AuthHandler
use vinezombie.Client.Auth.Handler.{first_word}
use vinezombie.Client.Ping.{pong}
use vinezombie.Client.Cap.{parse as parse_cap}
use vinezombie.Client.Register.{
  Registration, RegError, no_login, broken, early_myinfo, unexpected_motd, parse_myinfo,
  default_registration, third, with_version, HandlerState, broken_state, cap_end, await_welcome,
  await_end, req_state, ack_state, sasl_state, Handler,
}
use vinezombie.Client.Register.Parts.{
  Arm, welcome, created, myinfo, isupport, redirected, no_motd, bad_nick, nick_used, denied,
  logged_in, logged_out, sasl_reply, cap_msg, other, arm_of, is_none, kept_source, welcomed_nick,
  welcomed_source, with_isupport, is_error, Step,
}
use vinezombie.Client.Register.Negotiation.{set_reg, lacks_login}
use vinezombie.Client.Register.Handling.{
  source_in, in_await_end, is_true, default_arm, by_state, end_caps, sent_before, with_nick,
  next_nick, invalid_nick, bounced, handle_arm, sasl_done, and_match, by_sasl, unless_ping, handle,
}
use vinezombie.Client.Register.Handling.Negotiated.{cap_parsed-After}
use vinezombie.Client.Register.Handling.Moves.{
  Closed, Holds, After, kept_source-account, welcomed_nick-account, welcomed_source-account,
  with_isupport-account, whoami-After, account-After,
}

in_await_end-true : {L : Type 0} (s : HandlerState L) → in_await_end s ≡ true → s ≡ await_end
in_await_end-true await_end e = refl
in_await_end-true broken_state e = absurd (cc)
in_await_end-true cap_end e = absurd (cc)
in_await_end-true await_welcome e = absurd (cc)
in_await_end-true (req_state r q) e = absurd (cc)
in_await_end-true (ack_state ks q) e = absurd (cc)
in_await_end-true (sasl_state x) e = absurd (cc)

module _ {G L : Type 0} (P : HandlerState L → Bool → Option Bytes → Type 0) (arm : Arm)
    (closed : Closed P arm) where
  by_state-After :
      (s : HandlerState L) (reg : Option Registration) (h : Handler G L) (ms : List ClientMsg)
      → h.state ≡ s
      → After P (some (ok reg, h, ms))
      → After P (some (by_state s reg h ms))
  unfolding by_state lacks_login
  by_state-After cap_end none h ms e p = elim (Bool-cases (h.needs_auth && is_none h.reg.account)) [
    | inl lacks ↦ rw lacks tt
    | inr has ↦ rw has (closed.ended has (rw e at p))
  ]
  by_state-After cap_end (some r) h ms e p =
      elim (Bool-cases (h.needs_auth && is_none h.reg.account)) [
        | inl lacks ↦ rw lacks tt
        | inr has ↦ rw has p
      ]
  by_state-After broken_state reg h ms e p = p
  by_state-After await_welcome reg h ms e p = p
  by_state-After await_end reg h ms e p = p
  by_state-After (req_state r q) reg h ms e p = p
  by_state-After (ack_state ks q) reg h ms e p = p
  by_state-After (sasl_state x) reg h ms e p = p

  end_caps-After : (r : Step G L) → After P (some r) → After P (some (end_caps r))
  unfolding end_caps
  end_caps-After (err e, h, ms) p = tt
  end_caps-After (ok reg, h, ms) p = by_state-After h.state reg h ms refl p

  sent_before-After :
      (ms : List ClientMsg) (o : Option (Step G L)) → After P o → After P (sent_before ms o)
  unfolding sent_before
  sent_before-After ms none p = tt
  sent_before-After ms (some (err e, h, ms')) p = end_caps-After (err e, h, ms ++ ms') p
  sent_before-After ms (some (ok none, h, ms')) p = end_caps-After (ok none, h, ms ++ ms') p
  sent_before-After ms (some (ok (some r), h, ms')) p = end_caps-After (ok (some r), h, ms ++ ms') p

  default_arm-After :
      (msg : ServerMsg) (h : Handler G L) → Holds P h → After P (some (default_arm msg h))
  unfolding default_arm
  default_arm-After msg h p = elim (Bool-cases (is_true (is_error msg.kind))) [
    | inl e ↦ rw e tt
    | inr e ↦ rw e p
  ]

  -- A step that may be refused.
  guarded-After :
      (b : Bool) (e : RegError) (h : Handler G L) (r : Step G L)
      → (b ≡ false → After P (some r))
      → After P (some (if b then (err e, h, []) else r))
  guarded-After true e h r p = tt
  guarded-After false e h r p = p refl

  allowed-After :
      (b : Bool) (e : RegError) (h : Handler G L) (r : Step G L)
      → (b ≡ true → After P (some r))
      → After P (some (if b then r else (err e, h, [])))
  allowed-After true e h r p = p refl
  allowed-After false e h r p = tt

parse_myinfo-account :
    (ws : List Bytes) (reg : Registration) → (parse_myinfo ws reg).account ≡ reg.account
unfolding parse_myinfo
parse_myinfo-account ws reg = by_version (third ws)
  where
    by_version : (o : Option Bytes) → (with_version o reg).account ≡ reg.account
    by_version none = refl
    by_version (some v) = refl

module _ {G L : Type 0} (gen : NickGen G) (ops : SaslLogic L)
    (P : HandlerState L → Bool → Option Bytes → Type 0) where
  with_nick-After :
      (o : Option G) (h : Handler G L) → Holds P h → After P (some (with_nick gen ops o h))
  unfolding with_nick
  with_nick-After none h p = tt
  with_nick-After (some g) h p = p

  handle_arm-After :
      (ignore : Bool) (arm : Arm) (msg : ServerMsg) (h : Handler G L)
      → Closed P arm
      → Holds P h
      → After P (handle_arm gen ops ignore arm msg h)
  unfolding handle_arm next_nick lacks_login
  handle_arm-After ignore welcome msg h c p =
      let reg' = welcomed_source msg.source (welcomed_nick (first_word msg.args.words) h.reg) in
      let h' : Handler G L = record h { reg = reg'; state = await_end } in
      guarded-After P welcome c (h.needs_auth && is_none h.reg.account) no_login h (ok none, h', [])
        (λ has.
          rw
            (
              welcomed_source-account msg.source (welcomed_nick (first_word msg.args.words) h.reg),
              welcomed_nick-account (first_word msg.args.words) h.reg,
            )
            (c.welcomed has p))
  handle_arm-After ignore created msg h c p =
      guarded-After P created c (h.needs_auth && is_none h.reg.account) no_login h
        (default_arm msg h) (λ has. default_arm-After P created c msg h p)
  handle_arm-After ignore myinfo msg h c p =
      let h' = set_reg (parse_myinfo msg.args.words) h in
      let early : Step G L = (err (broken early_myinfo), h, []) in
      guarded-After P myinfo c (h.needs_auth && is_none h.reg.account) no_login h
        (if in_await_end h.state then (ok none, h', []) else early)
        (λ has.
          allowed-After P myinfo c (in_await_end h.state) (broken early_myinfo) h (ok none, h', [])
            (λ at. rw (parse_myinfo-account msg.args.words h.reg) p))
  handle_arm-After ignore isupport msg h c p =
      let h' = set_reg (with_isupport msg.args.words) h in
      allowed-After P isupport c (in_await_end h.state) (bounced (split_last msg.args).1 msg) h
        (ok none, h', []) (λ at. rw (with_isupport-account msg.args.words h.reg) p)
  handle_arm-After ignore redirected msg h c p = tt
  handle_arm-After ignore no_motd msg h c p =
      allowed-After P no_motd c (in_await_end h.state) (broken unexpected_motd) h
        (ok (some h.reg), set_reg (λ reg. default_registration) h, [])
        (λ at. subst (λ s. P s h.needs_auth h.reg.account) (in_await_end-true h.state at) p)
  handle_arm-After ignore bad_nick msg h c p =
      let nicks = invalid_nick gen ops h.nicks h.reg.nick in
      with_nick-After nicks (record h { nicks = nicks }) p
  handle_arm-After ignore nick_used msg h c p = with_nick-After h.nicks h p
  handle_arm-After ignore denied msg h c p = tt
  handle_arm-After ignore logged_in msg h c p =
      account-After P logged_in c (unsnoc (split_last msg.args).0) h p
  handle_arm-After ignore logged_out msg h c p =
      whoami-After P logged_out c (source_in (unsnoc (split_last msg.args).0).1)
        (set_reg (λ reg. record reg { account = none }) h) (c.logout refl p)
  handle_arm-After true sasl_reply msg h c p = p
  handle_arm-After false sasl_reply msg h c p = default_arm-After P sasl_reply c msg h p
  handle_arm-After ignore cap_msg msg h c p =
      cap_parsed-After ops P cap_msg c (parse_cap msg.args) h p
  handle_arm-After ignore other msg h c p = default_arm-After P other c msg h p

  module _ {E : Type 0} (engine_encode : Bytes → Bytes)
      (engine_decode : Bytes → Result E Bytes) where
    -- What SASL left has the property, if the state before it had.
    Left : Option (Handler G L × List ClientMsg) → Type 0
    Left none = Unit
    Left (some (h, ms)) = Holds P h

    sasl_done-Left :
        (arm : Arm) (r : AuthHandler.Step L) (h : Handler G L) (x : AuthHandler.Handler L)
        → Closed P arm
        → P (sasl_state x) h.needs_auth h.reg.account
        → Left (sasl_done gen ops engine_encode engine_decode r h)
    unfolding Left
    sasl_done-Left arm (err e) h x c p = tt
    sasl_done-Left arm (ok (ok false, sasl, ms)) h x c p =
        c.moved (sasl_state x) (sasl_state sasl) refl p
    sasl_done-Left arm (ok (ok true, sasl, ms)) h x c p = c.moved (sasl_state x) cap_end refl p
    sasl_done-Left arm (ok (err e, sasl, ms)) h x c p = c.moved (sasl_state x) cap_end refl p

    and_match-After :
        (ignore : Bool) (msg : ServerMsg) (o : Option (Handler G L × List ClientMsg))
        → Closed P (arm_of (as_arg msg.kind))
        → Left o
        → After P (and_match gen ops engine_encode engine_decode ignore msg o)
    unfolding and_match Left
    and_match-After ignore msg none c p = tt
    and_match-After ignore msg (some (h, ms)) c p =
        sent_before-After P (arm_of (as_arg msg.kind)) c ms
          (handle_arm gen ops ignore (arm_of (as_arg msg.kind)) msg h)
          (handle_arm-After ignore (arm_of (as_arg msg.kind)) msg h c p)

    by_sasl-After :
        (s : HandlerState L) (msg : ServerMsg) (h : Handler G L)
        → Closed P (arm_of (as_arg msg.kind))
        → h.state ≡ s
        → Holds P h
        → After P (by_sasl gen ops engine_encode engine_decode s msg h)
    unfolding by_sasl Left
    by_sasl-After (sasl_state x) msg h c e p =
        and_match-After true msg _ c (sasl_done-Left (arm_of (as_arg msg.kind)) _ h x c (rw e at p))
    by_sasl-After broken_state msg h c e p = and_match-After false msg (some (h, [])) c p
    by_sasl-After cap_end msg h c e p = and_match-After false msg (some (h, [])) c p
    by_sasl-After await_welcome msg h c e p = and_match-After false msg (some (h, [])) c p
    by_sasl-After await_end msg h c e p = and_match-After false msg (some (h, [])) c p
    by_sasl-After (req_state r q) msg h c e p = and_match-After false msg (some (h, [])) c p
    by_sasl-After (ack_state ks q) msg h c e p = and_match-After false msg (some (h, [])) c p

    unless_ping-After :
        (r : Bool × List ClientMsg) (msg : ServerMsg) (h : Handler G L)
        → Closed P (arm_of (as_arg msg.kind))
        → Holds P h
        → After P (unless_ping gen ops engine_encode engine_decode r msg h)
    unfolding unless_ping
    unless_ping-After (true, ms) msg h c p = p
    unless_ping-After (false, ms) msg h c p = by_sasl-After h.state msg h c refl p

    -- A property that the arm of a message keeps is kept by the handler.
    pub handle-After :
        (msg : ServerMsg) (h : Handler G L)
        → Closed P (arm_of (as_arg msg.kind))
        → Holds P h
        → After P (handle gen ops engine_encode engine_decode msg h)
    unfolding handle
    handle-After msg h c p =
        unless_ping-After (pong msg) msg (set_reg (λ reg. kept_source reg.source msg.source reg) h)
          c (rw (kept_source-account h.reg.source msg.source h.reg) p)
