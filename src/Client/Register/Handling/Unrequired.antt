-- ===== src/Client/Register/Handling/Unrequired.antt =====
-- A login that is asked for, and the mechanisms that are given to `Register::handler` of `src/client/register.rs`.
use vinezombie.Prelude.{
  ◌≡◌, ◌∙◌, true, false, Option, none, some, List, [], ◌∷◌, Bytes, codes, length, ◌==◌, arith,
}
use vinezombie.Text.Kinds.{Result, ok}
use vinezombie.Ircmsg.Codec.{ServerMsg, as_arg}
use vinezombie.Client.Nick.{NickGen}
use vinezombie.Client.Auth as Auth
use vinezombie.Client.Auth.{SaslLogic}
use vinezombie.Client.Auth.Handler.{first_word}
use vinezombie.Client.Ping.{pong, has_kind}
use vinezombie.Client.Register.{
  Registration, Register, Handler, register_msgs, new_handler, handler, new_registration,
  default_registration, HandlerState, req_state, await_end,
}
use vinezombie.Client.Register.Parts.{
  arm_of, welcome, no_motd, kept_source, welcomed_nick, welcomed_source, Step,
}
use vinezombie.Client.Register.Negotiation.{lacks_login}
use vinezombie.Client.Register.Handling.{
  handle, handle_arm, unless_ping, by_sasl, and_match, sent_before, end_caps, by_state,
}
use vinezombie.Client.Register.Handling.Moves.{
  kept_source-account, welcomed_nick-account, welcomed_source-account,
}

module _ {G L : Type 0} (gen : NickGen G) (ops : SaslLogic L) {E : Type 0}
    (engine_encode : Bytes → Bytes) (engine_decode : Bytes → Result E Bytes) where
  abbrev step : ServerMsg → Handler G L → Option (Step G L)
  step = handle gen ops engine_encode engine_decode

  abbrev welcomed : ServerMsg → Registration → Registration
  welcomed msg reg =
      welcomed_source msg.source
        (welcomed_nick (first_word msg.args.words) (kept_source reg.source msg.source reg))

  welcomed-account :
      (msg : ServerMsg) (reg : Registration) → (welcomed msg reg).account ≡ reg.account
  welcomed-account msg reg =
      let kept = kept_source reg.source msg.source reg in
      welcomed_source-account msg.source (welcomed_nick (first_word msg.args.words) kept)
      ∙ welcomed_nick-account (first_word msg.args.words) kept
      ∙ kept_source-account reg.source msg.source reg

  abbrev waiting : Option G → HandlerState L → Registration → Handler G L
  waiting nicks s reg = record { nicks = nicks; state = s; needs_auth = false; reg = reg }

  welcome-step :
      (msg : ServerMsg) (nicks : Option G) (caps : List Bytes → List Bytes) (auths : List L)
      (reg : Registration)
      → as_arg msg.kind ≡ codes "001"
      → step msg (waiting nicks (req_state caps auths) reg)
        ≡ some (ok none, waiting nicks await_end (welcomed msg reg), [])
  unfolding handle unless_ping by_sasl and_match handle_arm sent_before end_caps by_state
      lacks_login arm_of pong has_kind
  welcome-step msg nicks caps auths reg k =
      let answer : pong msg ≡ (false, []) = rw k in
      let arm : arm_of (as_arg msg.kind) ≡ welcome = rw k in rw (answer, arm)

  motd-step :
      (msg : ServerMsg) (nicks : Option G) (reg : Registration)
      → as_arg msg.kind ≡ codes "376"
      → step msg (waiting nicks await_end reg)
        ≡ some (
          ok (some (kept_source reg.source msg.source reg)),
          waiting nicks await_end default_registration,
          [],
        )
  unfolding handle unless_ping by_sasl and_match handle_arm sent_before end_caps by_state
      lacks_login arm_of pong has_kind
  motd-step msg nicks reg k =
      let answer : pong msg ≡ (false, []) = rw k in
      let arm : arm_of (as_arg msg.kind) ≡ no_motd = rw k in rw (answer, arm)

  -- A registration that has mechanisms, and asks for the connection to be closed without a login, is
  -- completed without an account by a server that sends 001 and 376 and nothing else.
  pub handler-unrequired :
      (r : Register G L) (l : L) (others : List L) (m1 m2 : ServerMsg)
      → r.auth ≡ (l ∷ others, true)
      → as_arg m1.kind ≡ codes "001"
      → as_arg m2.kind ≡ codes "376"
      → (h1 : Handler G L) × (h2 : Handler G L) × (reg : Registration) × (step m1 (handler gen r).0
          ≡ some (ok none, h1, []))
        × (step m2 h1 ≡ some (ok (some reg), h2, []))
        × (reg.account ≡ none)
  unfolding new_handler handler register_msgs Auth.is_empty
  handler-unrequired r l others m1 m2 a k1 k2 =
      let (nick, nicks) = gen.next_nick r.nicks in
      let reg = welcomed m1 (new_registration nick) in
      let some_left : (length (l ∷ others) == 0) ≡ false = ground arith in
      (
        waiting nicks await_end reg,
        waiting nicks await_end default_registration,
        kept_source reg.source m2.source reg,
        rw (a, some_left) (welcome-step m1 nicks r.caps (l ∷ others) (new_registration nick) k1),
        motd-step m2 nicks reg k2,
        kept_source-account reg.source m2.source reg ∙ welcomed-account m1 (new_registration nick),
      )
