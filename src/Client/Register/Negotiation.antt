-- ===== src/Client/Register/Negotiation.antt =====
-- What a server reply says of capabilities, and what the handler of `src/client/register/handler.rs` does then.
use vinezombie.Prelude.{
  Bool, true, false, not, ◌&&◌, Option, none, some, List, [], ◌∷◌, Bytes, codes, if◌then◌else◌,
}
use vinezombie.Text.Kinds.{Result, ok, err}
use vinezombie.Ircmsg.Failure.{ParseError}
use vinezombie.Ircmsg.Tags.{Tag, tag_key}
use vinezombie.Ircmsg.Codec.{ClientMsg}
use vinezombie.Util.EditGuard.{Guard}
use vinezombie.Names as Names
use vinezombie.Client.Nick.{bytes_eq}
use vinezombie.Client.Messages.{contains_bytes, retain_if}
use vinezombie.Client.Auth.{SaslLogic, retain}
use vinezombie.Client.Auth.Handler as AuthHandler
use vinezombie.Client.Auth.Handler.{first_word, or_empty}
use vinezombie.Client.Cap.{CapArgs, SubCmd, ls, list, ack, nak, new_caps, del, req, keys}
use vinezombie.Client.Register.{
  Registration, unexpected_list, bad_cap, RegError, no_login, broken, missing_caps, difference,
  intersection, add_key, HandlerState, broken_state, cap_end, req_state, ack_state, sasl_state,
  Handler,
}
use vinezombie.Client.Register.Parts.{
  sasl_mechs, is_none, add_caps, enable_caps, remove_caps, with_caps, Step,
}

-- `sts` is not requested.
abbrev pub without_sts : List Bytes → List Bytes
without_sts reqs = retain_if (λ k. not (bytes_eq k (codes "sts"))) reqs

module _ {G L : Type 0} where
  abbrev pub set_reg : (Registration → Registration) → Handler G L → Handler G L
  set_reg f h = record h { reg = f h.reg }

  -- The login that is asked for is missing.
  unfoldable pub lacks_login : Handler G L → Bool
  lacks_login h = h.needs_auth && is_none h.reg.account

  -- The capabilities to request are known: all but `sts` are requested.
  unfoldable pub request : List Bytes → List L → Handler G L → Step G L
  unfolding req
  request [] auths h = (ok none, record h { state = cap_end }, [])
  request (k ∷ ks) auths h = (
    ok none,
    record h { state = ack_state (k ∷ ks) auths },
    req (k ∷ ks) (some h.reg.nick) h.reg.source,
  )

  -- With those that are required and are not available.
  unfoldable pub require : List Bytes → List Bytes → List L → Handler G L → Step G L
  unfolding request
  require [] reqs auths h = request (without_sts reqs) auths h
  require (k ∷ ks) reqs auths h = (err (missing_caps (k ∷ ks)), h, [])

  unfoldable pub negotiate : List L → List Bytes → List Bytes → Handler G L → Step G L
  unfolding require add_key
  negotiate [] reqs avail h =
      if h.needs_auth then (err no_login, h, []) else require (difference reqs avail) reqs [] h
  negotiate (l ∷ others) reqs avail h =
      let reqs' = add_key (codes "sasl") reqs in
      require (difference reqs' avail) reqs' (l ∷ others) h

  -- After `ack`: nothing else is done if it failed.
  abbrev pub and_caps :
      Result RegError (Unit {0}) × HandlerState L × List ClientMsg
      → Handler G L
      → (Registration → Registration)
      → Step G L
  and_caps (err e, s, ms) h f = (err e, record h { state = s }, ms)
  and_caps (ok u, s, ms) h f = (ok none, set_reg f (record h { state = s }), ms)

module _ {L : Type 0} (ops : SaslLogic L) where
  -- What becomes of the mechanisms, given those that the server supports, if it has `sasl`.
  unfoldable pub supported : Option (List Bytes) → List L → List L
  unfolding retain
  supported none auths = []
  supported (some mechs) auths = retain ops (contains_bytes mechs) auths

  abbrev pub Acked : Type 0
  Acked = Result RegError (Unit {0}) × HandlerState L × List ClientMsg

  abbrev pub authenticate : Option (AuthHandler.Handler L) → Acked
  authenticate none = (ok tt, cap_end, [])
  authenticate (some handler) = (ok tt, sasl_state handler, AuthHandler.auth_msg ops handler ∷ [])

  -- The last part of `ack`, with the capabilities that are still to be acknowledged.
  unfoldable pub acked : List Bytes → List L → Acked
  unfolding AuthHandler.from_queue
  acked (k ∷ ks) queue = (ok tt, ack_state (k ∷ ks) queue, [])
  acked [] queue = authenticate (AuthHandler.from_queue ops queue)

  -- With those that are missing.
  unfoldable pub refused : List Bytes → List Bytes → List L → Acked
  unfolding acked
  refused [] ackd queue = acked ackd queue
  refused (k ∷ ks) ackd queue = (err (missing_caps (k ∷ ks)), ack_state ackd queue, [])

  -- `HandlerState::ack`.
  unfoldable pub ack_caps : Bool → List Bytes → HandlerState L → Acked
  unfolding acked refused
  ack_caps true caps (ack_state ackd queue) = acked (difference ackd caps) queue
  ack_caps false caps (ack_state ackd queue) = refused (intersection ackd caps) ackd queue
  ack_caps b caps s = (ok tt, s, [])

  module _ {G : Type 0} where
    -- The end of LS, with the state that is taken from the handler.
    unfoldable pub listed : HandlerState L → Handler G L → Step G L
    unfolding negotiate supported Names.get_parsed Names.keys sasl_mechs
    listed (req_state reqs auths) h =
        let avail = Names.keys tag_key h.reg.caps in
        negotiate (supported (Names.get_parsed tag_key sasl_mechs (codes "sasl") h.reg.caps) auths)
          (reqs avail) avail (record h { state = broken_state })
    listed s h = (ok none, h, [])

    -- DEL, with the capabilities that are left.
    unfoldable pub deleted : Option (Guard (Tag × Bool)) → CapArgs → Handler G L → Option (Step G L)
    unfolding ack_caps with_caps
    deleted none c h = none
    deleted (some g) c h = some (
        and_caps (ack_caps false (keys c.caps) h.state) (set_reg (with_caps (λ g'. g)) h)
          (λ reg. reg))

    unfoldable pub cap_arm : SubCmd → CapArgs → Handler G L → Option (Step G L)
    unfolding add_caps enable_caps remove_caps listed ack_caps deleted with_caps Names.edit
    cap_arm ls c h =
        let h' = set_reg (with_caps (add_caps c.caps)) h in
        some (if c.is_last then listed h.state h' else (ok none, h', []))
    cap_arm new_caps c h = some (ok none, set_reg (with_caps (add_caps c.caps)) h, [])
    cap_arm ack c h =
        some (and_caps (ack_caps true (keys c.caps) h.state) h (with_caps (enable_caps c.caps)))
    cap_arm nak c h = some (and_caps (ack_caps false (keys c.caps) h.state) h (λ reg. reg))
    cap_arm del c h = deleted (remove_caps (keys c.caps) (Names.edit tag_key h.reg.caps)) c h
    cap_arm list c h = some (err (broken unexpected_list), h, [])

    abbrev pub cap_parsed : Option (Result ParseError CapArgs) → Handler G L → Option (Step G L)
    cap_parsed none h = none
    cap_parsed (some (err e)) h = some (err (broken (bad_cap e)), h, [])
    cap_parsed (some (ok c)) h = cap_arm c.subcmd c h
