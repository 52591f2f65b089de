-- ===== src/Client/Register/Handling/Negotiated.antt =====
-- How a CAP message moves the handler of `src/client/register/handler.rs` from state to state.
use vinezombie.Prelude.{
  ◌≡◌, refl, Bool, true, false, Bool-cases, inl, inr, Option, none, some, List, [], ◌∷◌, Bytes,
  codes,
}
use vinezombie.Text.Kinds.{Result, ok, err}
use vinezombie.Ircmsg.Failure.{ParseError}
use vinezombie.Ircmsg.Tags.{Tag, tag_key}
use vinezombie.Util.EditGuard.{Guard}
use vinezombie.Names as Names
use vinezombie.Client.Auth.{SaslLogic}
use vinezombie.Client.Auth.Handler as AuthHandler
use vinezombie.Client.Cap.{CapArgs, SubCmd, ls, list, ack, nak, new_caps, del, keys}
use vinezombie.Client.Register.{
  Registration, HandlerState, broken_state, cap_end, await_welcome, await_end, req_state, ack_state,
  sasl_state, Handler, difference, intersection, add_key,
}
use vinezombie.Client.Register.Parts.{
  Arm, with_caps, sasl_mechs, add_caps, enable_caps, remove_caps,
}
use vinezombie.Client.Register.Negotiation.{
  set_reg, request, require, negotiate, and_caps, Acked, authenticate, acked, refused, ack_caps,
  supported, listed, deleted, cap_arm, cap_parsed,
}
use vinezombie.Client.Register.Handling.Moves.{Closed, Holds, After, with_caps-account}

module _ {G L : Type 0} (P : HandlerState L → Bool → Option Bytes → Type 0) (arm : Arm)
    (closed : Closed P arm) where
  request-After :
      (ks : List Bytes) (auths : List L) (h : Handler G L) (r : List Bytes → List Bytes)
      (q : List L)
      → P (req_state r q) h.needs_auth h.reg.account
      → After P (some (request ks auths h))
  unfolding request
  request-After [] auths h r q p = closed.moved (req_state r q) cap_end refl p
  request-After (k ∷ ks) auths h r q p =
      closed.moved (req_state r q) (ack_state (k ∷ ks) auths) refl p

  require-After :
      (missing reqs : List Bytes) (auths : List L) (h : Handler G L) (r : List Bytes → List Bytes)
      (q : List L)
      → P (req_state r q) h.needs_auth h.reg.account
      → After P (some (require missing reqs auths h))
  unfolding require
  require-After [] reqs auths h r q p = request-After _ auths h r q p
  require-After (k ∷ ks) reqs auths h r q p = tt

  negotiate-After :
      (auths : List L) (reqs avail : List Bytes) (h : Handler G L) (r : List Bytes → List Bytes)
      (q : List L)
      → P (req_state r q) h.needs_auth h.reg.account
      → After P (some (negotiate auths reqs avail h))
  unfolding negotiate
  negotiate-After [] reqs avail h r q p = elim (Bool-cases h.needs_auth) [
    | inl e ↦ rw e tt
    | inr e ↦ let k = require-After (difference reqs avail) reqs [] h r q p in rw e (rw e at k)
  ]
  negotiate-After (l ∷ others) reqs avail h r q p =
      let reqs' = add_key (codes "sasl") reqs in
      require-After (difference reqs' avail) reqs' (l ∷ others) h r q p

module _ {L : Type 0} (ops : SaslLogic L) (P : HandlerState L → Bool → Option Bytes → Type 0)
    (arm : Arm) (closed : Closed P arm) where
  authenticate-Kept :
      (o : Option (AuthHandler.Handler L)) (ks : List Bytes) (q : List L) {n : Bool}
      {a : Option Bytes}
      → P (ack_state ks q) n a
      → P (authenticate ops o).1 n a
  authenticate-Kept none ks q p = closed.moved (ack_state ks q) cap_end refl p
  authenticate-Kept (some x) ks q p = closed.moved (ack_state ks q) (sasl_state x) refl p

  acked-Kept :
      (left ks : List Bytes) (queue q : List L) {n : Bool} {a : Option Bytes}
      → P (ack_state ks q) n a
      → P (acked ops left queue).1 n a
  unfolding acked
  acked-Kept [] ks queue q p = authenticate-Kept (AuthHandler.from_queue ops queue) ks q p
  acked-Kept (k ∷ left) ks queue q p =
      closed.moved (ack_state ks q) (ack_state (k ∷ left) queue) refl p

  refused-Kept :
      (missing ks : List Bytes) (q : List L) {n : Bool} {a : Option Bytes}
      → P (ack_state ks q) n a
      → P (refused ops missing ks q).1 n a
  unfolding refused
  refused-Kept [] ks q p = acked-Kept ks ks q q p
  refused-Kept (k ∷ missing) ks q p = p

  ack_caps-Kept :
      (b : Bool) (caps : List Bytes) (s : HandlerState L) {n : Bool} {a : Option Bytes}
      → P s n a
      → P (ack_caps ops b caps s).1 n a
  unfolding ack_caps
  ack_caps-Kept true caps (ack_state ks q) p = acked-Kept (difference ks caps) ks q q p
  ack_caps-Kept false caps (ack_state ks q) p = refused-Kept (intersection ks caps) ks q p
  ack_caps-Kept true caps (req_state r q) p = p
  ack_caps-Kept false caps (req_state r q) p = p
  ack_caps-Kept true caps broken_state p = p
  ack_caps-Kept false caps broken_state p = p
  ack_caps-Kept true caps cap_end p = p
  ack_caps-Kept false caps cap_end p = p
  ack_caps-Kept true caps await_welcome p = p
  ack_caps-Kept false caps await_welcome p = p
  ack_caps-Kept true caps await_end p = p
  ack_caps-Kept false caps await_end p = p
  ack_caps-Kept true caps (sasl_state x) p = p
  ack_caps-Kept false caps (sasl_state x) p = p

  module _ {G : Type 0} where
    and_caps-After :
        (r : Acked ops) (h : Handler G L) (f : Registration → Registration)
        → ((reg : Registration) → (f reg).account ≡ reg.account)
        → P r.1 h.needs_auth h.reg.account
        → After P (some (and_caps r h f))
    and_caps-After (err e, s, ms) h f same k = tt
    and_caps-After (ok u, s, ms) h f same k = rw (same h.reg) k

    listed-After :
        (s : HandlerState L) (h : Handler G L)
        → h.state ≡ s
        → P s h.needs_auth h.reg.account
        → After P (some (listed ops s h))
    unfolding listed
    listed-After (req_state r q) h e p =
        let avail = Names.keys tag_key h.reg.caps in
        negotiate-After P arm closed
          (supported ops (Names.get_parsed tag_key sasl_mechs (codes "sasl") h.reg.caps) q)
          (r avail) avail (record h { state = broken_state }) r q p
    listed-After broken_state h e p = rw e p
    listed-After cap_end h e p = rw e p
    listed-After await_welcome h e p = rw e p
    listed-After await_end h e p = rw e p
    listed-After (ack_state ks q) h e p = rw e p
    listed-After (sasl_state x) h e p = rw e p

    deleted-After :
        (o : Option (Guard (Tag × Bool))) (c : CapArgs) (h : Handler G L)
        → Holds P h
        → After P (deleted ops o c h)
    unfolding deleted with_caps
    deleted-After none c h p = tt
    deleted-After (some g) c h p =
        and_caps-After (ack_caps ops false (keys c.caps) h.state) (set_reg (with_caps (λ g'. g)) h)
          (λ reg. reg) (λ reg. refl) (ack_caps-Kept false (keys c.caps) h.state p)

    cap_arm-After :
        (c : SubCmd) (args : CapArgs) (h : Handler G L) → Holds P h → After P (cap_arm ops c args h)
    unfolding cap_arm with_caps
    cap_arm-After ls c h p = elim (Bool-cases c.is_last) [
      | inl e ↦
          let k = listed-After h.state (set_reg (with_caps (add_caps c.caps)) h) refl p in rw e k
      | inr e ↦ rw e p
    ]
    cap_arm-After new_caps c h p = p
    cap_arm-After ack c h p =
        and_caps-After (ack_caps ops true (keys c.caps) h.state) h (with_caps (enable_caps c.caps))
          (with_caps-account (enable_caps c.caps)) (ack_caps-Kept true (keys c.caps) h.state p)
    cap_arm-After nak c h p =
        and_caps-After (ack_caps ops false (keys c.caps) h.state) h (λ reg. reg) (λ reg. refl)
          (ack_caps-Kept false (keys c.caps) h.state p)
    cap_arm-After del c h p = deleted-After (remove_caps (keys c.caps) _) c h p
    cap_arm-After list c h p = tt

    pub cap_parsed-After :
        (o : Option (Result ParseError CapArgs)) (h : Handler G L)
        → Holds P h
        → After P (cap_parsed ops o h)
    cap_parsed-After none h p = tt
    cap_parsed-After (some (err e)) h p = tt
    cap_parsed-After (some (ok c)) h p = cap_arm-After c.subcmd c h p
