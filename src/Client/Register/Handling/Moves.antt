-- ===== src/Client/Register/Handling/Moves.antt =====
-- How a message moves the handler of `src/client/register/handler.rs` from state to state.
use vinezombie.Prelude.{
  ◌≡◌, refl, Bool, true, false, ◌&&◌, Option, none, some, List, [], ◌∷◌, Bytes, arith,
}
use vinezombie.Text.Kinds.{Result, ok, err}
use vinezombie.Ircmsg.Failure.{ParseError}
use vinezombie.Ircmsg.Args.{unsnoc}
use vinezombie.Ircmsg.Source.{Source}
use vinezombie.Ircmsg.Tags.{Tag}
use vinezombie.Util.EditGuard.{Guard}
use vinezombie.Client.Register.{
  Registration, HandlerState, cap_end, await_welcome, await_end, req_state, ack_state, sasl_state,
  Handler,
}
use vinezombie.Client.Register.Parts.{
  Arm, logged_out, is_none, kept_source, welcomed_nick, welcomed_source, with_caps, with_isupport,
  Step,
}
use vinezombie.Client.Register.Handling.{source_in, with_whoami, account_of}

-- The states that the messages of a negotiation move one to, but for its end.
abbrev pub follows : {L : Type 0} → HandlerState L → HandlerState L → Bool
follows (req_state r q) (ack_state ks q') = true
follows (req_state r q) cap_end = true
follows (ack_state ks q) (ack_state ks' q') = true
follows (ack_state ks q) (sasl_state x) = true
follows (ack_state ks q) cap_end = true
follows (sasl_state x) (sasl_state y) = true
follows (sasl_state x) cap_end = true
follows _ _ = false

-- A property of the state, of whether a login is needed and of the account that one message keeps, with the
-- arm that is taken.
pub record Closed {L : Type 0} (P : HandlerState L → Bool → Option Bytes → Type 0) (arm : Arm)
    : Type 0 where
  pub account :
      {s : HandlerState L} {n : Bool} {a : Option Bytes} (x : Bytes) → P s n a → P s n (some x)
  pub logout :
      {s : HandlerState L} {n : Bool} {a : Option Bytes} → arm ≡ logged_out → P s n a → P s n none
  pub moved :
      {n : Bool} {a : Option Bytes} (s s' : HandlerState L)
      → follows s s' ≡ true
      → P s n a
      → P s' n a
  pub ended :
      {n : Bool} {a : Option Bytes} → (n && is_none a) ≡ false → P cap_end n a → P await_welcome n a
  pub welcomed :
      {s : HandlerState L} {n : Bool} {a : Option Bytes}
      → (n && is_none a) ≡ false
      → P s n a
      → P await_end n a

module _ {G L : Type 0} (P : HandlerState L → Bool → Option Bytes → Type 0) where
  abbrev pub Holds : Handler G L → Type 0
  Holds h = P h.state h.needs_auth h.reg.account

  -- The handler after a step has the property, unless the step fails; one that is done had it.
  abbrev pub After : Option (Step G L) → Type 0
  After (some (ok none, h, ms)) = Holds h
  After (some (ok (some r), h, ms)) = P await_end h.needs_auth r.account
  After _ = Unit

pub kept_source-account :
    (o s : Option Source) (reg : Registration) → (kept_source o s reg).account ≡ reg.account
kept_source-account none s reg = refl
kept_source-account (some x) s reg = refl

pub welcomed_nick-account :
    (o : Option Bytes) (reg : Registration) → (welcomed_nick o reg).account ≡ reg.account
unfolding welcomed_nick
welcomed_nick-account none reg = refl
welcomed_nick-account (some n) reg = ground arith

pub welcomed_source-account :
    (o : Option Source) (reg : Registration) → (welcomed_source o reg).account ≡ reg.account
welcomed_source-account none reg = refl
welcomed_source-account (some s) reg = ground arith

pub with_isupport-account :
    (ws : List Bytes) (reg : Registration) → (with_isupport ws reg).account ≡ reg.account
unfolding with_isupport
with_isupport-account [] reg = refl
with_isupport-account (w ∷ ws) reg = refl

pub with_caps-account :
    (f : Guard (Tag × Bool) → Guard (Tag × Bool)) (reg : Registration)
    → (with_caps f reg).account ≡ reg.account
unfolding with_caps
with_caps-account f reg = refl

module _ {G L : Type 0} (P : HandlerState L → Bool → Option Bytes → Type 0) (arm : Arm)
    (closed : Closed P arm) where
  pub whoami-After :
      (o : Option (Result ParseError Source)) (h : Handler G L)
      → Holds P h
      → After P (some (with_whoami o h))
  whoami-After none h p = p
  whoami-After (some (err e)) h p = tt
  whoami-After (some (ok s)) h p = p

  pub account-After :
      (ws : List Bytes × Option Bytes) (h : Handler G L)
      → Holds P h
      → After P (some (account_of ws h))
  unfolding account_of
  account-After (ws, none) h p = p
  account-After (ws, some a) h p = whoami-After (source_in (unsnoc ws).1) _ (closed.account a p)
