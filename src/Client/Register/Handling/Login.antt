-- ===== src/Client/Register/Handling/Login.antt =====
-- Runs of the handler of `src/client/register/handler.rs`: logins, and the order of its states.
use vinezombie.Prelude.{
  ℕ, ◌≤◌, ◌≡◌, ◌≢◌, refl, subst, Bool, true, false, ◌&&◌, Option, none, some, List, Bytes, arith,
}
use vinezombie.Text.Kinds.{Result, ok}
use vinezombie.Ircmsg.Codec.{ClientMsg, ServerMsg, as_arg}
use vinezombie.Client.Nick.{NickGen}
use vinezombie.Client.Auth.{SaslLogic}
use vinezombie.Client.Register.{
  Registration, HandlerState, broken_state, cap_end, await_welcome, await_end, req_state, ack_state,
  sasl_state, Handler, new_handler,
}
use vinezombie.Client.Register.Parts.{Arm, logged_out, arm_of, is_none}
use vinezombie.Client.Register.Handling.{handle}
use vinezombie.Client.Register.Handling.Moves.{follows, Closed, Holds, After}
use vinezombie.Client.Register.Handling.Steps.{handle-After}

-- The order of the states.
abbrev pub rank : {L : Type 0} → HandlerState L → ℕ
rank broken_state = 0
rank (req_state r q) = 1
rank (ack_state ks q) = 2
rank (sasl_state x) = 3
rank cap_end = 4
rank await_welcome = 5
rank await_end = 6

has-account :
    (n : Bool) (a : Option Bytes) → n ≡ true → (n && is_none a) ≡ false → is_none a ≡ false
has-account true a e h = h
has-account false a e h = absurd (cc)

module _ {L : Type 0} where
  follows-rank : (s s' : HandlerState L) → follows s s' ≡ true → rank s ≤ rank s'
  follows-rank (req_state r q) (ack_state ks q') e = omega arith
  follows-rank (req_state r q) cap_end e = omega arith
  follows-rank (ack_state ks q) (ack_state ks' q') e = omega arith
  follows-rank (ack_state ks q) (sasl_state x) e = omega arith
  follows-rank (ack_state ks q) cap_end e = omega arith
  follows-rank (sasl_state x) (sasl_state y) e = omega arith
  follows-rank (sasl_state x) cap_end e = omega arith
  follows-rank s s' e = absurd (cc)

  rank-most : (s : HandlerState L) → rank s ≤ 6
  rank-most broken_state = omega arith
  rank-most (req_state r q) = omega arith
  rank-most (ack_state ks q) = omega arith
  rank-most (sasl_state x) = omega arith
  rank-most cap_end = omega arith
  rank-most await_welcome = omega arith
  rank-most await_end = omega arith

  -- At or behind a place in the order.
  abbrev From : ℕ → HandlerState L → Bool → Option Bytes → Type 0
  From n s needs a = n ≤ rank s

  From-Closed : (n : ℕ) (arm : Arm) → Closed (From n) arm
  From-Closed n arm = record {
    account = λ x p. p;
    logout = λ e p. p;
    moved = λ s s' f p. omega (arith, p, follows-rank s s' f);
    ended = λ has p. omega (arith, p);
    welcomed = λ {s} has p. omega (arith, p, rank-most s);
  }

  -- Past the end of the negotiation there is an account.
  abbrev Cleared : HandlerState L → Option Bytes → Type 0
  Cleared await_welcome a = is_none a ≡ false
  Cleared await_end a = is_none a ≡ false
  Cleared _ a = Unit

  abbrev Secure : HandlerState L → Bool → Option Bytes → Type 0
  Secure s needs a = (needs ≡ true) × Cleared s a

  Cleared-some : (s : HandlerState L) (x : Bytes) → Cleared s (some x)
  Cleared-some broken_state x = tt
  Cleared-some (req_state r q) x = tt
  Cleared-some (ack_state ks q) x = tt
  Cleared-some (sasl_state y) x = tt
  Cleared-some cap_end x = tt
  Cleared-some await_welcome x = refl
  Cleared-some await_end x = refl

  follows-Cleared : (s s' : HandlerState L) (a : Option Bytes) → follows s s' ≡ true → Cleared s' a
  follows-Cleared (req_state r q) (ack_state ks q') a e = tt
  follows-Cleared (req_state r q) cap_end a e = tt
  follows-Cleared (ack_state ks q) (ack_state ks' q') a e = tt
  follows-Cleared (ack_state ks q) (sasl_state x) a e = tt
  follows-Cleared (ack_state ks q) cap_end a e = tt
  follows-Cleared (sasl_state x) (sasl_state y) a e = tt
  follows-Cleared (sasl_state x) cap_end a e = tt
  follows-Cleared s s' a e = absurd (cc)

  Secure-Closed : (arm : Arm) → arm ≢ logged_out → Closed Secure arm
  Secure-Closed arm ne = record {
    account = λ {s} x p. (p.0, Cleared-some s x);
    logout = λ e p. absurd (ne e);
    moved = λ {n} {a} s s' f p. (p.0, follows-Cleared s s' a f);
    ended = λ {n} {a} has p. (p.0, has-account n a p.0 has);
    welcomed = λ {s} {n} {a} has p. (p.0, has-account n a p.0 has);
  }

module _ {G L : Type 0} (gen : NickGen G) (ops : SaslLogic L) {E : Type 0}
    (engine_encode : Bytes → Bytes) (engine_decode : Bytes → Result E Bytes) where
  -- A run of messages that all arms but some may take, after each of which more are required.
  pub data Run (allowed : Arm → Type 0) : Handler G L → Handler G L → Type 0 where
    done : (h : Handler G L) → Run allowed h h
    more :
        (h h' h'' : Handler G L) (msg : ServerMsg) (ms : List ClientMsg)
        → allowed (arm_of (as_arg msg.kind))
        → handle gen ops engine_encode engine_decode msg h ≡ some (ok none, h', ms)
        → Run allowed h' h''
        → Run allowed h h''

  Run-Holds :
      (P : HandlerState L → Bool → Option Bytes → Type 0) {allowed : Arm → Type 0}
      → ((arm : Arm) → allowed arm → Closed P arm)
      → {h h' : Handler G L} → Run allowed h h'
      → Holds P h
      → Holds P h'
  Run-Holds P c (done h) p = p
  Run-Holds P c (more h h' h'' msg ms a e r) p = Run-Holds P c r (
      subst (After P) e (
        handle-After gen ops P engine_encode engine_decode msg h (c (arm_of (as_arg msg.kind)) a)
          p))

  -- Over any run of messages after each of which more are required, the state does not go back in the order
  -- of the states.
  pub Run-rank : {h h' : Handler G L} → Run (λ arm. Unit) h h' → rank h.state ≤ rank h'.state
  Run-rank {h} r =
      Run-Holds (From (rank h.state)) (λ arm u. From-Closed (rank h.state) arm) r (omega arith)

  -- A new handler that needs a login, and gets any messages but 901, completes the registration with an
  -- account only.
  pub Run-account :
      (nicks : Bytes × Option G) (caps : List Bytes → List Bytes) (auths : List L)
      {h h' : Handler G L} (msg : ServerMsg) {r : Registration} {ms : List ClientMsg}
      → Run (λ arm. arm ≢ logged_out) (new_handler gen nicks caps true auths) h
      → arm_of (as_arg msg.kind) ≢ logged_out
      → handle gen ops engine_encode engine_decode msg h ≡ some (ok (some r), h', ms)
      → is_none r.account ≡ false
  unfolding new_handler
  Run-account nicks caps auths {h} {h'} msg {r} run ne e =
      let p : Holds Secure h = Run-Holds Secure Secure-Closed run (refl, tt) in
      let q : Secure {L = L} await_end h'.needs_auth r.account = subst (After Secure) e (
        handle-After gen ops Secure engine_encode engine_decode msg h
          (Secure-Closed (arm_of (as_arg msg.kind)) ne) p) in
      q.1
