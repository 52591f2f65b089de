-- ===== src/Client/Register/Tests.antt =====
-- Registrations with one nick and the mechanisms that are included, over an engine that changes nothing.
use vinezombie.Prelude.{
  ◌≤◌, ◌≡◌, ◌≢◌, refl, Bool, true, false, Option, none, some, List, [], ◌∷◌, Bytes, codes,
}
use vinezombie.Text.Kinds.{InvalidString, Result, ok, err, is_invalid, check_others}
use vinezombie.Ircmsg.Codec.{ServerMsg, command, as_arg}
use vinezombie.Client.Nick.{nick_gen}
use vinezombie.Text.Chunks.{new_decoder}
use vinezombie.Client.Auth.{Mechanism, plain, included, authenticate_msg, mechanism_name}
use vinezombie.Client.Register.{
  Registration, Register, Handler, new_handler, handler, new_registration, req_state, ack_state,
  sasl_state, missing_caps, await_end,
}
use vinezombie.Client.Auth.Handler as AuthHandler
use vinezombie.Client.Register.Negotiation.{ack_caps, acked}
use vinezombie.Client.Register.Parts.{Arm, Step, logged_out, arm_of, is_none}
use vinezombie.Client.Register.Handling.{handle, sent_before}
use vinezombie.Client.Register.Handling.Login.{done, more, rank, Run-rank, Run-account}
use vinezombie.Client.Register.Handling.Unrequired.{handler-unrequired}

abbrev same : Bytes → Bytes
same bs = bs

abbrev decode : Bytes → Result InvalidString Bytes
decode bs = ok bs

abbrev received : Bytes → List Bytes → ServerMsg
received kind words = record {
  tags = [];
  source = none;
  kind = command kind;
  args = record { words = words; long = none };
}

abbrev step : ServerMsg → Handler Bytes Mechanism → Option (Step Bytes Mechanism)
step = handle nick_gen included same decode

abbrev no_caps : List Bytes → List Bytes
no_caps avail = []

abbrev asked : Register Bytes Mechanism
asked = record {
  password = none;
  username = codes "u";
  user_p1 = codes "0";
  user_p2 = codes "*";
  realname = codes "r";
  nicks = codes "n";
  caps = no_caps;
  auth = (plain (codes "p") ∷ [], true);
}

abbrev welcome_msg : ServerMsg
welcome_msg = received (codes "001") (codes "n" ∷ [])

abbrev motd_msg : ServerMsg
motd_msg = received (codes "376") []

handler-unrequired_example :
    (h1 : Handler Bytes Mechanism) × (h2 : Handler Bytes Mechanism) × (reg : Registration) × (step
        welcome_msg
        (handler nick_gen asked).0
      ≡ some (ok none, h1, []))
    × (step motd_msg h1 ≡ some (ok (some reg), h2, []))
    × (reg.account ≡ none)
unfolding as_arg
handler-unrequired_example =
    handler-unrequired nick_gen included same decode asked (plain (codes "p")) [] welcome_msg
      motd_msg refl refl refl

-- A login by 900, and the end of the registration.
abbrev login : ServerMsg
login = received (codes "900") (codes "n" ∷ codes "acc" ∷ codes "ok" ∷ [])

abbrev known : Registration
known = record (new_registration (codes "n")) { account = some (codes "acc") }

unfoldable fresh : Handler Bytes Mechanism
unfolding new_handler
fresh = new_handler nick_gen (codes "n", none) no_caps true []

abbrev logged : Handler Bytes Mechanism
logged = record { nicks = none; state = req_state no_caps []; needs_auth = true; reg = known }

abbrev ready : Handler Bytes Mechanism
ready = record logged { state = await_end }

step-login : step login fresh ≡ some (ok none, logged, [])
unfolding handle fresh sent_before is_invalid check_others
step-login = refl

step-welcome_msg : step welcome_msg logged ≡ some (ok none, ready, [])
unfolding handle sent_before
step-welcome_msg = refl

step-motd_msg :
    step motd_msg ready
    ≡ some (ok (some known), record ready { reg = new_registration (codes "*") }, [])
unfolding handle sent_before
step-motd_msg = refl

abbrev is_login : Arm → Bool
is_login logged_out = false
is_login _ = true

is_login-ne : (a : Arm) → is_login a ≡ true → a ≢ logged_out
is_login-ne a h e = let bad : false ≡ true = rw e at h in absurd (cc)

login_arm : is_login (arm_of (as_arg login.kind)) ≡ true
unfolding arm_of as_arg
login_arm = refl

welcome_arm : is_login (arm_of (as_arg welcome_msg.kind)) ≡ true
unfolding arm_of as_arg
welcome_arm = refl

motd_arm : is_login (arm_of (as_arg motd_msg.kind)) ≡ true
unfolding arm_of as_arg
motd_arm = refl

Run-account_example : is_none known.account ≡ false
unfolding fresh new_handler
Run-account_example =
    Run-account nick_gen included same decode (codes "n", none) no_caps [] motd_msg
      (more fresh logged ready login [] (is_login-ne _ login_arm) step-login (
        more logged ready ready welcome_msg [] (is_login-ne _ welcome_arm) step-welcome_msg
          (done ready)))
      (is_login-ne _ motd_arm) step-motd_msg

Run-rank_example : rank fresh.state ≤ rank ready.state
Run-rank_example = Run-rank nick_gen included same decode (
    more fresh logged ready login [] tt step-login
      (more logged ready ready welcome_msg [] tt step-welcome_msg (done ready)))

-- Once SASL is acknowledged, its first mechanism begins.
ack_caps-sasl :
    ack_caps included true
      (codes "sasl" ∷ [])
      (ack_state (codes "sasl" ∷ []) (plain (codes "p") ∷ []))
    ≡ (
      ok tt,
      sasl_state (record { queue = []; logic = plain (codes "p"); decoder = new_decoder 400 }),
      authenticate_msg (codes "PLAIN") ∷ [],
    )
unfolding ack_caps acked AuthHandler.from_queue AuthHandler.auth_msg AuthHandler.new_handler
    authenticate_msg included mechanism_name
ack_caps-sasl = refl

-- What is still to be acknowledged is refused.
ack_caps-missing :
    ack_caps included false (codes "sasl" ∷ []) (ack_state (codes "batch" ∷ codes "sasl" ∷ []) [])
    ≡ (err (missing_caps (codes "sasl" ∷ [])), ack_state (codes "batch" ∷ codes "sasl" ∷ []) [], [])
unfolding ack_caps
ack_caps-missing = refl
