-- ===== src/Client/Register.antt =====
-- `Registration` and the states of the handler of `src/client/register/handler.rs`, and the messages that begin
-- the registration, of `src/client/register.rs`. The state of a generator of nicks is a parameter, and so is
-- that of a mechanism.
pub mod Parts
pub mod Negotiation
pub mod Handling
mod Tests
use vinezombie.Prelude.{
  ℕ, ◌+◌, ◌*◌, ◌-◌, Bool, true, false, not, ◌&&◌, ◌||◌, Option, none, some, List, [], ◌∷◌, ◌++◌,
  Bytes, codes, ltb, leb, ◌==◌, is_ascii_digit, if◌then◌else◌,
}
use vinezombie.Text.Kinds.{Result, ok, err, word}
use vinezombie.Text.Splitter.{
  Splitter, is_empty, until_byte_eq, rest_or_default, save_end, next_byte,
}
use vinezombie.Text.Casemap.{ascii_casemap}
use vinezombie.Ircmsg.Failure.{ParseError}
use vinezombie.Ircmsg.Args.{add_word}
use vinezombie.Ircmsg.Source.{Source, UserHost}
use vinezombie.Ircmsg.Tags.{Tag, compare_bytes}
use vinezombie.Ircmsg.Codec.{ClientMsg, ServerMsg}
use vinezombie.Client.Nick.{NickGen, bytes_eq}
use vinezombie.Client.Messages.{new_cmd, with_word, contains_bytes, retain_if}
use vinezombie.Client.Auth as Auth
use vinezombie.Client.Auth.Handler as AuthHandler
use vinezombie.Client.Cap.{place, with_text}

-- The maps are those of Names, with the key and the value of an entry as its union.
pub record Registration : Type 0 where
  pub nick : Bytes
  pub userhost : Option UserHost
  pub account : Option Bytes
  pub source : Option Source
  pub caps : List (Tag × Bool)
  pub version : Option Bytes
  pub isupport : List (Tag × Unit {0})

abbrev pub new_registration : Bytes → Registration
new_registration n = record {
  nick = n;
  userhost = none;
  account = none;
  source = none;
  caps = [];
  version = none;
  isupport = [];
}

-- `Default for Registration`.
abbrev pub default_registration : Registration
default_registration = new_registration (codes "*")

abbrev pub third : List Bytes → Option Bytes
third (c ∷ s ∷ v ∷ args) = some v
third _ = none

abbrev pub with_version : Option Bytes → Registration → Registration
with_version none reg = reg
with_version (some v) reg = record reg { version = some v }

unfoldable pub parse_myinfo : List Bytes → Registration → Registration
parse_myinfo args reg = with_version (third args) reg

-- The errors that `Broken` boxes.
pub data Reason : Type 0 where
  early_myinfo empty_bounce unexpected_motd unexpected_list : Reason
  bad_port : Bytes → Reason
  bad_source bad_cap : ParseError → Reason

-- `HandlerError`.
pub data RegError : Type 0 where
  no_access : Bytes → RegError
  no_nicks no_login : RegError
  redirect : Bytes → ℕ → Bytes → RegError
  server_error : ServerMsg → RegError
  broken : Reason → RegError
  missing_caps : List Bytes → RegError

-- A `BTreeSet` of keys is the list of them in order.
abbrev pub difference : List Bytes → List Bytes → List Bytes
difference xs ys = retain_if (λ x. not (contains_bytes ys x)) xs

abbrev pub intersection : List Bytes → List Bytes → List Bytes
intersection xs ys = retain_if (contains_bytes ys) xs

unfoldable pub add_key : Bytes → List Bytes → List Bytes
unfolding compare_bytes
add_key k [] = k ∷ []
add_key k (x ∷ xs) = elim (compare_bytes k x) [
  | Prim.Native.Nat.Ordering.lt ↦ k ∷ x ∷ xs
  | Prim.Native.Nat.Ordering.eq ↦ x ∷ xs
  | Prim.Native.Nat.Ordering.gt ↦ x ∷ add_key k xs
]

-- `HandlerState`, with the function that `CapFn` is.
pub data HandlerState (L : Type 0) : Type 0 where
  broken_state cap_end await_welcome await_end : HandlerState L
  req_state : (List Bytes → List Bytes) → List L → HandlerState L
  ack_state : List Bytes → List L → HandlerState L
  sasl_state : AuthHandler.Handler L → HandlerState L

-- `Handler`.
pub record Handler (G L : Type 0) : Type 0 where
  pub nicks : Option G
  pub state : HandlerState L
  pub needs_auth : Bool
  pub reg : Registration

-- `Register`: its functions, applied to the options.
pub record Register (G L : Type 0) : Type 0 where
  pub password : Option Bytes
  pub username : Bytes
  pub user_p1 : Bytes
  pub user_p2 : Bytes
  pub realname : Bytes
  pub nicks : G
  pub caps : List Bytes → List Bytes
  pub auth : List L × Bool

abbrev pub pass_msgs : Option Bytes → List ClientMsg
pass_msgs none = []
pass_msgs (some pass) = with_text (new_cmd (codes "PASS")) pass ∷ []

module _ {G L : Type 0} (gen : NickGen G) where
  abbrev pub user_msg : Register G L → ClientMsg
  unfolding add_word with_word
  user_msg r =
      let words =
        add_word (add_word (with_word (codes "USER") r.username).args r.user_p1) r.user_p2 in
      with_text (record (new_cmd (codes "USER")) { args = words }) r.realname

  -- `register_msgs`: the nick, the generator of others, and what is sent.
  unfoldable pub register_msgs : Register G L → (Bytes × Option G) × List ClientMsg
  unfolding add_word with_word
  register_msgs r =
      let (nick, nicks) = gen.next_nick r.nicks in
      (
        (nick, nicks),
        pass_msgs r.password
            ++ record (new_cmd (codes "CAP")) {
              args = add_word (with_word (codes "CAP") (codes "LS")).args (codes "302");
            }
              ∷ user_msg r
              ∷ with_word (codes "NICK") nick
              ∷ [],
      )

  -- `Handler::new`.
  unfoldable pub new_handler :
      Bytes × Option G → (List Bytes → List Bytes) → Bool → List L → Handler G L
  new_handler (nick, nicks) caps needs_auth auths = record {
    nicks = nicks;
    state = req_state caps auths;
    needs_auth = needs_auth;
    reg = new_registration nick;
  }

  -- `Register::handler`.
  unfoldable pub handler : Register G L → Handler G L × List ClientMsg
  unfolding register_msgs new_handler Auth.is_empty
  handler r =
      let (nicks, msgs) = register_msgs r in
      let (auths, needs_auth) = r.auth in
      (new_handler nicks r.caps (needs_auth && Auth.is_empty auths) auths, msgs)
