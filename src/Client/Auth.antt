-- ===== src/Client/Auth.antt =====
-- `SaslQueue` and the mechanisms of `src/client/auth.rs` and `src/client/auth/sasl`. A boxed mechanism is the
-- state of one and its operations.
pub mod Handler
mod Tests
use vinezombie.Prelude.{
  ℕ, Bool, true, false, not, Option, none, some, List, [], ◌∷◌, ◌++◌, Bytes, codes, length, ◌==◌,
  if◌then◌else◌,
}
use vinezombie.Ircmsg.Codec.{ClientMsg}
use vinezombie.Client.Messages.{with_word, retain_if}

-- `SaslLogic`: `reply` gets the challenge and gives what it writes to an empty buffer, if it does not fail.
pub record SaslLogic (L : Type 0) : Type 0 where
  pub name : L → Bytes
  pub reply : L → Bytes → Option Bytes × L

unfoldable pub authenticate_msg : Bytes → ClientMsg
unfolding with_word
authenticate_msg w = with_word (codes "AUTHENTICATE") w

unfoldable pub msg_abort : ClientMsg
unfolding authenticate_msg
msg_abort = authenticate_msg (codes "*")

-- `SaslQueue`, the list of its mechanisms.
module _ {L : Type 0} where
  unfoldable pub new_queue : List L
  new_queue = []

  unfoldable pub is_empty : List L → Bool
  is_empty q = length q == 0

  -- The mechanisms that `Sasl::logic` gives are appended.
  unfoldable pub push : List L → List L → List L
  push logics q = q ++ logics

  unfoldable pub pop : List L → Option L × List L
  pop [] = (none, [])
  pop (l ∷ ls) = (some l, ls)

  unfoldable pub retain : SaslLogic L → (Bytes → Bool) → List L → List L
  retain ops supported q = retain_if (λ l. supported (ops.name l)) q

  unfoldable pub from_iter : List (List L) → List L → List L
  unfolding push
  from_iter [] q = q
  from_iter (s ∷ ss) q = from_iter ss (push s q)

-- The mechanisms that are included: `ExternalLogic` with its authorization identity, and `PlainLogic` with
-- what is left to send.
pub data Mechanism : Type 0 where
  external plain : Bytes → Mechanism

abbrev pub no_bytes : Bytes → Bool
no_bytes [] = true
no_bytes (c ∷ cs) = false

-- `push_cstr` of `SecretBuf`.
abbrev pub push_cstr : Bytes → Bytes → Bytes
push_cstr slice buf = buf ++ slice ++ 0 ∷ []

-- `PlainLogic::new`.
unfoldable pub new_plain : Bytes → Bytes → Bytes → Mechanism
new_plain authzid authcid passwd = plain (push_cstr authcid (push_cstr authzid []) ++ passwd)

unfoldable pub mechanism_name : Mechanism → Bytes
mechanism_name (external authzid) = codes "EXTERNAL"
mechanism_name (plain left) = codes "PLAIN"

-- A non-empty message is an error of the server, and so is a second request to `PLAIN`.
unfoldable pub mechanism_reply : Mechanism → Bytes → Option Bytes × Mechanism
mechanism_reply (external authzid) input =
    (if no_bytes input then some authzid else none, external authzid)
mechanism_reply (plain left) input =
    if not (no_bytes input)
    then (none, plain left)
    else if no_bytes left
    then (none, plain left)
    else (some left, plain [])

unfoldable pub included : SaslLogic Mechanism
unfolding mechanism_name mechanism_reply
included = record { name = mechanism_name; reply = mechanism_reply }

-- `logic` of `External`, of `Plain`, and of `Password` with or without `PasswordMechanism::Plain` denied.
unfoldable pub external_logic : Bytes → List Mechanism
external_logic authzid = external authzid ∷ []

unfoldable pub plain_logic : Bytes → Bytes → Bytes → List Mechanism
unfolding new_plain
plain_logic authzid authcid passwd = new_plain authzid authcid passwd ∷ []

unfoldable pub password_logic : Bool → Bytes → Bytes → Bytes → List Mechanism
unfolding new_plain
password_logic deny_plain authzid authcid passwd =
    if deny_plain then [] else new_plain authzid authcid passwd ∷ []
