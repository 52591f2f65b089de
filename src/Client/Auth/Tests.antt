-- ===== src/Client/Auth/Tests.antt =====
-- Logins over an engine that writes each byte four times, moved up by 65.
use vinezombie.Prelude.{
  ℕ, zero, suc, ◌+◌, ◌-◌, ◌≤◌, ◌≡◌, refl, false, none, List, [], ◌∷◌, Bytes, codes, length, arith,
}
use vinezombie.Text.Kinds.{InvalidString, Result, ok, err, is_invalid}
use vinezombie.Text.Chunks.{plus}
use vinezombie.Text.Chunks.RoundTrip.{Encodes}
use vinezombie.Ircmsg.Codec.{ServerMsg, command, as_arg}
use vinezombie.Client.Nick.{bytes_eq}
use vinezombie.Client.Auth.{
  Mechanism, external, plain, included, new_plain, mechanism_name, mechanism_reply,
  authenticate_msg, msg_abort, retain,
}
use vinezombie.Client.Auth.Handler.{
  Handler, Step, broken, arm_of, new_handler, handle, handle_arm, rule_out,
}
use vinezombie.Client.Auth.Handler.Progress.{Run, done, more, Run-failures}
use vinezombie.Client.Auth.Handler.RuledOut.{All, challenge-Run-ne}
use vinezombie.Client.Auth.Handler.EndToEnd.{Sent, plain_message, handle-plain_message}
use vinezombie.Client.Auth.Handler.Leftover.{failed-leftover}

abbrev encode : Bytes → Bytes
encode [] = []
encode (c ∷ cs) = (c + 65) ∷ (c + 65) ∷ (c + 65) ∷ (c + 65) ∷ encode cs

abbrev every_fourth : Bytes → Bytes
every_fourth (c ∷ x ∷ y ∷ z ∷ cs) = (c - 65) ∷ every_fourth cs
every_fourth _ = []

abbrev decode : Bytes → Result InvalidString Bytes
decode bs = ok (every_fourth bs)

abbrev received : Bytes → List Bytes → ServerMsg
received kind words = record {
  tags = [];
  source = none;
  kind = command kind;
  args = record { words = words; long = none };
}

abbrev asked : Bytes → ServerMsg
asked w = received (codes "AUTHENTICATE") (w ∷ [])

abbrev refused : ServerMsg
refused = received (codes "904") []

login-Encodes : Encodes encode decode (plain_message [] (codes "a") (codes "b"))
unfolding is_invalid
login-Encodes = record {
  decoded = refl;
  alphabet = (
    refl,
    (
      refl,
      (
        refl,
        (
          refl,
          (
            refl,
            (
              refl,
              (refl, (refl, (refl, (refl, (refl, (refl, (refl, (refl, (refl, (refl, tt)))))))))),
            ),
          ),
        ),
      ),
    ),
  );
  groups = 4;
  padded = refl;
}

handle-plain_message_example :
    Sent included encode decode
      (plain_message [] (codes "a") (codes "b"))
      (new_handler included (plain []) [])
      (handle included encode decode
        (asked plus)
        (new_handler included (new_plain [] (codes "a") (codes "b")) []))
unfolding arm_of as_arg
handle-plain_message_example =
    handle-plain_message encode decode refl [] (codes "a") (codes "b") [] (asked plus) []
      login-Encodes refl refl

abbrev repeated : ℕ → Bytes
repeated zero = []
repeated (suc n) = b'B' ∷ repeated n

abbrev step : ServerMsg → Handler Mechanism → Step Mechanism
step = handle included encode decode

failed-leftover_example :
    (h1 : Handler Mechanism) × (h2 : Handler Mechanism) × (h3 : Handler Mechanism) × (step
        (asked (repeated 400))
        (new_handler included (external []) (plain (codes "ab") ∷ []))
      ≡ ok (ok false, h1, []))
    × (step refused h1 ≡ ok (ok false, h2, authenticate_msg (codes "PLAIN") ∷ []))
    × (step (asked plus) h2 ≡ ok (err (broken (codes "PLAIN")), h3, msg_abort ∷ []))
unfolding arm_of as_arg
failed-leftover_example =
    failed-leftover encode decode (external []) (codes "ab") (repeated 400) (asked (repeated 400))
      refused (asked plus) (omega arith) refl refl refl refl refl refl

abbrev two : Handler Mechanism
unfolding new_handler
two = new_handler included (external []) (plain (codes "ab") ∷ [])

abbrev one : Handler Mechanism
unfolding new_handler
one = new_handler included (plain (codes "ab")) []

refused-Run : Run included encode decode two 1 one
unfolding handle handle_arm arm_of as_arg two included
refused-Run = more two one one 0 refused (authenticate_msg (codes "PLAIN") ∷ []) refl (done one)

Run-failures_example : 1 + length one.queue ≤ length two.queue
Run-failures_example = Run-failures included encode decode refused-Run

included-named :
    (l : Mechanism) (chal : Bytes) → included.name (included.reply l chal).1 ≡ included.name l
unfolding included mechanism_name mechanism_reply
included-named (external a) chal = refl
included-named (plain left) chal = ground arith

challenge-Run-ne_example :
    (bytes_eq (included.name two.logic) (included.name one.logic) ≡ false)
    × All (λ l. bytes_eq (included.name two.logic) (included.name l) ≡ false) one.queue
unfolding arm_of as_arg included mechanism_name mechanism_reply handle handle_arm rule_out retain
    two
challenge-Run-ne_example =
    challenge-Run-ne included encode decode included-named (asked (repeated 4)) two one one
      {ms = msg_abort ∷ []} refl refl refl refl (done one)
