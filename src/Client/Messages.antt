-- ===== src/Client/Messages.antt =====
-- What the handlers of `src/client` share: new messages, `ClientMsg::new_cmd` of `src/ircmsg/client.rs`,
-- and comparisons of byte strings. What a handler sends to its sink is the list of the messages.
use vinezombie.Prelude.{Bool, false, ◌||◌, List, [], ◌∷◌, Bytes, if◌then◌else◌}
use vinezombie.Ircmsg.Args.{empty_args, add_word}
use vinezombie.Ircmsg.Codec.{ClientMsg}
use vinezombie.Client.Nick.{bytes_eq}

abbrev pub new_cmd : Bytes → ClientMsg
new_cmd cmd = record { tags = []; command = cmd; args = empty_args }

-- A new message, and `msg.args.edit().add_word(w)`.
unfoldable pub with_word : Bytes → Bytes → ClientMsg
unfolding add_word
with_word cmd w = record (new_cmd cmd) { args = add_word empty_args w }

abbrev pub contains_bytes : List Bytes → Bytes → Bool
contains_bytes [] w = false
contains_bytes (x ∷ xs) w = bytes_eq x w || contains_bytes xs w

-- `retain`, by what a test says of each element.
abbrev pub retain_if {ℓ} : {A : Type ℓ} → (A → Bool) → List A → List A
retain_if p [] = []
retain_if p (x ∷ xs) = if p x then x ∷ retain_if p xs else retain_if p xs
