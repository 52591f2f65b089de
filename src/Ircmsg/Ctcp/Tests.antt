-- ===== src/Ircmsg/Ctcp/Tests.antt =====
-- CTCP messages as they are sent, and one without a name.
use vinezombie.Prelude.{◌≡◌, refl, true, [], ◌∷◌, ◌++◌, Bytes, codes}
use vinezombie.Text.Kinds.{is_invalid}
use vinezombie.Text.Casemap.{ascii_casemap}
use vinezombie.Ircmsg.Ctcp.{MaybeCtcp, parse, into_line}
use vinezombie.Ircmsg.Ctcp.RoundTrip.{Readable, parse-into_line, parse-query}

abbrev action : MaybeCtcp Bytes
action = record { cmd = codes "ACTION"; body = codes "waves at all" }

action-Readable : Readable action
unfolding is_invalid ascii_casemap
action-Readable = (
  (refl, (refl, (refl, (refl, (refl, (refl, tt)))))),
  (refl, (refl, (refl, (refl, (refl, (refl, tt)))))),
  (
    refl,
    (refl, (refl, (refl, (refl, (refl, (refl, (refl, (refl, (refl, (refl, (refl, tt))))))))))),
  ),
  refl,
)

parse-into_line_example : parse true (into_line true true action) ≡ action
parse-into_line_example = parse-into_line true true true action action-Readable

-- The body of a message without a name is not the whole message.
nameless : parse true (1 ∷ codes " a" ++ 1 ∷ []) ≡ record { cmd = []; body = codes "a" }
unfolding is_invalid ascii_casemap
nameless = parse-query true (codes " a" ++ 1 ∷ [])
