-- ===== src/Client/Cap/Tests.antt =====
-- Capabilities of a small server.
use vinezombie.Prelude.{◌≡◌, refl, true, none, some, [], ◌∷◌, codes, arith}
use vinezombie.Text.Kinds.{Result, ok, line, is_invalid, check_others, IsValid}
use vinezombie.Ircmsg.Failure.{ParseError}
use vinezombie.Ircmsg.Args.{Args, split_last}
use vinezombie.Client.Cap.{
  CapArgs, ls, req, parse, parse_nick, parse_subcmd, parse_caps, parse_round, add_entry, put_entry,
  entry_value,
}
use vinezombie.Text.Splitter.{new}
use vinezombie.Client.Cap.Requests.{Grouped, req-Grouped}
use vinezombie.Client.Cap.Parsing.{parse-returned}

req-Grouped_example :
    Grouped
      (some (codes "n"))
      none
      (codes "batch" ∷ codes "sasl" ∷ [])
      (req (codes "batch" ∷ codes "sasl" ∷ []) (some (codes "n")) none)
req-Grouped_example =
    req-Grouped (codes "batch") (codes "sasl" ∷ []) (some (codes "n")) none
      (omega arith, (omega arith, tt))

abbrev listed : Args
listed = record { words = codes "*" ∷ codes "ls" ∷ []; long = some (codes "foo=a bar") }

listed-caps :
    parse listed
    ≡ some (
        ok (record {
          to = codes "*";
          subcmd = ls;
          is_last = true;
          caps = (codes "bar", []) ∷ (codes "foo", codes "a") ∷ [];
        }))
unfolding parse parse_nick parse_subcmd parse_caps new parse_round is_invalid check_others add_entry
    put_entry entry_value
listed-caps = refl

line_text : IsValid line (codes "foo=a bar")
unfolding is_invalid check_others
line_text = record {
  bytes_valid = (refl, (refl, (refl, (refl, (refl, (refl, (refl, (refl, (refl, tt)))))))));
  others_valid = refl;
}

parse-returned_example : (r : Result ParseError CapArgs) × (parse listed ≡ some r)
unfolding split_last
parse-returned_example = parse-returned listed (codes "foo=a bar") refl line_text
