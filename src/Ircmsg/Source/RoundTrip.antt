-- ===== src/Ircmsg/Source/RoundTrip.antt =====
-- `Source::parse` and `Source::write_to` undo one another.
use vinezombie.Prelude.{
  ℕ, ◌≡◌, refl, sym, subst, ap, ◌∙◌, false, Option, none, some, [], ◌∷◌, ◌++◌, append-nil, arith,
  Bytes, before, from, Lacks, Starts, before-append, from-append, ◌==◌,
}
use vinezombie.Text.Kinds.{
  InvalidString, Result, ok, nick, user, word, is_invalid, check_others, IsValid as IsKind,
}
use vinezombie.Text.Splitter.{Splitter, new, next_byte, rest_or_default}
use vinezombie.Text.Splitter.View.{
  View, new-View, string_prefix, next_byte-View, next_byte-first, rest_or_default-ok,
}
use vinezombie.Text.Splitter.Saved.{read_until-View}
use vinezombie.Ircmsg.Source.{
  Source, UserHost, write_source, parse_source, parse_userhost, parse_after, host_of, of_userhost,
  IsValid, UserHostValid, UserValid, HostValid, bang_user, finish_source, finish_userhost,
}

host_of-ok :
    (u : Option Bytes) (h : Bytes)
    → HostValid h
    → host_of u h ≡ ok (record { user_name = u; host = h })
host_of-ok u [] v = absurd v
host_of-ok u (c ∷ cs) v = refl

user-Lacks : (u : Bytes) → Lacks (is_invalid user) u → Lacks (λ c. c == b'@') u
unfolding is_invalid
user-Lacks [] h = tt
user-Lacks (c ∷ cs) h = ground (arith, user-Lacks cs h.1)

pub finish_userhost-ok :
    (r : Result InvalidString Bytes × Splitter) {u : Bytes}
    → r.0 ≡ ok u
    → finish_userhost r ≡ host_of (some u) (rest_or_default word (next_byte r.1).1).0
finish_userhost-ok r h = rw (h, finish_userhost)

pub finish_source-ok :
    (r : Result InvalidString Bytes × Splitter) {n : Bytes}
    → r.0 ≡ ok n
    → finish_source r ≡ parse_after n (next_byte r.1)
finish_source-ok r h = rw (h, finish_source)

module _ (n : Bytes) (r : Option ℕ × Splitter) where
  pub parse_after_end : r.0 ≡ none → parse_after n r ≡ ok (record { name = n; userhost = none })
  parse_after_end h = rw (h, parse_after)

  pub parse_after_bang :
      r.0 ≡ some b'!'
      → parse_after n r ≡ of_userhost n (parse_userhost (rest_or_default word r.1).0)
  parse_after_bang h = rw (h, parse_after)

  pub parse_after_at :
      r.0 ≡ some b'@' → parse_after n r ≡ of_userhost n (host_of none (rest_or_default word r.1).0)
  parse_after_at h = rw (h, parse_after)

-- A userhost as it is written behind the `!`.
parse_userhost-write :
    (u h : Bytes)
    → IsKind user u
    → HostValid h
    → parse_userhost (u ++ b'@' ∷ h) ≡ ok (record { user_name = some u; host = h })
unfolding parse_userhost check_others
parse_userhost-write u h ku kh =
    let (read, rest) = read_until-View v user b'@' (rw cut ku) in
    finish_userhost-ok _ (read ∙ ap ok cut)
    ∙ ap (host_of (some u))
        ((rest_or_default-ok (next_byte-View (subst (View _) left rest)) word refl).0)
    ∙ host_of-ok (some u) h kh
  where
    v : View (new (u ++ b'@' ∷ h) false) (u ++ b'@' ∷ h)
    v = new-View _ false

    cut : before (λ c. c == b'@') (u ++ b'@' ∷ h) ≡ u
    cut = before-append _ u (b'@' ∷ h) (user-Lacks u ku.bytes_valid) refl

    left : from (λ c. c == b'@') (u ++ b'@' ∷ h) ≡ b'@' ∷ h
    left = from-append _ u (b'@' ∷ h) (user-Lacks u ku.bytes_valid) refl

module _ (n : Bytes) (k : IsKind nick n) where
  -- The nickname in front of `rest`, and then the byte behind it.
  parse_nick :
      (rest : Bytes)
      → Starts (is_invalid nick) rest
      → (s : Splitter) × (parse_source (n ++ rest) ≡ parse_after n (next_byte s)) × View s rest
  unfolding parse_source
  parse_nick rest stop =
      let (read, left) =
        string_prefix n rest (new-View (n ++ rest) false) nick k.bytes_valid k.others_valid stop in
      (_, finish_source-ok _ read, left)

  write_name : parse_source n ≡ ok (record { name = n; userhost = none })
  write_name =
      let (s, e, v) = parse_nick [] tt in
      ap parse_source (sym (append-nil n)) ∙ e ∙ parse_after_end n (next_byte s) (next_byte-first v)

  write_host :
      (h : Bytes)
      → HostValid h
      → parse_source (n ++ b'@' ∷ h)
        ≡ ok (record { name = n; userhost = some (record { user_name = none; host = h }) })
  unfolding is_invalid check_others
  write_host h kh =
      let (s, e, v) = parse_nick (b'@' ∷ h) refl in
      e
      ∙ parse_after_at n (next_byte s) (next_byte-first v)
      ∙ rw ((rest_or_default-ok (next_byte-View v) word refl).0, host_of-ok none h kh)

  write_user :
      (u h : Bytes)
      → IsKind user u
      → HostValid h
      → parse_source (n ++ b'!' ∷ (u ++ b'@' ∷ h))
        ≡ ok (record { name = n; userhost = some (record { user_name = some u; host = h }) })
  unfolding is_invalid check_others
  write_user u h ku kh =
      let (s, e, v) = parse_nick (b'!' ∷ (u ++ b'@' ∷ h)) refl in
      e
      ∙ parse_after_bang n (next_byte s) (next_byte-first v)
      ∙ rw ((rest_or_default-ok (next_byte-View v) word refl).0, parse_userhost-write u h ku kh)

parse-write_at :
    (n : Bytes) (uh : Option UserHost)
    → IsKind nick n
    → UserHostValid uh
    → parse_source (write_source (record { name = n; userhost = uh }))
      ≡ ok (record { name = n; userhost = uh })
unfolding write_source
parse-write_at n none k h = write_name n k
parse-write_at n (some uh) k (ku, kh) = at uh.user_name uh.host ku kh
  where
    at :
        (u : Option Bytes) (h : Bytes)
        → UserValid u
        → HostValid h
        → parse_source (n ++ (bang_user u ++ b'@' ∷ h))
          ≡ ok (record { name = n; userhost = some (record { user_name = u; host = h }) })
    at none h ku kh = write_host n k h kh
    at (some u) h ku kh = write_user n k u h ku kh

-- Parsing what a valid source is written as gives the source back.
pub parse-write : (s : Source) → IsValid s → parse_source (write_source s) ≡ ok s
parse-write s v = parse-write_at s.name s.userhost v.name_valid v.userhost_valid
