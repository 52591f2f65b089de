-- ===== src/Ircmsg/Source/Exact.antt =====
-- What `Source::parse` accepts is exactly what `Source::write_to` writes, and `Source::len` is
-- how much that is.
use vinezombie.Prelude.{
  ℕ, ◌+◌, ◌≡◌, refl, sym, subst, ◌∙◌, ◌⊎◌, inl, inr, true, false, Option, none, some, [], ◌∷◌, ◌++◌,
  arith, Bytes, before, from, length, length-append, Lacks, before-append-from, from-Starts, ◌==◌,
  drop, append-nil, Starts, from-Lacks, ==_iff,
}
use vinezombie.Text.Kinds.{
  InvalidString, Result, ok, err, nick, user, word, is_invalid, check_others, IsValid as IsKind,
}
use vinezombie.Text.Splitter.{Splitter, new, string, next_byte, rest_or_default}
use vinezombie.Text.Splitter.View.{
  View, new-View, next_byte-View, next_byte-first, rest_or_default-ok,
}
use vinezombie.Text.Splitter.Saved.{read_until, read_until-ok, string_false-ok}
use vinezombie.Ircmsg.Failure.{ParseError}
use vinezombie.Ircmsg.Source.{
  Source, UserHost, write_source, source_len, parse_source, parse_userhost, parse_after, host_of,
  of_userhost, finish_source, finish_userhost, IsValid, UserHostValid, HostValid, bang_user,
  with_user,
}
use vinezombie.Ircmsg.Source.RoundTrip.{
  finish_userhost-ok, finish_source-ok, parse_after_end, parse_after_bang, parse_after_at,
}

Result-cases {ℓ κ} :
    {E : Type ℓ} {A : Type κ} (r : Result E A) → ((a : A) × (r ≡ ok a)) ⊎ ((e : E) × (r ≡ err e))
Result-cases (ok a) = inl (a, refl)
Result-cases (err e) = inr (e, refl)

finish_userhost-err :
    (r : Result InvalidString Bytes × Splitter) {e : InvalidString} {uh : UserHost}
    → r.0 ≡ err e
    → finish_userhost r ≡ ok uh
    → ⊥
finish_userhost-err r h k = cc (rw (h, finish_userhost) at k)

finish_source-err :
    (r : Result InvalidString Bytes × Splitter) {e : InvalidString} {s : Source}
    → r.0 ≡ err e
    → finish_source r ≡ ok s
    → ⊥
finish_source-err r h k = cc (rw (h, finish_source) at k)

host_of-inv :
    (u : Option Bytes) (h : Bytes) {uh : UserHost}
    → Lacks (is_invalid word) h
    → host_of u h ≡ ok uh
    → (uh ≡ record { user_name = u; host = h }) × HostValid h
unfolding check_others
host_of-inv u [] l e = absurd (cc)
host_of-inv u (c ∷ cs) l e = (cc, record { bytes_valid = l; others_valid = refl })

-- What is left behind the byte that was read next.
next_rest :
    (s : Splitter) {rest cs : Bytes}
    → View s rest
    → drop 1 rest ≡ cs
    → (rest_or_default word (next_byte s).1).0 ≡ cs
unfolding check_others
next_rest s v h = (rest_or_default-ok (next_byte-View v) word refl).0 ∙ h

abbrev Reads : Bytes → UserHost → Type 0
Reads bs uh =
    (u : Bytes) × (h : Bytes) × (uh ≡ record { user_name = some u; host = h })
    × (bs ≡ u ++ b'@' ∷ h)
    × IsKind user u
    × HostValid h

module _ (bs : Bytes) {uh : UserHost} (l : Lacks (is_invalid word) bs) where
  -- The host behind the user name; `rest` is what follows the name.
  behind_user :
      (s : Splitter) (u rest : Bytes)
      → u ≡ before (λ c. c == b'@') bs
      → IsKind user (before (λ c. c == b'@') bs)
      → from (λ c. c == b'@') bs ≡ rest
      → View s rest
      → host_of (some u) (rest_or_default word (next_byte s).1).0 ≡ ok uh
      → Reads bs uh
  behind_user s u [] same ku cut v e = absurd (cc (rw (next_rest s v refl) at e))
  behind_user s u (c ∷ cs) same ku cut v e =
      let stop : Starts (λ b. b == b'@') (c ∷ cs) =
        subst (Starts (λ b. b == b'@')) cut (from-Starts (λ b. b == b'@') bs) in
      let at : c ≡ b'@' = (==_iff c b'@').0 stop in
      let lacks : Lacks (is_invalid word) (c ∷ cs) =
        subst (Lacks (is_invalid word)) cut (from-Lacks (is_invalid word) (λ b. b == b'@') bs l) in
      let (is_uh, kh) = host_of-inv (some u) cs lacks.1 (rw (next_rest s v refl) at e) in
      let whole : before (λ b. b == b'@') bs ++ from (λ b. b == b'@') bs ≡ bs =
        before-append-from (λ b. b == b'@') bs in
      (u, cs, is_uh, sym whole ∙ rw (cut, at, same), rw same ku, kh)

  -- A userhost that parses is its user name, an `@`, and the host.
  parse_userhost-inv : parse_userhost bs ≡ ok uh → Reads bs uh
  unfolding parse_userhost
  parse_userhost-inv e = elim (Result-cases (read_until user b'@' (new bs false)).0) [
    | inr (why, h) ↦ absurd (finish_userhost-err _ h e)
    | inl (u, h) ↦
        let (same, ku, rest) = read_until-ok (new-View bs false) user b'@' h in
        behind_user _ u _ same ku refl rest (sym (finish_userhost-ok _ h) ∙ e)
  ]

length_at :
    (n : Bytes) (uh : Option UserHost)
    → length (write_source (record { name = n; userhost = uh }))
      ≡ source_len (record { name = n; userhost = uh })
unfolding write_source source_len
length_at n none = refl
length_at n (some uh) = at uh.user_name uh.host
  where
    at :
        (u : Option Bytes) (h : Bytes)
        → length (n ++ (bang_user u ++ b'@' ∷ h)) ≡ length n + 1 + with_user u (length h)
    at none h = omega (arith, length-append n (b'@' ∷ h))
    at (some u) h =
        omega (arith, length-append n (b'!' ∷ (u ++ b'@' ∷ h)), length-append u (b'@' ∷ h))

-- `len` is the number of bytes that `write_to` writes.
pub length-write : (s : Source) → length (write_source s) ≡ source_len s
length-write s = length_at s.name s.userhost

nick_stop : (c : ℕ) → is_invalid nick c ≡ true → is_invalid word c ≡ false → (c ≡ b'!') ⊎ (c ≡ b'@')
unfolding is_invalid
nick_stop c h k = ground arith

first_rest :
    (s : Splitter) {rest cs : Bytes} → View s rest → rest ≡ cs → (rest_or_default word s).0 ≡ cs
unfolding check_others
first_rest s v e = (rest_or_default-ok v word refl).0 ∙ e

abbrev pub Exact : Bytes → Source → Type 0
Exact bs s = (write_source s ≡ bs) × IsValid s

of_userhost-inv :
    (n : Bytes) (r : Result ParseError UserHost) {s : Source}
    → of_userhost n r ≡ ok s
    → (uh : UserHost) × (r ≡ ok uh) × (s ≡ record { name = n; userhost = some uh })
of_userhost-inv n (ok uh) h = (uh, refl, cc)
of_userhost-inv n (err e) h = absurd (cc)

ok-injective {ℓ κ} :
    {E : Type ℓ} {A : Type κ} {a b : A} → ◌≡◌ {A = Result E A} (ok a) (ok b) → a ≡ b
ok-injective h = cc

written : Bytes → Option UserHost → Bytes
unfolding write_source
written n uh = write_source (record { name = n; userhost = uh })

Exact-at :
    (n : Bytes) (uh : Option UserHost) {src : Source} {bs : Bytes}
    → IsKind nick n
    → UserHostValid uh
    → written n uh ≡ bs
    → src ≡ record { name = n; userhost = uh }
    → Exact bs src
Exact-at n uh k kuh w e =
    rw e (unfold written in w, record { name_valid = k; userhost_valid = kuh })

module _ (n : Bytes) (k : IsKind nick n) (s : Splitter) {src : Source} where
  Exact-end : parse_after n (next_byte s) ≡ ok src → View s [] → Exact n src
  unfolding written
  Exact-end e v =
      Exact-at n none k tt refl
        (ok-injective (sym e ∙ parse_after_end n (next_byte s) (next_byte-first v)))

  Exact-user :
      (cs : Bytes)
      → parse_after n (next_byte s) ≡ ok src
      → View s (b'!' ∷ cs)
      → Lacks (is_invalid word) cs
      → Exact (n ++ b'!' ∷ cs) src
  unfolding written
  Exact-user cs e v l =
      let text : (rest_or_default word (next_byte s).1).0 ≡ cs = next_rest s v refl in
      let parsed = sym (parse_after_bang n (next_byte s) (next_byte-first v)) ∙ e in
      let (uh, at, is_src) = of_userhost-inv n (parse_userhost cs) (rw text at parsed) in
      let (u, h, is_uh, split, ku, kh) = parse_userhost-inv cs l at in
      Exact-at n (some (record { user_name = some u; host = h })) k (ku, kh) (rw split)
        (is_src ∙ rw is_uh)

  Exact-host :
      (cs : Bytes)
      → parse_after n (next_byte s) ≡ ok src
      → View s (b'@' ∷ cs)
      → Lacks (is_invalid word) cs
      → Exact (n ++ b'@' ∷ cs) src
  unfolding written
  Exact-host cs e v l =
      let text : (rest_or_default word (next_byte s).1).0 ≡ cs = next_rest s v refl in
      let parsed = sym (parse_after_at n (next_byte s) (next_byte-first v)) ∙ e in
      let (uh, at, is_src) = of_userhost-inv n (host_of none cs) (rw text at parsed) in
      let (is_uh, kh) = host_of-inv none cs l at in
      Exact-at n (some (record { user_name = none; host = cs })) k (tt, kh) refl (is_src ∙ rw is_uh)

  -- The byte behind the nickname decides; `rest` is the text from it on.
  Exact-after :
      (rest : Bytes)
      → parse_after n (next_byte s) ≡ ok src
      → View s rest
      → Lacks (is_invalid word) rest
      → Starts (is_invalid nick) rest
      → Exact (n ++ rest) src
  Exact-after [] e v l stop = rw append-nil (Exact-end e v)
  Exact-after (c ∷ cs) e v l stop = elim (nick_stop c stop l.0) [
    | inl bang ↦ rw bang (Exact-user cs e (rw bang at v) l.1)
    | inr at ↦ rw at (Exact-host cs e (rw at at v) l.1)
  ]

-- A word that parses as a source is what that source is written as, and the source is valid.
pub write-parse :
    (bs : Bytes) {src : Source} → IsKind word bs → parse_source bs ≡ ok src → Exact bs src
unfolding parse_source
write-parse bs {src} kw e = elim (Result-cases (string nick false (new bs false)).0) [
  | inr (why, h) ↦ absurd (finish_source-err _ h e)
  | inl (n, h) ↦
      let (same, k, rest) = string_false-ok (new-View bs false) nick h in
      let whole : n ++ from (is_invalid nick) bs ≡ bs =
        rw same (before-append-from (is_invalid nick) bs) in
      subst (λ (t : Bytes). Exact t src) whole
        (Exact-after n k _ (from (is_invalid nick) bs) (sym (finish_source-ok _ h) ∙ e) rest
          (from-Lacks (is_invalid word) (is_invalid nick) bs kw.bytes_valid)
          (from-Starts (is_invalid nick) bs))
]
