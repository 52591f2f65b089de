-- ===== src/Ircmsg/Source.antt =====
-- `Source` and `UserHost` of `src/ircmsg/source.rs`: the sender of a message.
pub mod RoundTrip
pub mod Exact
use vinezombie.Prelude.{
  ℕ, ◌+◌, ◌≡◌, Bool, true, false, not, Option, none, some, List, [], ◌∷◌, ◌++◌, Bytes, length, ◌==◌,
  if◌then◌else◌,
}
use vinezombie.Text.Kinds.{
  InvalidString, empty, nick, user, word, Result, ok, err, ◌>>=◌, IsValid as IsKind,
}
use vinezombie.Text.Splitter.{Splitter, new, string, next_byte, rest_or_default}
use vinezombie.Text.Splitter.Saved.{read_until}
use vinezombie.Ircmsg.Failure.{ParseError, invalid_nick, invalid_user, invalid_host}

pub record UserHost : Type 0 where
  pub user_name : Option Bytes
  pub host : Bytes

pub record Source : Type 0 where
  pub name : Bytes
  pub userhost : Option UserHost

unfoldable pub new_server : Bytes → Source
new_server n = record { name = n; userhost = none }

unfoldable pub new_user : Bytes → Bytes → Bytes → Source
new_user n u h = record { name = n; userhost = some (record { user_name = some u; host = h }) }

unfoldable pub source_user : Source → Option Bytes
source_user s = elim s.userhost [ none ↦ none | some uh ↦ uh.user_name ]

unfoldable pub source_host : Source → Option Bytes
source_host s = elim s.userhost [ none ↦ none | some uh ↦ some uh.host ]

abbrev pub with_user : Option Bytes → ℕ → ℕ
with_user none n = n
with_user (some u) n = length u + 1 + n

-- `UserHost::len`.
unfoldable pub userhost_len : UserHost → ℕ
userhost_len uh = with_user uh.user_name (length uh.host)

-- `Source::len`. The source saturates at the largest `usize`, which no length in memory reaches.
unfoldable pub source_len : Source → ℕ
unfolding userhost_len
source_len s = elim s.userhost [
  | none ↦ length s.name
  | some uh ↦ length s.name + 1 + userhost_len uh
]

abbrev pub bang_user : Option Bytes → Bytes
bang_user none = []
bang_user (some u) = b'!' ∷ u

-- `Source::write_to`: the bytes that are written.
unfoldable pub write_source : Source → Bytes
write_source s = elim s.userhost [
  | none ↦ s.name
  | some uh ↦ s.name ++ (bang_user uh.user_name ++ b'@' ∷ uh.host)
]

abbrev pub host_of : Option Bytes → Bytes → Result ParseError UserHost
host_of u [] = err (invalid_host empty)
host_of u (c ∷ cs) = ok (record { user_name = u; host = c ∷ cs })

abbrev pub finish_userhost : Result InvalidString Bytes × Splitter → Result ParseError UserHost
finish_userhost (err e, s) = err (invalid_user e)
finish_userhost (ok u, s) = host_of (some u) (rest_or_default word (next_byte s).1).0

-- `UserHost::parse`.
unfoldable pub parse_userhost : Bytes → Result ParseError UserHost
parse_userhost bs = finish_userhost (read_until user b'@' (new bs false))

abbrev pub of_userhost : Bytes → Result ParseError UserHost → Result ParseError Source
of_userhost n (ok uh) = ok (record { name = n; userhost = some uh })
of_userhost n (err e) = err e

-- The match of `Source::parse` on the byte behind the nickname.
abbrev pub parse_after : Bytes → Option ℕ × Splitter → Result ParseError Source
parse_after n (none, s) = ok (record { name = n; userhost = none })
parse_after n (some c, s) =
    if c == b'!'
    then of_userhost n (parse_userhost (rest_or_default word s).0)
    else if c == b'@'
    then of_userhost n (host_of none (rest_or_default word s).0)
    else ok (record { name = n; userhost = none })

abbrev pub finish_source : Result InvalidString Bytes × Splitter → Result ParseError Source
finish_source (err e, s) = err (invalid_nick e)
finish_source (ok n, s) = parse_after n (next_byte s)

-- `Source::parse`.
unfoldable pub parse_source : Bytes → Result ParseError Source
unfolding parse_userhost
parse_source bs = finish_source (string nick false (new bs false))

abbrev pub starts_with_tilde : Bytes → Bool
starts_with_tilde [] = false
starts_with_tilde (c ∷ cs) = c == b'~'

unfoldable pub has_ident : UserHost → Bool
has_ident uh = elim uh.user_name [ none ↦ true | some u ↦ not (starts_with_tilde u) ]

abbrev pub UserValid : Option Bytes → Type 0
UserValid none = Unit
UserValid (some u) = IsKind user u

abbrev pub HostValid : Bytes → Type 0
HostValid [] = ⊥
HostValid (c ∷ cs) = IsKind word (c ∷ cs)

abbrev pub UserHostValid : Option UserHost → Type 0
UserHostValid none = Unit
UserHostValid (some uh) = UserValid uh.user_name × HostValid uh.host

-- The fields' types, and a host that is not empty.
pub record IsValid (s : Source) : Type 0 where
  pub name_valid : IsKind nick s.name
  pub userhost_valid : UserHostValid s.userhost
