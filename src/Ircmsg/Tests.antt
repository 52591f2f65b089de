-- ===== src/Ircmsg/Tests.antt =====
-- Runs of the parts of a message: arguments, sources, numerics and commands.
pub mod Messages
mod Streams
use vinezombie.Prelude.{
  ℕ, ◌+◌, ◌<◌, ◌≡◌, ◌≢◌, refl, Bool, true, false, not, Option, none, some, List, [], ◌∷◌, ◌++◌, map,
  length, Bytes, codes, Lacks, ◌==◌, to_ascii_uppercase, arith,
}
use vinezombie.Text.Kinds.{
  colon, byte, nonul, line, word, arg, nick, user, cmd, is_invalid, check_others, from_bytes,
  find_invalid, Result, ok, err, IsValid as IsKind,
}
use vinezombie.Text.Kinds.Checks.{from_bytes-IsValid}
use vinezombie.Text.Splitter.{string, new, next_byte, with_saved, until_byte_eq, rest_or_default}
use vinezombie.Ircmsg.Failure.{ParseError}
use vinezombie.Ircmsg.Args
use vinezombie.Ircmsg.Args.{Args, ArgWords, IsLong}
use vinezombie.Ircmsg.Args.RoundTrip.{Plain, spaced, parse-spaced}
use vinezombie.Ircmsg.Args.Sound.{parse-IsValid}
use vinezombie.Ircmsg.Args.Edit.{Edit, apply, apply-IsValid}
use vinezombie.Ircmsg.Source
use vinezombie.Ircmsg.Source.{Source, write_source, parse_source, source_len, new_user}
use vinezombie.Ircmsg.Source.RoundTrip.{parse-write}
use vinezombie.Ircmsg.Source.Exact.{Exact, write-parse, length-write}
use vinezombie.Ircmsg.Numeric
use vinezombie.Ircmsg.Numeric.{Numeric, from_word, is_ascii_alphabetic}
use vinezombie.Ircmsg.Numeric.Digits.{from_int-into_int, numeric_round_trip, from_word-ok}

abbrev pub chan : Bytes
chan = codes "#chan"

abbrev pub hello : Bytes
hello = codes "hello world"

pub chan-valid : IsKind arg chan
unfolding from_bytes is_invalid check_others
chan-valid = (from_bytes-IsValid arg chan).0 refl

pub hello-IsLong : IsLong (some hello)
unfolding from_bytes is_invalid check_others find_invalid
hello-IsLong = ((from_bytes-IsValid line hello).0 refl, byte b' ', refl)

abbrev pub arguments : Args
arguments = record { words = chan ∷ []; long = some hello }

pub arguments-IsValid : Args.IsValid arguments
arguments-IsValid = record { words_valid = (chan-valid, tt); long_valid = hello-IsLong }

abbrev pub sender : Source
sender = record {
  name = codes "nick";
  userhost = some (record { user_name = some (codes "user"); host = codes "host" });
}

pub sender-IsValid : Source.IsValid sender
unfolding from_bytes is_invalid check_others
sender-IsValid = record {
  name_valid = (from_bytes-IsValid nick (codes "nick")).0 refl;
  userhost_valid = (
    (from_bytes-IsValid user (codes "user")).0 refl,
    (from_bytes-IsValid word (codes "host")).0 refl,
  );
}

line-valid : IsKind line (codes " #chan :hello world")
unfolding from_bytes is_invalid check_others
line-valid = (from_bytes-IsValid line (codes " #chan :hello world")).0 refl

word-valid : IsKind word (codes "nick!user@host")
unfolding from_bytes is_invalid check_others
word-valid = (from_bytes-IsValid word (codes "nick!user@host")).0 refl

parse-sender : parse_source (codes "nick!user@host") ≡ ok sender
unfolding parse_source is_invalid check_others string new next_byte with_saved until_byte_eq
    rest_or_default
parse-sender = refl

parse-IsValid_example :
    (a : Args) × (Args.parse (codes " #chan :hello world") ≡ some a) × Args.IsValid a
parse-IsValid_example = parse-IsValid (codes " #chan :hello world") line-valid

write-parse_example : Exact (codes "nick!user@host") sender
write-parse_example = write-parse (codes "nick!user@host") word-valid parse-sender

abbrev pub welcome : Numeric
welcome = record { hundreds = b'0'; tens = b'0'; ones = b'1' }

pub welcome-IsValid : Numeric.IsValid welcome
welcome-IsValid = record { hundreds_digit = refl; tens_digit = refl; ones_digit = refl }

ping : from_word (codes "pIng") ≡ ok (codes "PING")
unfolding from_word
ping = refl

ping_some : codes "pIng" ≢ []
ping_some h = cc h
