-- ===== src/Text/Tests.antt =====
-- Runs of the modules of `Text`.
use vinezombie.Prelude.{true, ℕ, ◌≡◌, ◌≢◌, ◌↔◌, refl, some, Bytes, codes, Lacks, arith}
use vinezombie.Text.Kinds.{nonul, arg, nick, is_invalid, check_others, from_bytes, ok, IsValid}
use vinezombie.Text.Kinds.Checks.{from_bytes-IsValid}
use vinezombie.Text.Kinds.Promised.{Promised, from_bytes-Promised}
use vinezombie.Text.Escape.{escape, unescape, needs_escape, escape_byte}
use vinezombie.Text.Escape.Inverse.{unescape-escape_first}
use vinezombie.Text.Builder.{Builder}
use vinezombie.Text.Trim.{StringSide, trim_ascii}
use vinezombie.Text.Casemap.{irc_casemap, rfc1459, lower_rfc1459}

abbrev built : Builder
built = record { bytes = codes "Nick[1]"; utf8 = true }

abbrev value : Bytes
value = codes "a;b c"

value-IsValid : IsValid nonul value
unfolding from_bytes is_invalid check_others
value-IsValid = (from_bytes-IsValid nonul value).0 refl

arg-IsValid : IsValid arg (codes "Nick[1]")
unfolding from_bytes is_invalid check_others
arg-IsValid = (from_bytes-IsValid arg (codes "Nick[1]")).0 refl

nick-IsValid : IsValid nick (codes "Nick[1]")
unfolding from_bytes is_invalid check_others
nick-IsValid = (from_bytes-IsValid nick (codes "Nick[1]")).0 refl

ab_plain : Lacks needs_escape (codes "ab")
unfolding needs_escape escape_byte
ab_plain = (refl, (refl, tt))

escape-value : escape value ≡ codes "a\\:b\\sc"
unfolding escape escape_byte
escape-value = refl

unescape-value : unescape (codes "a\\:b\\sc") ≡ codes "a\\:b c"
unfolding unescape escape_byte
unescape-value = refl

from_bytes-Promised_example :
    (from_bytes nick (codes "Nick[1]") ≡ ok (codes "Nick[1]")) ↔ Promised nick (codes "Nick[1]")
from_bytes-Promised_example = from_bytes-Promised nick (codes "Nick[1]")

semicolon : escape_byte b';' ≡ some b':'
unfolding escape_byte
semicolon = refl

not_backslash : ◌≢◌ {A = ℕ} b';' b'\\'
not_backslash h = omega arith

unescape-escape_first_example : unescape (escape (codes "ab;c")) ≡ codes "ab\\:c"
unescape-escape_first_example =
    unescape-escape_first (codes "ab") b';' (codes "c") ab_plain semicolon not_backslash

casemap-nick : (irc_casemap rfc1459 (codes "Nick[1]~")).0 ≡ codes "nick{1}^"
unfolding irc_casemap lower_rfc1459
casemap-nick = refl

trim-value : trim_ascii StringSide.end_first (codes " a b ") ≡ codes "a b"
unfolding trim_ascii
trim-value = refl
