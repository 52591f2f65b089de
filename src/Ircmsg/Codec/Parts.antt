-- ===== src/Ircmsg/Codec/Parts.antt =====
-- The parts of a written message are words: tags, sources and kinds, of `write_to` of
-- `src/ircmsg/codec.rs`.
use vinezombie.Prelude.{
  ℕ, ◌≡◌, refl, true, false, Option, none, some, [], ◌∷◌, Bytes, Lacks, Lacks-append, arith,
  is_ascii_digit,
}
use vinezombie.Text.Kinds.{
  word, line, nick, user, key, nonul, cmd, is_invalid, check_others, IsValid as IsKind,
}
use vinezombie.Text.Escape.Safe.{escape-IsValid}
use vinezombie.Ircmsg.Source
use vinezombie.Ircmsg.Source.{
  Source, UserHost, UserHostValid, UserValid, HostValid, write_source, bang_user,
}
use vinezombie.Ircmsg.Tags.{Tags, value_text, write_from, write_tags}
use vinezombie.Ircmsg.Numeric
use vinezombie.Ircmsg.Numeric.{Numeric}
use vinezombie.Ircmsg.Codec.{ServerMsgKind, numeric, command, as_arg}
use vinezombie.Ircmsg.Codec.Whole.{KindWord, plain_first}

-- Keys and values of the types that they have.
abbrev pub TagsValid : Tags → Type 0
TagsValid [] = Unit
TagsValid ((k, v) ∷ ts) = IsKind key k × IsKind nonul v × TagsValid ts

abbrev pub SourceValid : Option Source → Type 0
SourceValid none = Unit
SourceValid (some s) = Source.IsValid s

abbrev pub KindValid : ServerMsgKind → Type 0
KindValid (numeric n) = Numeric.IsValid n
KindValid (command c) = IsKind cmd c

nick-word : (bs : Bytes) → Lacks (is_invalid nick) bs → Lacks (is_invalid word) bs
unfolding is_invalid
nick-word [] h = tt
nick-word (c ∷ cs) h = ground (arith, nick-word cs h.1)

user-word : (bs : Bytes) → Lacks (is_invalid user) bs → Lacks (is_invalid word) bs
unfolding is_invalid
user-word [] h = tt
user-word (c ∷ cs) h = ground (arith, user-word cs h.1)

key-word : (bs : Bytes) → Lacks (is_invalid key) bs → Lacks (is_invalid word) bs
unfolding is_invalid
key-word [] h = tt
key-word (c ∷ cs) h = ground (arith, key-word cs h.1)

cmd-word : (bs : Bytes) → Lacks (is_invalid cmd) bs → Lacks (is_invalid word) bs
unfolding is_invalid
cmd-word [] h = tt
cmd-word (c ∷ cs) h = ground (arith, cmd-word cs h.1)

pub word-line : (bs : Bytes) → Lacks (is_invalid word) bs → Lacks (is_invalid line) bs
unfolding is_invalid
word-line [] h = tt
word-line (c ∷ cs) h = ground (arith, word-line cs h.1)

value_text-word : (v : Bytes) → IsKind nonul v → Lacks (is_invalid word) (value_text v)
unfolding is_invalid
value_text-word [] h = tt
value_text-word (c ∷ cs) h = (refl, (escape-IsValid (c ∷ cs) h).0.bytes_valid)

write_from-word :
    (c : ℕ) (ts : Tags)
    → is_invalid word c ≡ false
    → TagsValid ts
    → Lacks (is_invalid word) (write_from c ts)
unfolding write_from is_invalid
write_from-word c [] e h = tt
write_from-word c ((k, v) ∷ ts) e (hk, hv, h) = (
  e,
  Lacks-append _ k _ (key-word k hk.bytes_valid)
      (Lacks-append _ (value_text v) _ (value_text-word v hv) (write_from-word b';' ts refl h)),
)

pub write_tags-word : (ts : Tags) → TagsValid ts → Lacks (is_invalid word) (write_tags ts)
unfolding write_tags is_invalid
write_tags-word ts h = write_from-word b'@' ts refl h

bang_user-word : (u : Option Bytes) → UserValid u → Lacks (is_invalid word) (bang_user u)
unfolding is_invalid
bang_user-word none h = tt
bang_user-word (some u) h = (refl, user-word u h.bytes_valid)

host-word : (h : Bytes) → HostValid h → Lacks (is_invalid word) (b'@' ∷ h)
unfolding is_invalid
host-word [] v = absurd v
host-word (c ∷ cs) v = (refl, v.bytes_valid)

source-word_at :
    (n : Bytes) (uh : Option UserHost)
    → IsKind nick n
    → UserHostValid uh
    → Lacks (is_invalid word) (write_source (record { name = n; userhost = uh }))
unfolding write_source
source-word_at n none k h = nick-word n k.bytes_valid
source-word_at n (some uh) k (ku, kh) = Lacks-append _ n _ (nick-word n k.bytes_valid) (
    Lacks-append _ (bang_user uh.user_name) _ (bang_user-word uh.user_name ku)
      (host-word uh.host kh))

pub write_source-word : (s : Source) → Source.IsValid s → Lacks (is_invalid word) (write_source s)
write_source-word s v = source-word_at s.name s.userhost v.name_valid v.userhost_valid

cmd_first : (c : ℕ) → is_invalid cmd c ≡ false → plain_first c ≡ true
unfolding is_invalid
cmd_first c h = ground arith

pub cmd-KindWord : (w : Bytes) → IsKind cmd w → KindWord w
unfolding check_others
cmd-KindWord [] v = absurd (cc v.others_valid)
cmd-KindWord (c ∷ cs) v = record {
  word_valid = cmd-word (c ∷ cs) v.bytes_valid;
  first_plain = (c, cs, refl, cmd_first c v.bytes_valid.0);
}

digit-word : (c : ℕ) → is_ascii_digit c ≡ true → is_invalid word c ≡ false
unfolding is_invalid
digit-word c h = ground arith

digit_first : (c : ℕ) → is_ascii_digit c ≡ true → plain_first c ≡ true
digit_first c h = ground arith

pub as_arg-KindWord : (k : ServerMsgKind) → KindValid k → KindWord (as_arg k)
unfolding as_arg Numeric.as_bytes
as_arg-KindWord (numeric n) v = record {
  word_valid = (
    digit-word n.hundreds v.hundreds_digit,
    (digit-word n.tens v.tens_digit, (digit-word n.ones v.ones_digit, tt)),
  );
  first_plain = (n.hundreds, n.tens ∷ n.ones ∷ [], refl, digit_first n.hundreds v.hundreds_digit);
}
as_arg-KindWord (command c) v = cmd-KindWord c v
