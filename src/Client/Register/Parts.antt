-- ===== src/Client/Register/Parts.antt =====
-- What the arms of the handler of `src/client/register/handler.rs` read, and what they do to the registration.
use vinezombie.Prelude.{
  ℕ, zero, suc, ◌+◌, ◌*◌, ◌-◌, Bool, true, false, not, ◌&&◌, ◌||◌, Option, none, some, List, [],
  ◌∷◌, Bytes, codes, ltb, leb, ◌==◌, is_ascii_digit, before, from, length, reverse, if◌then◌else◌,
}
use vinezombie.Text.Kinds.{
  InvalidString, Result, ok, err, key, word, nick as nick_kind, from_super, from_bytes,
}
use vinezombie.Text.Splitter.{
  Splitter, new, is_empty, until_byte_eq, rest_or_default, save_end, next_byte, string,
}
use vinezombie.Text.Casemap.{ascii_casemap}
use vinezombie.Ircmsg.Source.{Source, UserHost}
use vinezombie.Ircmsg.Numeric as Numeric
use vinezombie.Ircmsg.Tags.{Tag, tag_key}
use vinezombie.Ircmsg.Codec.{ClientMsg, ServerMsgKind, numeric, command}
use vinezombie.Util.EditGuard.{Guard}
use vinezombie.Names as Names
use vinezombie.Client.Nick.{bytes_eq}
use vinezombie.Client.Cap.{Caps}
use vinezombie.Client.Register.{Registration, RegError, add_key, Handler}

-- `ServerMsgKind::is_error`.
unfoldable pub is_error : ServerMsgKind → Option Bool
unfolding Numeric.is_error
is_error (numeric n) = Numeric.is_error n
is_error (command c) = some (bytes_eq c (codes "FAIL") || bytes_eq c (codes "ERROR"))

-- `from_union` of `SASL`: the mechanisms of its value, in upper case, as a set. The loop is on fuel, and at
-- its end gives what it has.
unfoldable pub put_mech : Bytes → List Bytes → List Bytes
unfolding ascii_casemap add_key
put_mech [] names = names
put_mech (c ∷ cs) names = add_key (ascii_casemap true (c ∷ cs)).0 names

unfoldable pub mechs_round :
    Bytes × Splitter → List Bytes → (Splitter → List Bytes → List Bytes) → List Bytes
unfolding next_byte
mechs_round (name, s) names loop = loop (next_byte s).1 (put_mech name names)

unfoldable pub mechs_loop : ℕ → Splitter → List Bytes → List Bytes
unfolding is_empty until_byte_eq rest_or_default
mechs_loop zero s names = names
mechs_loop (suc fuel) s names =
    let round =
      mechs_round (save_end (λ t. rest_or_default word (until_byte_eq b',' t)) s) names
        (mechs_loop fuel) in
    if is_empty s then names else round

unfoldable pub sasl_mechs : Tag → List Bytes
unfolding mechs_loop new
sasl_mechs (k, mechs_raw) = mechs_loop (suc (length mechs_raw)) (new mechs_raw false) []

-- `parse` of a `u16`: decimal digits, behind a plus or not.
abbrev pub digits : Bytes → ℕ → Option ℕ
digits [] n = some n
digits (c ∷ cs) n =
    let rest = digits cs (n * 10 + (c - b'0')) in if is_ascii_digit c then rest else none

abbrev pub below : Option ℕ → Option ℕ
below none = none
below (some n) = if ltb n 65536 then some n else none

unfoldable pub parse_u16 : Bytes → Option ℕ
parse_u16 [] = none
parse_u16 (c ∷ cs) = below (if c == b'+' then unsigned cs else digits (c ∷ cs) 0)
  where
    unsigned : Bytes → Option ℕ
    unsigned [] = none
    unsigned (c ∷ cs) = digits (c ∷ cs) 0

-- The first piece of `rsplit`: what is behind the last byte that passes.
abbrev pub last_piece : (ℕ → Bool) → Bytes → Bytes
last_piece p bs = reverse (before p (reverse bs))

abbrev pub is_ascii_graphic : ℕ → Bool
is_ascii_graphic c = leb 33 c && leb c 126

-- The server and the port of a bounce: the pieces around the first comma.
abbrev pub bounce_of : Result InvalidString Bytes → Option ℕ → Option (Bytes × ℕ)
bounce_of (ok server) (some port) = some (server, port)
bounce_of _ _ = none

unfoldable pub bounce_pieces : Bytes → Bytes → Option (Bytes × ℕ)
unfolding from_bytes parse_u16
bounce_pieces front [] = none
bounce_pieces front (c ∷ back) =
    bounce_of (from_bytes word (last_piece (λ b. not (is_ascii_graphic b)) front))
      (parse_u16 (last_piece (λ b. not (is_ascii_digit b)) back))

unfoldable pub split_bounce : Bytes → Option (Bytes × ℕ)
split_bounce last = bounce_pieces (before (λ c. c == b',') last) (from (λ c. c == b',') last)

-- The arms of the match on the kind of a message; of a guard that may fail, the arm that is left.
pub data Arm : Type 0 where
  welcome created myinfo isupport redirected no_motd bad_nick nick_used denied logged_in logged_out
        sasl_reply cap_msg other :
      Arm

unfoldable pub arm_of : Bytes → Arm
arm_of k =
    if bytes_eq k (codes "001")
    then welcome
    else if bytes_eq k (codes "002") || bytes_eq k (codes "003")
    then created
    else if bytes_eq k (codes "004")
    then myinfo
    else if bytes_eq k (codes "005")
    then isupport
    else if bytes_eq k (codes "010")
    then redirected
    else if bytes_eq k (codes "376") || bytes_eq k (codes "422")
    then no_motd
    else if bytes_eq k (codes "432")
    then bad_nick
    else if bytes_eq k (codes "433") || bytes_eq k (codes "436")
    then nick_used
    else if bytes_eq k (codes "464") || bytes_eq k (codes "465")
    then denied
    else if bytes_eq k (codes "900")
    then logged_in
    else if bytes_eq k (codes "901")
    then logged_out
    else if bytes_eq k (codes "902")
        || bytes_eq k (codes "904")
        || bytes_eq k (codes "905")
        || bytes_eq k (codes "906")
        || bytes_eq k (codes "907")
    then sasl_reply
    else if bytes_eq k (codes "CAP")
    then cap_msg
    else other

abbrev pub is_none : {A : Type 0} → Option A → Bool
is_none none = true
is_none (some a) = false

abbrev pub no_keys : List Bytes → Bool
no_keys [] = true
no_keys (k ∷ ks) = false

abbrev pub option_eq : Option Bytes → Option Bytes → Bool
option_eq none none = true
option_eq (some a) (some b) = bytes_eq a b
option_eq _ _ = false

abbrev pub userhost_eq : Option UserHost → Option UserHost → Bool
userhost_eq none none = true
userhost_eq (some a) (some b) = option_eq a.user_name b.user_name && bytes_eq a.host b.host
userhost_eq _ _ = false

abbrev pub same_source : Option Source → Source → Bool
same_source none s = false
same_source (some r) s = bytes_eq r.name s.name && userhost_eq r.userhost s.userhost

-- What the arms do to the registration.
abbrev pub kept_source : Option Source → Option Source → Registration → Registration
kept_source none source reg = record reg { source = source }
kept_source (some s) source reg = reg

abbrev pub named : Result InvalidString Bytes → Registration → Registration
named (ok n) reg = record reg { nick = n }
named (err e) reg = reg

unfoldable pub welcomed_nick : Option Bytes → Registration → Registration
unfolding from_super
welcomed_nick none reg = reg
welcomed_nick (some n) reg =
    if bytes_eq n (codes "*") then reg else named (from_super nick_kind n) reg

abbrev pub welcomed_source : Option Source → Registration → Registration
welcomed_source none reg = reg
welcomed_source (some s) reg =
    if same_source reg.source s then reg else record reg { source = some s }

abbrev pub whoami : Source → Registration → Registration
whoami s reg = record reg { nick = s.name; userhost = s.userhost }

-- The entries of an ISUPPORT message, the first on what follows its key.
unfoldable pub put_isupport :
    Bytes → Option ℕ × Splitter → Guard (Tag × Unit {0}) → Guard (Tag × Unit {0})
unfolding Names.insert rest_or_default
put_isupport k (none, t) g = (Names.insert tag_key (k, (rest_or_default word t).0) tt g).1
put_isupport k (some c, t) g =
    if c == b'=' then (Names.insert tag_key (k, (rest_or_default word t).0) tt g).1 else g

unfoldable pub isupport_entry :
    Result InvalidString Bytes × Splitter → Guard (Tag × Unit {0}) → Guard (Tag × Unit {0})
unfolding put_isupport next_byte
isupport_entry (err e, s) g = g
isupport_entry (ok k, s) g = put_isupport k (next_byte s) g

unfoldable pub isupport_entries : List Bytes → Guard (Tag × Unit {0}) → Guard (Tag × Unit {0})
unfolding isupport_entry string new
isupport_entries [] g = g
isupport_entries (w ∷ ws) g =
    isupport_entries ws (isupport_entry (string key false (new w false)) g)

unfoldable pub with_isupport : List Bytes → Registration → Registration
unfolding isupport_entries Names.edit Names.dropped
with_isupport [] reg = reg
with_isupport (c ∷ ws) reg = record reg {
  isupport = Names.dropped tag_key (isupport_entries ws (Names.edit tag_key reg.isupport));
}

-- The capabilities that a message adds, enables and removes; to remove one may panic.
unfoldable pub add_caps : Caps → Guard (Tag × Bool) → Guard (Tag × Bool)
unfolding Names.try_insert
add_caps [] g = g
add_caps (e ∷ es) g = add_caps es (Names.try_insert tag_key e false g).1

unfoldable pub enable_caps : Caps → Guard (Tag × Bool) → Guard (Tag × Bool)
unfolding Names.insert_or_update
enable_caps [] g = g
enable_caps (e ∷ es) g = enable_caps es (Names.insert_or_update tag_key e true g).1

abbrev pub and_others :
    Option (Option (Tag × Bool) × Guard (Tag × Bool))
    → (Guard (Tag × Bool) → Option (Guard (Tag × Bool)))
    → Option (Guard (Tag × Bool))
and_others none others = none
and_others (some (e, g)) others = others g

unfoldable pub remove_caps : List Bytes → Guard (Tag × Bool) → Option (Guard (Tag × Bool))
unfolding Names.remove_raw
remove_caps [] g = some g
remove_caps (k ∷ ks) g = and_others (Names.remove_raw tag_key k g) (λ g'. remove_caps ks g')

unfoldable pub with_caps : (Guard (Tag × Bool) → Guard (Tag × Bool)) → Registration → Registration
unfolding Names.edit Names.dropped
with_caps f reg = record reg { caps = Names.dropped tag_key (f (Names.edit tag_key reg.caps)) }

abbrev pub Out : Type 0
Out = Result RegError (Option Registration)

-- The result, the handler and what it sends.
abbrev pub Step : Type 0 → Type 0 → Type 0
Step G L = Out × Handler G L × List ClientMsg
