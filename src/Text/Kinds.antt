-- ===== src/Text/Kinds.antt =====
-- The `Bytes` newtypes of `src/string/subtypes.rs` and of `src/string/subtypes/macros.rs`. A value
-- of such a type is its bytes; the type's guarantee is `IsValid`.
pub mod Checks
pub mod Promised
use vinezombie.Prelude.{
  ℕ, ◌≡◌, Bool, true, false, not, ◌||◌, Option, none, some, [], ◌∷◌, ◌==◌, if◌then◌else◌, Bytes,
  is_ascii_uppercase, Lacks,
}

-- `InvalidString` of `src/error.rs`.
pub data InvalidString : Type 0 where
  empty colon : InvalidString
  byte : ℕ → InvalidString

pub data Result {ℓ κ} (E : Type ℓ) (A : Type κ) : Type (ℓ ⊔ κ) where
  ok : A → Result E A
  err : E → Result E A

infixl 5 ◌>>=◌
abbrev pub ◌>>=◌ {ℓ κ ι} :
    {E : Type ℓ} {A : Type κ} {B : Type ι} → Result E A → (A → Result E B) → Result E B
ok a >>= f = f a
err e >>= f = err e

pub data Kind : Type 0 where
  any nonul line word arg key nick user cmd : Kind

unfoldable pub is_invalid_for_nonul : ℕ → Bool
is_invalid_for_nonul b = b == 0

-- The flag is the constant `CHAIN`.
unfoldable pub is_invalid_for_line : Bool → ℕ → Bool
unfolding is_invalid_for_nonul
is_invalid_for_line chain b =
    (b == b'\r' || b == b'\n') || (if chain then is_invalid_for_nonul b else false)

unfoldable pub is_invalid_for_word : Bool → ℕ → Bool
unfolding is_invalid_for_line
is_invalid_for_word chain b = b == b' ' || (if chain then is_invalid_for_line true b else false)

unfoldable pub is_invalid_for_key : Bool → ℕ → Bool
unfolding is_invalid_for_word
is_invalid_for_key chain b =
    (b == b'=' || b == b';') || (if chain then is_invalid_for_word true b else false)

unfoldable pub is_invalid_for_nick : Bool → ℕ → Bool
unfolding is_invalid_for_word
is_invalid_for_nick chain b =
    (b == b'!' || b == b'@') || (if chain then is_invalid_for_word true b else false)

unfoldable pub is_invalid_for_user : Bool → ℕ → Bool
unfolding is_invalid_for_word
is_invalid_for_user chain b =
    (b == b'@' || b == b'%') || (if chain then is_invalid_for_word true b else false)

unfoldable pub cmd_byte_check : ℕ → Bool
cmd_byte_check b = not (is_ascii_uppercase b)

unfoldable pub arg_first_check : Bytes → Option InvalidString
arg_first_check [] = some empty
arg_first_check (b ∷ bs) = if b == b':' then some colon else none

-- `U::is_invalid`, the byte check that the macro is called with.
unfoldable pub is_invalid : Kind → ℕ → Bool
unfolding is_invalid_for_nonul is_invalid_for_line is_invalid_for_word is_invalid_for_key
    is_invalid_for_nick is_invalid_for_user cmd_byte_check
is_invalid any b = false
is_invalid nonul b = is_invalid_for_nonul b
is_invalid line b = is_invalid_for_line true b
is_invalid word b = is_invalid_for_word true b
is_invalid arg b = is_invalid_for_word true b
is_invalid key b = is_invalid_for_key true b
is_invalid nick b = is_invalid_for_nick true b
is_invalid user b = is_invalid_for_user true b
is_invalid cmd b = cmd_byte_check b

-- `U::check_others`.
unfoldable pub check_others : Kind → Bytes → Option InvalidString
unfolding arg_first_check
check_others any bs = none
check_others nonul bs = none
check_others line bs = none
check_others word bs = none
check_others _ bs = arg_first_check bs

-- The loop of `check_bytes!`.
unfoldable pub check_bytes : (ℕ → Bool) → Bytes → Option InvalidString
check_bytes f [] = none
check_bytes f (b ∷ bs) = if f b then some (byte b) else check_bytes f bs

abbrev pub or_else : Option InvalidString → Option InvalidString → Option InvalidString
or_else none o = o
or_else (some e) o = some e

unfoldable pub find_invalid : Kind → Bytes → Option InvalidString
unfolding check_others check_bytes is_invalid
find_invalid k bs = or_else (check_others k bs) (check_bytes (is_invalid k) bs)

abbrev pub checked : Option InvalidString → Bytes → Result InvalidString Bytes
checked none bs = ok bs
checked (some e) bs = err e

unfoldable pub from_bytes : Kind → Bytes → Result InvalidString Bytes
unfolding find_invalid
from_bytes k bs = checked (find_invalid k bs) bs

-- The next more general type, and the block that `from_super` checks on its values.
abbrev pub super : Kind → Kind
super line = nonul
super word = line
super arg = word
super key = arg
super nick = arg
super user = arg
super cmd = arg
super _ = any

unfoldable pub super_check : Kind → Bytes → Option InvalidString
unfolding check_bytes arg_first_check is_invalid_for_nonul is_invalid_for_line is_invalid_for_word
    is_invalid_for_key is_invalid_for_nick is_invalid_for_user cmd_byte_check
super_check line bs = check_bytes (is_invalid_for_line false) bs
super_check word bs = check_bytes (is_invalid_for_word false) bs
super_check arg bs = arg_first_check bs
super_check key bs = check_bytes (is_invalid_for_key false) bs
super_check nick bs = check_bytes (is_invalid_for_nick false) bs
super_check user bs = check_bytes (is_invalid_for_user false) bs
super_check cmd bs = check_bytes cmd_byte_check bs
-- `Bytes` and `NoNul` have no `from_super`: a `NoNul` is checked whole.
super_check any bs = none
super_check nonul bs = check_bytes is_invalid_for_nonul bs

unfoldable pub from_super : Kind → Bytes → Result InvalidString Bytes
unfolding super_check
from_super k bs = checked (super_check k bs) bs

-- What a value of the type guarantees.
pub record IsValid (k : Kind) (bs : Bytes) : Type 0 where
  pub bytes_valid : Lacks (is_invalid k) bs
  pub others_valid : check_others k bs ≡ none
