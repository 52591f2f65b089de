-- ===== src/Text/Kinds/Checks.antt =====
-- The checked constructors of the `Bytes` newtypes let through what the type guarantees, and
-- `from_super` agrees with the full check.
use vinezombie.Prelude.{ℕ, ◌≡◌, refl, Bool, false, none, [], ◌∷◌, ◌↔◌, arith, Bytes, Lacks}
use vinezombie.Text.Kinds.{
  Kind, any, nonul, line, word, arg, key, nick, user, cmd, ok, is_invalid, check_others,
  check_bytes, from_bytes, super, from_super, IsValid, checked,
}

check_bytes-none : (f : ℕ → Bool) (bs : Bytes) → check_bytes f bs ≡ none → Lacks f bs
unfolding check_bytes
check_bytes-none f [] h = tt
check_bytes-none f (b ∷ bs) h = ground (arith, check_bytes-none f bs)

check_bytes-Lacks : (f : ℕ → Bool) (bs : Bytes) → Lacks f bs → check_bytes f bs ≡ none
unfolding check_bytes
check_bytes-Lacks f [] h = refl
check_bytes-Lacks f (b ∷ bs) h = ground (arith, check_bytes-Lacks f bs h.1)

-- A byte string passes the full check of a type exactly when it upholds the guarantee in the tests of the
-- code.
pub from_bytes-IsValid : (k : Kind) (bs : Bytes) → (from_bytes k bs ≡ ok bs) ↔ IsValid k bs
unfolding from_bytes
from_bytes-IsValid k bs = (
  λ h. record {
    bytes_valid = check_bytes-none (is_invalid k) bs (ground arith);
    others_valid = ground arith;
  },
  λ v. rw (v.others_valid, check_bytes-Lacks (is_invalid k) bs v.bytes_valid),
)

-- The byte tests of two types in the hierarchy find the same first byte, where the more general
-- one finds none.
check_bytes_agree :
    (f g h : ℕ → Bool) (bs : Bytes)
    → ((b : ℕ) → h b ≡ false → f b ≡ g b)
    → Lacks h bs
    → check_bytes f bs ≡ check_bytes g bs
unfolding check_bytes
check_bytes_agree f g h [] same v = refl
check_bytes_agree f g h (b ∷ bs) same v =
    ground (arith, same b v.0, check_bytes_agree f g h bs same v.1)

short :
    (k : Kind) (f : ℕ → Bool) (bs : Bytes)
    → IsValid (super k) bs
    → check_others k bs ≡ none
    → ((b : ℕ) → is_invalid (super k) b ≡ false → f b ≡ is_invalid k b)
    → checked (check_bytes f bs) bs ≡ from_bytes k bs
unfolding from_bytes
short k f bs v others same =
    rw (others, check_bytes_agree f (is_invalid k) (is_invalid (super k)) bs same v.bytes_valid)

-- On a value of the next more general type, the short check of `from_super` and the full check
-- of `from_bytes` have the same result, errors included.
pub from_super-from_bytes :
    (k : Kind) (bs : Bytes) → IsValid (super k) bs → from_super k bs ≡ from_bytes k bs
unfolding from_super from_bytes
from_super-from_bytes any bs v = rw (check_bytes-Lacks (is_invalid any) bs v.bytes_valid)
from_super-from_bytes nonul bs v = refl
from_super-from_bytes line bs v = short line _ bs v refl (λ b h. ground arith)
from_super-from_bytes word bs v = short word _ bs v refl (λ b h. ground arith)
from_super-from_bytes arg bs v =
    ground (arith, check_bytes-Lacks (is_invalid word) bs v.bytes_valid)
from_super-from_bytes key bs v = short key _ bs v v.others_valid (λ b h. ground arith)
from_super-from_bytes nick bs v = short nick _ bs v v.others_valid (λ b h. ground arith)
from_super-from_bytes user bs v = short user _ bs v v.others_valid (λ b h. ground arith)
from_super-from_bytes cmd bs v = short cmd _ bs v v.others_valid (λ b h. ground arith)
