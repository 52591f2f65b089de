-- ===== src/Text/Kinds/Promised.antt =====
-- The string types of `src/string/subtypes.rs` as their documentation says what they hold.
use vinezombie.Prelude.{
  ◌≤◌, ◌≡◌, ◌≢◌, ◌↔◌, refl, false, none, List, [], ◌∷◌, arith, Bytes, ℕ, Lacks,
}
use vinezombie.Text.Kinds.{
  Kind, any, nonul, line, word, arg, key, nick, user, cmd, ok, is_invalid, check_others, from_bytes,
}
use vinezombie.Text.Kinds.Checks.{from_bytes-IsValid}

-- The bytes that a string of a type does not contain, for each type but that of commands.
abbrev excluded : Kind → List ℕ
excluded any = []
excluded nonul = 0 ∷ []
excluded line = 0 ∷ 10 ∷ 13 ∷ []
excluded word = 0 ∷ 10 ∷ 13 ∷ 32 ∷ []
excluded arg = 0 ∷ 10 ∷ 13 ∷ 32 ∷ []
excluded key = 0 ∷ 10 ∷ 13 ∷ 32 ∷ 59 ∷ 61 ∷ []
excluded nick = 0 ∷ 10 ∷ 13 ∷ 32 ∷ 33 ∷ 64 ∷ []
excluded user = 0 ∷ 10 ∷ 13 ∷ 32 ∷ 37 ∷ 64 ∷ []
excluded cmd = []

abbrev Outside : List ℕ → ℕ → Type 0
Outside [] c = Unit
Outside (x ∷ xs) c = (c ≢ x) × Outside xs c

-- A byte of a command is an upper-case letter.
abbrev pub Allowed : Kind → ℕ → Type 0
Allowed cmd c = (65 ≤ c) × (c ≤ 90)
Allowed k c = Outside (excluded k) c

abbrev pub AllAllowed : Kind → Bytes → Type 0
AllAllowed k [] = Unit
AllAllowed k (c ∷ cs) = Allowed k c × AllAllowed k cs

-- An argument is not empty and does not begin with a colon.
abbrev pub Begins : Bytes → Type 0
Begins [] = ⊥
Begins (c ∷ cs) = c ≢ 58

abbrev pub BeginsAs : Kind → Bytes → Type 0
BeginsAs any bs = Unit
BeginsAs nonul bs = Unit
BeginsAs line bs = Unit
BeginsAs word bs = Unit
BeginsAs k bs = Begins bs

pub record Promised (k : Kind) (bs : Bytes) : Type 0 where
  pub bytes_allowed : AllAllowed k bs
  pub begins : BeginsAs k bs

is_invalid-Allowed : (k : Kind) (c : ℕ) → (is_invalid k c ≡ false) ↔ Allowed k c
unfolding is_invalid
is_invalid-Allowed any c = (λ h. tt, λ h. refl)
is_invalid-Allowed nonul c = (λ h. ground arith, λ h. ground arith)
is_invalid-Allowed line c = (λ h. ground arith, λ h. ground arith)
is_invalid-Allowed word c = (λ h. ground arith, λ h. ground arith)
is_invalid-Allowed arg c = (λ h. ground arith, λ h. ground arith)
is_invalid-Allowed key c = (λ h. ground arith, λ h. ground arith)
is_invalid-Allowed nick c = (λ h. ground arith, λ h. ground arith)
is_invalid-Allowed user c = (λ h. ground arith, λ h. ground arith)
is_invalid-Allowed cmd c = (λ h. ground arith, λ h. ground arith)

Lacks-AllAllowed : (k : Kind) (bs : Bytes) → Lacks (is_invalid k) bs ↔ AllAllowed k bs
Lacks-AllAllowed k [] = (λ h. tt, λ h. tt)
Lacks-AllAllowed k (c ∷ cs) = (
  λ h. ((is_invalid-Allowed k c).0 h.0, (Lacks-AllAllowed k cs).0 h.1),
  λ h. ((is_invalid-Allowed k c).1 h.0, (Lacks-AllAllowed k cs).1 h.1),
)

check_others-Begins : (bs : Bytes) → (check_others arg bs ≡ none) ↔ Begins bs
unfolding check_others
check_others-Begins [] = (λ h. absurd (cc), λ h. absurd h)
check_others-Begins (c ∷ cs) = (λ h. ground arith, λ h. ground arith)

check_others-BeginsAs : (k : Kind) (bs : Bytes) → (check_others k bs ≡ none) ↔ BeginsAs k bs
unfolding check_others
check_others-BeginsAs any bs = (λ h. tt, λ h. refl)
check_others-BeginsAs nonul bs = (λ h. tt, λ h. refl)
check_others-BeginsAs line bs = (λ h. tt, λ h. refl)
check_others-BeginsAs word bs = (λ h. tt, λ h. refl)
check_others-BeginsAs arg bs = check_others-Begins bs
check_others-BeginsAs key bs = check_others-Begins bs
check_others-BeginsAs nick bs = check_others-Begins bs
check_others-BeginsAs user bs = check_others-Begins bs
check_others-BeginsAs cmd bs = check_others-Begins bs

-- A byte string passes the full check of a type, and is then returned unchanged, exactly if it is as the type
-- is documented: a NoNul has no NUL, a Line no CR or LF either, a Word no space either, an Arg is a Word that
-- is not empty and does not begin with a colon, a Key, a Nick and a User are Args without the two further
-- bytes of each, and a Cmd is an Arg of upper-case letters.
pub from_bytes-Promised : (k : Kind) (bs : Bytes) → (from_bytes k bs ≡ ok bs) ↔ Promised k bs
from_bytes-Promised k bs = (
  λ h.
      let v = (from_bytes-IsValid k bs).0 h in
      record {
        bytes_allowed = (Lacks-AllAllowed k bs).0 v.bytes_valid;
        begins = (check_others-BeginsAs k bs).0 v.others_valid;
      },
  λ p. (from_bytes-IsValid k bs).1 (record {
    bytes_valid = (Lacks-AllAllowed k bs).1 p.bytes_allowed;
    others_valid = (check_others-BeginsAs k bs).1 p.begins;
  }),
)
