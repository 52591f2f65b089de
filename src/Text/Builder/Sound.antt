-- ===== src/Text/Builder/Sound.antt =====
-- Every operation of a builder keeps the guarantee of the string type.
use vinezombie.Prelude.{
  ℕ, ◌≡◌, refl, ◌∙◌, Bool, true, ◌&&◌, none, inl, inr, Bool-cases, [], ◌∷◌, ◌++◌, Bytes, Lacks,
  Lacks-append, is_ascii,
}
use vinezombie.Text.Kinds.{
  InvalidString, Result, ok, err, Kind, any, nonul, line, word, arg, key, nick, user, cmd,
  is_invalid, check_others, IsValid,
}
use vinezombie.Text.Builder.{
  Builder, append, append_unchecked, check_loop, appended, appended_str, try_append, try_append_str,
  try_push, build,
}

-- One call of an operation that adds to the builder.
pub data Step : Type 0 where
  whole : Bytes → Bool → Step
  try_whole try_str : Bytes → Step
  push : ℕ → Step

unfoldable pub step : Kind → Step → Builder → Builder
unfolding append try_append try_append_str try_push
step k (whole s u) b = append s u b
step k (try_whole s) b = (try_append k s b).1
step k (try_str s) b = (try_append_str k s b).1
step k (push c) b = (try_push k c b).1

-- `append` takes a string of the builder's type; the others take anything.
abbrev pub StepValid : Kind → Step → Type 0
StepValid k (whole s u) = IsValid k s
StepValid k _ = Unit

check_others-nil : (k : Kind) (ys : Bytes) → check_others k [] ≡ none → check_others k ys ≡ none
unfolding check_others
check_others-nil any ys h = refl
check_others-nil nonul ys h = refl
check_others-nil line ys h = refl
check_others-nil word ys h = refl
check_others-nil arg ys h = absurd (cc h)
check_others-nil key ys h = absurd (cc h)
check_others-nil nick ys h = absurd (cc h)
check_others-nil user ys h = absurd (cc h)
check_others-nil cmd ys h = absurd (cc h)

-- The check looks at the first byte only.
check_others-cons :
    (k : Kind) (c : ℕ) (xs ys : Bytes) → check_others k (c ∷ xs) ≡ check_others k (c ∷ ys)
unfolding check_others
check_others-cons any c xs ys = refl
check_others-cons nonul c xs ys = refl
check_others-cons line c xs ys = refl
check_others-cons word c xs ys = refl
check_others-cons arg c xs ys = refl
check_others-cons key c xs ys = refl
check_others-cons nick c xs ys = refl
check_others-cons user c xs ys = refl
check_others-cons cmd c xs ys = refl

append-check_others :
    (k : Kind) (xs ys : Bytes) → check_others k xs ≡ none → check_others k (xs ++ ys) ≡ none
append-check_others k [] ys h = check_others-nil k ys h
append-check_others k (c ∷ cs) ys h = check_others-cons k c (cs ++ ys) cs ∙ h

append-IsValid :
    (k : Kind) (xs ys : Bytes) → IsValid k xs → Lacks (is_invalid k) ys → IsValid k (xs ++ ys)
append-IsValid k xs ys v h = record {
  bytes_valid = Lacks-append (is_invalid k) xs ys v.bytes_valid h;
  others_valid = append-check_others k xs ys v.others_valid;
}

check_loop-Lacks :
    (k : Kind) (a : Bool) (s : Bytes) {r : Bool} → check_loop k a s ≡ ok r → Lacks (is_invalid k) s
unfolding check_loop
check_loop-Lacks k a [] h = tt
check_loop-Lacks k a (c ∷ cs) h = elim (Bool-cases (is_invalid k c)) [
  | inl e ↦ absurd (cc (rw e at h))
  | inr e ↦ (e, check_loop-Lacks k (a && is_ascii c) cs (rw e at h))
]

module _ (k : Kind) (s : Bytes) (b : Builder) (v : IsValid k b.bytes) where
  appended-IsValid :
      (r : Result InvalidString Bool)
      → ((a : Bool) → r ≡ ok a → Lacks (is_invalid k) s)
      → IsValid k (appended r s b).1.bytes
  appended-IsValid (err e) h = v
  appended-IsValid (ok a) h = append-IsValid k b.bytes s v (h a refl)

  appended_str-IsValid :
      (r : Result InvalidString Bool)
      → ((a : Bool) → r ≡ ok a → Lacks (is_invalid k) s)
      → IsValid k (appended_str r s b).1.bytes
  appended_str-IsValid (err e) h = v
  appended_str-IsValid (ok a) h = append-IsValid k b.bytes s v (h a refl)

pushed-IsValid :
    (k : Kind) (c : ℕ) (b : Builder) → IsValid k b.bytes → IsValid k (try_push k c b).1.bytes
unfolding try_push
pushed-IsValid k c b v = elim (Bool-cases (is_invalid k c)) [
  | inl e ↦ rw (e, try_push) v
  | inr e ↦ rw (e, try_push) (append-IsValid k b.bytes (c ∷ []) v (e, tt))
]

-- Whatever is added to a builder, checked or of the builder's type, it keeps the guarantee of the
-- type, so that the unchecked conversion of `build` is sound.
pub step-IsValid :
    (k : Kind) (s : Step) (b : Builder)
    → StepValid k s
    → IsValid k (build b)
    → IsValid k (build (step k s b))
unfolding step append append_unchecked try_append try_append_str try_push build
step-IsValid k (whole s u) b h v = append-IsValid k b.bytes s v h.bytes_valid
step-IsValid k (try_whole s) b h v =
    appended-IsValid k s b v (check_loop k true s) (λ a e. check_loop-Lacks k true s e)
step-IsValid k (try_str s) b h v =
    appended_str-IsValid k s b v (check_loop k true s) (λ a e. check_loop-Lacks k true s e)
step-IsValid k (push c) b h v = pushed-IsValid k c b v
