-- ===== src/Text/Trim/Sound.antt =====
-- `TrimAscii` keeps the guarantees of the types that it is marked safe for.
use vinezombie.Prelude.{
  ℕ, ◌≡◌, Bool, true, false, none, inl, inr, Bool-cases, [], ◌∷◌, Bytes, Lacks, arith,
  is_ascii_whitespace,
}
use vinezombie.Text.Kinds.{Kind, is_invalid, check_others, IsValid}
use vinezombie.Text.Trim.{
  StringSide, start, end, start_first, end_first, trim_start, trim_end, cons_end, trim_ascii,
  trim_safe,
}

trim_start-Lacks : (p : ℕ → Bool) (bs : Bytes) → Lacks p bs → Lacks p (trim_start bs)
unfolding trim_start
trim_start-Lacks p [] h = tt
trim_start-Lacks p (c ∷ cs) h = elim (Bool-cases (is_ascii_whitespace c)) [
  | inl e ↦ rw e (trim_start-Lacks p cs h.1)
  | inr e ↦ rw e h
]

cons_end-Lacks :
    (p : ℕ → Bool) (c : ℕ) (cs : Bytes) → p c ≡ false → Lacks p cs → Lacks p (cons_end c cs)
cons_end-Lacks p c [] e h = elim (Bool-cases (is_ascii_whitespace c)) [
  | inl w ↦ rw w tt
  | inr w ↦ rw w (e, tt)
]
cons_end-Lacks p c (d ∷ ds) e h = (e, h)

trim_end-Lacks : (p : ℕ → Bool) (bs : Bytes) → Lacks p bs → Lacks p (trim_end bs)
unfolding trim_end
trim_end-Lacks p [] h = tt
trim_end-Lacks p (c ∷ cs) h = cons_end-Lacks p c (trim_end cs) h.0 (trim_end-Lacks p cs h.1)

trim_ascii-Lacks :
    (p : ℕ → Bool) (side : StringSide) (bs : Bytes) → Lacks p bs → Lacks p (trim_ascii side bs)
unfolding trim_ascii
trim_ascii-Lacks p start bs h = trim_start-Lacks p bs h
trim_ascii-Lacks p end bs h = trim_end-Lacks p bs h
trim_ascii-Lacks p start_first bs h = trim_start-Lacks p (trim_end bs) (trim_end-Lacks p bs h)
trim_ascii-Lacks p end_first bs h = trim_start-Lacks p (trim_end bs) (trim_end-Lacks p bs h)

safe-check_others : (k : Kind) (bs : Bytes) → trim_safe k ≡ true → check_others k bs ≡ none
unfolding check_others
safe-check_others k bs h = ground arith

-- Trimming on any side a valid string of a type that `TrimAscii` is marked safe for gives a valid
-- string of that type.
pub trim_ascii-IsValid :
    (side : StringSide) (k : Kind) (bs : Bytes)
    → trim_safe k ≡ true
    → IsValid k bs
    → IsValid k (trim_ascii side bs)
trim_ascii-IsValid side k bs s v = record {
  bytes_valid = trim_ascii-Lacks (is_invalid k) side bs v.bytes_valid;
  others_valid = safe-check_others k (trim_ascii side bs) s;
}
