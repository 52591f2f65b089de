-- ===== src/Text/Chunks/Pieces.antt =====
-- One chunk cut off by the encoder of `src/string/base64.rs`.
use vinezombie.Prelude.{
  ℕ, zero, suc, ◌≤◌, ◌<◌, ◌≡◌, refl, ap, subst, Bool, false, ◌||◌, none, [], ◌∷◌, ◌==◌, Bytes,
  length, take, drop, length-take, Lacks, arith,
}
use vinezombie.Text.Kinds.{arg, is_invalid, check_others, IsValid, ok}
use vinezombie.Text.Splitter.{
  Splitter, until_count, rest, peek_rest, with_saved, restore, consume_range,
}
use vinezombie.Text.Splitter.View.{View, peek_rest-all, View-length, end-View, start-View}
use vinezombie.Text.Chunks.{take_chunk}

-- Neither a byte that no argument has nor a colon.
abbrev pub is_outside : ℕ → Bool
is_outside c = is_invalid arg c || c == b':'

pub Lacks-take : (p : ℕ → Bool) (n : ℕ) (bs : Bytes) → Lacks p bs → Lacks p (take n bs)
Lacks-take p zero bs h = tt
Lacks-take p (suc n) [] h = tt
Lacks-take p (suc n) (c ∷ cs) h = (h.0, Lacks-take p n cs h.1)

pub Lacks-drop : (p : ℕ → Bool) (n : ℕ) (bs : Bytes) → Lacks p bs → Lacks p (drop n bs)
Lacks-drop p zero bs h = h
Lacks-drop p (suc n) [] h = tt
Lacks-drop p (suc n) (c ∷ cs) h = Lacks-drop p n cs h.1

pub take-all : (n : ℕ) (bs : Bytes) → length bs ≤ n → take n bs ≡ bs
take-all zero [] h = refl
take-all zero (c ∷ cs) h = absurd (omega arith)
take-all (suc n) [] h = refl
take-all (suc n) (c ∷ cs) h = ap (◌∷◌ c) (take-all n cs (omega arith))

take-length-take : (n : ℕ) (bs : Bytes) → take (length (take n bs)) bs ≡ take n bs
take-length-take zero bs = refl
take-length-take (suc n) [] = refl
take-length-take (suc n) (c ∷ cs) = ap (◌∷◌ c) (take-length-take n cs)

drop-length-take : (n : ℕ) (bs : Bytes) → drop (length (take n bs)) bs ≡ drop n bs
drop-length-take zero bs = refl
drop-length-take (suc n) [] = refl
drop-length-take (suc n) (c ∷ cs) = drop-length-take n cs

or-left : (a b : Bool) → (a || b) ≡ false → a ≡ false
or-left a b h = ground arith

inside-Lacks : (bs : Bytes) → Lacks is_outside bs → Lacks (is_invalid arg) bs
inside-Lacks [] h = tt
inside-Lacks (c ∷ cs) h = (or-left (is_invalid arg c) (c == b':') h.0, inside-Lacks cs h.1)

inside-first : (c : ℕ) (cs : Bytes) → is_outside c ≡ false → check_others arg (c ∷ cs) ≡ none
unfolding check_others
inside-first c cs h = ground arith

-- A stretch of bytes from inside an argument is an argument.
pub inside : (bs : Bytes) → Lacks is_outside bs → 0 < length bs → IsValid arg bs
inside [] h k = absurd (omega arith)
inside (c ∷ cs) h k = record {
  bytes_valid = inside-Lacks (c ∷ cs) h;
  others_valid = inside-first c cs h.0;
}

module _ {s : Splitter} {bs : Bytes} (v : View s bs) where
  until_count-View : (n : ℕ) → View (until_count n s) (take n bs)
  unfolding until_count consume_range
  until_count-View n = rw (← take-length-take n bs) (
      end-View v (length (take n bs)) (until_count n s) (omega (arith, length-take n bs)) refl refl
        (omega (arith, length-take n bs, View-length v)))

  pub take_chunk-View :
      (n : ℕ)
      → check_others arg (take n bs) ≡ none
      → ((take_chunk n s).0 ≡ ok (take n bs)) × View (take_chunk n s).1 (drop n bs)
  unfolding take_chunk with_saved rest restore until_count
  take_chunk-View n h =
      let peek : peek_rest arg (until_count n s) ≡ ok (take n bs) =
        peek_rest-all (until_count-View n) arg h in
      (
        rw peek,
        subst (View (take_chunk n s).1) (drop-length-take n bs) (
            start-View v (length (take n bs)) _ (omega (arith, length-take n bs)) (rw peek refl)
              (rw peek refl) refl),
      )
