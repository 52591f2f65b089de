-- ===== src/State/Types/Parsing.antt =====
-- `ModeTypes::parse` on what `Display` writes, `src/state/mode.rs`.
use vinezombie.Prelude.{
  ℕ, zero, suc, ◌≡◌, refl, sym, ap, ◌∙◌, true, false, List, [], ◌∷◌, ◌++◌, append-nil, ◌==◌, arith,
  and_true, Bytes,
}
use vinezombie.State.Mode.{
  ModeSet, empty, is_letter, contains, new_mode, set_mode, extend, elements, from_iter, difference,
  union, index as letter_index,
}
use vinezombie.State.Mode.Sets.{
  IsValid as SetValid, difference_op, apply-meaning, contains-extensional,
}
use vinezombie.State.Mode.Elements.{Descends, elements-Descends, from_iter-elements}
use vinezombie.State.Types.{
  ModeTypes, new, at, add_mode, parse_loop, parse, display, from_sets, overlap,
}
use vinezombie.State.Types.Lookup.{IsValid}
use vinezombie.State.Types.Coherent.{Disjoint, contains-empty, zero-SetValid}

put_letter : (m : ℕ) (s : ModeSet) → is_letter m ≡ true → add_mode (new_mode m) s ≡ (set_mode s m).1
unfolding new_mode
put_letter m s h = rw h refl

at-at :
    (i : ℕ) (f g h : ModeSet → ModeSet) (sets : ModeTypes)
    → ((s : ModeSet) → g (f s) ≡ h s)
    → at i g (at i f sets) ≡ at i h sets
at-at zero f g h sets e = ap (λ (s : ModeSet). record sets { set_a = s }) (e (sets.set_a))
at-at (suc zero) f g h sets e = ap (λ (s : ModeSet). record sets { set_b = s }) (e (sets.set_b))
at-at (suc (suc zero)) f g h sets e =
    ap (λ (s : ModeSet). record sets { set_c = s }) (e (sets.set_c))
at-at (suc (suc (suc n))) f g h sets e =
    ap (λ (s : ModeSet). record sets { set_d = s }) (e (sets.set_d))

at_same : (i : ℕ) (sets : ModeTypes) → at i (λ s. s) sets ≡ sets
at_same zero sets = refl
at_same (suc zero) sets = refl
at_same (suc (suc zero)) sets = refl
at_same (suc (suc (suc n))) sets = refl

-- A run of letters is added to the current set.
parse_loop-letters :
    (bound i : ℕ) (ms : List ℕ) (rest : Bytes) (sets : ModeTypes)
    → Descends bound ms
    → parse_loop (ms ++ rest) i sets ≡ parse_loop rest i (at i (λ s. extend s ms) sets)
unfolding parse_loop extend
parse_loop-letters bound i [] rest sets h = ap (parse_loop rest i) (sym (at_same i sets))
parse_loop-letters bound i (m ∷ ms) rest sets (hl, hi, h) =
    let e : (m == b',') ≡ false = ground arith in
    rw (parse_loop, e)
      (parse_loop-letters (letter_index m) i ms rest (at i (add_mode (new_mode m)) sets) h
        ∙ ap (parse_loop rest i) (
            at-at i (add_mode (new_mode m)) (λ s. extend s ms) (λ s. extend s (m ∷ ms)) sets
              (λ s. ap (λ t. extend t ms) (put_letter m s hl))))

parse_loop-comma :
    (i : ℕ) (rest : Bytes) (sets : ModeTypes)
    → (i == 3) ≡ false
    → parse_loop (b',' ∷ rest) i sets ≡ parse_loop rest (suc i) sets
unfolding parse_loop
parse_loop-comma i rest sets h = rw (parse_loop, h) refl

extend-elements : (s : ModeSet) → SetValid s → extend empty (elements 64 s) ≡ s
unfolding from_iter
extend-elements s h = from_iter-elements s h

-- The letters of a valid set, and a comma, read into the set at `i`.
parse_loop-set :
    (i : ℕ) (s : ModeSet) (rest : Bytes) (sets : ModeTypes)
    → SetValid s
    → (i == 3) ≡ false
    → parse_loop (elements 64 s ++ b',' ∷ rest) i sets
      ≡ parse_loop rest (suc i) (at i (λ e. extend e (elements 64 s)) sets)
parse_loop-set i s rest sets h k =
    parse_loop-letters 52 i (elements 64 s) (b',' ∷ rest) sets (elements-Descends s h).0
    ∙ parse_loop-comma i rest _ k

abbrev filled : ℕ → ModeSet → ModeTypes → ModeTypes
filled i s sets = at i (λ e. extend e (elements 64 s)) sets

parse_loop-display : (ts : ModeTypes) → IsValid ts → parse_loop (display ts) 0 new ≡ (ts, [])
unfolding display parse_loop
parse_loop-display ts v =
    let s1 = filled 0 ts.set_a new in
    let s2 = filled 1 ts.set_b s1 in
    let s3 = filled 2 ts.set_c s2 in
    parse_loop-set 0 ts.set_a _ new v.a_valid refl
    ∙ parse_loop-set 1 ts.set_b _ s1 v.b_valid refl
    ∙ parse_loop-set 2 ts.set_c (elements 64 ts.set_d) s2 v.c_valid refl
    ∙ ap (λ bs. parse_loop bs 3 s3) (sym (append-nil (elements 64 ts.set_d)))
    ∙ parse_loop-letters 52 3 (elements 64 ts.set_d) [] s3 (elements-Descends ts.set_d v.d_valid).0
    ∙ rw
        (
          extend-elements ts.set_a v.a_valid,
          extend-elements ts.set_b v.b_valid,
          extend-elements ts.set_c v.c_valid,
          extend-elements ts.set_d v.d_valid,
        )
        refl

difference-empty : (s : ModeSet) → SetValid s → difference s empty ≡ s
difference-empty s h =
    let (v, e) = apply-meaning (difference_op empty) s zero-SetValid h in
    contains-extensional (difference s empty) s v h
      (λ x hx. e x hx ∙ rw (contains-empty x) (and_true (contains s x)))

overlap-Disjoint :
    (ts : ModeTypes) → Disjoint ts → overlap ts.set_a ts.set_b ts.set_c ts.set_d ≡ empty
unfolding overlap union
overlap-Disjoint ts d = rw (d.apart_ab, d.apart_bc, d.apart_cd, d.apart_bd) refl

-- Four sets of letters that share none are read back from what they are displayed as, with no overlap
-- and nothing left of the text.
pub parse-display :
    (ts : ModeTypes) → IsValid ts → Disjoint ts → parse (display ts) ≡ (ts, empty, [])
unfolding parse from_sets
parse-display ts v d =
    rw (parse_loop-display ts v, overlap-Disjoint ts d)
      (rw
        (
          difference-empty ts.set_a v.a_valid,
          difference-empty ts.set_b v.b_valid,
          difference-empty ts.set_c v.c_valid,
          difference-empty ts.set_d v.d_valid,
        )
        refl)
