-- ===== src/State/Types/Lookup.antt =====
-- The map from modes to their types that a `ModeTypes` is, `src/state/mode.rs`.
use vinezombie.Prelude.{
  ℕ, ◌≡◌, refl, ◌∙◌, Bool, true, false, not, ◌&&◌, ◌||◌, Option, none, some, ◌==◌, Bool-cases, inl,
  inr, if◌then◌else◌, or_true, or_false, and_true, and_false,
}
use vinezombie.State.Mode.{ModeSet, is_letter, contains}
use vinezombie.State.Mode.Sets.{
  IsValid as SetValid, set_op, unset_op, union_op, difference_op, apply-meaning,
}
use vinezombie.State.Types.{
  ModeType, type_a, type_b, type_c, type_d, status, ModeTypes, index, get, insert, insert_at,
  insert_set, insert_set_at,
}

pub record IsValid (ts : ModeTypes) : Type 0 where
  pub a_valid : SetValid ts.set_a
  pub b_valid : SetValid ts.set_b
  pub c_valid : SetValid ts.set_c
  pub d_valid : SetValid ts.set_d

-- What an update leaves in the set at `idx`: a letter that it moves is there if it moves it there.
abbrev pub moved : Bool → ℕ → ℕ → Bool → Bool
moved here idx i old = if here then idx == i else old

by_or : (h c : Bool) → (c || h) ≡ (if h then true else c)
by_or true c = or_true c
by_or false c = or_false c

by_and : (h c : Bool) → (c && not h) ≡ (if h then false else c)
by_and true c = and_false c
by_and false c = and_true c

pub insert_at-moved :
    (idx i m : ℕ) (s : ModeSet)
    → is_letter m ≡ true
    → SetValid s
    → SetValid (insert_at idx i m s)
      × ((x : ℕ)
          → is_letter x ≡ true
          → contains (insert_at idx i m s) x ≡ moved (x == m) idx i (contains s x))
insert_at-moved idx i m s hm hs =
    let (vs, es) = apply-meaning (set_op m) s hm hs in
    let (vu, eu) = apply-meaning (unset_op m) s hm hs in
    elim (Bool-cases (idx == i)) [
      | inl e ↦ rw e (vs, λ x hx. es x hx ∙ by_or (x == m) (contains s x))
      | inr e ↦ rw e (vu, λ x hx. eu x hx ∙ by_and (x == m) (contains s x))
    ]

pub insert_set_at-moved :
    (idx i : ℕ) (modes s : ModeSet)
    → SetValid modes
    → SetValid s
    → SetValid (insert_set_at idx i modes s)
      × ((x : ℕ)
          → is_letter x ≡ true
          → contains (insert_set_at idx i modes s) x
            ≡ moved (contains modes x) idx i (contains s x))
insert_set_at-moved idx i modes s hm hs =
    let (vs, es) = apply-meaning (union_op modes) s hm hs in
    let (vu, eu) = apply-meaning (difference_op modes) s hm hs in
    elim (Bool-cases (idx == i)) [
      | inl e ↦ rw e (vs, λ x hx. es x hx ∙ by_or (contains modes x) (contains s x))
      | inr e ↦ rw e (vu, λ x hx. eu x hx ∙ by_and (contains modes x) (contains s x))
    ]

-- The type that a letter is looked up as after it is given one: there is no set for status modes.
abbrev pub nonstatus : ModeType → Option ModeType
nonstatus status = none
nonstatus t = some t

-- `get`, by whether each of the four sets has the letter.
abbrev or_if : Bool → ModeType → Option ModeType → Option ModeType
or_if b t rest = if b then some t else rest

abbrev pick : Bool → Bool → Bool → Bool → Option ModeType
pick a b c d = or_if d type_d (or_if a type_a (or_if b type_b (or_if c type_c none)))

pick-moved :
    (here : Bool) (t : ModeType) (a b c d : Bool)
    → pick
        (moved here 0 (index t) a)
        (moved here 1 (index t) b)
        (moved here 2 (index t) c)
        (moved here 3 (index t) d)
      ≡ (if here then nonstatus t else pick a b c d)
unfolding index
pick-moved true type_a a b c d = refl
pick-moved true type_b a b c d = refl
pick-moved true type_c a b c d = refl
pick-moved true type_d a b c d = refl
pick-moved true status a b c d = refl
pick-moved false t a b c d = refl

-- Giving a letter a type changes what is looked up for this letter, and for no other; as a status mode
-- it is not found. The sets stay sets of letters.
pub get-insert :
    (ts : ModeTypes) (m : ℕ) (t : ModeType)
    → IsValid ts
    → is_letter m ≡ true
    → IsValid (insert ts m t)
      × ((x : ℕ)
          → is_letter x ≡ true
          → get (insert ts m t) x ≡ (if x == m then nonstatus t else get ts x))
unfolding get insert
get-insert ts m t v hm =
    let (va, ea) = insert_at-moved 0 (index t) m ts.set_a hm v.a_valid in
    let (vb, eb) = insert_at-moved 1 (index t) m ts.set_b hm v.b_valid in
    let (vc, ec) = insert_at-moved 2 (index t) m ts.set_c hm v.c_valid in
    let (vd, ed) = insert_at-moved 3 (index t) m ts.set_d hm v.d_valid in
    (
      record { a_valid = va; b_valid = vb; c_valid = vc; d_valid = vd },
      λ x hx.
          rw (ea x hx, eb x hx, ec x hx, ed x hx)
            (pick-moved (x == m) t (contains ts.set_a x) (contains ts.set_b x) (contains ts.set_c x)
              (contains ts.set_d x)),
    )

-- Giving all letters of a set a type changes what is looked up for these letters, and for no others; as
-- status modes they are not found. The sets stay sets of letters.
pub get-insert_set :
    (ts : ModeTypes) (modes : ModeSet) (t : ModeType)
    → IsValid ts
    → SetValid modes
    → IsValid (insert_set ts modes t)
      × ((x : ℕ)
          → is_letter x ≡ true
          → get (insert_set ts modes t) x ≡ (if contains modes x then nonstatus t else get ts x))
unfolding get insert_set
get-insert_set ts modes t v hm =
    let (va, ea) = insert_set_at-moved 0 (index t) modes ts.set_a hm v.a_valid in
    let (vb, eb) = insert_set_at-moved 1 (index t) modes ts.set_b hm v.b_valid in
    let (vc, ec) = insert_set_at-moved 2 (index t) modes ts.set_c hm v.c_valid in
    let (vd, ed) = insert_set_at-moved 3 (index t) modes ts.set_d hm v.d_valid in
    (
      record { a_valid = va; b_valid = vb; c_valid = vc; d_valid = vd },
      λ x hx.
          rw (ea x hx, eb x hx, ec x hx, ed x hx)
            (pick-moved (contains modes x) t (contains ts.set_a x) (contains ts.set_b x)
              (contains ts.set_c x) (contains ts.set_d x)),
    )
