-- ===== src/State/Types/Coherent.antt =====
-- That each letter has one type in a `ModeTypes`, `src/state/mode.rs`.
use vinezombie.Prelude.{
  ℕ, ◌≡◌, refl, sym, ap, ◌∙◌, Bool, true, false, ◌&&◌, ◌==◌, arith, test_bit-zero,
}
use vinezombie.State.Mode.{ModeSet, empty, is_letter, contains, intersection, index as letter_index}
use vinezombie.State.Mode.Sets.{
  IsValid as SetValid, intersection_op, apply-meaning, contains-extensional, contains-test_bit,
}
use vinezombie.State.Types.{
  ModeType, ModeTypes, index, insert, insert_at, insert_set, insert_set_at,
}
use vinezombie.State.Types.Lookup.{IsValid, moved, insert_at-moved, insert_set_at-moved}

-- No two of the sets share a letter.
pub record Disjoint (ts : ModeTypes) : Type 0 where
  pub apart_ab : intersection ts.set_a ts.set_b ≡ empty
  pub apart_ac : intersection ts.set_a ts.set_c ≡ empty
  pub apart_ad : intersection ts.set_a ts.set_d ≡ empty
  pub apart_bc : intersection ts.set_b ts.set_c ≡ empty
  pub apart_bd : intersection ts.set_b ts.set_d ≡ empty
  pub apart_cd : intersection ts.set_c ts.set_d ≡ empty

pub contains-empty : (x : ℕ) → contains empty x ≡ false
contains-empty x = contains-test_bit 0 x ∙ test_bit-zero (letter_index x)

pub zero-SetValid : SetValid empty
zero-SetValid = omega arith

module _ (a b : ModeSet) (ha : SetValid a) (hb : SetValid b) where
  pub apart-contains :
      intersection a b ≡ empty
      → (x : ℕ) → is_letter x ≡ true
      → (contains a x && contains b x) ≡ false
  apart-contains h x hx =
      sym ((apply-meaning (intersection_op b) a hb ha).1 x hx)
      ∙ ap (λ s. contains s x) h
      ∙ contains-empty x

  pub contains-apart :
      ((x : ℕ) → is_letter x ≡ true → (contains a x && contains b x) ≡ false)
      → intersection a b ≡ empty
  contains-apart h =
      let (v, e) = apply-meaning (intersection_op b) a hb ha in
      contains-extensional (intersection a b) empty v zero-SetValid
        (λ x hx. e x hx ∙ h x hx ∙ sym (contains-empty x))

moved_apart :
    (i j k : ℕ) (here a b : Bool)
    → (i == j) ≡ false
    → (a && b) ≡ false
    → (moved here i k a && moved here j k b) ≡ false
moved_apart i j k false a b e h = h
moved_apart i j k true a b e h = ground arith

-- The same update of the four sets, by its position.
module _ (k : ℕ) (p : ℕ → Bool) (update : ℕ → ModeSet → ModeSet)
    (law : (idx : ℕ) (s : ModeSet)
      → SetValid s
      → SetValid (update idx s)
        × ((x : ℕ)
            → is_letter x ≡ true
            → contains (update idx s) x ≡ moved (p x) idx k (contains s x))) where
  update-apart :
      (i j : ℕ) (a b : ModeSet)
      → SetValid a
      → SetValid b
      → (i == j) ≡ false
      → intersection a b ≡ empty
      → intersection (update i a) (update j b) ≡ empty
  update-apart i j a b ha hb ne h =
      let (va, ea) = law i a ha in
      let (vb, eb) = law j b hb in
      contains-apart (update i a) (update j b) va vb (λ x hx.
        rw (ea x hx, eb x hx)
          (moved_apart i j k (p x) (contains a x) (contains b x) ne
            (apart-contains a b ha hb h x hx)))

  update-Disjoint :
      (ts : ModeTypes)
      → IsValid ts
      → Disjoint ts
      → Disjoint (record {
        set_a = update 0 ts.set_a;
        set_b = update 1 ts.set_b;
        set_c = update 2 ts.set_c;
        set_d = update 3 ts.set_d;
      })
  update-Disjoint ts v d = record {
    apart_ab = update-apart 0 1 ts.set_a ts.set_b v.a_valid v.b_valid refl d.apart_ab;
    apart_ac = update-apart 0 2 ts.set_a ts.set_c v.a_valid v.c_valid refl d.apart_ac;
    apart_ad = update-apart 0 3 ts.set_a ts.set_d v.a_valid v.d_valid refl d.apart_ad;
    apart_bc = update-apart 1 2 ts.set_b ts.set_c v.b_valid v.c_valid refl d.apart_bc;
    apart_bd = update-apart 1 3 ts.set_b ts.set_d v.b_valid v.d_valid refl d.apart_bd;
    apart_cd = update-apart 2 3 ts.set_c ts.set_d v.c_valid v.d_valid refl d.apart_cd;
  }

-- Giving a letter a type, or all letters of a set, keeps the sets apart: no letter has two types.
pub insert-insert_set-Disjoint :
    (ts : ModeTypes) (m : ℕ) (modes : ModeSet) (t : ModeType)
    → IsValid ts
    → Disjoint ts
    → is_letter m ≡ true
    → SetValid modes
    → Disjoint (insert ts m t) × Disjoint (insert_set ts modes t)
unfolding insert insert_set
insert-insert_set-Disjoint ts m modes t v d hm hs = (
  update-Disjoint (index t) (λ x. x == m) (λ i s. insert_at i (index t) m s)
      (λ i s h. insert_at-moved i (index t) m s hm h) ts v d,
  update-Disjoint (index t) (contains modes) (λ i s. insert_set_at i (index t) modes s)
      (λ i s h. insert_set_at-moved i (index t) modes s hs h) ts v d,
)
