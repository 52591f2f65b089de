-- ===== src/State/Mode/Changes.antt =====
-- Whether `set` and `unset` of `ModeSet` report a change, `src/state/mode.rs`.
use vinezombie.Prelude.{
  and_true, or_false, ℕ, ◌≡◌, refl, sym, ap, ◌∙◌, Bool, true, false, not, ◌&&◌, ◌||◌, ◌==◌,
  Bool-cases, subst, inl, inr, ==_iff,
}
use vinezombie.State.Mode.{is_letter, mask, set_mode, unset_mode, contains}
use vinezombie.State.Mode.Sets.{IsValid, set_op, unset_op, apply-meaning, contains-extensional}

abbrev xor : Bool → Bool → Bool
xor true b = not b
xor false b = b

xor_same : (a b : Bool) → a ≡ b → false ≡ xor a b
xor_same true true q = refl
xor_same false false q = refl
xor_same true false q = absurd (cc)
xor_same false true q = absurd (cc)

xor_apart : (a b : Bool) → (a ≡ b → ⊥) → true ≡ xor a b
xor_apart true true q = absurd (q refl)
xor_apart false false q = absurd (q refl)
xor_apart true false q = refl
xor_apart false true q = refl

xor_or : (b : Bool) → xor b (b || true) ≡ not b
xor_or true = refl
xor_or false = refl

xor_and : (b : Bool) → xor b (b && false) ≡ b
xor_and true = refl
xor_and false = refl

module _ (s s' m : ℕ) (hm : is_letter m ≡ true) (hs : IsValid s) (hs' : IsValid s')
    (h : (x : ℕ) → is_letter x ≡ true → (x == m) ≡ false → contains s' x ≡ contains s x) where
  agree : contains s m ≡ contains s' m → (x : ℕ) → is_letter x ≡ true → contains s x ≡ contains s' x
  agree q x hx = elim (Bool-cases (x == m)) [
    | inl t ↦ subst (λ (y : ℕ). contains s y ≡ contains s' y) (sym ((==_iff x m).0 t)) q
    | inr t ↦ sym (h x hx t)
  ]

  same_absurd : (s == s') ≡ false → s ≡ s' → ⊥
  same_absurd e k = let t = (==_iff s s').1 k in absurd (cc)

  -- Where two sets agree on all letters but one, they differ exactly if they differ on that one.
  changed : not (s == s') ≡ xor (contains s m) (contains s' m)
  changed = elim (Bool-cases (s == s')) [
    | inl e ↦
        rw e (
          xor_same (contains s m) (contains s' m)
            (ap (λ (t : ℕ). contains t m) ((==_iff s s').0 e)))
    | inr e ↦ rw e (
        xor_apart (contains s m) (contains s' m)
          (λ q. same_absurd e (contains-extensional s s' hs hs' (agree q))))
  ]

-- Setting a letter reports a change exactly if the letter was not in the set, and unsetting it exactly
-- if it was.
pub set_mode-unset_mode :
    (s m : ℕ)
    → is_letter m ≡ true
    → IsValid s
    → ((set_mode s m).0 ≡ not (contains s m)) × ((unset_mode s m).0 ≡ contains s m)
unfolding set_mode unset_mode mask
set_mode-unset_mode s m hm hs =
    let (vs, es) = apply-meaning (set_op m) s hm hs in
    let (vu, eu) = apply-meaning (unset_op m) s hm hs in
    let r = (==_iff m m).1 refl in
    (
      changed s ((set_mode s m).1) m hm hs vs (λ x hx n. es x hx ∙ rw n (or_false (contains s x)))
          ∙ rw (es m hm, r) (xor_or (contains s m)),
      changed s ((unset_mode s m).1) m hm hs vu (λ x hx n. eu x hx ∙ rw n (and_true (contains s x)))
          ∙ rw (eu m hm, r) (xor_and (contains s m)),
    )
