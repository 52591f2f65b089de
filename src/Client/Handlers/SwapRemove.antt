-- ===== src/Client/Handlers/SwapRemove.antt =====
-- `Vec::swap_remove` as the loop uses it on the handlers of `src/client/handler.rs`.
use mathlib.Core.List.{Perm, perm_append_singleton}
use mathlib.Core.List.Perm
use vinezombie.Prelude.{
  ◌≡◌, refl, ap, subst, Option, none, some, List, [], ◌∷◌, ◌++◌, append-nil, length, length-append,
  get_elem?, set, arith,
}
use vinezombie.Client.Handlers.{last_of, init_of, swap_remove}

module _ {A : Type 0} where
  to_front : Option A → List A → List A
  to_front none xs = xs
  to_front (some x) xs = x ∷ xs

  -- The elements behind one that is removed: the last one comes first.
  pub brought : List A → List A
  brought xs = to_front (last_of xs) (init_of xs)

  -- A list that is not empty, as its last element behind the others.
  record Ends (xs : List A) : Type 0 where
    last : A
    is_last : last_of xs ≡ some last
    whole : init_of xs ++ last ∷ [] ≡ xs

  ends : (x : A) (xs : List A) → Ends (x ∷ xs)
  ends x [] = record { last = x; is_last = refl; whole = refl }
  ends x (y ∷ ys) =
      let e = ends y ys in record { last = e.last; is_last = e.is_last; whole = ap (◌∷◌ x) e.whole }

  last_of-append : (xs : List A) (y : A) (ys : List A) → last_of (xs ++ y ∷ ys) ≡ last_of (y ∷ ys)
  last_of-append [] y ys = refl
  last_of-append (a ∷ []) y ys = refl
  last_of-append (a ∷ b ∷ bs) y ys = last_of-append (b ∷ bs) y ys

  init_of-append :
      (xs : List A) (y : A) (ys : List A) → init_of (xs ++ y ∷ ys) ≡ xs ++ init_of (y ∷ ys)
  init_of-append [] y ys = refl
  init_of-append (a ∷ []) y ys = refl
  init_of-append (a ∷ b ∷ bs) y ys = ap (◌∷◌ a) (init_of-append (b ∷ bs) y ys)

  set-length : (xs : List A) (x : A) → set xs (length xs) x ≡ xs
  set-length [] x = refl
  set-length (y ∷ ys) x = ap (◌∷◌ y) (set-length ys x)

  pub set-append_length :
      (xs : List A) (x y : A) (ys : List A) → set (xs ++ y ∷ ys) (length xs) x ≡ xs ++ x ∷ ys
  set-append_length [] x y ys = refl
  set-append_length (z ∷ zs) x y ys = ap (◌∷◌ z) (set-append_length zs x y ys)

  pub get_elem?-append_length :
      (xs : List A) (y : A) (ys : List A) → get_elem? (xs ++ y ∷ ys) (length xs) ≡ some y
  get_elem?-append_length [] y ys = refl
  get_elem?-append_length (z ∷ zs) y ys = get_elem?-append_length zs y ys

  pub get_elem?-length : (xs : List A) → get_elem? xs (length xs) ≡ none
  get_elem?-length [] = refl
  get_elem?-length (z ∷ zs) = get_elem?-length zs

  pub swap_remove-append :
      (xs : List A) (y : A) (ys : List A)
      → swap_remove (xs ++ y ∷ ys) (length xs) ≡ xs ++ brought ys
  unfolding swap_remove brought to_front
  swap_remove-append xs y [] =
      rw (last_of-append xs y [], init_of-append xs y [], append-nil xs) (set-length xs y)
  swap_remove-append xs y (z ∷ zs) =
      let e = ends z zs in
      rw (last_of-append xs y (z ∷ zs), init_of-append xs y (z ∷ zs), e.is_last)
        (set-append_length xs e.last y (init_of (z ∷ zs)))

  -- The last element of a list that is not empty, in front of the others.
  pub last-Perm :
      (x : A) (xs : List A)
      → (l : A) × (last_of (x ∷ xs) ≡ some l) × Perm (l ∷ init_of (x ∷ xs)) (x ∷ xs)
  last-Perm x xs =
      let e = ends x xs in
      (
        e.last,
        e.is_last,
        subst (Perm (e.last ∷ init_of (x ∷ xs))) e.whole
            (Perm.symm (perm_append_singleton e.last (init_of (x ∷ xs)))),
      )

  pub brought-Perm : (xs : List A) → Perm (brought xs) xs
  unfolding brought to_front
  brought-Perm [] = Perm.nil
  brought-Perm (z ∷ zs) = let (l, e, p) = last-Perm z zs in rw e p

  pub length-brought : (xs : List A) → length (brought xs) ≡ length xs
  unfolding brought to_front
  length-brought [] = refl
  length-brought (z ∷ zs) =
      let e = ends z zs in
      rw e.is_last
        (omega (arith, ap length e.whole, length-append (init_of (z ∷ zs)) (e.last ∷ [])))
