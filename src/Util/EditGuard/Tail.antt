-- ===== src/Util/EditGuard/Tail.antt =====
-- The guard of a `FlatMap` with elements behind the sorted ones, `src/util/flatmap.rs`.
use Prim.Native.Nat.{Ordering}
use vinezombie.Prelude.{
  ℕ, suc, ◌+◌, ◌≡◌, refl, sym, ap, subst, ◌∙◌, true, false, none, List, [], ◌∷◌, ◌++◌, append_assoc,
  length, length-append, get_elem?, ltb, ◌==◌, arith, and_false, ◌&&◌,
}
use vinezombie.Util.FlatMap.{IsSorted}
use vinezombie.Util.EditGuard.{
  Guard, edit, binary_search, get_impl, get_idx, guard_get, above, last, push, insert, guard_len,
  get_or_insert, get_at,
}
use vinezombie.Util.EditGuard.Update.{Lawful, Below, Below-trans, IsSorted-Below}

get_elem?-length : {A : Type 0} (xs : List A) → get_elem? xs (length xs) ≡ none
get_elem?-length [] = refl
get_elem?-length (x ∷ xs) = get_elem?-length xs

-- The guard `g`, into which `e` went behind the elements `v`, looks up nothing for its key, counts as many
-- elements as `v` has, and takes `e'` in too.
pub record Unseen {E K : Type 0} (key : E → K) (cmp : K → K → Ordering) (v : List E) (e e' : E)
    (g : Guard E) : Type 0 where
  pub not_found : guard_get key cmp g (key e) ≡ none
  pub not_counted : guard_len g ≡ length v
  pub not_replaced : (insert key cmp e' g).0 ≡ none
  pub both_there : (insert key cmp e' g).1.elems ≡ v ++ e ∷ e' ∷ []

module _ {E K : Type 0} (key : E → K) (cmp : K → K → Ordering) where
  -- A new element for which `get_or_insert` finds none is put behind all others, and the index that its
  -- reference points at is one past it.
  pub get_or_insert-past :
      (g : Guard E) (e : E)
      → get_idx key cmp g (key e) ≡ none
      → ((get_or_insert key cmp e g).2.elems ≡ g.elems ++ e ∷ [])
        × (get_elem? (get_or_insert key cmp e g).2.elems (get_or_insert key cmp e g).0 ≡ none)
  unfolding get_or_insert push
  get_or_insert-past g e h =
      let l : length g.elems + 1 ≡ length (g.elems ++ e ∷ []) =
        omega (arith, length-append g.elems (e ∷ [])) in
      rw (get_or_insert, h) (refl, rw l (get_elem?-length (g.elems ++ e ∷ [])))

  first_missing : (n : ℕ) → ltb 0 (suc n) ≡ true
  first_missing n = ground arith

  get_idx-below :
      (x : E) (rest : List E) (n : ℕ) (k : K)
      → cmp (key x) k ≡ Ordering.gt
      → get_idx key cmp (record { elems = x ∷ rest; sorted_until = suc n }) k ≡ none
  unfolding get_idx get_impl binary_search
  get_idx-below x rest n k h = rw (get_idx, get_impl, binary_search, h, first_missing n) refl

  -- An element that is not above the last one is put behind it, and the sorted part stays the same.
  insert-behind :
      (x : E) (rest : List E) (n : ℕ) (e : E)
      → cmp (key x) (key e) ≡ Ordering.gt
      → (suc n == length (x ∷ rest) && above key cmp (key e) (last (x ∷ rest))) ≡ false
      → insert key cmp e (record { elems = x ∷ rest; sorted_until = suc n })
        ≡ (none, record { elems = x ∷ (rest ++ e ∷ []); sorted_until = suc n })
  unfolding insert push
  insert-behind x rest n e h b = rw (insert, get_idx-below x rest n (key e) h, push, b) refl

  module _ (laws : Lawful cmp) where
    shorter : (a b : ℕ) → b ≡ a + 1 → (suc a == suc b) ≡ false
    shorter a b h = ground arith

    Below-last :
        (k : K) (x : E) (xs : List E)
        → Below key cmp laws k (x ∷ xs)
        → above key cmp k (last (x ∷ xs)) ≡ false
    Below-last k x [] (e, b) = rw e refl
    Below-last k x (y ∷ ys) (e, b) = Below-last k y ys b

    -- Once an element below all others is inserted through the guard of a sorted map, the guard does not
    -- find its key, counts as many elements as before, and inserting another element with this key
    -- replaces none: both are there, behind the others.
    pub insert-Unseen :
        (x : E) (xs : List E) (e e' : E)
        → IsSorted key cmp (x ∷ xs)
        → cmp (key e) (key x) ≡ Ordering.lt
        → key e' ≡ key e
        → Unseen key cmp (x ∷ xs) e e' ((insert key cmp e (edit (x ∷ xs))).1)
    unfolding edit guard_get guard_len
    insert-Unseen x xs e e' h o q =
        let below : Below key cmp laws (key e) (x ∷ xs) =
          (o, Below-trans key cmp laws (key e) (key x) xs o (IsSorted-Below key cmp laws x xs h)) in
        let hi = laws.greater (key e) (key x) o in
        let g : Guard E = record { elems = (x ∷ xs) ++ e ∷ []; sorted_until = suc (length xs) } in
        let first : insert key cmp e (edit (x ∷ xs)) ≡ (none, g) =
          insert-behind x xs (length xs) e hi (rw (Below-last (key e) x xs below) (and_false _)) in
        let hi' : cmp (key x) (key e') ≡ Ordering.gt = rw q hi in
        let longer : (suc (length xs) == length ((x ∷ xs) ++ e ∷ [])) ≡ false =
          shorter (length xs) (length (xs ++ e ∷ [])) (omega (arith, length-append xs (e ∷ []))) in
        let second = insert-behind x (xs ++ e ∷ []) (length xs) e' hi' (rw longer refl) in
        let there : Unseen key cmp (x ∷ xs) e e' g = record {
          not_found = ap (get_at g.elems) (get_idx-below x (xs ++ e ∷ []) (length xs) (key e) hi);
          not_counted = refl;
          not_replaced = ap (λ r. r.0) second;
          both_there = ap (λ r. r.1.elems) second ∙ ap (◌∷◌ x) (append_assoc xs (e ∷ []) (e' ∷ []));
        } in
        subst (λ r. Unseen key cmp (x ∷ xs) e e' r.1) (sym first) there
