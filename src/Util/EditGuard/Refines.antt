-- ===== src/Util/EditGuard/Refines.antt =====
-- One insertion through the guard of a `FlatMap` and the drop of the guard, `src/util/flatmap.rs`.
use Prim.Native.Nat.{Ordering}
use vinezombie.Prelude.{
  ℕ, zero, suc, ◌+◌, ◌≡◌, refl, sym, ap, ◌∙◌, subst, true, false, Option, none, some, List, [], ◌∷◌,
  ◌++◌, length, length-append, set, ltb, lt→ltb, ◌==◌, ==_iff, if◌then◌else◌, arith, Bool-cases,
  inl, inr, Option-cases,
}
use vinezombie.Util.FlatMap.{is_eq, is_gt, sort_by, insert_sorted, IsSorted}
use vinezombie.Util.FlatMap.Dedup.{insert_sorted-front, sort_by-IsSorted}
use vinezombie.Util.EditGuard.{
  edit, binary_search, get_idx, get, get_at, above, last, push, insert, drop_guard, next_index,
  Searched, found, missing,
}
use vinezombie.Util.EditGuard.Update.{
  Lawful, Ordering-cases, lookup, upsert, Below, Below-trans, IsSorted-Below, IsSorted-tail,
  Below-cons, idx_of, get_impl-idx_of, search-lookup, get-lookup, Below-upsert,
}
use vinezombie.Util.EditGuard.Insert.{upsert-IsSorted, lookup-upsert}

module _ {E K : Type 0} (key : E → K) (cmp : K → K → Ordering) (laws : Lawful cmp) where
  some-none : {A : Type 0} {a : A} → some a ≡ none → ⊥
  some-none h = absurd (cc)

  abbrev at_key : List E → K → Option ℕ
  at_key v k = idx_of key cmp laws (binary_search key cmp v k)

  -- What the search in a longer vector finds behind a smaller element.
  idx_of-next :
      (s : Searched) (i : ℕ)
      → idx_of key cmp laws (next_index s) ≡ some i
      → (j : ℕ) × (i ≡ suc j) × (idx_of key cmp laws s ≡ some j)
  unfolding idx_of
  idx_of-next (found j) i h = (j, ground arith, refl)
  idx_of-next (missing j) i h = absurd (cc)

  idx_of-next_none :
      (s : Searched) → idx_of key cmp laws (next_index s) ≡ none → idx_of key cmp laws s ≡ none
  unfolding idx_of
  idx_of-next_none (found j) h = absurd (cc)
  idx_of-next_none (missing j) h = refl

  set-upsert :
      (v : List E) (e : E) (i : ℕ) → at_key v (key e) ≡ some i → set v i e ≡ upsert key cmp e v
  unfolding binary_search upsert idx_of
  set-upsert [] e i h = absurd (cc)
  set-upsert (x ∷ xs) e i h = elim (Ordering-cases (cmp (key x) (key e))) [
    | inl o ↦
        let (j, q, k) =
          idx_of-next (binary_search key cmp xs (key e)) i (rw (binary_search, o) at h) in
        rw (q, upsert, laws.greater (key x) (key e) o) (ap (◌∷◌ x) (set-upsert xs e j k))
    | inr (inl o) ↦
        let z : some 0 ≡ some i = rw (binary_search, o) at h in
        let q : i ≡ 0 = ground arith in
        let eq : cmp (key e) (key x) ≡ Ordering.eq =
          subst (λ (a : K). cmp a (key x) ≡ Ordering.eq) (laws.equal (key x) (key e) o)
            (laws.same (key x)) in
        rw (q, upsert, eq) refl
    | inr (inr o) ↦ let z : none ≡ some i = rw (binary_search, o) at h in absurd (cc)
  ]

  sort_by-front :
      (e : E) (v : List E)
      → IsSorted key cmp v
      → Below key cmp laws (key e) v
      → sort_by key cmp (v ++ e ∷ []) ≡ e ∷ v
  unfolding sort_by insert_sorted
  sort_by-front e [] h b = refl
  sort_by-front e (x ∷ xs) h (o, b) =
      rw
        (
          sort_by-front e xs (IsSorted-tail key cmp laws x xs h) b,
          insert_sorted,
          laws.greater (key e) (key x) o,
        )
        (ap (◌∷◌ e) (insert_sorted-front key cmp x xs h))

  sort_by-upsert :
      (v : List E) (e : E)
      → IsSorted key cmp v
      → at_key v (key e) ≡ none
      → sort_by key cmp (v ++ e ∷ []) ≡ upsert key cmp e v
  unfolding sort_by upsert insert_sorted binary_search idx_of
  sort_by-upsert [] e h n = refl
  sort_by-upsert (x ∷ xs) e h n = elim (Ordering-cases (cmp (key x) (key e))) [
    | inl o ↦
        let t = IsSorted-tail key cmp laws x xs h in
        let IH =
          sort_by-upsert xs e t
            (idx_of-next_none (binary_search key cmp xs (key e)) (rw (binary_search, o) at n)) in
        let b = Below-upsert key cmp laws (key x) e xs o (IsSorted-Below key cmp laws x xs h) in
        let s = upsert-IsSorted key cmp laws e xs t in
        rw (upsert, laws.greater (key x) (key e) o, IH)
          (insert_sorted-front key cmp x (upsert key cmp e xs)
            (Below-cons key cmp laws x (upsert key cmp e xs) b s))
    | inr (inl o) ↦ absurd (some-none (rw (binary_search, o) at n))
    | inr (inr o) ↦
        let lt = laws.less (key x) (key e) o in
        rw (upsert, lt)
          (sort_by-front e (x ∷ xs) h (
            lt,
            Below-trans key cmp laws (key e) (key x) xs lt (IsSorted-Below key cmp laws x xs h),
          ))
  ]

  append-IsSorted :
      (v : List E) (e : E)
      → IsSorted key cmp v
      → above key cmp (key e) (last v) ≡ true
      → IsSorted key cmp (v ++ e ∷ [])
  append-IsSorted [] e h a = tt
  append-IsSorted (x ∷ []) e h a =
      (laws.less (key e) (key x) (is_gt-gt (cmp (key e) (key x)) a), tt)
    where
      is_gt-gt : (o : Ordering) → is_gt o ≡ true → o ≡ Ordering.gt
      is_gt-gt Ordering.lt h = absurd (cc)
      is_gt-gt Ordering.eq h = absurd (cc)
      is_gt-gt Ordering.gt h = refl
  append-IsSorted (x ∷ y ∷ ys) e (o, h) a = (o, append-IsSorted (y ∷ ys) e h a)

  length-set : (v : List E) (i : ℕ) (e : E) → length (set v i e) ≡ length v
  length-set [] i e = refl
  length-set (x ∷ xs) zero e = refl
  length-set (x ∷ xs) (suc i) e = omega (arith, length-set xs i e)

  not_less : (n : ℕ) → ltb n n ≡ false
  not_less n = ground arith

  -- What the drop makes of a pushed element.
  pushed :
      (v : List E) (e : E)
      → IsSorted key cmp v
      → at_key v (key e) ≡ none
      → drop_guard key cmp ((push key cmp e (edit v)).0) ≡ upsert key cmp e v
  unfolding drop_guard push edit
  pushed v e h n =
      let len : length (v ++ e ∷ []) ≡ length v + 1 = omega (arith, length-append v (e ∷ [])) in
      let same : (length v == length v) ≡ true = (==_iff (length v) (length v)).1 refl in
      elim (Bool-cases (above key cmp (key e) (last v))) [
        | inl a ↦
            rw (drop_guard, push, same, a, len, not_less (length v + 1))
              (sym (sort_by-IsSorted key cmp (v ++ e ∷ []) (append-IsSorted v e h a))
                ∙ sort_by-upsert v e h n)
        | inr a ↦
            rw (drop_guard, push, same, a, len, lt→ltb (length v) (length v + 1) (omega arith))
              (sort_by-upsert v e h n)
      ]

  get_idx-edit : (v : List E) (k : K) → get_idx key cmp (edit v) k ≡ at_key v k
  unfolding get_idx edit
  get_idx-edit v k = get_impl-idx_of key cmp laws v k

  insert-upsert :
      (v : List E) (e : E)
      → IsSorted key cmp v
      → ((insert key cmp e (edit v)).0 ≡ lookup key cmp v (key e))
        × (drop_guard key cmp ((insert key cmp e (edit v)).1) ≡ upsert key cmp e v)
  unfolding insert edit drop_guard
  insert-upsert v e h =
      let found_there = search-lookup key cmp laws v (key e) h in
      elim (Option-cases (at_key v (key e))) [
        | inl n ↦
            rw (insert, get_idx-edit v (key e), n)
              (sym (ap (get_at v) n) ∙ found_there, pushed v e h n)
        | inr (i, k) ↦
            rw (insert, get_idx-edit v (key e), k)
              (
                sym (ap (get_at v) k) ∙ found_there,
                rw (drop_guard, length-set v i e, not_less (length v)) (set-upsert v e i k),
              )
      ]

  -- Inserting an element through the guard returns the element that the sorted map had for its key, and
  -- once the guard is dropped the map is sorted and looks up the new element for this key and what
  -- it did before for every other key.
  pub insert-drop_guard :
      (v : List E) (e : E)
      → IsSorted key cmp v
      → ((insert key cmp e (edit v)).0 ≡ lookup key cmp v (key e))
        × IsSorted key cmp (drop_guard key cmp ((insert key cmp e (edit v)).1))
        × ((k : K)
            → get key cmp (drop_guard key cmp ((insert key cmp e (edit v)).1)) k
              ≡ (if is_eq (cmp (key e) k) then some e else get key cmp v k))
  insert-drop_guard v e h =
      let (old, new) = insert-upsert v e h in
      let s = upsert-IsSorted key cmp laws e v h in
      (
        old,
        subst (IsSorted key cmp) (sym new) s,
        λ k.
            ap (λ m. get key cmp m k) new
            ∙ get-lookup key cmp laws (upsert key cmp e v) k s
            ∙ lookup-upsert key cmp laws e v k
            ∙ rw (get-lookup key cmp laws v k h) refl,
      )
