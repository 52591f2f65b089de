-- ===== src/Util/FlatMap/Dedup.antt =====
-- The pointer loop of `do_dedup` keeps the last element of each run of equal keys.
use Prim.Native.Nat.{Ordering}
use vinezombie.Prelude.{
  ℕ, suc, ◌+◌, ◌-◌, ◌≡◌, refl, sym, ap, ◌∙◌, true, false, not, some, List, [], ◌∷◌, ◌++◌,
  append_assoc, arith, length, length-append, get_elem?, set, take-append_length, ltb, ◌==◌,
  if◌then◌else◌, Bool-cases, ==_iff, inl, inr,
}
use vinezombie.Util.FlatMap.{
  is_eq, dedup_loop, do_dedup, from_vec, sort_by, kept, same_key, store, IsSorted, insert_sorted,
}

module _ {E : Type 0} where
  get-append : (xs : List E) (y : E) (ys : List E) → get_elem? (xs ++ y ∷ ys) (length xs) ≡ some y
  get-append [] y ys = refl
  get-append (x ∷ xs) y ys = get-append xs y ys

  set-append :
      (xs : List E) (y : E) (ys : List E) (z : E) → set (xs ++ y ∷ ys) (length xs) z ≡ xs ++ z ∷ ys
  set-append [] y ys z = refl
  set-append (x ∷ xs) y ys z = ap (◌∷◌ x) (set-append xs y ys z)

module _ {E K : Type 0} (key : E → K) (cmp : K → K → Ordering) where
  -- The elements kept of `x ∷ xs`: one is dropped if the next has the same key.
  unfoldable pub keep_last : E → List E → List E
  keep_last x [] = x ∷ []
  keep_last x (y ∷ ys) = elim (is_eq (cmp (key x) (key y))) [
    | true ↦ keep_last y ys
    | false ↦ x ∷ keep_last y ys
  ]

  -- The state of the loop: `out` is kept, `x` is at the first pointer, stale elements between the
  -- pointers, and `rest` is behind the second.
  record At (out : List E) (x : E) (mid rest v : List E) (p q : ℕ) : Type 0 where
    vector : v ≡ out ++ x ∷ (mid ++ rest)
    first : p ≡ length out
    second : q ≡ length out + length mid

  module _ (out : List E) (x : E) (mid : List E) (y : E) (rest v : List E) (p q : ℕ)
      (at : At out x mid (y ∷ rest) v p q) where
    regroup : v ≡ (out ++ x ∷ mid) ++ y ∷ rest
    regroup = at.vector ∙ sym (append_assoc out (x ∷ mid) (y ∷ rest))

    first_elem : get_elem? v p ≡ some x
    first_elem = rw (at.vector, at.first) (get-append out x (mid ++ y ∷ rest))

    second_elem : get_elem? v (q + 1) ≡ some y
    second_elem =
        let e : q + 1 ≡ length (out ++ x ∷ mid) =
          omega (arith, at.second, length-append out (x ∷ mid)) in
        rw (regroup, e) (get-append (out ++ x ∷ mid) y rest)

    -- Equal keys: `x` is overwritten.
    step_same : At out y (mid ++ y ∷ []) rest (store key cmp v p (some y)) p (q + 1)
    step_same = record {
      vector = rw (at.vector, at.first) (set-append out x (mid ++ y ∷ rest) y ∙ rw append_assoc);
      first = at.first;
      second = omega (arith, at.second, length-append mid (y ∷ []));
    }

  -- Different keys: `x` is kept, and `y` moves down behind it if there is a hole.
  step_other :
      (out : List E) (x : E) (mid : List E) (y : E) (rest v : List E) (p q : ℕ)
      → At out x mid (y ∷ rest) v p q
      → (mid' : List E) × At
          (out ++ x ∷ [])
          y
          mid'
          rest
          (if not (p == q) then store key cmp v (p + 1) (some y) else v)
          (p + 1)
          (q + 1)
  step_other out x [] y rest v p q at =
      let e : (p == q) ≡ true = (==_iff p q).1 (omega (arith, at.first, at.second)) in
      (
        [],
        rw e (record {
          vector = at.vector ∙ rw append_assoc;
          first = omega (arith, at.first, length-append out (x ∷ []));
          second = omega (arith, at.second, length-append out (x ∷ []));
        }),
      )
  step_other out x (m ∷ mid) y rest v p q at =
      let e : (p == q) ≡ false = ground (arith, at.first, at.second) in
      let at_next : p + 1 ≡ length (out ++ x ∷ []) =
        omega (arith, at.first, length-append out (x ∷ [])) in
      (
        mid ++ y ∷ [],
        rw e (record {
          vector =
              rw (at.vector ∙ sym (append_assoc out (x ∷ []) (m ∷ (mid ++ y ∷ rest))), at_next)
                (set-append (out ++ x ∷ []) m (mid ++ y ∷ rest) y
                  ∙ rw (append_assoc mid (y ∷ []) rest));
          first = at_next;
          second = omega (arith, at.second, length-append out (x ∷ []), length-append mid (y ∷ []));
        }),
      )

  module _ (n : ℕ) (v : List E) (p q : ℕ) {y : E} (next : get_elem? v (q + 1) ≡ some y) where
    dedup_same :
        same_key key cmp (get_elem? v p) (some y) ≡ true
        → dedup_loop key cmp (suc n) v p q
          ≡ dedup_loop key cmp n (store key cmp v p (some y)) p (q + 1)
    unfolding dedup_loop
    dedup_same h = rw (next, h, dedup_loop) (rw next)

    dedup_other :
        same_key key cmp (get_elem? v p) (some y) ≡ false
        → dedup_loop key cmp (suc n) v p q
          ≡ dedup_loop key cmp n
              (if not (p == q) then store key cmp v (p + 1) (some y) else v)
              (p + 1)
              (q + 1)
    unfolding dedup_loop
    dedup_other h = rw (next, h, dedup_loop) (rw next)

  keep_last-cons_same :
      (x y : E) (ys : List E)
      → is_eq (cmp (key x) (key y)) ≡ true
      → keep_last x (y ∷ ys) ≡ keep_last y ys
  unfolding keep_last
  keep_last-cons_same x y ys h = rw (h, keep_last)

  keep_last-cons_other :
      (x y : E) (ys : List E)
      → is_eq (cmp (key x) (key y)) ≡ false
      → keep_last x (y ∷ ys) ≡ x ∷ keep_last y ys
  unfolding keep_last
  keep_last-cons_other x y ys h = rw (h, keep_last)

  dedup_loop-keep_last :
      (out : List E) (x : E) (mid rest v : List E) (p q : ℕ)
      → At out x mid rest v p q
      → kept key cmp (dedup_loop key cmp (length rest) v p q) ≡ out ++ keep_last x rest
  dedup_loop-keep_last out x mid [] v p q at =
      let e : p + 1 ≡ length (out ++ x ∷ []) =
        omega (arith, at.first, length-append out (x ∷ [])) in
      unfold dedup_loop keep_last in
      rw (at.vector ∙ sym (append_assoc out (x ∷ []) (mid ++ [])), e)
        (take-append_length (out ++ x ∷ []) (mid ++ []))
  dedup_loop-keep_last out x mid (y ∷ rest) v p q at =
      let next = second_elem out x mid y rest v p q at in
      let here = first_elem out x mid y rest v p q at in
      elim (Bool-cases (is_eq (cmp (key x) (key y)))) [
        | inl e ↦
            ap (kept key cmp) (dedup_same (length rest) v p q next (rw here e))
            ∙ dedup_loop-keep_last out y (mid ++ y ∷ []) rest _ p (q + 1)
                (step_same out x mid y rest v p q at)
            ∙ ap (◌++◌ out) (sym (keep_last-cons_same x y rest e))
        | inr e ↦
            let (mid', at') = step_other out x mid y rest v p q at in
            ap (kept key cmp) (dedup_other (length rest) v p q next (rw here e))
            ∙ dedup_loop-keep_last (out ++ x ∷ []) y mid' rest _ (p + 1) (q + 1) at'
            ∙ append_assoc out (x ∷ []) (keep_last y rest)
            ∙ ap (◌++◌ out) (sym (keep_last-cons_other x y rest e))
      ]

  -- The pointer loop computes the plain recursion: of each run of elements with equal keys, the
  -- last one stays.
  pub do_dedup-keep_last : (x : E) (xs : List E) → do_dedup key cmp (x ∷ xs) ≡ keep_last x xs
  unfolding do_dedup
  do_dedup-keep_last x [] = unfold keep_last in refl
  do_dedup-keep_last x (y ∷ ys) =
      let long : ltb (suc (suc (length ys))) 2 ≡ false = ground arith in
      let rounds : suc (suc (length ys)) - 1 ≡ length (y ∷ ys) = omega arith in
      rw (long, rounds)
        (dedup_loop-keep_last [] x [] (y ∷ ys) (x ∷ y ∷ ys) 0 0
          (record { vector = refl; first = refl; second = refl }))

  keep_last-IsSorted : (x : E) (xs : List E) → IsSorted key cmp (x ∷ xs) → keep_last x xs ≡ x ∷ xs
  keep_last-IsSorted x [] h = unfold keep_last in refl
  keep_last-IsSorted x (y ∷ ys) h =
      keep_last-cons_other x y ys (rw h.0) ∙ ap (◌∷◌ x) (keep_last-IsSorted y ys h.1)

  pub insert_sorted-front :
      (x : E) (xs : List E) → IsSorted key cmp (x ∷ xs) → insert_sorted key cmp x xs ≡ x ∷ xs
  unfolding insert_sorted
  insert_sorted-front x [] h = refl
  insert_sorted-front x (y ∷ ys) h = rw (h.0, insert_sorted)

  pub sort_by-IsSorted : (xs : List E) → IsSorted key cmp xs → sort_by key cmp xs ≡ xs
  unfolding sort_by
  sort_by-IsSorted [] h = refl
  sort_by-IsSorted (x ∷ []) h = refl
  sort_by-IsSorted (x ∷ y ∷ ys) h =
      ap (insert_sorted key cmp x) (sort_by-IsSorted (y ∷ ys) h.1)
      ∙ insert_sorted-front x (y ∷ ys) h

  -- A vector whose keys strictly increase is a `FlatMap` as it stands.
  pub from_vec-IsSorted : (xs : List E) → IsSorted key cmp xs → from_vec key cmp xs ≡ xs
  unfolding from_vec
  from_vec-IsSorted [] h = refl
  from_vec-IsSorted (x ∷ xs) h =
      ap (do_dedup key cmp) (sort_by-IsSorted (x ∷ xs) h)
      ∙ do_dedup-keep_last x xs
      ∙ keep_last-IsSorted x xs h
