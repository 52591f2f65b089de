-- ===== src/Client/Handlers/Ids.antt =====
-- The identifiers of the handlers of `src/client/handler.rs`.
use native.Mathlib.Nat.{ℕ_set}
use native.Mathlib.Bridge.{le_prop}
use mathlib.Core.Logic.Or
use mathlib.Core.List.{
  Perm, Mem, Nodup, foldr, not-mem-nil, mem-cons, Nodup-nil, Nodup-cons, perm_append_singleton,
  perm_middle, perm_append_comm,
}
use mathlib.Core.List.Perm
use vinezombie.Prelude.{
  ℕ, zero, suc, ◌+◌, ◌<◌, ◌≡◌, refl, sym, ap, ◌∙◌, subst, Bool, ◌||◌, Bool-cases, inl, inr,
  Option-cases, some, List, [], ◌∷◌, ◌++◌, map, append_assoc, length, length-append, ◌==◌, ==_iff,
  arith,
}
use vinezombie.Client.Handlers.{
  keep, finish, Ran, Handlers, empty_handlers, last_of, init_of, id_or, position_of, swap_remove,
  add, cancel_one, cancel, handle,
}
use vinezombie.Client.Handlers.SwapRemove.{brought, brought-Perm, last-Perm, swap_remove-append}
use vinezombie.Client.Handlers.Served.{with_status, serve, handle-serve}

-- The numbers below a bound.
abbrev below : ℕ → List ℕ
below zero = []
below (suc n) = n ∷ below n

Mem-below : (n m : ℕ) → Mem m (below n) → m < n
Mem-below zero m h = absurd (not-mem-nil h)
Mem-below (suc n) m h =
    Or.elim le_prop (mem-cons.0 h) (λ e. omega arith) (λ k. omega (arith, Mem-below n m k))

below-Nodup : (n : ℕ) → Nodup (below n)
below-Nodup zero = Nodup-nil
below-Nodup (suc n) = Nodup-cons.1 (λ h. absurd (omega (arith, Mem-below n n h)), below-Nodup n)

module _ {A : Type 0} where
  length-foldr : (xs : List A) → foldr (λ (x : A) (n : ℕ). suc n) 0 xs ≡ length xs
  length-foldr [] = refl
  length-foldr (x ∷ xs) = ap suc (length-foldr xs)

  length-Perm : {xs ys : List A} → Perm xs ys → length xs ≡ length ys
  length-Perm {xs} {ys} p =
      sym (length-foldr xs)
      ∙ Perm.foldr-eq ℕ_set (λ (x : A) (n : ℕ). suc n) (λ x y n. refl) p 0
      ∙ length-foldr ys

some_inj : {A : Type 0} {x y : A} → some x ≡ some y → x ≡ y
some_inj h = cc

module _ {B : Type 0} where
  abbrev pub ids : List (B × ℕ) → List ℕ
  ids hs = map (λ p. p.1) hs

  -- The identifiers in use and those that are free again are the numbers below how many they are.
  pub record IsValid (h : Handlers B) : Type 0 where
    pub numbered :
        Perm (ids h.handlers ++ h.finished) (below (length h.handlers + length h.finished))

  IsValid-Nodup : {h : Handlers B} → IsValid h → Nodup (ids h.handlers ++ h.finished)
  IsValid-Nodup v = Perm.nodup (Perm.symm v.numbered) (below-Nodup _)

  ids-append : (xs ys : List (B × ℕ)) → ids (xs ++ ys) ≡ ids xs ++ ids ys
  ids-append [] ys = refl
  ids-append (x ∷ xs) ys = ap (◌∷◌ x.1) (ids-append xs ys)

  length-ids : (xs : List (B × ℕ)) → length (ids xs) ≡ length xs
  length-ids [] = refl
  length-ids (x ∷ xs) = omega (arith, length-ids xs)

  empty-IsValid : IsValid empty_handlers
  empty-IsValid = record { numbered = Perm.nil }

  -- A collection that has the same identifiers, moved between those in use and the free ones.
  moved-IsValid :
      {h h' : Handlers B}
      → Perm (ids h'.handlers ++ h'.finished) (ids h.handlers ++ h.finished)
      → IsValid h
      → IsValid h'
  moved-IsValid {h} {h'} p v = record {
    numbered =
        let n : length h.handlers + length h.finished ≡ length h'.handlers + length h'.finished =
          omega (
            arith,
            length-Perm p,
            length-append (ids h.handlers) h.finished,
            length-append (ids h'.handlers) h'.finished,
            length-ids h.handlers,
            length-ids h'.handlers,
          ) in
        rw (← n) (Perm.trans p v.numbered);
  }

  added :
      (hs : List (B × ℕ)) (b : B) (id : ℕ) (fs : List ℕ)
      → Perm (ids (hs ++ (b, id) ∷ []) ++ fs) (id ∷ (ids hs ++ fs))
  added hs b id fs =
      rw (ids-append hs ((b, id) ∷ []), append_assoc (ids hs) (id ∷ []) fs)
        (perm_middle (ids hs) fs)

  add-IsValid : (b : B) (w : Bool) (h : Handlers B) → IsValid h → IsValid (add b w h).1
  unfolding add
  add-IsValid b w h v = by_free h.finished refl
    where
      by_free :
          (fs : List ℕ)
          → h.finished ≡ fs
          → IsValid (record h {
            handlers = h.handlers ++ (b, id_or (last_of fs) (length h.handlers)) ∷ [];
            finished = init_of fs;
            wants_owning = h.wants_owning || w;
          })
      by_free [] e = record {
        numbered =
            let n : length (h.handlers ++ (b, length h.handlers) ∷ []) + 0
                ≡ suc (length h.handlers + 0) =
              omega (arith, length-append h.handlers ((b, length h.handlers) ∷ [])) in
            let m : length h.handlers ≡ length h.handlers + 0 = omega arith in
            let old : Perm (ids h.handlers ++ []) (below (length h.handlers + 0)) =
              rw e at v.numbered in
            rw n (
              Perm.trans (added h.handlers b (length h.handlers) []) (
                subst (λ k. Perm (k ∷ (ids h.handlers ++ [])) (below (suc (length h.handlers + 0))))
                  (sym m) (Perm.cons (length h.handlers + 0) old)));
      }
      by_free (f ∷ fs) e =
          let (l, is_last, back) = last-Perm f fs in
          rw is_last (
            moved-IsValid {h = h}
              (Perm.trans (added h.handlers b l (init_of (f ∷ fs))) (
                Perm.trans (Perm.symm (perm_middle (ids h.handlers) (init_of (f ∷ fs))))
                  (rw e (Perm.append_left (ids h.handlers) back))))
              v)

  module _ {M S Q : Type 0} (run : B → M → S → Q → Ran B S Q) (msg : M) where
    served-ids :
        (order : List (B × ℕ)) (s : S) (q : Q)
        → Perm
            (ids (serve run msg order s q).kept ++ (serve run msg order s q).finishes)
            (ids order)
    unfolding serve
    served-ids [] s q = Perm.nil
    served-ids ((b, id) ∷ hs) s q = by_run (run b msg s q) (λ s' q'. served-ids hs s' q')
      where
        by_run :
            (r : Ran B S Q)
            → ((s' : S) (q' : Q)
                → Perm
                    (ids (serve run msg hs s' q').kept ++ (serve run msg hs s' q').finishes)
                    (ids hs))
            → let (status, b', s', q') = r in
              let o = with_status run msg status id b' (serve run msg hs s' q') in
              Perm (ids o.kept ++ o.finishes) (id ∷ ids hs)
        by_run (keep y w, b', s', q') ih = Perm.cons id (ih s' q')
        by_run (finish y, b', s', q') ih =
            Perm.trans
              (perm_middle (ids (serve run msg hs s' q').kept) (serve run msg hs s' q').finishes)
              (Perm.cons id (ih s' q'))

    handle-IsValid : (h : Handlers B) (s : S) (q : Q) → IsValid h → IsValid (handle run msg h s q).1
    handle-IsValid h s q v =
        let (order, all, e) = handle-serve run msg h s q in
        let o = serve run msg order s q in
        rw e (
          moved-IsValid {h = h}
            (Perm.trans (Perm.append_left (ids o.kept) (perm_append_comm h.finished o.finishes)) (
              rw (← append_assoc (ids o.kept) o.finishes h.finished) (
                Perm.append_right h.finished
                  (Perm.trans (served-ids order s q) (Perm.map (λ p. p.1) all)))))
            v)

  position-split :
      (id : ℕ) (hs : List (B × ℕ)) {idx : ℕ}
      → position_of id hs ≡ some idx
      → (front : List (B × ℕ)) × (b : B) × (back : List (B × ℕ)) × (hs ≡ front ++ (b, id) ∷ back)
        × (idx ≡ length front)
  position-split id [] e = absurd (ground arith)
  position-split id ((b, n) ∷ hs) {idx} e = elim (Bool-cases (id == n)) [
    | inl same ↦ let k : id ≡ n = (==_iff id n).0 same in ([], b, hs, rw k, ground arith)
    | inr other ↦ elim (Option-cases (position_of id hs)) [
      | inl none_there ↦ absurd (ground arith)
      | inr (i, there) ↦
          let (front, b', back, whole, at) = position-split id hs there in
          ((b, n) ∷ front, b', back, ap (◌∷◌ (b, n)) whole, ground arith)
    ]
  ]

  cancelled :
      (id : ℕ) (h : Handlers B) {idx : ℕ}
      → position_of id h.handlers ≡ some idx
      → Perm
          (ids (swap_remove h.handlers idx) ++ (h.finished ++ id ∷ []))
          (ids h.handlers ++ h.finished)
  cancelled id h {idx} e =
      let (front, b, back, whole, at) = position-split id h.handlers e in
      let taken : ids (swap_remove h.handlers idx) ≡ ids front ++ ids (brought back) =
        rw (whole, at, swap_remove-append front (b, id) back) (ids-append front (brought back)) in
      let split : ids h.handlers ≡ ids front ++ id ∷ ids back =
        rw whole (ids-append front ((b, id) ∷ back)) in
      rw (taken, split)
        (Perm.trans
          (Perm.append_left (ids front ++ ids (brought back)) (perm_append_singleton id h.finished))
          (Perm.trans (perm_middle (ids front ++ ids (brought back)) h.finished) (
            Perm.trans
              (Perm.cons id (
                Perm.append_right h.finished
                  (Perm.append_left (ids front) (Perm.map (λ p. p.1) (brought-Perm back)))))
              (Perm.append_right h.finished (Perm.symm (perm_middle (ids front) (ids back)))))))

  cancel_one-IsValid :
      (id : ℕ) (h h' : Handlers B) → cancel_one id h ≡ some h' → IsValid h → IsValid h'
  unfolding cancel_one
  cancel_one-IsValid id h h' e v = elim (Option-cases (position_of id h.handlers)) [
    | inl none_there ↦ absurd (ground arith)
    | inr (idx, there) ↦
        subst IsValid (some_inj (rw (there, cancel_one) at e))
          (moved-IsValid {h = h} (cancelled id h there) v)
  ]

-- What the client does with its handlers.
module _ {B M S Q : Type 0} (run : B → M → S → Q → Ran B S Q) where
  pub data Reached : Handlers B → Type 0 where
    start : Reached empty_handlers
    adding : {h : Handlers B} (b : B) (w : Bool) → Reached h → Reached (add b w h).1
    cancelling : {h h' : Handlers B} (id : ℕ) → cancel_one id h ≡ some h' → Reached h → Reached h'
    clearing : {h : Handlers B} → Reached h → Reached (cancel h)
    handling :
        {h : Handlers B} (msg : M) (s : S) (q : Q) → Reached h → Reached (handle run msg h s q).1

  Reached-IsValid : {h : Handlers B} → Reached h → IsValid h
  unfolding cancel
  Reached-IsValid start = empty-IsValid
  Reached-IsValid (adding {h = h} b w r) = add-IsValid b w h (Reached-IsValid r)
  Reached-IsValid (cancelling {h = h} {h' = h'} id e r) =
      cancel_one-IsValid id h h' e (Reached-IsValid r)
  Reached-IsValid (clearing r) = empty-IsValid
  Reached-IsValid (handling {h = h} msg s q r) = handle-IsValid run msg h s q (Reached-IsValid r)

  -- However handlers are added, cancelled and run, no two of them have one identifier, and none has one
  -- that counts as free.
  pub Reached-Nodup : {h : Handlers B} → Reached h → Nodup (ids h.handlers ++ h.finished)
  Reached-Nodup r = IsValid-Nodup (Reached-IsValid r)
