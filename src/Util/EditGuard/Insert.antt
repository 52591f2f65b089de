-- ===== src/Util/EditGuard/Insert.antt =====
-- One insertion through the guard of a `FlatMap`, `src/util/flatmap.rs`.
use Prim.Native.Nat.{Ordering}
use vinezombie.Prelude.{
  ◌≡◌, refl, sym, ap, ◌∙◌, subst, Bool, true, false, some, List, [], ◌∷◌, if◌then◌else◌, Bool-cases,
  inl, inr,
}
use vinezombie.Util.FlatMap.{is_eq, IsSorted}
use vinezombie.Util.EditGuard.Update.{
  Lawful, Ordering-cases, lookup, upsert, Below, IsSorted-Below, IsSorted-tail, Below-cons,
  Below-upsert,
}

module _ {E K : Type 0} (key : E → K) (cmp : K → K → Ordering) (laws : Lawful cmp) where
  pub upsert-IsSorted :
      (e : E) (v : List E) → IsSorted key cmp v → IsSorted key cmp (upsert key cmp e v)
  unfolding upsert
  upsert-IsSorted e [] h = tt
  upsert-IsSorted e (x ∷ xs) h = elim (Ordering-cases (cmp (key e) (key x))) [
    | inl o ↦ rw (upsert, o) (o, h)
    | inr (inl o) ↦
        let b = IsSorted-Below key cmp laws x xs h in
        let k = laws.equal (key e) (key x) o in
        rw (upsert, o)
          (Below-cons key cmp laws e xs (subst (λ (a : K). Below key cmp laws a xs) (sym k) b)
            (IsSorted-tail key cmp laws x xs h))
    | inr (inr o) ↦
        rw (upsert, o)
          (Below-cons key cmp laws x (upsert key cmp e xs)
            (Below-upsert key cmp laws (key x) e xs (laws.less (key e) (key x) o)
              (IsSorted-Below key cmp laws x xs h))
            (upsert-IsSorted e xs (IsSorted-tail key cmp laws x xs h)))
  ]

  is_eq-equal : (a b : K) → is_eq (cmp a b) ≡ true → a ≡ b
  is_eq-equal a b h = elim (Ordering-cases (cmp a b)) [
    | inl o ↦ absurd (let k : is_eq Ordering.lt ≡ true = rw o at h in cc)
    | inr (inl o) ↦ laws.equal a b o
    | inr (inr o) ↦ absurd (let k : is_eq Ordering.gt ≡ true = rw o at h in cc)
  ]

  lookup_cons :
      (x : E) (xs : List E) (k : K)
      → lookup key cmp (x ∷ xs) k ≡ (if is_eq (cmp (key x) k) then some x else lookup key cmp xs k)
  unfolding lookup
  lookup_cons x xs k = elim (Bool-cases (is_eq (cmp (key x) k))) [
    | inl b ↦ rw (lookup, b) refl
    | inr b ↦ rw (lookup, b) refl
  ]

  replaced :
      (e x : E) (xs : List E) (k : K)
      → key e ≡ key x
      → lookup key cmp (e ∷ xs) k
        ≡ (if is_eq (cmp (key e) k) then some e else lookup key cmp (x ∷ xs) k)
  replaced e x xs k q =
      lookup_cons e xs k ∙ rw (lookup_cons x xs k, ← q) (both (is_eq (cmp (key e) k)))
    where
      both :
          (b : Bool)
          → (if b then some e else lookup key cmp xs k)
            ≡ (if b then some e else (if b then some x else lookup key cmp xs k))
      both true = refl
      both false = refl

  swapped :
      (e x : E) (xs : List E) (k : K)
      → cmp (key e) (key x) ≡ Ordering.gt
      → (if is_eq (cmp (key x) k)
          then some x
          else (if is_eq (cmp (key e) k) then some e else lookup key cmp xs k))
        ≡ (if is_eq (cmp (key e) k)
            then some e
            else (if is_eq (cmp (key x) k) then some x else lookup key cmp xs k))
  swapped e x xs k o = elim (Bool-cases (is_eq (cmp (key x) k))) [
    | inl b ↦
        let q = is_eq-equal (key x) k b in
        let n : is_eq (cmp (key e) k) ≡ false =
          subst (λ (a : K). is_eq (cmp (key e) a) ≡ false) q (ap is_eq o) in
        rw (b, n) refl
    | inr b ↦ rw b refl
  ]

  pub lookup-upsert :
      (e : E) (v : List E) (k : K)
      → lookup key cmp (upsert key cmp e v) k
        ≡ (if is_eq (cmp (key e) k) then some e else lookup key cmp v k)
  unfolding upsert lookup
  lookup-upsert e [] k = lookup_cons e [] k
  lookup-upsert e (x ∷ xs) k = elim (Ordering-cases (cmp (key e) (key x))) [
    | inl o ↦ rw (upsert, o) (lookup_cons e (x ∷ xs) k)
    | inr (inl o) ↦ rw (upsert, o) (replaced e x xs k (laws.equal (key e) (key x) o))
    | inr (inr o) ↦
        rw (upsert, o)
          (lookup_cons x (upsert key cmp e xs) k
            ∙ rw (lookup-upsert e xs k, lookup_cons x xs k) (swapped e x xs k o))
  ]
