-- ===== src/Util/EditGuard/Update.antt =====
-- Lookups in a sorted `FlatMap`, and one insertion through its guard, `src/util/flatmap.rs`.
use Prim.Native.Nat.{Ordering}
use vinezombie.Prelude.{
  ℕ, ◌≡◌, ◌⊎◌, refl, sym, ap, ◌∙◌, true, false, Option, none, some, List, [], ◌∷◌, length,
  take-length, drop-length, ltb, Bool-cases, inl, inr,
}
use vinezombie.Util.FlatMap.{is_eq, IsSorted}
use vinezombie.Util.EditGuard.{
  Searched, found, missing, next_index, binary_search, position, after_search, get_impl, get,
  get_at,
}

-- What `Ord` asks of a comparison of keys.
pub record Lawful {K : Type 0} (cmp : K → K → Ordering) : Type 0 where
  pub same : (a : K) → cmp a a ≡ Ordering.eq
  pub equal : (a b : K) → cmp a b ≡ Ordering.eq → a ≡ b
  pub greater : (a b : K) → cmp a b ≡ Ordering.lt → cmp b a ≡ Ordering.gt
  pub less : (a b : K) → cmp a b ≡ Ordering.gt → cmp b a ≡ Ordering.lt
  pub through : (a b c : K) → cmp a b ≡ Ordering.lt → cmp b c ≡ Ordering.lt → cmp a c ≡ Ordering.lt

pub Ordering-cases : (o : Ordering) → (o ≡ Ordering.lt) ⊎ (o ≡ Ordering.eq) ⊎ (o ≡ Ordering.gt)
Ordering-cases Ordering.lt = inl refl
Ordering-cases Ordering.eq = inr (inl refl)
Ordering-cases Ordering.gt = inr (inr refl)

module _ {E K : Type 0} (key : E → K) (cmp : K → K → Ordering) where
  -- The first element with the key, whatever the order.
  unfoldable pub lookup : List E → K → Option E
  lookup [] k = none
  lookup (x ∷ xs) k = elim (is_eq (cmp (key x) k)) [ true ↦ some x | false ↦ lookup xs k ]

  -- The map with an element for its key.
  unfoldable pub upsert : E → List E → List E
  upsert e [] = e ∷ []
  upsert e (x ∷ xs) = elim (cmp (key e) (key x)) [
    | Ordering.lt ↦ e ∷ x ∷ xs
    | Ordering.eq ↦ e ∷ xs
    | Ordering.gt ↦ x ∷ upsert e xs
  ]

  module _ (laws : Lawful cmp) where
    -- The key is below those of all elements.
    abbrev pub Below : K → List E → Type 0
    Below k [] = Unit
    Below k (x ∷ xs) = (cmp k (key x) ≡ Ordering.lt) × Below k xs

    pub Below-lookup : (k : K) (xs : List E) → Below k xs → lookup xs k ≡ none
    unfolding lookup
    Below-lookup k [] h = refl
    Below-lookup k (x ∷ xs) (e, h) = rw (lookup, laws.greater k (key x) e) (Below-lookup k xs h)

    pub Below-trans : (a b : K) (xs : List E) → cmp a b ≡ Ordering.lt → Below b xs → Below a xs
    Below-trans a b [] e h = tt
    Below-trans a b (x ∷ xs) e (h, hs) = (laws.through a b (key x) e h, Below-trans a b xs e hs)

    pub IsSorted-Below : (x : E) (xs : List E) → IsSorted key cmp (x ∷ xs) → Below (key x) xs
    IsSorted-Below x [] h = tt
    IsSorted-Below x (y ∷ ys) (e, h) = (e, Below-trans (key x) (key y) ys e (IsSorted-Below y ys h))

    pub IsSorted-tail : (x : E) (xs : List E) → IsSorted key cmp (x ∷ xs) → IsSorted key cmp xs
    IsSorted-tail x [] h = tt
    IsSorted-tail x (y ∷ ys) (e, h) = h

    pub Below-cons :
        (x : E) (xs : List E) → Below (key x) xs → IsSorted key cmp xs → IsSorted key cmp (x ∷ xs)
    Below-cons x [] b h = tt
    Below-cons x (y ∷ ys) (e, b) h = (e, h)

    unfoldable pub idx_of : Searched → Option ℕ
    idx_of (found i) = some i
    idx_of (missing i) = none

    -- A search in all of the elements, with none behind them.
    after_search-nil : (s : Searched) (n : ℕ) (k : K) → after_search key cmp s n [] k ≡ idx_of s
    unfolding position idx_of
    after_search-nil (found i) n k = refl
    after_search-nil (missing i) n k = elim (Bool-cases (ltb i n)) [
      | inl e ↦ rw e refl
      | inr e ↦ rw e refl
    ]

    pub get_impl-idx_of :
        (v : List E) (k : K) → get_impl key cmp v (length v) k ≡ idx_of (binary_search key cmp v k)
    unfolding get_impl
    get_impl-idx_of v k =
        rw (get_impl, take-length v, drop-length v)
          (after_search-nil (binary_search key cmp v k) (length v) k)

    get_at-next :
        (x : E) (xs : List E) (s : Searched)
        → get_at (x ∷ xs) (idx_of (next_index s)) ≡ get_at xs (idx_of s)
    unfolding idx_of
    get_at-next x xs (found i) = refl
    get_at-next x xs (missing i) = refl

    pub search-lookup :
        (v : List E) (k : K)
        → IsSorted key cmp v
        → get_at v (idx_of (binary_search key cmp v k)) ≡ lookup v k
    unfolding binary_search lookup idx_of
    search-lookup [] k h = refl
    search-lookup (x ∷ xs) k h = elim (Ordering-cases (cmp (key x) k)) [
      | inl e ↦
          rw (binary_search, lookup, e)
            (get_at-next x xs (binary_search key cmp xs k)
              ∙ search-lookup xs k (IsSorted-tail x xs h))
      | inr (inl e) ↦ rw (binary_search, lookup, e) refl
      | inr (inr e) ↦
          rw (binary_search, lookup, e)
            (sym (
              Below-lookup k xs
                (Below-trans k (key x) xs (laws.less (key x) k e) (IsSorted-Below x xs h))))
    ]

    -- In a sorted map, the binary search finds what a search through all elements finds.
    pub get-lookup : (v : List E) (k : K) → IsSorted key cmp v → get key cmp v k ≡ lookup v k
    unfolding get
    get-lookup v k h = ap (get_at v) (get_impl-idx_of v k) ∙ search-lookup v k h

    pub Below-upsert :
        (k : K) (e : E) (v : List E)
        → cmp k (key e) ≡ Ordering.lt
        → Below k v
        → Below k (upsert e v)
    unfolding upsert
    Below-upsert k e [] p h = (p, tt)
    Below-upsert k e (x ∷ xs) p (q, h) = elim (Ordering-cases (cmp (key e) (key x))) [
      | inl o ↦ rw (upsert, o) (p, (q, h))
      | inr (inl o) ↦ rw (upsert, o) (p, h)
      | inr (inr o) ↦ rw (upsert, o) (q, Below-upsert k e xs p h)
    ]
