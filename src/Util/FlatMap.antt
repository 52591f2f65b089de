-- ===== src/Util/FlatMap.antt =====
-- `FlatMap` of `src/util/flatmap.rs`: a vector of elements in the order of their keys.
pub mod Dedup
use Prim.Native.Nat.{Ordering}
use vinezombie.Prelude.{
  ℕ, zero, suc, ◌+◌, ◌-◌, ◌≡◌, Bool, true, false, not, Option, none, some, List, [], ◌∷◌, ◌++◌,
  length, get_elem?, set, take, ltb, ◌==◌, if◌then◌else◌,
}

abbrev pub is_eq : Ordering → Bool
is_eq Ordering.eq = true
is_eq _ = false

abbrev pub is_gt : Ordering → Bool
is_gt Ordering.gt = true
is_gt _ = false

-- `cmp` is the comparison of keys, and `key` is `X::extract_key`.
module _ {E K : Type 0} (key : E → K) (cmp : K → K → Ordering) where
  -- `sort_by` is a stable sort: an element goes in front of the first one that is not less.
  unfoldable pub insert_sorted : E → List E → List E
  insert_sorted x [] = x ∷ []
  insert_sorted x (y ∷ ys) = elim (is_gt (cmp (key x) (key y))) [
    | true ↦ y ∷ insert_sorted x ys
    | false ↦ x ∷ y ∷ ys
  ]

  unfoldable pub sort_by : List E → List E
  unfolding insert_sorted
  sort_by [] = []
  sort_by (x ∷ xs) = insert_sorted x (sort_by xs)

  abbrev pub same_key : Option E → Option E → Bool
  same_key (some a) (some b) = is_eq (cmp (key a) (key b))
  same_key _ _ = false

  abbrev pub store : List E → ℕ → Option E → List E
  store v i none = v
  store v i (some a) = set v i a

  -- The loop of `do_dedup` over the vector and its two pointers; `n` is `last - ptr2`. The result
  -- is the vector and `ptr1`.
  unfoldable pub dedup_loop : ℕ → List E → ℕ → ℕ → List E × ℕ
  dedup_loop zero v p q = (v, p)
  dedup_loop (suc n) v p q =
      let hole = not (p == q) in
      let next = get_elem? v (q + 1) in
      elim (same_key (get_elem? v p) next) [
        | false ↦ dedup_loop n (if hole then store v (p + 1) next else v) (p + 1) (q + 1)
        | true ↦ dedup_loop n (store v p next) p (q + 1)
      ]

  abbrev pub kept : List E × ℕ → List E
  kept (v, p) = take (p + 1) v

  unfoldable pub do_dedup : List E → List E
  unfolding dedup_loop
  do_dedup v = if ltb (length v) 2 then v else kept (dedup_loop (length v - 1) v 0 0)

  -- `FlatMap::from_vec`, and `collect`.
  unfoldable pub from_vec : List E → List E
  unfolding sort_by do_dedup
  from_vec v = do_dedup (sort_by v)

  -- The keys strictly increase.
  abbrev pub IsSorted : List E → Type 0
  IsSorted [] = Unit
  IsSorted (x ∷ []) = Unit
  IsSorted (x ∷ y ∷ ys) = (cmp (key x) (key y) ≡ Ordering.lt) × IsSorted (y ∷ ys)
