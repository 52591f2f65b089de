-- ===== src/Util/EditGuard.antt =====
-- Lookups in a `FlatMap` and its `FlatMapEditGuard`, of `src/util/flatmap.rs`.
pub mod Update
pub mod Insert
pub mod Refines
pub mod Tail
use Prim.Native.Nat.{Ordering}
use vinezombie.Prelude.{
  ℕ, zero, suc, ◌+◌, ◌-◌, ◌≡◌, Bool, true, false, ◌&&◌, Option, none, some, List, [], ◌∷◌, ◌++◌,
  length, get_elem?, set, take, drop, ltb, ◌==◌, if◌then◌else◌,
}
use vinezombie.Util.FlatMap.{is_eq, is_gt, store, sort_by}

-- What `binary_search_by` returns: the index of a match, or where one would stand.
pub data Searched : Type 0 where
  found missing : ℕ → Searched

abbrev pub next_index : Searched → Searched
next_index (found i) = found (suc i)
next_index (missing i) = missing (suc i)

-- The guard: the elements up to `real_len`, and the length of the vector, up to which they are sorted.
pub record Guard (E : Type 0) : Type 0 where
  pub elems : List E
  pub sorted_until : ℕ

abbrev pub last : {E : Type 0} → List E → Option E
last [] = none
last (x ∷ []) = some x
last (x ∷ y ∷ ys) = last (y ∷ ys)

abbrev pub get_at : {E : Type 0} → List E → Option ℕ → Option E
get_at elems none = none
get_at elems (some i) = get_elem? elems i

module _ {E : Type 0} where
  unfoldable pub edit : List E → Guard E
  edit v = record { elems = v; sorted_until = length v }

  -- `len` of the guard, from `collection_methods!`.
  unfoldable pub guard_len : Guard E → ℕ
  guard_len g = g.sorted_until

  unfoldable pub guard_is_empty : Guard E → Bool
  guard_is_empty g = g.sorted_until == 0

  unfoldable pub guard_clear : Guard E → Guard E
  guard_clear g = record { elems = []; sorted_until = 0 }

module _ {E K : Type 0} (key : E → K) (cmp : K → K → Ordering) where
  -- `binary_search_by` on elements in strict order of their keys, where its result is determined.
  unfoldable pub binary_search : List E → K → Searched
  binary_search [] k = missing 0
  binary_search (x ∷ xs) k = elim (cmp (key x) k) [
    | Ordering.eq ↦ found 0
    | Ordering.gt ↦ missing 0
    | Ordering.lt ↦ next_index (binary_search xs k)
  ]

  -- `position` of the first element with the key, from an index on.
  unfoldable pub position : List E → K → ℕ → Option ℕ
  position [] k i = none
  position (x ∷ xs) k i = elim (is_eq (cmp (key x) k)) [
    | true ↦ some i
    | false ↦ position xs k (suc i)
  ]

  abbrev pub after_search : Searched → ℕ → List E → K → Option ℕ
  after_search (found i) sorted_until unsorted k = some i
  after_search (missing v) sorted_until unsorted k =
      if ltb v sorted_until then none else position unsorted k sorted_until

  unfoldable pub get_impl : List E → ℕ → K → Option ℕ
  unfolding binary_search position
  get_impl pairs sorted_until k =
      after_search (binary_search (take sorted_until pairs) k) sorted_until
        (drop sorted_until pairs) k

  -- `FlatMap::get`.
  unfoldable pub get : List E → K → Option E
  unfolding get_impl
  get v k = get_at v (get_impl v (length v) k)

  unfoldable pub get_idx : Guard E → K → Option ℕ
  unfolding get_impl
  get_idx g k = get_impl g.elems g.sorted_until k

  unfoldable pub guard_get : Guard E → K → Option E
  unfolding get_idx
  guard_get g k = get_at g.elems (get_idx g k)

  abbrev pub above : K → Option E → Bool
  above k none = true
  above k (some x) = is_gt (cmp k (key x))

  -- `push`, and the index that the reference it returns points at.
  unfoldable pub push : E → Guard E → Guard E × ℕ
  push elem g =
      let real_len = length g.elems in
      let is_sorted = g.sorted_until == real_len && above (key elem) (last g.elems) in
      (
        record {
          elems = g.elems ++ elem ∷ [];
          sorted_until = if is_sorted then g.sorted_until + 1 else g.sorted_until;
        },
        real_len + 1,
      )

  unfoldable pub insert : E → Guard E → Option E × Guard E
  unfolding get_idx push
  insert elem g = elim (get_idx g (key elem)) [
    | some idx ↦ (get_elem? g.elems idx, record g { elems = set g.elems idx elem })
    | none ↦ (none, (push elem g).0)
  ]

  unfoldable pub try_insert : E → Guard E → Option E × Guard E
  unfolding get_idx push
  try_insert elem g = elim (get_idx g (key elem)) [
    | some idx ↦ (some elem, g)
    | none ↦ (none, (push elem g).0)
  ]

  -- `get_or_insert`: the index that the reference points at, the element if it is not inserted, and
  -- the guard.
  unfoldable pub get_or_insert : E → Guard E → ℕ × Option E × Guard E
  unfolding get_idx push
  get_or_insert elem g = elim (get_idx g (key elem)) [
    | some idx ↦ (idx, some elem, g)
    | none ↦ let (g', idx) = push elem g in (idx, none, g')
  ]

  -- `swap_remove` of a vector of length `sorted_until`: the last of these moves to `idx`, and its place
  -- keeps the bytes. `real_len` counts one less, from the end of all elements.
  abbrev pub removed : ℕ → Guard E → Guard E
  removed idx g = record {
    elems =
        take (length g.elems - 1)
          (store key cmp g.elems idx (get_elem? g.elems (g.sorted_until - 1)));
    sorted_until = idx;
  }

  -- `remove`; the outer `none` is the panic of `swap_remove`.
  unfoldable pub remove : K → Guard E → Option (Option E × Guard E)
  unfolding get_idx
  remove k g = elim (get_idx g k) [
    | none ↦ some (none, g)
    | some idx ↦
        if ltb idx g.sorted_until then some (get_elem? g.elems idx, removed idx g) else none
  ]

  -- `drop`; on elements with different keys, `sort_unstable_by` is the stable sort.
  unfoldable pub drop_guard : Guard E → List E
  unfolding sort_by
  drop_guard g = if ltb g.sorted_until (length g.elems) then sort_by key cmp g.elems else g.elems
