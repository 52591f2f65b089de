-- ===== src/Names.antt =====
-- `NameMap` and its edit guard, of `src/names/types.rs`, over the flat map of `src/util/flatmap.rs`. A value of
-- the union type has its tag, whose bytes are the key, and each has an extra value.
use vinezombie.Prelude.{ℕ, Option, none, some, List, [], ◌∷◌, Bytes, get_elem?, set}
use vinezombie.Util.EditGuard as EditGuard
use vinezombie.Util.EditGuard.{Guard}
use vinezombie.Ircmsg.Tags.{compare_bytes}

abbrev parsed : {U A : Type 0} → (U → A) → Option U → Option A
parsed from_union none = none
parsed from_union (some u) = some (from_union u)

module _ {U V : Type 0} (tag : U → Bytes) where
  -- `NameExtractor::extract_key`.
  abbrev pub extract_key : U × V → Bytes
  extract_key e = tag e.0

  abbrev pub union_of : Option (U × V) → Option U
  union_of none = none
  union_of (some e) = some e.0

  abbrev pub extra_of : Option (U × V) → Option V
  extra_of none = none
  extra_of (some e) = some e.1

  unfoldable pub get_union_raw : Bytes → List (U × V) → Option U
  unfolding EditGuard.get compare_bytes
  get_union_raw k m = union_of (EditGuard.get extract_key compare_bytes m k)

  unfoldable pub get_extra_raw : Bytes → List (U × V) → Option V
  unfolding EditGuard.get compare_bytes
  get_extra_raw k m = extra_of (EditGuard.get extract_key compare_bytes m k)

  -- `get_parsed`, with the `from_union` of the name.
  unfoldable pub get_parsed : {A : Type 0} → (U → A) → Bytes → List (U × V) → Option A
  unfolding get_union_raw
  get_parsed from_union k m = parsed from_union (get_union_raw k m)

  unfoldable pub keys : List (U × V) → List Bytes
  keys [] = []
  keys (e ∷ es) = tag e.0 ∷ keys es

  unfoldable pub edit : List (U × V) → Guard (U × V)
  unfolding EditGuard.edit
  edit m = EditGuard.edit m

  unfoldable pub insert : U → V → Guard (U × V) → Option (U × V) × Guard (U × V)
  unfolding EditGuard.insert compare_bytes
  insert elem extra g = EditGuard.insert extract_key compare_bytes (elem, extra) g

  -- The extra value is put at the index that the reference points at.
  abbrev pub update_at : ℕ → V → Option (U × V) → List (U × V) → List (U × V)
  update_at i extra none es = es
  update_at i extra (some e) es = set es i (e.0, extra)

  abbrev pub updated : ℕ × Option (U × V) × Guard (U × V) → Option U × Guard (U × V)
  updated (i, some (elem, extra), g) =
      (some elem, record g { elems = update_at i extra (get_elem? g.elems i) g.elems })
  updated (i, none, g) = (none, g)

  unfoldable pub insert_or_update : U → V → Guard (U × V) → Option U × Guard (U × V)
  unfolding EditGuard.get_or_insert compare_bytes
  insert_or_update elem extra g =
      updated (EditGuard.get_or_insert extract_key compare_bytes (elem, extra) g)

  unfoldable pub try_insert : U → V → Guard (U × V) → Option (U × V) × Guard (U × V)
  unfolding EditGuard.try_insert compare_bytes
  try_insert elem extra g = EditGuard.try_insert extract_key compare_bytes (elem, extra) g

  -- The outer `none` is a panic.
  unfoldable pub remove_raw : Bytes → Guard (U × V) → Option (Option (U × V) × Guard (U × V))
  unfolding EditGuard.remove compare_bytes
  remove_raw k g = EditGuard.remove extract_key compare_bytes k g

  -- What the map is once the guard is dropped.
  unfoldable pub dropped : Guard (U × V) → List (U × V)
  unfolding EditGuard.drop_guard compare_bytes
  dropped g = EditGuard.drop_guard extract_key compare_bytes g
