-- ===== src/Ircmsg/Tags/Edit.antt =====
-- `TagsEditGuard` of `src/ircmsg/tags.rs`, and the order of its keys.
use Prim.Native.Nat.{Ordering}
use vinezombie.Prelude.{
  ◌≡◌, refl, ap, ◌∙◌, Bool, true, false, Option, none, some, [], ◌∷◌, Bytes, arith, if◌then◌else◌,
}
use vinezombie.Util.FlatMap.{is_eq, IsSorted}
use vinezombie.Util.EditGuard.{Guard, edit, guard_get, insert, remove, guard_clear, drop_guard, get}
use vinezombie.Util.EditGuard.Update.{Lawful, lookup}
use vinezombie.Util.EditGuard.Refines.{insert-drop_guard}
use vinezombie.Ircmsg.Tags.{Tag, Tags, tag_key, compare_bytes}

abbrev pub value_of : Option Tag → Option Bytes
value_of none = none
value_of (some t) = some t.1

unfoldable pub edit_tags : Tags → Guard Tag
unfolding edit
edit_tags ts = edit ts

unfoldable pub get_value : Guard Tag → Bytes → Option Bytes
unfolding guard_get compare_bytes
get_value g k = value_of (guard_get tag_key compare_bytes g k)

unfoldable pub insert_pair : Bytes → Bytes → Guard Tag → Option Bytes × Guard Tag
unfolding insert compare_bytes
insert_pair k v g = let (old, g') = insert tag_key compare_bytes (k, v) g in (value_of old, g')

unfoldable pub insert_key : Bytes → Guard Tag → Option Bytes × Guard Tag
unfolding insert_pair
insert_key k g = insert_pair k [] g

abbrev removed_value : Option (Option Tag × Guard Tag) → Option (Option Bytes × Guard Tag)
removed_value none = none
removed_value (some (t, g)) = some (value_of t, g)

-- The outer `none` is a panic.
unfoldable pub remove_value : Bytes → Guard Tag → Option (Option Bytes × Guard Tag)
unfolding remove compare_bytes
remove_value k g = removed_value (remove tag_key compare_bytes k g)

unfoldable pub clear : Guard Tag → Guard Tag
unfolding guard_clear
clear g = guard_clear g

compare_bytes-same : (a : Bytes) → compare_bytes a a ≡ Ordering.eq
unfolding compare_bytes
compare_bytes-same [] = refl
compare_bytes-same (x ∷ xs) = let IH = compare_bytes-same xs in ground arith

compare_bytes-equal : (a b : Bytes) → compare_bytes a b ≡ Ordering.eq → a ≡ b
unfolding compare_bytes
compare_bytes-equal [] [] h = refl
compare_bytes-equal [] (y ∷ ys) h = absurd (cc)
compare_bytes-equal (x ∷ xs) [] h = absurd (cc)
compare_bytes-equal (x ∷ xs) (y ∷ ys) h = let IH = compare_bytes-equal xs ys in ground arith

compare_bytes-greater :
    (a b : Bytes) → compare_bytes a b ≡ Ordering.lt → compare_bytes b a ≡ Ordering.gt
unfolding compare_bytes
compare_bytes-greater [] [] h = absurd (cc)
compare_bytes-greater [] (y ∷ ys) h = refl
compare_bytes-greater (x ∷ xs) [] h = absurd (cc)
compare_bytes-greater (x ∷ xs) (y ∷ ys) h = let IH = compare_bytes-greater xs ys in ground arith

compare_bytes-less :
    (a b : Bytes) → compare_bytes a b ≡ Ordering.gt → compare_bytes b a ≡ Ordering.lt
unfolding compare_bytes
compare_bytes-less [] [] h = absurd (cc)
compare_bytes-less [] (y ∷ ys) h = absurd (cc)
compare_bytes-less (x ∷ xs) [] h = refl
compare_bytes-less (x ∷ xs) (y ∷ ys) h = let IH = compare_bytes-less xs ys in ground arith

compare_bytes-through :
    (a b c : Bytes)
    → compare_bytes a b ≡ Ordering.lt
    → compare_bytes b c ≡ Ordering.lt
    → compare_bytes a c ≡ Ordering.lt
unfolding compare_bytes
compare_bytes-through [] [] c h k = absurd (cc)
compare_bytes-through [] (y ∷ ys) [] h k = absurd (cc)
compare_bytes-through [] (y ∷ ys) (z ∷ zs) h k = refl
compare_bytes-through (x ∷ xs) [] c h k = absurd (cc)
compare_bytes-through (x ∷ xs) (y ∷ ys) [] h k = absurd (cc)
compare_bytes-through (x ∷ xs) (y ∷ ys) (z ∷ zs) h k =
    let IH = compare_bytes-through xs ys zs in ground arith

pub compare_bytes-Lawful : Lawful compare_bytes
compare_bytes-Lawful = record {
  same = compare_bytes-same;
  equal = compare_bytes-equal;
  greater = compare_bytes-greater;
  less = compare_bytes-less;
  through = compare_bytes-through;
}

abbrev pub if_some : Bool → Bytes → Option Bytes → Option Bytes
if_some b v o = if b then some v else o

-- Inserting a pair into sorted tags through the guard returns the value that they had for the key, and
-- once the guard is dropped they are sorted, have the new value for this key and what they had for
-- every other key.
pub insert_pair-get :
    (ts : Tags) (k v : Bytes)
    → IsSorted tag_key compare_bytes ts
    → ((insert_pair k v (edit_tags ts)).0 ≡ value_of (lookup tag_key compare_bytes ts k))
      × IsSorted tag_key compare_bytes
          (drop_guard tag_key compare_bytes ((insert_pair k v (edit_tags ts)).1))
      × ((k' : Bytes)
          → value_of (
              get tag_key compare_bytes
                (drop_guard tag_key compare_bytes ((insert_pair k v (edit_tags ts)).1))
                k')
            ≡ if_some (is_eq (compare_bytes k k')) v (value_of (get tag_key compare_bytes ts k')))
unfolding insert_pair edit_tags
insert_pair-get ts k v h =
    let (old, sorted, new) =
      insert-drop_guard tag_key compare_bytes compare_bytes-Lawful ts (k, v) h in
    (ap value_of old, sorted, λ k'. ap value_of (new k') ∙ pick (is_eq (compare_bytes k k')) _)
  where
    pick :
        (b : Bool) (o : Option Tag)
        → value_of (if b then some (k, v) else o) ≡ if_some b v (value_of o)
    pick true o = refl
    pick false o = refl
