-- ===== src/Util/Tests.antt =====
-- Runs of `FlatMap`.
use Prim.Native.Nat.{compare}
use vinezombie.Prelude.{ℕ, ◌≡◌, refl, some, if◌then◌else◌, arith, List, [], ◌∷◌}
use vinezombie.Util.FlatMap.{is_eq, do_dedup, IsSorted}
use vinezombie.Util.EditGuard.{edit, insert, get, drop_guard}
use vinezombie.Util.EditGuard.Update.{Lawful, lookup}
use vinezombie.Util.EditGuard.Refines.{insert-drop_guard}
use vinezombie.Util.EditGuard.Tail.{Unseen, insert-Unseen}

abbrev pairs : List (ℕ × ℕ)
pairs = (1, 5) ∷ (2, 6) ∷ (2, 7) ∷ (3, 8) ∷ []

abbrev sorted : List (ℕ × ℕ)
sorted = (1, 5) ∷ (2, 7) ∷ (3, 8) ∷ []

abbrev first_of : ℕ × ℕ → ℕ
first_of p = p.0

dedup-pairs : do_dedup first_of compare pairs ≡ sorted
unfolding do_dedup
dedup-pairs = refl

sorted-IsSorted : IsSorted first_of compare sorted
sorted-IsSorted = (refl, (refl, tt))

compare-Lawful : Lawful compare
compare-Lawful = record {
  same = λ a. ground arith;
  equal = λ a b h. ground arith;
  greater = λ a b h. ground arith;
  less = λ a b h. ground arith;
  through = λ a b c h k. ground arith;
}

insert-drop_guard_example :
    ((insert first_of compare (2, 9) (edit sorted)).0 ≡ lookup first_of compare sorted 2)
    × IsSorted first_of compare
        (drop_guard first_of compare ((insert first_of compare (2, 9) (edit sorted)).1))
    × ((k : ℕ)
        → get first_of compare
            (drop_guard first_of compare ((insert first_of compare (2, 9) (edit sorted)).1))
            k
          ≡ (if is_eq (compare 2 k) then some (2, 9) else get first_of compare sorted k))
insert-drop_guard_example =
    insert-drop_guard first_of compare compare-Lawful sorted (2, 9) sorted-IsSorted

insert-Unseen_example :
    Unseen first_of compare sorted (0, 7) (0, 8) ((insert first_of compare (0, 7) (edit sorted)).1)
insert-Unseen_example =
    insert-Unseen first_of compare compare-Lawful (1, 5) ((2, 7) ∷ (3, 8) ∷ []) (0, 7) (0, 8)
      sorted-IsSorted refl refl
