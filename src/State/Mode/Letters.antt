-- ===== src/State/Mode/Letters.antt =====
-- The letters of `Mode` and their indices, `src/state/mode.rs`.
use vinezombie.Prelude.{ℕ, ◌<◌, ◌≡◌, true, arith}
use vinezombie.State.Mode.{is_letter, index, new_from_index}

-- The index of a letter is below 52 and gives the letter back.
pub new_from_index-index :
    (m : ℕ) → is_letter m ≡ true → (index m < 52) × (new_from_index (index m) ≡ m)
unfolding index new_from_index
new_from_index-index m h = ground arith

-- Every number below 52 is the index of a letter.
pub index-new_from_index :
    (i : ℕ) → i < 52 → (is_letter (new_from_index i) ≡ true) × (index (new_from_index i) ≡ i)
unfolding index new_from_index
index-new_from_index i h = ground arith
