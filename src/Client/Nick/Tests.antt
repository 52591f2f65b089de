-- ===== src/Client/Nick/Tests.antt =====
-- Runs of nick generators.
use vinezombie.Prelude.{ℕ, ◌+◌, ◌<◌, ◌≤◌, ◌≡◌, ◌^◌, refl, true, some, [], ◌∷◌, ◌++◌, codes, arith}
use vinezombie.Text.Kinds.{nick, IsValid, from_bytes, is_invalid, check_others}
use vinezombie.Text.Kinds.Checks.{from_bytes-IsValid}
use vinezombie.Text.Builder.{new, build, try_push}
use vinezombie.Client.Nick.Suffix.{
  Nick, base8, base10, base16, seq, append_suffix, seq_loop, variance, calc_next,
}
use vinezombie.Client.Nick.Suffixed.{gen}
use vinezombie.Client.Nick.Grown.{Behind, calc_next-IsValid, append_suffix-base16}

abbrev zombie : Nick
zombie = (codes "zombie", true)

zombie-IsValid : IsValid nick (codes "zombie")
unfolding from_bytes is_invalid check_others
zombie-IsValid = (from_bytes-IsValid nick (codes "zombie")).0 refl

-- The ninth nick has two digits.
ninth : calc_next (gen seq (base8 ∷ base10 ∷ []) zombie 8 10) ≡ some (codes "zombie00", 9)
unfolding calc_next seq_loop append_suffix variance try_push new build is_invalid
ninth = refl

calc_next-IsValid_example : Behind (codes "zombie") (codes "zombie00")
calc_next-IsValid_example =
    calc_next-IsValid seq (base8 ∷ base10 ∷ []) zombie 8 10 (codes "zombie00", 9) zombie-IsValid tt
      ninth

in_reach : 0 + 18 < 2 ^ 32
in_reach = omega arith

ten : 9 < 10
ten = omega arith

append_suffix-base16_example :
    (c : ℕ) × (build (append_suffix (base16 true) 10 (new (codes "zombie") true))
      ≡ codes "zombie" ++ c ∷ [])
    × (b'K' ≤ c)
    × (c ≤ b'P')
unfolding build new
append_suffix-base16_example = append_suffix-base16 10 (new (codes "zombie") true) ten
