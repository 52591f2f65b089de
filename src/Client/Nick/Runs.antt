-- ===== src/Client/Nick/Runs.antt =====
-- The nicks that generators yield one after the other, `src/client/nick.rs`.
use vinezombie.Prelude.{◌≡◌, refl, ap, Option, none, some, List, [], ◌∷◌, ◌++◌, Bytes}
use vinezombie.Client.Nick.{NickGen, chain, only_b, chain_gen, from_iter_gen, as_b, after_a}

-- The generator yields these nicks and then has no continuation.
pub data Yields {S : Type 0} (next : S → Option (Bytes × Option S)) : S → List Bytes → Type 0 where
  last : {s : S} {n : Bytes} → next s ≡ some (n, none) → Yields next s (n ∷ [])
  more :
      {s s' : S} {n : Bytes} {ns : List Bytes}
      → next s ≡ some (n, some s')
      → Yields next s' ns
      → Yields next s (n ∷ ns)

abbrev pub total : {S : Type 0} → NickGen S → S → Option (Bytes × Option S)
total gen s = some (gen.next_nick s)

pub from_iter-Yields :
    (n : Bytes) (ns : List Bytes)
    → Yields (total from_iter_gen) (record { nick = n; iter = ns }) (n ∷ ns)
unfolding from_iter_gen
from_iter-Yields n [] = last refl
from_iter-Yields n (m ∷ ns) = more refl (from_iter-Yields m ns)

some-inj : {A : Type 0} {a b : A} → some a ≡ some b → a ≡ b
some-inj h = cc

module _ {A B : Type 0} (gen_a : NickGen A) (gen_b : NickGen B) where
  only_b-Yields :
      {b : B} {ns : List Bytes}
      → Yields (total gen_b) b ns
      → Yields (total (chain_gen gen_a gen_b)) (only_b b) ns
  unfolding chain_gen
  only_b-Yields (last e) = last (ap (λ r. some (r.0, as_b gen_a gen_b r.1)) (some-inj e))
  only_b-Yields (more e y) =
      more (ap (λ r. some (r.0, as_b gen_a gen_b r.1)) (some-inj e)) (only_b-Yields y)

  chain_b-Yields :
      {b : B} {ns : List Bytes}
      → Yields (total gen_b) b ns
      → Yields (total (chain_gen gen_a gen_b)) (chain none b) ns
  unfolding chain_gen
  chain_b-Yields (last e) = last (ap (λ r. some (r.0, as_b gen_a gen_b r.1)) (some-inj e))
  chain_b-Yields (more e y) =
      more (ap (λ r. some (r.0, as_b gen_a gen_b r.1)) (some-inj e)) (only_b-Yields y)

  -- If one generator yields some nicks and then ends, and so does another one, then their chain yields
  -- the nicks of the first and then those of the second, and ends.
  pub chain-Yields :
      {a : A} {b : B} {xs ys : List Bytes}
      → Yields (total gen_a) a xs
      → Yields (total gen_b) b ys
      → Yields (total (chain_gen gen_a gen_b)) (chain (some a) b) (xs ++ ys)
  unfolding chain_gen
  chain-Yields {a} {b} (last e) yb =
      more (ap (λ r. some (after_a gen_a gen_b r b)) (some-inj e)) (chain_b-Yields yb)
  chain-Yields {a} {b} (more e y) yb =
      more (ap (λ r. some (after_a gen_a gen_b r b)) (some-inj e)) (chain-Yields y yb)
