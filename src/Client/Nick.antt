-- ===== src/Client/Nick.antt =====
-- Nick generators, `src/client/nick.rs`. A boxed generator is the state of one and its operations.
pub mod Suffix
pub mod Runs
pub mod Suffixed
pub mod Grown
mod Tests
use vinezombie.Prelude.{
  ℕ, Bool, true, false, Option, none, some, List, [], ◌∷◌, ◌==◌, ◌&&◌, Bytes, if◌then◌else◌,
}

-- `NickGen`: the trait's methods on a type of states.
pub record NickGen (S : Type 0) : Type 0 where
  pub next_nick : S → Bytes × Option S
  pub peek : S → Bytes
  pub handle_invalid : S → Bytes → Option S

abbrev pub bytes_eq : Bytes → Bytes → Bool
bytes_eq [] [] = true
bytes_eq (x ∷ xs) (y ∷ ys) = x == y && bytes_eq xs ys
bytes_eq _ _ = false

-- A nick as a generator.
unfoldable pub nick_gen : NickGen Bytes
nick_gen = record {
  next_nick = λ s. (s, none);
  peek = λ s. s;
  handle_invalid = λ s nick. if bytes_eq nick s then some s else none;
}

-- `FromIter` over an iterator that ends, which is the list of what it yields.
pub record FromIter : Type 0 where
  pub nick : Bytes
  pub iter : List Bytes

unfoldable pub from_iter : List Bytes → Option FromIter
from_iter [] = none
from_iter (n ∷ ns) = some (record { nick = n; iter = ns })

unfoldable pub from_iter_or : Bytes → List Bytes → FromIter
from_iter_or default [] = record { nick = default; iter = [] }
from_iter_or default (n ∷ ns) = record { nick = n; iter = ns }

abbrev pub from_iter_next : FromIter → Bytes × Option FromIter
from_iter_next g = elim g.iter [
  | [] ↦ (g.nick, none)
  | next ∷ iter ↦ (g.nick, some (record { nick = next; iter = iter }))
]

unfoldable pub from_iter_gen : NickGen FromIter
from_iter_gen = record {
  next_nick = from_iter_next;
  peek = λ g. g.nick;
  handle_invalid = λ g nick. some g;
}

-- `Chain`, with `b` always there, and the generators that its methods return in its place.
pub data Chained (A B : Type 0) : Type 0 where
  chain : Option A → B → Chained A B
  only_a : A → Chained A B
  only_b : B → Chained A B

module _ {A B : Type 0} (gen_a : NickGen A) (gen_b : NickGen B) where
  abbrev pub after_a : Bytes × Option A → B → Bytes × Option (Chained A B)
  after_a (nick, next) b = (nick, some (chain next b))

  abbrev pub as_a : Option A → Option (Chained A B)
  as_a none = none
  as_a (some a) = some (only_a a)

  abbrev pub as_b : Option B → Option (Chained A B)
  as_b none = none
  as_b (some b) = some (only_b b)

  abbrev pub chain_next : Chained A B → Bytes × Option (Chained A B)
  chain_next (chain (some a) b) = after_a (gen_a.next_nick a) b
  chain_next (chain none b) = let (nick, next) = gen_b.next_nick b in (nick, as_b next)
  chain_next (only_a a) = let (nick, next) = gen_a.next_nick a in (nick, as_a next)
  chain_next (only_b b) = let (nick, next) = gen_b.next_nick b in (nick, as_b next)

  abbrev pub chain_peek : Chained A B → Bytes
  chain_peek (chain (some a) b) = gen_a.peek a
  chain_peek (chain none b) = gen_b.peek b
  chain_peek (only_a a) = gen_a.peek a
  chain_peek (only_b b) = gen_b.peek b

  abbrev pub both_valid : Option A → Option B → Option (Chained A B)
  both_valid none o = as_b o
  both_valid (some a) none = some (only_a a)
  both_valid (some a) (some b) = some (chain (some a) b)

  abbrev pub chain_invalid : Chained A B → Bytes → Option (Chained A B)
  chain_invalid (chain (some a) b) nick =
      both_valid (gen_a.handle_invalid a nick) (gen_b.handle_invalid b nick)
  chain_invalid (chain none b) nick = as_b (gen_b.handle_invalid b nick)
  chain_invalid (only_a a) nick = as_a (gen_a.handle_invalid a nick)
  chain_invalid (only_b b) nick = as_b (gen_b.handle_invalid b nick)

  unfoldable pub chain_gen : NickGen (Chained A B)
  chain_gen = record { next_nick = chain_next; peek = chain_peek; handle_invalid = chain_invalid }
