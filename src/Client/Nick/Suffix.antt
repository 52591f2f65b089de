-- ===== src/Client/Nick/Suffix.antt =====
-- `SuffixType`, `Suffix` and `SuffixGen` of `src/client/nick/suffix.rs`. Arithmetic that overflows is a
-- panic, as in a build that checks it.
use vinezombie.Prelude.{
  ℕ, ◌+◌, ◌-◌, ◌*◌, ◌/◌, ◌%◌, ◌^◌, min, Bool, true, false, not, ◌&&◌, Option, none, some, List, [],
  ◌∷◌, Bytes, length, get_elem?, ltb, ◌==◌, if◌then◌else◌,
}
use vinezombie.Text.Kinds.{nick}
use vinezombie.Text.Builder.{Builder, new, build, append, try_push, try_append_str}

-- A nick is its bytes and what `is_utf8_lazy` says of it.
abbrev pub Nick : Type 0
Nick = Bytes × Bool

pub data SuffixType : Type 0 where
  letter base16 nonzero_base16 : Bool → SuffixType
  base8 base10 nonzero_base8 nonzero_base10 : SuffixType
  choice : List Nick → SuffixType
  char : ℕ → SuffixType

-- `char::encode_utf8`.
abbrev pub encode_utf8 : ℕ → Bytes
encode_utf8 c =
    if ltb c (2 ^ 7)
    then (c ∷ [])
    else if ltb c (2 ^ 11)
    then ((192 + c / 64) ∷ (128 + c % 64) ∷ [])
    else if ltb c (2 ^ 16)
    then ((224 + c / 4096) ∷ (128 + c / 64 % 64) ∷ (128 + c % 64) ∷ [])
    else ((240 + c / 262144) ∷ (128 + c / 4096 % 64) ∷ (128 + c / 64 % 64) ∷ (128 + c % 64) ∷ [])

-- The bytes of `Base16` and of `NonZeroBase16`, from `num & 15` and `num % 15`.
abbrev pub base16_byte : Bool → ℕ → ℕ
base16_byte uc num =
    if uc && ltb 9 num then b'A' + num else if not uc && ltb 9 num then b'a' + num else b'0' + num

abbrev pub nonzero_base16_byte : Bool → ℕ → ℕ
nonzero_base16_byte uc num =
    if uc && ltb 8 num then b'A' + num else if not uc && ltb 8 num then b'a' + num else b'1' + num

abbrev pub append_choice : Option Nick → Builder → Builder
append_choice none b = b
append_choice (some (string, utf8)) b = append string utf8 b

-- `append`, whose results of `try_push` are dropped.
unfoldable pub append_suffix : SuffixType → ℕ → Builder → Builder
unfolding try_push append try_append_str
append_suffix (letter uc) num b = (try_push nick ((if uc then b'A' else b'a') + num % 26) b).1
append_suffix base8 num b = (try_push nick (b'0' + num % 8) b).1
append_suffix base10 num b = (try_push nick (b'0' + num % 10) b).1
append_suffix (base16 uc) num b = (try_push nick (base16_byte uc (num % 16)) b).1
append_suffix nonzero_base8 num b = (try_push nick (b'1' + num % 7) b).1
append_suffix nonzero_base10 num b = (try_push nick (b'1' + num % 9) b).1
append_suffix (nonzero_base16 uc) num b = (try_push nick (nonzero_base16_byte uc (num % 15)) b).1
append_suffix (choice []) num b = b
append_suffix (choice (o ∷ os)) num b = append_choice (get_elem? (o ∷ os) (num % length (o ∷ os))) b
append_suffix (char c) num b = (try_append_str nick (encode_utf8 c) b).1

unfoldable pub variance : SuffixType → ℕ
variance (letter uc) = 26
variance base8 = 8
variance base10 = 10
variance (base16 uc) = 16
variance nonzero_base8 = 7
variance nonzero_base10 = 9
variance (nonzero_base16 uc) = 15
variance (choice c) = min 255 (length c)
variance (char c) = 1

-- `SuffixStrategy`, with the seed of `Rng` if there is one.
pub data Strategy : Type 0 where
  rng : Option ℕ → Strategy
  seq : Strategy

pub record SuffixGen : Type 0 where
  pub strategy : Strategy
  pub suffixes : List SuffixType
  pub prefix : Nick
  pub state : ℕ
  pub limit : ℕ

-- `count.saturating_add` in eight bits.
abbrev pub saturating_add : ℕ → ℕ → ℕ
saturating_add a b = min 255 (a + b)

unfoldable pub fold_halves : ℕ → List SuffixType → ℕ
unfolding variance
fold_halves count [] = count
fold_halves count (s ∷ ss) = fold_halves (saturating_add count (variance s / 2)) ss

unfoldable pub fold_variances : ℕ → List SuffixType → ℕ
unfolding variance
fold_variances count [] = count
fold_variances count (s ∷ ss) = fold_variances (saturating_add count (variance s)) ss

abbrev pub or_random : Option ℕ → ℕ → ℕ
or_random none random = random
or_random (some seed) random = seed

-- `transform`; `random` is the seed that is made from the nick's hash and the time.
unfoldable pub transform : Strategy → List SuffixType → ℕ → Nick → SuffixGen
unfolding fold_halves fold_variances
transform strategy [] random prefix = record {
  strategy = rng none;
  suffixes = [];
  prefix = prefix;
  state = 0;
  limit = 1;
}
transform (rng seed) (s ∷ ss) random prefix = record {
  strategy = rng seed;
  suffixes = s ∷ ss;
  prefix = prefix;
  state = or_random seed random;
  limit = fold_halves 1 (s ∷ ss);
}
transform seq (s ∷ ss) random prefix = record {
  strategy = seq;
  suffixes = s ∷ ss;
  prefix = prefix;
  state = 0;
  limit = fold_variances 0 (s ∷ ss);
}

-- The loop of `Rng`: `cycle`, the state and the builder.
unfoldable pub rng_loop : List SuffixType → Bool → ℕ → Builder → Builder × ℕ
unfolding append_suffix
rng_loop [] cycle state b = (b, state)
rng_loop (s ∷ ss) true state b =
    let state' = (state * 1664525 + 1013904223) % 2 ^ 32 in
    rng_loop ss false state' (append_suffix s (state' / 2 ^ 16 % 2 ^ 8) b)
rng_loop (s ∷ ss) false state b =
    rng_loop ss true state (append_suffix s (state / 2 ^ 24 % 2 ^ 8) b)

-- The loop of `Seq`; `count` is not 0 at the start of a round.
unfoldable pub seq_loop : List SuffixType → ℕ → Builder → Builder
unfolding append_suffix variance
seq_loop [] count b = b
seq_loop (s ∷ ss) count b = elim (variance s == 0) [
  | true ↦ seq_loop ss count b
  | false ↦
      let b' = append_suffix s ((count - 1) % 2 ^ 8 % variance s) b in
      elim ((count - 1) / variance s == 0) [
        | true ↦ b'
        | false ↦ seq_loop ss ((count - 1) / variance s) b'
      ]
]

-- `calc_next`: the nick and the next state; `none` is the overflow of the state.
unfoldable pub calc_next : SuffixGen → Option (Bytes × ℕ)
unfolding rng_loop seq_loop new build
calc_next g = elim g.strategy [
  | rng seed ↦
      let (b, state) = rng_loop g.suffixes true g.state (new g.prefix.0 g.prefix.1) in
      some (build b, state)
  | seq ↦
      if ltb (g.state + 1) (2 ^ 32)
      then some (build (seq_loop g.suffixes (g.state + 1) (new g.prefix.0 g.prefix.1)), g.state + 1)
      else none
]

-- `next_nick`; the outer `none` is an overflow of the state or of `limit`.
abbrev pub advance : SuffixGen → Option (Bytes × ℕ) → Option (Bytes × Option SuffixGen)
advance g none = none
advance g (some (name, state)) =
    if g.limit == 0
    then none
    else some (
      name,
      if g.limit - 1 == 0 then none else some (record g { state = state; limit = g.limit - 1 }),
    )

unfoldable pub next_nick : SuffixGen → Option (Bytes × Option SuffixGen)
unfolding calc_next
next_nick g = advance g (calc_next g)

abbrev pub first : Option (Bytes × ℕ) → Option Bytes
first none = none
first (some r) = some r.0

unfoldable pub peek : SuffixGen → Option Bytes
unfolding calc_next
peek g = first (calc_next g)

abbrev pub starts_with : Bytes → Bytes → Bool
starts_with bs [] = true
starts_with [] (p ∷ ps) = false
starts_with (b ∷ bs) (p ∷ ps) = b == p && starts_with bs ps

unfoldable pub handle_invalid : SuffixGen → Bytes → Option SuffixGen
handle_invalid g name = if starts_with name g.prefix.0 then none else some g
