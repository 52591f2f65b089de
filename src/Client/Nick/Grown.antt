-- ===== src/Client/Nick/Grown.antt =====
-- What `SuffixGen` of `src/client/nick/suffix.rs` generates is a nick behind the prefix.
use vinezombie.Prelude.{
  ℕ, zero, suc, ◌*◌, ◌/◌, ◌+◌, ◌-◌, ◌%◌, ◌^◌, ◌<◌, ◌≤◌, ◌≡◌, refl, sym, ap, ◌∙◌, subst, Bool, true,
  false, none, some, List, [], ◌∷◌, ◌++◌, append_assoc, append-nil, Bytes, length, get_elem?, ltb,
  ◌==◌, lt→ltb, arith, Bool-cases, inl, inr,
}
use vinezombie.Text.Kinds.{nick, is_invalid, IsValid, ok, err, Result, InvalidString}
use vinezombie.Text.Builder.{
  Builder, new, build, append, append_unchecked, try_push, try_append_str, appended_str, check_loop,
}
use vinezombie.Text.Builder.Sound.{whole, try_str, push, step, step-IsValid}
use vinezombie.Client.Nick.Suffix.{
  Nick, SuffixType, letter, base8, base10, base16, nonzero_base8, nonzero_base10, nonzero_base16,
  choice, char, append_suffix, append_choice, encode_utf8, base16_byte, Strategy, rng, seq,
  rng_loop, seq_loop, variance, calc_next,
}
use vinezombie.Client.Nick.Suffixed.{gen}

-- What is valid stays valid, and what was there stays in front.
abbrev pub Grown : Builder → Builder → Type 0
Grown b b' = IsValid nick (build b') × (more_bytes : Bytes) × (build b' ≡ build b ++ more_bytes)

abbrev pub NicksValid : List Nick → Type 0
NicksValid [] = Unit
NicksValid ((string, utf8) ∷ os) = IsValid nick string × NicksValid os

abbrev pub SuffixesValid : List SuffixType → Type 0
SuffixesValid [] = Unit
SuffixesValid (choice os ∷ ss) = NicksValid os × SuffixesValid ss
SuffixesValid (s ∷ ss) = SuffixesValid ss

try_push-Grown : (c : ℕ) (b : Builder) → IsValid nick (build b) → Grown b ((try_push nick c b).1)
unfolding try_push build step
try_push-Grown c b v = elim (Bool-cases (is_invalid nick c)) [
  | inl e ↦ (step-IsValid nick (push c) b tt v, [], rw e (sym (append-nil b.bytes)))
  | inr e ↦ (step-IsValid nick (push c) b tt v, c ∷ [], rw e refl)
]

try_append_str-Grown :
    (bs : Bytes) (b : Builder) → IsValid nick (build b) → Grown b ((try_append_str nick bs b).1)
unfolding try_append_str build step
try_append_str-Grown bs b v =
    let (more_bytes, e) = extra (check_loop nick true bs) in
    (step-IsValid nick (try_str bs) b tt v, more_bytes, e)
  where
    extra :
        (r : Result InvalidString Bool)
        → (more_bytes : Bytes) × ((appended_str r bs b).1.bytes ≡ b.bytes ++ more_bytes)
    extra (err e) = ([], sym (append-nil b.bytes))
    extra (ok a) = (bs, refl)

append_choice-Grown :
    (os : List Nick) (i : ℕ) (b : Builder)
    → NicksValid os
    → IsValid nick (build b)
    → Grown b (append_choice (get_elem? os i) b)
unfolding append append_unchecked build step
append_choice-Grown [] i b h v = (v, [], sym (append-nil b.bytes))
append_choice-Grown ((string, utf8) ∷ os) zero b (h, hs) v =
    (step-IsValid nick (whole string utf8) b h v, string, refl)
append_choice-Grown (o ∷ os) (suc i) b (h, hs) v = append_choice-Grown os i b hs v

append_suffix-Grown :
    (s : SuffixType) (num : ℕ) (b : Builder)
    → SuffixesValid (s ∷ [])
    → IsValid nick (build b)
    → Grown b (append_suffix s num b)
unfolding append_suffix build
append_suffix-Grown (letter uc) num b h v = try_push-Grown _ b v
append_suffix-Grown base8 num b h v = try_push-Grown _ b v
append_suffix-Grown base10 num b h v = try_push-Grown _ b v
append_suffix-Grown (base16 uc) num b h v = try_push-Grown _ b v
append_suffix-Grown nonzero_base8 num b h v = try_push-Grown _ b v
append_suffix-Grown nonzero_base10 num b h v = try_push-Grown _ b v
append_suffix-Grown (nonzero_base16 uc) num b h v = try_push-Grown _ b v
append_suffix-Grown (choice []) num b h v = (v, [], sym (append-nil b.bytes))
append_suffix-Grown (choice (o ∷ os)) num b h v =
    append_choice-Grown (o ∷ os) (num % length (o ∷ os)) b h.0 v
append_suffix-Grown (char c) num b h v = try_append_str-Grown (encode_utf8 c) b v

Grown-trans : (a b c : Builder) → Grown a b → Grown b c → Grown a c
Grown-trans a b c (v, x, e) (w, y, k) =
    (w, x ++ y, k ∙ ap (λ bs. bs ++ y) e ∙ append_assoc (build a) x y)

head-valid :
    (s : SuffixType) (ss : List SuffixType) → SuffixesValid (s ∷ ss) → SuffixesValid (s ∷ [])
head-valid (choice os) ss h = (h.0, tt)
head-valid (letter uc) ss h = tt
head-valid (base16 uc) ss h = tt
head-valid (nonzero_base16 uc) ss h = tt
head-valid base8 ss h = tt
head-valid base10 ss h = tt
head-valid nonzero_base8 ss h = tt
head-valid nonzero_base10 ss h = tt
head-valid (char c) ss h = tt

tail-valid : (s : SuffixType) (ss : List SuffixType) → SuffixesValid (s ∷ ss) → SuffixesValid ss
tail-valid (choice os) ss h = h.1
tail-valid (letter uc) ss h = h
tail-valid (base16 uc) ss h = h
tail-valid (nonzero_base16 uc) ss h = h
tail-valid base8 ss h = h
tail-valid base10 ss h = h
tail-valid nonzero_base8 ss h = h
tail-valid nonzero_base10 ss h = h
tail-valid (char c) ss h = h

rng_loop-Grown :
    (ss : List SuffixType) (cycle : Bool) (state : ℕ) (b : Builder)
    → SuffixesValid ss
    → IsValid nick (build b)
    → Grown b ((rng_loop ss cycle state b).0)
unfolding rng_loop
rng_loop-Grown [] cycle state b h v = (v, [], sym (append-nil (build b)))
rng_loop-Grown (s ∷ ss) true state b h v =
    let state' = (state * 1664525 + 1013904223) % 2 ^ 32 in
    let b' = append_suffix s (state' / 2 ^ 16 % 2 ^ 8) b in
    let g = append_suffix-Grown s (state' / 2 ^ 16 % 2 ^ 8) b (head-valid s ss h) v in
    Grown-trans b b' _ g (rng_loop-Grown ss false state' b' (tail-valid s ss h) g.0)
rng_loop-Grown (s ∷ ss) false state b h v =
    let b' = append_suffix s (state / 2 ^ 24 % 2 ^ 8) b in
    let g = append_suffix-Grown s (state / 2 ^ 24 % 2 ^ 8) b (head-valid s ss h) v in
    Grown-trans b b' _ g (rng_loop-Grown ss true state b' (tail-valid s ss h) g.0)

seq_loop-Grown :
    (ss : List SuffixType) (count : ℕ) (b : Builder)
    → SuffixesValid ss
    → IsValid nick (build b)
    → Grown b (seq_loop ss count b)
unfolding seq_loop
seq_loop-Grown [] count b h v = (v, [], sym (append-nil (build b)))
seq_loop-Grown (s ∷ ss) count b h v =
    let b' = append_suffix s ((count - 1) % 2 ^ 8 % variance s) b in
    let g = append_suffix-Grown s ((count - 1) % 2 ^ 8 % variance s) b (head-valid s ss h) v in
    elim (Bool-cases (variance s == 0)) [
      | inl e ↦ rw (seq_loop, e) (seq_loop-Grown ss count b (tail-valid s ss h) v)
      | inr e ↦ elim (Bool-cases ((count - 1) / variance s == 0)) [
        | inl k ↦ rw (seq_loop, e, k) g
        | inr k ↦
            rw (seq_loop, e, k)
              (Grown-trans b b' _ g
                (seq_loop-Grown ss ((count - 1) / variance s) b' (tail-valid s ss h) g.0))
      ]
    ]

some-inj : {A : Type 0} {a b : A} → some a ≡ some b → a ≡ b
some-inj h = cc

none-some : {A : Type 0} {a : A} → none ≡ some a → ⊥
none-some h = absurd (cc)

nick_letter : (c : ℕ) → b'K' ≤ c → c ≤ b'P' → is_invalid nick c ≡ false
unfolding is_invalid
nick_letter c l h = ground arith

-- A nick behind a prefix.
abbrev pub Behind : Bytes → Bytes → Type 0
Behind p n = IsValid nick n × (more_bytes : Bytes) × (n ≡ p ++ more_bytes)

-- Every nick that is generated from a valid prefix and valid choices is a valid nick and begins with the
-- prefix.
pub calc_next-IsValid :
    (strategy : Strategy) (ss : List SuffixType) (p : Nick) (state limit : ℕ) (r : Bytes × ℕ)
    → IsValid nick p.0
    → SuffixesValid ss
    → calc_next (gen strategy ss p state limit) ≡ some r
    → Behind p.0 r.0
unfolding calc_next new build
calc_next-IsValid (rng seed) ss p state limit r v h e =
    subst (λ (o : Bytes × ℕ). Behind p.0 o.0) (some-inj e)
      (rng_loop-Grown ss true state (new p.0 p.1) h v)
calc_next-IsValid seq ss p state limit r v h e = elim (Bool-cases (ltb (state + 1) (2 ^ 32))) [
  | inl t ↦
      subst (λ (o : Bytes × ℕ). Behind p.0 o.0) (some-inj (rw t at e))
        (seq_loop-Grown ss (state + 1) (new p.0 p.1) h v)
  | inr t ↦ absurd (none-some (rw t at e))
]

build-try_push :
    (c : ℕ) (b : Builder)
    → is_invalid nick c ≡ false
    → build ((try_push nick c b).1) ≡ build b ++ c ∷ []
unfolding try_push build
build-try_push c b h = rw (try_push, h) refl

-- A hexadecimal suffix in upper case from a number with a digit above nine is a byte from K to P.
pub append_suffix-base16 :
    (num : ℕ) (b : Builder)
    → 9 < num % 16
    → (c : ℕ) × (build (append_suffix (base16 true) num b) ≡ build b ++ c ∷ [])
      × (b'K' ≤ c)
      × (c ≤ b'P')
unfolding append_suffix try_push build
append_suffix-base16 num b h =
    let c = b'A' + num % 16 in
    let low : b'K' ≤ c = omega arith in
    let high : c ≤ b'P' = omega arith in
    let byte : base16_byte true (num % 16) ≡ c = rw (lt→ltb 9 (num % 16) h) refl in
    (
      c,
      ap (λ (d : ℕ). build ((try_push nick d b).1)) byte
          ∙ build-try_push c b (nick_letter c low high),
      low,
      high,
    )
