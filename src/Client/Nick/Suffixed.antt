-- ===== src/Client/Nick/Suffixed.antt =====
-- What `SuffixGen` of `src/client/nick/suffix.rs` generates: how many nicks.
use vinezombie.Prelude.{
  ℕ, zero, suc, ◌+◌, ◌-◌, ◌^◌, ◌<◌, ◌≡◌, refl, ap, ◌∙◌, true, false, none, some, List, [], ◌∷◌,
  Bytes, length, ◌==◌, lt→ltb, arith, Option-cases, inl, inr,
}
use vinezombie.Text.Builder.{new, build}
use vinezombie.Client.Nick.Suffix.{
  Nick, SuffixType, Strategy, rng, seq, SuffixGen, rng_loop, seq_loop, calc_next, next_nick,
  advance,
}
use vinezombie.Client.Nick.Runs.{Yields, last, more}

-- No overflow of the state before `n` nicks are generated: numbered suffixes count it up.
abbrev pub Fits : Strategy → ℕ → ℕ → Type 0
Fits (rng seed) state n = Unit
Fits seq state n = state + n < 2 ^ 32

abbrev pub gen : Strategy → List SuffixType → Nick → ℕ → ℕ → SuffixGen
gen strategy suffixes prefix state limit = record {
  strategy = strategy;
  suffixes = suffixes;
  prefix = prefix;
  state = state;
  limit = limit;
}

calc_next-Fits :
    (strategy : Strategy) (ss : List SuffixType) (p : Nick) (state n : ℕ)
    → Fits strategy state (suc n)
    → (r : Bytes × ℕ) × (calc_next (gen strategy ss p state (suc n)) ≡ some r) × Fits strategy r.1 n
unfolding calc_next
calc_next-Fits (rng seed) ss p state n h =
    let r = rng_loop ss true state (new p.0 p.1) in ((build r.0, r.1), refl, tt)
calc_next-Fits seq ss p state n h =
    let e = lt→ltb (state + 1) (2 ^ 32) (omega arith) in
    ((build (seq_loop ss (state + 1) (new p.0 p.1)), state + 1), rw e refl, omega arith)

not_zero : (n : ℕ) → (suc n == 0) ≡ false
not_zero n = ground arith

going_on :
    (n : ℕ) (strategy : Strategy) (ss : List SuffixType) (p : Nick) (state : ℕ) (r : Bytes × ℕ)
    → advance (gen strategy ss p state (suc (suc n))) (some r)
      ≡ some (r.0, some (gen strategy ss p r.1 (suc n)))
going_on n strategy ss p state r =
    let e : suc (suc n) - 1 ≡ suc n = omega arith in rw (e, not_zero (suc n), not_zero n) refl

-- A generator whose limit is not 0, and whose state does not overflow before it is used up, yields exactly
-- as many nicks as its limit says, and then has no continuation.
pub next_nick-Yields :
    (n : ℕ) (strategy : Strategy) (ss : List SuffixType) (p : Nick) (state : ℕ)
    → Fits strategy state (suc n)
    → (ns : List Bytes) × Yields next_nick (gen strategy ss p state (suc n)) ns
      × (length ns ≡ suc n)
unfolding next_nick
next_nick-Yields zero strategy ss p state h =
    let (r, e, f) = calc_next-Fits strategy ss p state zero h in
    (r.0 ∷ [], last (ap (advance (gen strategy ss p state 1)) e), refl)
next_nick-Yields (suc n) strategy ss p state h =
    let (r, e, f) = calc_next-Fits strategy ss p state (suc n) h in
    let (ns, run, l) = next_nick-Yields n strategy ss p r.1 f in
    (
      r.0 ∷ ns,
      more
          (ap (advance (gen strategy ss p state (suc (suc n)))) e
            ∙ going_on n strategy ss p state r)
          run,
      ap suc l,
    )

-- A generator with the limit 0 panics, whatever it is to append.
pub next_nick-zero :
    (strategy : Strategy) (ss : List SuffixType) (p : Nick) (state : ℕ)
    → next_nick (gen strategy ss p state 0) ≡ none
unfolding next_nick
next_nick-zero strategy ss p state = elim (Option-cases (calc_next (gen strategy ss p state 0))) [
  | inl e ↦ rw e refl
  | inr (r, e) ↦ rw e refl
]
