-- ===== src/Client/Queue/Wait.antt =====
-- `Queue::pop` of `src/client/queue.rs` when a message has to wait, and when the clock suffices.
use vinezombie.Prelude.{
  ℕ, ◌+◌, ◌≤◌, ◌<◌, ◌≡◌, refl, max, true, inl, inr, none, some, List, [], ◌∷◌, arith, Bool-cases,
  ◌==◌, leb,
}
use vinezombie.Ircmsg.Codec.{ClientMsg}
use vinezombie.Client.Queue.{Queue, Popped, pop, wait}
use vinezombie.Client.Queue.Calls.{refused, took, pop_empty, pop_waits, pop_takes, pop_panics}

module _ {A : Type 0} (instant_max : ℕ) where
  timeout_for :
      (now now' : ℕ) (q : Queue A) {p : Popped A} {d : ℕ}
      → pop instant_max now now' q ≡ some p
      → p.timeout ≡ some (some d)
      → (0 < d)
        × (p.value ≡ none)
        × (p.after ≡ q)
        × ((t t' : ℕ) (p' : Popped A)
            → now + d ≤ t
            → pop instant_max t t' q ≡ some p'
            → p'.timeout ≡ none)
  timeout_for now now' q {p} {d} h out = at q.queue refl
    where
      Goal : Type 0
      Goal =
          (0 < d)
          × (p.value ≡ none)
          × (p.after ≡ q)
          × ((t t' : ℕ) (p' : Popped A)
              → now + d ≤ t
              → pop instant_max t t' q ≡ some p'
              → p'.timeout ≡ none)

      later :
          (m : ClientMsg) (ms : List ClientMsg)
          → q.queue ≡ m ∷ ms
          → d ≡ wait q now
          → (t t' : ℕ) (p' : Popped A) → now + d ≤ t
          → pop instant_max t t' q ≡ some p'
          → p'.timeout ≡ none
      later m ms e k t t' p' l g =
          let w : (wait q t == 0) ≡ true = ground (arith, k) in
          elim (Bool-cases (leb (max q.timepoint t' + q.delay) instant_max)) [
            | inr f ↦ absurd (cc (pop_panics instant_max t t' q e w f))
            | inl f ↦
                let same : took q m ms t' ≡ p' = cc (pop_takes instant_max t t' q e w f) in
                rw (← same) refl
          ]

      at : (ms : List ClientMsg) → q.queue ≡ ms → Goal
      at [] e =
          let same : refused q none ≡ p = cc (pop_empty instant_max now now' q e) in
          absurd (cc (rw (← same) at out))
      at (m ∷ ms) e = elim (Bool-cases (wait q now == 0)) [
        | inr w ↦
            let same : refused q (some (wait q now)) ≡ p =
              cc (pop_waits instant_max now now' q e w) in
            let k : d ≡ wait q now = cc (rw (← same) at out) in
            (ground (arith, k, w), rw (← same) refl, rw (← same) refl, later m ms e k)
        | inl w ↦ elim (Bool-cases (leb (max q.timepoint now' + q.delay) instant_max)) [
          | inr f ↦ absurd (cc (pop_panics instant_max now now' q e w f))
          | inl f ↦
              let same : took q m ms now' ≡ p = cc (pop_takes instant_max now now' q e w f) in
              absurd (cc (rw (← same) at out))
        ]
      ]

  -- A call of `pop` that says how long to wait, `d`, returns no message and leaves the queue as it
  -- was. The time is not 0, and a call that returns when it has passed does not ask to wait.
  pub pop_timeout :
      (now now' : ℕ) (q : Queue A) {p : Popped A} {d : ℕ}
      → pop instant_max now now' q ≡ some p
      → p.timeout ≡ some (some d)
      → (t t' : ℕ) {p' : Popped A} → now + d ≤ t
      → pop instant_max t t' q ≡ some p'
      → (0 < d) × (p.value ≡ none) × (p.after ≡ q) × (p'.timeout ≡ none)
  pop_timeout now now' q h out t t' {p'} l g =
      let (pos, no_value, same, later) = timeout_for now now' q h out in
      (pos, no_value, same, later t t' p' l g)

  -- As long as the clock can express the next point in time, `pop` does not panic.
  pub pop_total :
      (now now' : ℕ) (q : Queue A)
      → max q.timepoint now' + q.delay ≤ instant_max
      → (p : Popped A) × (pop instant_max now now' q ≡ some p)
  pop_total now now' q l = at q.queue refl
    where
      at :
          (ms : List ClientMsg)
          → q.queue ≡ ms
          → (p : Popped A) × (pop instant_max now now' q ≡ some p)
      at [] e = (_, pop_empty instant_max now now' q e)
      at (m ∷ ms) e = elim (Bool-cases (wait q now == 0)) [
        | inr w ↦ (_, pop_waits instant_max now now' q e w)
        | inl w ↦ (_, pop_takes instant_max now now' q e w (ground (arith, l)))
      ]
