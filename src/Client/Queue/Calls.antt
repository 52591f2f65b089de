-- ===== src/Client/Queue/Calls.antt =====
-- The cases of `Queue::pop` of `src/client/queue.rs`.
use vinezombie.Prelude.{
  ℕ, ◌+◌, ◌≤◌, ◌≡◌, refl, subst, max, true, false, ◌⊎◌, inl, inr, Option, none, some, List, [], ◌∷◌,
  arith, Bool-cases, ◌==◌, leb,
}
use vinezombie.Ircmsg.Codec.{ClientMsg}
use vinezombie.Client.Queue.{Queue, Popped, pop, wait}

module _ {A : Type 0} where
  -- The queue behind a message that was taken at `now'`.
  abbrev pub taken : Queue A → List ClientMsg → ℕ → Queue A
  taken q rest now' = record q { queue = rest; timepoint = max q.timepoint now' + q.delay }

  -- A call that returns no message leaves the queue as it was.
  abbrev pub Took : ℕ → ℕ → Queue A → Popped A → Type 0
  Took now now' q p =
      (p.value ≡ none) × (p.after ≡ q)
      ⊎ ((m : ClientMsg) × (rest : List ClientMsg) × (p.value ≡ some m)
          × (q.queue ≡ m ∷ rest)
          × (q.timepoint ≤ now + q.sub)
          × (p.after ≡ taken q rest now')
          × (p.timeout ≡ none))

  abbrev pub refused : Queue A → Option ℕ → Popped A
  refused q o = record { value = none; timeout = some o; after = q }

  abbrev pub took : Queue A → ClientMsg → List ClientMsg → ℕ → Popped A
  took q m rest now' = record { value = some m; timeout = none; after = taken q rest now' }

module _ {A : Type 0} (instant_max : ℕ) where
  module _ (now now' : ℕ) (q : Queue A) where
    pub pop_empty : q.queue ≡ [] → pop instant_max now now' q ≡ some (refused q none)
    unfolding pop
    pop_empty e = rw e refl

    pub pop_waits :
        {m : ClientMsg} {ms : List ClientMsg}
        → q.queue ≡ m ∷ ms
        → (wait q now == 0) ≡ false
        → pop instant_max now now' q ≡ some (refused q (some (wait q now)))
    unfolding pop
    pop_waits e w = rw (e, w) refl

    pub pop_takes :
        {m : ClientMsg} {ms : List ClientMsg}
        → q.queue ≡ m ∷ ms
        → (wait q now == 0) ≡ true
        → leb (max q.timepoint now' + q.delay) instant_max ≡ true
        → pop instant_max now now' q ≡ some (took q m ms now')
    unfolding pop
    pop_takes e w f = rw (e, w, f) refl

    pub pop_panics :
        {m : ClientMsg} {ms : List ClientMsg}
        → q.queue ≡ m ∷ ms
        → (wait q now == 0) ≡ true
        → leb (max q.timepoint now' + q.delay) instant_max ≡ false
        → pop instant_max now now' q ≡ none
    unfolding pop
    pop_panics e w f = rw (e, w, f) refl

    pub pop-Took : {p : Popped A} → pop instant_max now now' q ≡ some p → Took now now' q p
    pop-Took {p} h = at q.queue refl
      where
        is :
            {x : Popped A}
            → pop instant_max now now' q ≡ some x
            → Took now now' q x
            → Took now now' q p
        is {x} e t = let same : x ≡ p = cc in subst (Took now now' q) same t

        at : (ms : List ClientMsg) → q.queue ≡ ms → Took now now' q p
        at [] e = is (pop_empty e) (inl (refl, refl))
        at (m ∷ ms) e = elim (Bool-cases (wait q now == 0)) [
          | inr w ↦ is (pop_waits e w) (inl (refl, refl))
          | inl w ↦ elim (Bool-cases (leb (max q.timepoint now' + q.delay) instant_max)) [
            | inr f ↦ absurd (cc (pop_panics e w f))
            | inl f ↦ is (pop_takes e w f) (inr (m, ms, refl, e, ground (arith, w), refl, refl))
          ]
        ]
