-- ===== src/Client/Queue/Rate.antt =====
-- The rate limit of `Queue::pop` of `src/client/queue.rs`.
use vinezombie.Prelude.{
  ℕ, ◌+◌, ◌-◌, ◌*◌, ◌≤◌, ◌≡◌, refl, ap, ◌⊎◌, inl, inr, Option, none, some, List, [], ◌∷◌, ◌++◌,
  length, arith,
}
use vinezombie.Ircmsg.Codec.{ClientMsg}
use vinezombie.Client.Queue.{Queue, Popped, pop}
use vinezombie.Client.Queue.Calls.{Took, taken, pop-Took}

-- Two readings of the clock in each call of `pop`, in the order of the calls.
abbrev pub Ordered : ℕ → List (ℕ × ℕ) → ℕ → Type 0
Ordered start [] end = start ≤ end
Ordered start ((now, now') ∷ times) end = (start ≤ now) × (now ≤ now') × Ordered now' times end

abbrev pub gained : Option ClientMsg → List ClientMsg → List ClientMsg
gained none ms = ms
gained (some m) ms = m ∷ ms

-- A run of calls of `pop`: the messages that they return and the queue behind them.
pub data Run {A : Type 0} (instant_max : ℕ)
    : List (ℕ × ℕ) → Queue A → List ClientMsg → Queue A → Type 0 where
  stop : {q : Queue A} → Run instant_max [] q [] q
  call :
      {now now' : ℕ} {times : List (ℕ × ℕ)} {q q' : Queue A} {p : Popped A} {ms : List ClientMsg}
      → pop instant_max now now' q ≡ some p
      → Run instant_max times p.after ms q'
      → Run instant_max ((now, now') ∷ times) q (gained p.value ms) q'

Ordered-le : (start : ℕ) (times : List (ℕ × ℕ)) (end : ℕ) → Ordered start times end → start ≤ end
Ordered-le start [] end o = o
Ordered-le start ((now, now') ∷ times) end (a, b, o) =
    let h = Ordered-le now' times end o in omega arith

module _ {A : Type 0} (instant_max : ℕ) where
  -- What a run guarantees from the point in time `start` on.
  pub record Paced (start : ℕ) (q : Queue A) (ms : List ClientMsg) (q' : Queue A) (end : ℕ)
      : Type 0 where
    pub same_delay : q'.delay ≡ q.delay
    pub same_sub : q'.sub ≡ q.sub
    pub fifo : ms ++ q'.queue ≡ q.queue
    pub no_earlier : q.timepoint ≤ q'.timepoint
    pub paced :
        (ms ≡ []) × (q' ≡ q)
        ⊎ (start + length ms * q.delay ≤ q'.timepoint)
          × (q.timepoint + length ms * q.delay ≤ q'.timepoint)
          × (q'.timepoint ≤ end + q.sub + q.delay)

  wait_step :
      {q q' : Queue A} {ms : List ClientMsg} {start start' end : ℕ}
      → start ≤ start'
      → Paced start' q ms q' end
      → Paced start q ms q' end
  wait_step l r = record {
    same_delay = r.same_delay;
    same_sub = r.same_sub;
    fifo = r.fifo;
    no_earlier = r.no_earlier;
    paced = elim r.paced [ inl e ↦ inl e | inr (a, b, c) ↦ inr (omega arith, b, c) ];
  }

  take_step :
      {q q' : Queue A} {m : ClientMsg} {rest ms : List ClientMsg} {start now now' end : ℕ}
      → q.queue ≡ m ∷ rest
      → q.timepoint ≤ now + q.sub
      → start ≤ now
      → now ≤ now'
      → now' ≤ end
      → Paced now' (taken q rest now') ms q' end
      → Paced start q (m ∷ ms) q' end
  take_step {q} {q'} {m} {rest} {ms} e w l l' l'' r = record {
    same_delay = r.same_delay;
    same_sub = r.same_sub;
    fifo = rw e (ap (◌∷◌ m) r.fifo);
    no_earlier = let h = r.no_earlier in omega arith;
    paced = inr (elim r.paced [
      | inl (none_left, same) ↦ rw (none_left, same) (omega arith, omega arith, omega arith)
      | inr (a, b, c) ↦ (omega arith, omega arith, omega arith)
    ]);
  }

  call_step :
      {q q' : Queue A} {p : Popped A} {ms : List ClientMsg} {start now now' end : ℕ}
      → Took now now' q p
      → start ≤ now
      → now ≤ now'
      → now' ≤ end
      → Paced now' p.after ms q' end
      → Paced start q (gained p.value ms) q' end
  call_step (inl (v, same)) l l' l'' r = rw v (wait_step (omega arith) (rw same at r))
  call_step (inr (m, rest, v, e, w, same, t)) l l' l'' r =
      rw v (take_step e w l l' l'' (rw same at r))

  Run-Paced :
      {times : List (ℕ × ℕ)} {q q' : Queue A} {ms : List ClientMsg} {start end : ℕ}
      → Run instant_max times q ms q'
      → Ordered start times end
      → Paced start q ms q' end
  Run-Paced stop o = record {
    same_delay = refl;
    same_sub = refl;
    fifo = refl;
    no_earlier = omega arith;
    paced = inl (refl, refl);
  }
  Run-Paced {q = q} (call {now} {now'} {times} {p = p} h r) (a, b, o) =
      call_step (pop-Took instant_max now now' q h) a b (Ordered-le now' times _ o) (Run-Paced r o)

  -- Messages leave the queue in order: what a run of calls at successive points in time returns,
  -- and what is left behind them, are what was there.
  pub Run-fifo :
      (times : List (ℕ × ℕ)) (start end : ℕ) {q q' : Queue A} {ms : List ClientMsg}
      → Run instant_max times q ms q'
      → Ordered start times end
      → ms ++ q'.queue ≡ q.queue
  Run-fifo times start end r o = (Run-Paced r o).fifo

  -- The rate limit: over a run of calls of `pop` between two points in time, the number of messages
  -- times the delay is at most the time between them, the time of the burst and one more delay.
  pub Run-rate :
      (times : List (ℕ × ℕ)) (start end : ℕ) {q q' : Queue A} {ms : List ClientMsg}
      → Run instant_max times q ms q'
      → Ordered start times end
      → length ms * q.delay ≤ (end - start) + q.sub + q.delay
  Run-rate times start end {q} {q'} {ms} r o =
      let l = Ordered-le start times end o in
      elim (Run-Paced r o).paced [
        | inl (none_left, same) ↦ rw none_left (omega arith)
        | inr (a, b, c) ↦ omega arith
      ]
