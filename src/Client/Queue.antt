-- ===== src/Client/Queue.antt =====
-- `Queue` of `src/client/queue.rs`: the rate-limited queue of outgoing messages. Durations and
-- points in time are nanoseconds; the readings of the clock are arguments.
pub mod Calls
pub mod Rate
pub mod Wait
pub mod Labels
pub mod Multi
use vinezombie.Prelude.{
  ℕ, ◌+◌, ◌-◌, ◌*◌, ◌^◌, ◌≤◌, min, max, Bool, true, false, ◌&&◌, ◌||◌, not, Option, none, some,
  List, [], ◌∷◌, ◌++◌, length, take, ◌==◌, leb, if◌then◌else◌,
}
use vinezombie.Ircmsg.Codec.{ClientMsg, ServerMsg}

-- `Adjuster`: the trait's methods on the state of the adjuster.
pub record Adjuster (A : Type 0) : Type 0 where
  pub should_adjust : A → ServerMsg → Bool × A
  pub update : A → ClientMsg → Bool × ClientMsg × A
  pub reset_adjuster : A → A

-- `Queue` without the labeler; the adjuster is its state.
pub record Queue (A : Type 0) : Type 0 where
  pub queue : List ClientMsg
  pub delay : ℕ
  pub sub : ℕ
  pub timepoint : ℕ
  pub adjuster : Option A

-- `Duration::MAX`, and `Duration::from_secs`.
abbrev pub duration_max : ℕ
duration_max = 2 ^ 64 * 10 ^ 9 - 1

abbrev pub from_secs : ℕ → ℕ
from_secs n = n * 10 ^ 9

-- What `pop` returns, what it calls `timeout_fn` with, if it does, and the queue.
pub record Popped (A : Type 0) : Type 0 where
  pub value : Option ClientMsg
  pub timeout : Option (Option ℕ)
  pub after : Queue A

-- `QueueEditGuard`: the queue that it borrows, and its length then.
pub record EditGuard (A : Type 0) : Type 0 where
  pub edited : Queue A
  pub orig_len : ℕ

module _ {A : Type 0} where
  unfoldable pub from_queue : List ClientMsg → ℕ → Queue A
  from_queue queue now = record {
    queue = queue;
    delay = from_secs 2;
    sub = from_secs 8;
    timepoint = now;
    adjuster = none;
  }

  unfoldable pub is_empty : Queue A → Bool
  is_empty q = length q.queue == 0

  unfoldable pub len : Queue A → ℕ
  len q = length q.queue

  -- `instant_max` is the last point in time that `Instant` can express.
  unfoldable pub set_rate_limit : ℕ → ℕ → ℕ → ℕ → Queue A → Queue A
  set_rate_limit instant_max delay burst now q =
      let sub = min (delay * burst) duration_max in
      let next = now + min (sub + delay) duration_max in
      record q { delay = delay; sub = sub; timepoint = if leb next instant_max then next else now }

  -- How long the next message has to wait at `now`.
  abbrev pub wait : Queue A → ℕ → ℕ
  wait q now = q.timepoint - now - q.sub

  -- `pop`, which reads the clock twice; `none` is the panic of an `Instant` that overflows.
  unfoldable pub pop : ℕ → ℕ → ℕ → Queue A → Option (Popped A)
  pop instant_max now now' q = elim q.queue [
    | [] ↦ some (record { value = none; timeout = some none; after = q })
    | value ∷ rest ↦
        if wait q now == 0
        then (if leb (max q.timepoint now' + q.delay) instant_max
            then some (record {
              value = some value;
              timeout = none;
              after = record q { queue = rest; timepoint = max q.timepoint now' + q.delay };
            })
            else none)
        else some (record { value = none; timeout = some (some (wait q now)); after = q })
  ]

  unfoldable pub use_adjuster : A → Queue A → Queue A
  use_adjuster a q = record q { adjuster = some a }

  unfoldable pub use_no_adjuster : Queue A → Queue A
  use_no_adjuster q = record q { adjuster = none }

  unfoldable pub clear : Queue A → Queue A
  clear q = record q { queue = [] }

  unfoldable pub edit : Queue A → EditGuard A
  edit q = record { edited = q; orig_len = length q.queue }

  unfoldable pub push : ClientMsg → EditGuard A → EditGuard A
  push msg g = record g { edited = record (g.edited) { queue = g.edited.queue ++ msg ∷ [] } }

  unfoldable pub guard_len : EditGuard A → ℕ
  guard_len g = length g.edited.queue - g.orig_len

  unfoldable pub guard_clear : EditGuard A → EditGuard A
  guard_clear g = record g { edited = record (g.edited) { queue = take g.orig_len g.edited.queue } }

  unfoldable pub extend : List ClientMsg → Queue A → Queue A
  extend msgs q = record q { queue = q.queue ++ msgs }

  module _ (ops : Adjuster A) where
    -- `retain_mut` with the adjuster's `update`.
    unfoldable pub retain : A → List ClientMsg → List ClientMsg × A
    retain a [] = ([], a)
    retain a (m ∷ ms) =
        let (keep, m', a') = ops.update a m in
        let (ms', a'') = retain a' ms in ((if keep then m' ∷ ms' else ms'), a'')

    abbrev pub adjusted : Queue A → Bool × A → Queue A
    adjusted q (false, a) = record q { adjuster = some a }
    adjusted q (true, a) =
        let (ms, a') = retain a q.queue in record q { queue = ms; adjuster = some a' }

    unfoldable pub adjust : ServerMsg → Queue A → Queue A
    unfolding retain
    adjust msg q = elim q.adjuster [ none ↦ q | some a ↦ adjusted q (ops.should_adjust a msg) ]

    -- `reset`; the labeler is not part of the model.
    unfoldable pub reset : ℕ → Queue A → Queue A
    reset now q = elim q.adjuster [
      | none ↦ record q { queue = []; timepoint = now }
      | some a ↦ record q { queue = []; timepoint = now; adjuster = some (ops.reset_adjuster a) }
    ]
