-- ===== src/Client/TimeLimits/Reading.antt =====
-- Reads through a `TimeLimitedSync` of `src/client/conn/time.rs`, and the deadline that they share.
use vinezombie.Prelude.{ℕ, ◌-◌, ◌≤◌, ◌<◌, ◌≡◌, Option, none, some, Bytes}
use vinezombie.Text.Kinds.{Result, ok, err}
use vinezombie.Client.TimeLimits.{
  IoError, timed_out, TimeLimits, Limited, Timeouts, BufRead, read, fill_buf, consume,
}
use vinezombie.Client.TimeLimits.Start.{at_deadline}

module _ {C : Type 0} (ops : Timeouts C) (reader : BufRead C) where
  -- What is asked for.
  pub data Call : Type 0 where
    reading : ℕ → Call
    filling : Call

  abbrev pub ask : Call → C → ℕ → Result IoError Bytes × C × ℕ
  ask (reading len) = reader.conn_read len
  ask filling = reader.conn_fill_buf

  unfoldable pub call : Call → ℕ → Limited C → Result IoError Bytes × Limited C × ℕ
  unfolding read fill_buf
  call (reading len) now l = read ops reader len now l
  call filling now l = fill_buf ops reader now l

  -- Calls at any points in time, with what is consumed in between.
  pub data Calls : Limited C → Limited C → Type 0 where
    done : (l : Limited C) → Calls l l
    asked : (now : ℕ) (l l' : Limited C) (c : Call) → Calls (call c now l).1 l' → Calls l l'
    consumed : (n : ℕ) (l l' : Limited C) → Calls (consume ops reader n l) l' → Calls l l'

  -- What a call at a point in time comes to, given the deadline if there is one.
  pub data Outcome (c : Call) (now : ℕ) (l : Limited C)
      : Option ℕ → Result IoError Bytes × Limited C × ℕ → Type 0 where
    unlimited :
        Outcome c now l none
          ((ask c l.conn now).0, at_deadline (ask c l.conn now).1 none, (ask c l.conn now).2)
    answered :
        (d : ℕ) (v : Unit {0}) (conn : C)
        → now < d
        → ops.conn_read_timeout l.conn (some (d - now)) ≡ (ok v, conn)
        → (ask c conn now).2 ≤ d
        → Outcome c now l
            (some d)
            ((ask c conn now).0, at_deadline (ask c conn now).1 (some d), (ask c conn now).2)
    refused :
        (d : ℕ) (e : IoError) (conn : C)
        → now < d
        → ops.conn_read_timeout l.conn (some (d - now)) ≡ (err e, conn)
        → Outcome c now l (some d) (err e, at_deadline conn (some d), now)
    late :
        (d : ℕ)
        → d ≤ now
        → Outcome c now l (some d) (err timed_out, at_deadline l.conn (some d), now)
