-- ===== src/Client/TimeLimits.antt =====
-- `TimeLimits` and `TimeLimitedSync` of `src/client/conn/time.rs`. Durations and points in time are
-- nanoseconds; the connection is a state with the operations that set its timeouts, and each reading
-- of the clock is an argument.
pub mod Start
pub mod Reading
use vinezombie.Prelude.{
  ℕ, zero, suc, Bytes, ◌+◌, ◌-◌, ◌*◌, ◌^◌, max, Bool, true, false, not, Option, none, some, leb,
  ◌==◌, if◌then◌else◌,
}
use vinezombie.Text.Kinds.{Result, ok, err}

-- The kinds of `std::io::Error` that the code tells apart.
pub data IoError : Type 0 where
  timed_out would_block : IoError
  other : ℕ → IoError

unfoldable pub timeout_fallback : Option ℕ → Option ℕ → Option ℕ × Bool
timeout_fallback (some t) old_timeout = (some t, true)
timeout_fallback none old_timeout = (old_timeout, false)

unfoldable pub filter_time_error : {T : Type 0} → Result IoError T → Result IoError (Option T)
filter_time_error (ok v) = ok (some v)
filter_time_error (err timed_out) = ok none
filter_time_error (err would_block) = ok none
filter_time_error (err (other n)) = err (other n)

pub record TimeLimits : Type 0 where
  pub read : Option ℕ
  pub write : Option ℕ
  pub update_write : Bool

abbrev pub new_limits : TimeLimits
new_limits = record { read = none; write = none; update_write = false }

-- `Duration::from_secs(1)`, and `std::cmp::max` of it and a timeout.
abbrev pub one_second : ℕ
one_second = 10 ^ 9

abbrev pub at_least_second : Option ℕ → Option ℕ
at_least_second none = none
at_least_second (some t) = some (max t one_second)

unfoldable pub require_update : TimeLimits → TimeLimits
require_update l = record l { update_write = true }

unfoldable pub read_timeout : TimeLimits → Option ℕ
read_timeout l = l.read

unfoldable pub set_read_timeout : Option ℕ → TimeLimits → TimeLimits
set_read_timeout timeout l = record l { read = at_least_second timeout }

unfoldable pub set_write_timeout : Option ℕ → TimeLimits → TimeLimits
set_write_timeout timeout l = record l { update_write = true; write = at_least_second timeout }

-- `TimeLimitedSync`: the connection and the deadline of the reads.
pub record Limited (C : Type 0) : Type 0 where
  pub conn : C
  pub deadline : Option ℕ

-- What a connection does when its timeouts are set.
pub record Timeouts (C : Type 0) : Type 0 where
  pub conn_read_timeout : C → Option ℕ → Result IoError (Unit {0}) × C
  pub conn_write_timeout : C → Option ℕ → Result IoError (Unit {0}) × C

-- `as_bufread` of a connection, whose operations are called at a point in time and also give the one at which
-- they return: `read` of a buffer of some length gives the bytes that were read, and `fill_buf` those that are
-- there to be read.
pub record BufRead (C : Type 0) : Type 0 where
  pub conn_read : ℕ → C → ℕ → Result IoError Bytes × C × ℕ
  pub conn_fill_buf : C → ℕ → Result IoError Bytes × C × ℕ
  pub conn_consume : C → ℕ → C

abbrev pub within : ℕ → ℕ → Option ℕ
within instant_max t = if leb t instant_max then some t else none

-- `instant_max` is the last point in time that `Instant` can express.
abbrev pub deadline_of : ℕ → ℕ → Option ℕ → Option ℕ
deadline_of instant_max now none = none
deadline_of instant_max now (some dur) = within instant_max (now + dur)

module _ {C : Type 0} (ops : Timeouts C) where
  -- The rest of `new`, once the write timeout is set where this is needed.
  abbrev pub limited : ℕ → ℕ → Option ℕ → TimeLimits → C → Limited C × Bool
  limited instant_max now write_after timeouts conn =
      let (read, constrained) = timeout_fallback write_after timeouts.read in
      (record { conn = conn; deadline = deadline_of instant_max now read }, constrained)

  abbrev pub updated :
      Result IoError (Unit {0}) × C
      → ℕ
      → ℕ
      → Option ℕ
      → TimeLimits
      → Result IoError (Limited C × Bool) × C × TimeLimits
  updated (err e, conn) instant_max now write_after timeouts = (err e, conn, timeouts)
  updated (ok v, conn) instant_max now write_after timeouts = (
    ok (limited instant_max now write_after timeouts conn),
    conn,
    record timeouts { update_write = false },
  )

  -- `TimeLimitedSync::new`: its result, the connection and the limits.
  unfoldable pub new :
      ℕ → ℕ → C → TimeLimits → Option ℕ → Result IoError (Limited C × Bool) × C × TimeLimits
  unfolding timeout_fallback
  new instant_max now conn timeouts write_after = elim timeouts.update_write [
    | true ↦
        updated (ops.conn_write_timeout conn timeouts.write) instant_max now write_after timeouts
    | false ↦ (ok (limited instant_max now write_after timeouts conn), conn, timeouts)
  ]

  abbrev pub with_conn :
      Option ℕ → Result IoError (Unit {0}) × C → Result IoError (Unit {0}) × Limited C
  with_conn deadline (r, conn) = (r, record { conn = conn; deadline = deadline })

  -- `update_timeout`, which every read begins with.
  unfoldable pub update_timeout : ℕ → Limited C → Result IoError (Unit {0}) × Limited C
  update_timeout now l = elim l.deadline [
    | none ↦ (ok tt, l)
    | some deadline ↦
        if not (deadline - now == 0)
        then with_conn l.deadline (ops.conn_read_timeout l.conn (some (deadline - now)))
        else (err timed_out, l)
  ]

  module _ (reader : BufRead C) where
    -- The connection is asked once its timeout is updated, which takes no time.
    abbrev pub and_then :
        Result IoError (Unit {0}) × Limited C
        → ℕ
        → (C → ℕ → Result IoError Bytes × C × ℕ)
        → Result IoError Bytes × Limited C × ℕ
    and_then (err e, l) now ask = (err e, l, now)
    and_then (ok v, l) now ask =
        let (r, conn, after) = ask l.conn now in (r, record l { conn = conn }, after)

    -- `read` with a buffer of some length.
    unfoldable pub read : ℕ → ℕ → Limited C → Result IoError Bytes × Limited C × ℕ
    unfolding update_timeout
    read len now l = and_then (update_timeout now l) now (reader.conn_read len)

    unfoldable pub fill_buf : ℕ → Limited C → Result IoError Bytes × Limited C × ℕ
    unfolding update_timeout
    fill_buf now l = and_then (update_timeout now l) now reader.conn_fill_buf

    unfoldable pub consume : ℕ → Limited C → Limited C
    consume amt l = record l { conn = reader.conn_consume l.conn amt }
