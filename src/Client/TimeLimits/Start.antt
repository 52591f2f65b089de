-- ===== src/Client/TimeLimits/Start.antt =====
-- The deadline that a `TimeLimitedSync` of `src/client/conn/time.rs` starts with.
use vinezombie.Prelude.{
  ℕ, ◌+◌, ◌≤◌, ◌≡◌, refl, sym, subst, ap, Bool, true, false, Bool-cases, Option, none, some, max,
  leb, arith, inl, inr,
}
use vinezombie.Text.Kinds.{Result, ok, err}
use vinezombie.Client.TimeLimits.{
  IoError, one_second, TimeLimits, set_read_timeout, Limited, Timeouts, new, at_least_second,
  limited, updated, deadline_of, timeout_fallback,
}

-- The deadline that a limit gives, at least a second after a point in time.
abbrev pub ends : ℕ → Option ℕ → Option ℕ
ends t0 none = none
ends t0 (some limit) = some (t0 + max limit one_second)

abbrev pub InRange : ℕ → Option ℕ → Type 0
InRange instant_max none = Unit
InRange instant_max (some d) = d ≤ instant_max

abbrev pub at_deadline : {C : Type 0} → C → Option ℕ → Limited C
at_deadline conn d = record { conn = conn; deadline = d }

module _ {C : Type 0} (ops : Timeouts C) where
  -- What the connection was told, if the write timeout needed an update.
  abbrev pub Told : Bool → Option ℕ → C → C → Type 0
  Told true write conn conn' = (v : Unit {0}) × (ops.conn_write_timeout conn write ≡ (ok v, conn'))
  Told false write conn conn' = conn' ≡ conn

  -- What `new` makes, at a point in time.
  abbrev pub Started :
      ℕ → Option ℕ → TimeLimits → C → Result IoError (Limited C × Bool) × C × TimeLimits → Type 0
  Started t0 limit limits conn (err e, conn', limits') = Unit
  Started t0 limit limits conn (ok (l, b), conn', limits') =
      (l ≡ at_deadline conn' (ends t0 limit))
      × (limits' ≡ record (set_read_timeout limit limits) { update_write = false })
      × Told limits.update_write limits.write conn conn'

  module _ (instant_max t0 : ℕ) where
    deadline_of-ends :
        (limit : Option ℕ)
        → InRange instant_max (ends t0 limit)
        → deadline_of instant_max t0 (at_least_second limit) ≡ ends t0 limit
    deadline_of-ends none h = refl
    deadline_of-ends (some limit) h =
        let b : leb (t0 + max limit one_second) instant_max ≡ true = ground arith in rw b refl

    limited-ends :
        (limit : Option ℕ) (limits : TimeLimits) (conn : C)
        → InRange instant_max (ends t0 limit)
        → (limited ops instant_max t0 none (set_read_timeout limit limits) conn).0
          ≡ at_deadline conn (ends t0 limit)
    unfolding set_read_timeout timeout_fallback
    limited-ends limit limits conn h = ap (at_deadline conn) (deadline_of-ends limit h)

    updated-Started :
        (limit : Option ℕ) (limits : TimeLimits) (conn : C)
        → InRange instant_max (ends t0 limit)
        → limits.update_write ≡ true
        → (r : Result IoError (Unit {0}) × C) → ops.conn_write_timeout conn limits.write ≡ r
        → Started t0 limit limits conn
            (updated ops r instant_max t0 none (set_read_timeout limit limits))
    unfolding set_read_timeout
    updated-Started limit limits conn h u (err e, conn') w = tt
    updated-Started limit limits conn h u (ok v, conn') w =
        (limited-ends limit limits conn' h, refl, rw u (v, w))

    new-updated :
        (limit : Option ℕ) (limits : TimeLimits) (conn : C)
        → limits.update_write ≡ true
        → new ops instant_max t0 conn (set_read_timeout limit limits) none
          ≡ updated ops
              (ops.conn_write_timeout conn limits.write)
              instant_max
              t0
              none
              (set_read_timeout limit limits)
    unfolding new set_read_timeout
    new-updated limit limits conn u = simp (u, new)

    new-limited :
        (limit : Option ℕ) (limits : TimeLimits) (conn : C)
        → limits.update_write ≡ false
        → new ops instant_max t0 conn (set_read_timeout limit limits) none ≡ (
          ok (limited ops instant_max t0 none (set_read_timeout limit limits) conn),
          conn,
          set_read_timeout limit limits,
        )
    unfolding new set_read_timeout
    new-limited limit limits conn u = simp (u, new)

    -- Whether the write timeout is set first or not.
    pub new-Started :
        (limit : Option ℕ) (limits : TimeLimits) (conn : C)
        → InRange instant_max (ends t0 limit)
        → Started t0 limit limits conn
            (new ops instant_max t0 conn (set_read_timeout limit limits) none)
    unfolding set_read_timeout
    new-Started limit limits conn h = elim (Bool-cases limits.update_write) [
      | inl u ↦
          subst (Started t0 limit limits conn) (sym (new-updated limit limits conn u))
            (updated-Started limit limits conn h u (ops.conn_write_timeout conn limits.write) refl)
      | inr u ↦ subst (Started t0 limit limits conn) (sym (new-limited limit limits conn u)) (
        limited-ends limit limits conn h,
        ap (λ b. record (set_read_timeout limit limits) { update_write = b }) u,
        rw u refl,
      )
    ]
