-- ===== src/Client/Queue/Multi.antt =====
-- `MultiAdjuster` of `src/client/queue.rs`: adjusters, each with whether it said that it should adjust.
use vinezombie.Prelude.{
  ℕ, ◌≡◌, refl, sym, ap, ◌∙◌, Bool, true, false, ◌&&◌, ◌||◌, List, [], ◌∷◌, ◌++◌, length, or_false,
  ◌==◌,
}
use vinezombie.Ircmsg.Codec.{ClientMsg, ServerMsg}
use vinezombie.Client.Queue.{Adjuster}

abbrev pub Multi : Type 0 → Type 0
Multi A = List (A × Bool)

module _ {A : Type 0} where
  unfoldable pub add : A → Multi A → Multi A
  add a m = m ++ (a, false) ∷ []

  unfoldable pub clear : Multi A → Multi A
  clear m = []

  unfoldable pub is_empty : Multi A → Bool
  is_empty m = length m == 0

  unfoldable pub len : Multi A → ℕ
  len m = length m

  unfoldable pub from_iter : List A → Multi A
  from_iter [] = []
  from_iter (a ∷ rest) = (a, false) ∷ from_iter rest

or_assoc : (a b c : Bool) → ((a || b) || c) ≡ (a || (b || c))
or_assoc true b c = refl
or_assoc false b c = refl

module _ {A : Type 0} (ops : Adjuster A) where
  -- The loop of `should_adjust`, with `retval`.
  unfoldable pub should_loop : Bool → Multi A → ServerMsg → Bool × Multi A
  should_loop retval [] msg = (retval, [])
  should_loop retval ((a, flag) ∷ m) msg =
      let (should, a') = ops.should_adjust a msg in
      let (retval', m') = should_loop (retval || should) m msg in (retval', (a', should) ∷ m')

  -- The loop of `update`, with `retval`; an adjuster without its flag is passed by.
  unfoldable pub update_loop : Bool → Multi A → ClientMsg → Bool × ClientMsg × Multi A
  update_loop retval [] msg = (retval, msg, [])
  update_loop retval ((a, true) ∷ m) msg =
      let (keep, msg', a') = ops.update a msg in
      let (retval', msg'', m') = update_loop (retval && keep) m msg' in
      (retval', msg'', (a', true) ∷ m')
  update_loop retval ((a, false) ∷ m) msg =
      let (retval', msg', m') = update_loop retval m msg in (retval', msg', (a, false) ∷ m')

  unfoldable pub reset_all : Multi A → Multi A
  reset_all [] = []
  reset_all ((a, flag) ∷ m) = (ops.reset_adjuster a, false) ∷ reset_all m

  unfoldable pub multi_adjuster : Adjuster (Multi A)
  unfolding should_loop update_loop reset_all
  multi_adjuster = record {
    should_adjust = λ m msg. should_loop false m msg;
    update = λ m msg. update_loop true m msg;
    reset_adjuster = reset_all;
  }

  -- Whether any adjuster of the collection has its flag.
  abbrev pub any_flag : Multi A → Bool
  any_flag [] = false
  any_flag ((a, flag) ∷ m) = flag || any_flag m

  should_loop-any_flag :
      (retval : Bool) (m : Multi A) (msg : ServerMsg)
      → (should_loop retval m msg).0 ≡ (retval || any_flag ((should_loop retval m msg).1))
  unfolding should_loop
  should_loop-any_flag retval [] msg = sym (or_false retval)
  should_loop-any_flag retval ((a, flag) ∷ m) msg =
      should_loop-any_flag (retval || (ops.should_adjust a msg).0) m msg
      ∙ or_assoc retval ((ops.should_adjust a msg).0) _

  update_loop-no_flag :
      (retval : Bool) (m : Multi A) (msg : ClientMsg)
      → any_flag m ≡ false
      → update_loop retval m msg ≡ (retval, msg, m)
  unfolding update_loop
  update_loop-no_flag retval [] msg h = refl
  update_loop-no_flag retval ((a, true) ∷ m) msg h = absurd (cc)
  update_loop-no_flag retval ((a, false) ∷ m) msg h =
      ap (λ r. (r.0, r.1, (a, false) ∷ r.2)) (update_loop-no_flag retval m msg h)

  -- Where the collection says that it should not adjust, updating with what it has become then
  -- keeps every message as it is, and changes no member.
  pub multi_adjuster-idle :
      (m : Multi A) (msg : ServerMsg) (sent : ClientMsg)
      → (multi_adjuster.should_adjust m msg).0 ≡ false
      → multi_adjuster.update ((multi_adjuster.should_adjust m msg).1) sent
        ≡ (true, sent, (multi_adjuster.should_adjust m msg).1)
  unfolding multi_adjuster
  multi_adjuster-idle m msg sent h =
      update_loop-no_flag true ((should_loop false m msg).1) sent
        (sym (should_loop-any_flag false m msg) ∙ h)

  any_flag-reset_all : (m : Multi A) → any_flag (reset_all m) ≡ false
  unfolding reset_all
  any_flag-reset_all [] = refl
  any_flag-reset_all ((a, flag) ∷ m) = any_flag-reset_all m

  -- After a reset, an update keeps every message as it is until the next call of `should_adjust`.
  pub multi_adjuster-reset :
      (m : Multi A) (sent : ClientMsg)
      → multi_adjuster.update (multi_adjuster.reset_adjuster m) sent
        ≡ (true, sent, multi_adjuster.reset_adjuster m)
  unfolding multi_adjuster
  multi_adjuster-reset m sent = update_loop-no_flag true (reset_all m) sent (any_flag-reset_all m)
