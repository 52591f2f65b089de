-- ===== src/Client/Auth/Handler/RuledOut.antt =====
-- A mechanism whose reply failed is not tried again by the handler of `src/client/auth/handler.rs`.
use vinezombie.Prelude.{
  ℕ, ◌≡◌, refl, subst, Bool, true, false, not, Option, none, some, inl, inr, Bool-cases,
  if◌then◌else◌, List, [], ◌∷◌, Bytes, arith,
}
use vinezombie.Text.Kinds.{Result, ok, err}
use vinezombie.Text.Chunks.{ChunkDecoder}
use vinezombie.Ircmsg.Args.{Args, split_last}
use vinezombie.Ircmsg.Codec.{ClientMsg, ServerMsg, as_arg}
use vinezombie.Client.Nick.{bytes_eq}
use vinezombie.Client.Messages.{retain_if, contains_bytes}
use vinezombie.Client.Auth.{SaslLogic, retain}
use vinezombie.Client.Auth.Handler.{
  Handler, AuthError, broken, Arm, challenge, failed, too_long, aborted, mechanisms, logged_in,
  other, arm_of, first_word, cycle, rule_out, decoded, challenged, answered, cycled, abort_with,
  handle_arm, handle,
}
use vinezombie.Client.Auth.Handler.Progress.{Continues, sent-Continues, Run, done, more}

abbrev pub All : {A : Type 0} → (A → Type 0) → List A → Type 0
All P [] = Unit
All P (x ∷ xs) = P x × All P xs

module _ {L : Type 0} (ops : SaslLogic L) (P : L → Type 0) where
  abbrev Held : Handler L → Type 0
  Held h = P h.logic × All P h.queue

  All-retain_if : (p : L → Bool) (xs : List L) → All P xs → All P (retain_if p xs)
  All-retain_if p [] h = tt
  All-retain_if p (x ∷ xs) h = elim (Bool-cases (p x)) [
    | inl e ↦ rw e (h.0, All-retain_if p xs h.1)
    | inr e ↦ rw e (All-retain_if p xs h.1)
  ]

  All-retain : (p : Bytes → Bool) (xs : List L) → All P xs → All P (retain ops p xs)
  unfolding retain
  All-retain p xs h = All-retain_if (λ l. p (ops.name l)) xs h

  cycled-Held :
      (q : List L) (e : AuthError) (h : Handler L)
      → All P q
      → Continues Held (cycled ops (cycle ops q e h))
  unfolding cycled
  cycled-Held [] e h k = tt
  cycled-Held (l ∷ ls) e h k = k

  abort_with-Held :
      (q : List L) (e : AuthError) (h : Handler L)
      → All P q
      → Continues Held (abort_with ops (cycle ops q e h))
  unfolding abort_with
  abort_with-Held [] e h k = tt
  abort_with-Held (l ∷ ls) e h k = k

  module _ {E : Type 0} (engine_encode : Bytes → Bytes) (engine_decode : Bytes → Result E Bytes)
      (keeps : (l : L) (chal : Bytes) → P l → P (ops.reply l chal).1) where
    answered-Held :
        (reply : Option Bytes) (h : Handler L)
        → Held h
        → Continues Held (answered ops engine_encode engine_decode reply h)
    unfolding answered rule_out
    answered-Held none h k =
        let name = ops.name h.logic in
        abort_with-Held (retain ops (λ n. not (bytes_eq name n)) h.queue) (broken name) h
          (All-retain (λ n. not (bytes_eq name n)) h.queue k.1)
    answered-Held (some buf) h k = sent-Continues h Held k _

    challenged-Held :
        (r : Option (Result E Bytes) × ChunkDecoder) (h : Handler L)
        → Held h
        → Continues Held (challenged ops engine_encode engine_decode r h)
    unfolding challenged
    challenged-Held (none, d) h k = k
    challenged-Held (some (err e), d) h k = tt
    challenged-Held (some (ok chal), d) h k =
        answered-Held (ops.reply h.logic chal).0
          (record h { logic = (ops.reply h.logic chal).1; decoder = d })
          (keeps h.logic chal k.0, k.1)

    ruled-Held :
        (b : Bool) (h : Handler L) (ms : List ClientMsg)
        → Held h
        → Continues Held (ok ((if b then err AuthError.unsupported else ok false), h, ms))
    ruled-Held true h ms k = tt
    ruled-Held false h ms k = k

    handle_arm-Held :
        (a : Arm) (args : Args) (h : Handler L)
        → Held h
        → Continues Held (handle_arm ops engine_encode engine_decode a args h)
    unfolding handle_arm
    handle_arm-Held challenge args h k = challenged-Held _ h k
    handle_arm-Held failed args h k = cycled-Held h.queue _ h k.1
    handle_arm-Held too_long args h k = tt
    handle_arm-Held aborted args h k = k
    handle_arm-Held mechanisms args h k =
        let set = (split_last args).0 in
        let h' = record h { queue = retain ops (contains_bytes set) h.queue } in
        ruled-Held _ h' [] (k.0, All-retain (contains_bytes set) h.queue k.1)
    handle_arm-Held logged_in args h k = tt
    handle_arm-Held other args h k = k

    Run-Held :
        {h h' : Handler L} {n : ℕ} → Run ops engine_encode engine_decode h n h' → Held h → Held h'
    unfolding handle
    Run-Held (done h) k = k
    Run-Held (more h h' h'' n msg ms e r) k =
        Run-Held r
          (subst (Continues Held) e (handle_arm-Held (arm_of (as_arg msg.kind)) msg.args h k))

module _ {L : Type 0} (ops : SaslLogic L) (name : Bytes) where
  abbrev Other : L → Type 0
  Other l = bytes_eq name (ops.name l) ≡ false

  not-true : (b : Bool) → not b ≡ true → b ≡ false
  not-true true h = absurd (ground arith)
  not-true false h = refl

  retain-Other : (xs : List L) → All Other (retain_if (λ l. not (bytes_eq name (ops.name l))) xs)
  retain-Other [] = tt
  retain-Other (x ∷ xs) = elim (Bool-cases (not (bytes_eq name (ops.name x)))) [
    | inl e ↦ rw e (not-true (bytes_eq name (ops.name x)) e, retain-Other xs)
    | inr e ↦ rw e (retain-Other xs)
  ]

  cycle-Other :
      (q : List L) (e : AuthError) (h : Handler L)
      → All Other q
      → Continues (Held ops Other) (abort_with ops (cycle ops q e h))
  cycle-Other q e h k = abort_with-Held ops Other q e h k

module _ {L : Type 0} (ops : SaslLogic L) {E : Type 0} (engine_encode : Bytes → Bytes)
    (engine_decode : Bytes → Result E Bytes) where
  -- What the decoder makes of a message that challenges, as the code calls it.
  abbrev pub challenge_of : Args → Handler L → Option (Result E Bytes) × ChunkDecoder
  unfolding decoded
  challenge_of args h = decoded ops engine_encode engine_decode (first_word args.words) h.decoder

module _ {L : Type 0} (ops : SaslLogic L) {E : Type 0} (engine_encode : Bytes → Bytes)
    (engine_decode : Bytes → Result E Bytes)
    (named : (l : L) (chal : Bytes) → ops.name (ops.reply l chal).1 ≡ ops.name l) where
  abbrev Not : Bytes → Handler L → Type 0
  Not name h = Held ops (Other ops name) h

  answered-Not :
      (reply : Option Bytes) (h : Handler L)
      → reply ≡ none
      → Continues (Not (ops.name h.logic)) (answered ops engine_encode engine_decode reply h)
  unfolding answered rule_out retain
  answered-Not none h e =
      let name = ops.name h.logic in
      cycle-Other ops name (retain ops (λ n. not (bytes_eq name n)) h.queue) (broken name) h
        (retain-Other ops name h.queue)
  answered-Not (some buf) h e = absurd (ground arith)

  challenged-Not :
      (r : Option (Result E Bytes) × ChunkDecoder) (h : Handler L) {chal : Bytes}
      → r.0 ≡ some (ok chal)
      → (ops.reply h.logic chal).0 ≡ none
      → Continues (Not (ops.name h.logic)) (challenged ops engine_encode engine_decode r h)
  unfolding challenged
  challenged-Not (none, d) h e f = absurd (ground arith)
  challenged-Not (some (err x), d) h e f = tt
  challenged-Not (some (ok c), d) h {chal} e f =
      let same : c ≡ chal = cc in
      rw (← named h.logic c) (
        answered-Not (ops.reply h.logic c).0
          (record h { logic = (ops.reply h.logic c).1; decoder = d }) (rw same f))

  -- Where the logic of a mechanism keeps its name, and a challenge is decoded but the reply to it fails,
  -- no mechanism of that name is the current one after any further run, or in the queue: the handler ends,
  -- or goes on with others.
  pub challenge-Run-ne :
      (msg : ServerMsg) (h h' h'' : Handler L) {chal : Bytes} {ms : List ClientMsg} {n : ℕ}
      → arm_of (as_arg msg.kind) ≡ challenge
      → (challenge_of ops engine_encode engine_decode msg.args h).0 ≡ some (ok chal)
      → (ops.reply h.logic chal).0 ≡ none
      → handle ops engine_encode engine_decode msg h ≡ ok (ok false, h', ms)
      → Run ops engine_encode engine_decode h' n h''
      → (bytes_eq (ops.name h.logic) (ops.name h''.logic) ≡ false)
        × All (λ l. bytes_eq (ops.name h.logic) (ops.name l) ≡ false) h''.queue
  unfolding handle handle_arm
  challenge-Run-ne msg h h' h'' {chal} a c f e r =
      let name = ops.name h.logic in
      let start : Not name h' =
        subst (Continues (Not name)) (rw a at e)
          (challenged-Not (challenge_of ops engine_encode engine_decode msg.args h) h c f) in
      Run-Held ops (Other ops name) engine_encode engine_decode (λ l chal k. rw (named l chal) k) r
        start
