-- ===== src/Client/Auth/Handler/Progress.antt =====
-- How the handler of `src/client/auth/handler.rs` goes through its mechanisms.
use vinezombie.Prelude.{
  ℕ, ◌+◌, ◌≤◌, ◌≡◌, subst, Bool, true, false, not, Option, none, some, inl, inr, Bool-cases, List,
  [], ◌∷◌, Bytes, length, arith, if◌then◌else◌,
}
use vinezombie.Text.Kinds.{Result, ok, err, ◌>>=◌}
use vinezombie.Text.Chunks.{ChunkDecoder}
use vinezombie.Ircmsg.Args.{Args}
use vinezombie.Ircmsg.Codec.{ClientMsg, ServerMsg, as_arg}
use vinezombie.Client.Nick.{bytes_eq}
use vinezombie.Client.Messages.{retain_if}
use vinezombie.Client.Auth.{SaslLogic, retain}
use vinezombie.Client.Auth.Handler.{
  Handler, AuthError, broken, Arm, challenge, failed, too_long, aborted, mechanisms, logged_in,
  other, arm_of, Step, first_word, cycle, rule_out, decoded, challenged, answered, cycled,
  abort_with, Chunks, chunk_msgs, handle_arm, handle,
}

length-retain_if : {A : Type 0} (p : A → Bool) (xs : List A) → length (retain_if p xs) ≤ length xs
length-retain_if p [] = omega arith
length-retain_if p (x ∷ xs) = elim (Bool-cases (p x)) [
  | inl e ↦ rw e (omega (arith, length-retain_if p xs))
  | inr e ↦ rw e (omega (arith, length-retain_if p xs))
]

-- The handler after a step that requires more messages has a property.
abbrev pub Continues : {L : Type 0} → (Handler L → Type 0) → Step L → Type 0
Continues P (ok (ok false, h, ms)) = P h
Continues P _ = Unit

pub sent-Continues :
    {L : Type 0} (h : Handler L) (P : Handler L → Type 0)
    → P h
    → (r : Chunks) → Continues P (r >>= λ cs. ok (ok false, h, chunk_msgs cs))
sent-Continues h P p (ok cs) = p
sent-Continues h P p (err e) = tt

module _ {L : Type 0} (ops : SaslLogic L) {E : Type 0} (engine_encode : Bytes → Bytes)
    (engine_decode : Bytes → Result E Bytes) where
  abbrev failed_reply : Option Bytes → ℕ
  failed_reply none = 1
  failed_reply (some buf) = 0

  abbrev failed_challenge : Option (Result E Bytes) → L → ℕ
  failed_challenge (some (ok chal)) l = failed_reply (ops.reply l chal).0
  failed_challenge _ l = 0

  -- How many mechanisms a message ends: one by a 902 or 904, or by a reply that fails.
  abbrev pub failures : Arm → Args → Handler L → ℕ
  unfolding decoded
  failures failed args h = 1
  failures challenge args h =
      failed_challenge (decoded ops engine_encode engine_decode (first_word args.words) h.decoder).0
        h.logic
  failures _ args h = 0

  -- A run of messages after each of which more are required.
  pub data Run : Handler L → ℕ → Handler L → Type 0 where
    done : (h : Handler L) → Run h 0 h
    more :
        (h h' h'' : Handler L) (n : ℕ) (msg : ServerMsg) (ms : List ClientMsg)
        → handle ops engine_encode engine_decode msg h ≡ ok (ok false, h', ms)
        → Run h' n h''
        → Run h (failures (arm_of (as_arg msg.kind)) msg.args h + n) h''

  length-retain : (p : Bytes → Bool) (q : List L) → length (retain ops p q) ≤ length q
  unfolding retain
  length-retain p q = length-retain_if (λ l. p (ops.name l)) q

  Fewer : ℕ → ℕ → Handler L → Type 0
  Fewer n m h = n + length h.queue ≤ m

  cycled-Continues :
      (q : List L) (e : AuthError) (h : Handler L)
      → Continues (Fewer 1 (length q)) (cycled ops (cycle ops q e h))
  unfolding Fewer cycled
  cycled-Continues [] e h = tt
  cycled-Continues (l ∷ ls) e h = omega arith

  abort_with-Continues :
      (q : List L) (e : AuthError) (h : Handler L) (m : ℕ)
      → length q ≤ m
      → Continues (Fewer 1 m) (abort_with ops (cycle ops q e h))
  unfolding Fewer abort_with
  abort_with-Continues [] e h m le = tt
  abort_with-Continues (l ∷ ls) e h m le = omega arith

  answered-Continues :
      (reply : Option Bytes) (h : Handler L)
      → Continues
          (Fewer (failed_reply reply) (length h.queue))
          (answered ops engine_encode engine_decode reply h)
  unfolding answered rule_out Fewer
  answered-Continues none h =
      let name = ops.name h.logic in
      let q = retain ops (λ n. not (bytes_eq name n)) h.queue in
      abort_with-Continues q (broken name) h (length h.queue)
        (length-retain (λ n. not (bytes_eq name n)) h.queue)
  answered-Continues (some buf) h = sent-Continues h (Fewer 0 (length h.queue)) (omega arith) _

  challenged-Continues :
      (r : Option (Result E Bytes) × ChunkDecoder) (h : Handler L)
      → Continues
          (Fewer (failed_challenge (r.0) h.logic) (length h.queue))
          (challenged ops engine_encode engine_decode r h)
  unfolding challenged Fewer
  challenged-Continues (none, d) h = omega arith
  challenged-Continues (some (err e), d) h = tt
  challenged-Continues (some (ok chal), d) h =
      answered-Continues (ops.reply h.logic chal).0
        (record h { logic = (ops.reply h.logic chal).1; decoder = d })

  ruled-Continues :
      (b : Bool) (h : Handler L) (n m : ℕ) (ms : List ClientMsg)
      → Fewer n m h
      → Continues (Fewer n m) (ok ((if b then err AuthError.unsupported else ok false), h, ms))
  ruled-Continues true h n m ms k = tt
  ruled-Continues false h n m ms k = k

  handle_arm-Continues :
      (a : Arm) (args : Args) (h : Handler L)
      → Continues
          (Fewer (failures a args h) (length h.queue))
          (handle_arm ops engine_encode engine_decode a args h)
  unfolding handle_arm Fewer failures
  handle_arm-Continues challenge args h = challenged-Continues _ h
  handle_arm-Continues failed args h = cycled-Continues h.queue _ h
  handle_arm-Continues too_long args h = tt
  handle_arm-Continues aborted args h = omega arith
  handle_arm-Continues mechanisms args h =
      ruled-Continues _ _ 0 (length h.queue) [] (omega (arith, length-retain))
  handle_arm-Continues logged_in args h = tt
  handle_arm-Continues other args h = omega arith

  -- Over a run of messages after each of which more are required, the number of mechanisms that failed
  -- is at most the number of those that have left the queue.
  pub Run-failures : {h h' : Handler L} {n : ℕ} → Run h n h' → n + length h'.queue ≤ length h.queue
  unfolding Fewer handle
  Run-failures (done h) = omega arith
  Run-failures (more h h' h'' n msg ms e r) =
      let k : Fewer (failures (arm_of (as_arg msg.kind)) msg.args h) (length h.queue) h' =
        subst (Continues (Fewer _ (length h.queue))) e
          (handle_arm-Continues (arm_of (as_arg msg.kind)) msg.args h) in
      omega (arith, k, Run-failures r)
