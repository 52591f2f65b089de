-- ===== src/Client/Auth/Handler.antt =====
-- The SASL handler of `src/client/auth/handler.rs`. The base64 engine is a parameter. A step gives the result,
-- the new handler and the messages sent; an outer error is the panic of the chunk encoder.
pub mod Progress
pub mod Leftover
pub mod EndToEnd
pub mod RuledOut
use vinezombie.Prelude.{
  ℕ, zero, suc, Bool, true, false, not, ◌&&◌, ◌||◌, Option, none, some, List, [], ◌∷◌, Bytes, codes,
  if◌then◌else◌,
}
use vinezombie.Text.Kinds.{InvalidString, Result, ok, err, ◌>>=◌}
use vinezombie.Text.Chunks.{
  ChunkEncoder, new as new_encoder, next, len, ChunkDecoder, new_decoder, add, decode,
}
use vinezombie.Ircmsg.Args.{Args, split_last}
use vinezombie.Ircmsg.Codec.{ClientMsg, ServerMsg, as_arg}
use vinezombie.Client.Nick.{bytes_eq}
use vinezombie.Client.Messages.{contains_bytes}
use vinezombie.Client.Auth.{SaslLogic, authenticate_msg, msg_abort, retain, is_empty}

pub record Handler (L : Type 0) : Type 0 where
  pub queue : List L
  pub logic : L
  pub decoder : ChunkDecoder

-- `HandlerError`.
pub data AuthError : Type 0 where
  broken : Bytes → AuthError
  unsupported : AuthError
  fail : Bytes → AuthError

-- The arms of the match on the kind of a message.
pub data Arm : Type 0 where
  challenge failed too_long aborted mechanisms logged_in other : Arm

unfoldable pub arm_of : Bytes → Arm
arm_of k =
    if bytes_eq k (codes "AUTHENTICATE")
    then challenge
    else if bytes_eq k (codes "902") || bytes_eq k (codes "904")
    then failed
    else if bytes_eq k (codes "905")
    then too_long
    else if bytes_eq k (codes "906")
    then aborted
    else if bytes_eq k (codes "908")
    then mechanisms
    else if bytes_eq k (codes "900") || bytes_eq k (codes "903") || bytes_eq k (codes "907")
    then logged_in
    else other

abbrev pub Chunks : Type 0
Chunks = Result InvalidString (List (Bytes × Bool))

abbrev pub and_rest : Option (Bytes × Bool) × ChunkEncoder → (ChunkEncoder → Chunks) → Chunks
and_rest (none, e) rest = ok []
and_rest (some c, e) rest = rest e >>= λ cs. ok (c ∷ cs)

-- The loop over a chunk encoder, with fuel for its chunks.
unfoldable pub collect : ℕ → ChunkEncoder → Chunks
unfolding next
collect zero e = ok []
collect (suc fuel) e = next e >>= λ step. and_rest step (λ e'. collect fuel e')

abbrev pub first_word : List Bytes → Option Bytes
first_word [] = none
first_word (w ∷ ws) = some w

-- `unwrap_or_default` of a string.
abbrev pub or_empty : Option Bytes → Bytes
or_empty none = []
or_empty (some w) = w

unfoldable pub chunk_msgs : List (Bytes × Bool) → List ClientMsg
unfolding authenticate_msg
chunk_msgs [] = []
chunk_msgs ((c, secret) ∷ cs) = authenticate_msg c ∷ chunk_msgs cs

abbrev pub Step : Type 0 → Type 0
Step L = Result InvalidString (Result AuthError Bool × Handler L × List ClientMsg)

module _ {L : Type 0} (ops : SaslLogic L) where
  unfoldable pub new_handler : L → List L → Handler L
  new_handler logic queue = record { queue = queue; logic = logic; decoder = new_decoder 400 }

  unfoldable pub from_queue : List L → Option (Handler L)
  unfolding new_handler
  from_queue [] = none
  from_queue (l ∷ ls) = some (new_handler l ls)

  unfoldable pub auth_msg : Handler L → ClientMsg
  unfolding authenticate_msg
  auth_msg h = authenticate_msg (ops.name h.logic)

  -- `retain` of the handler.
  unfoldable pub retain_handler : (Bytes → Bool) → Handler L → Option Bool × Handler L
  unfolding retain
  retain_handler supported h =
      let queue = retain ops supported h.queue in
      if supported (ops.name h.logic) then (none, record h { queue = queue }) else elim queue [
        | [] ↦ (some false, record h { queue = [] })
        | l ∷ ls ↦ (some true, record h { queue = ls; logic = l })
      ]

  -- The next mechanism of a queue, or an error.
  abbrev pub cycle : List L → AuthError → Handler L → Result AuthError Bool × Handler L
  cycle [] e h = (err e, record h { queue = [] })
  cycle (l ∷ ls) e h = (ok false, record h { queue = ls; logic = l })

  -- What follows a reply that failed: the mechanism is ruled out.
  unfoldable pub rule_out : Handler L → Result AuthError Bool × Handler L
  unfolding retain
  rule_out h =
      let name = ops.name h.logic in
      cycle (retain ops (λ n. not (bytes_eq name n)) h.queue) (broken name) h

  abbrev pub abort_with : Result AuthError Bool × Handler L → Step L
  unfolding msg_abort
  abort_with (r, h) = ok (r, h, msg_abort ∷ [])

  abbrev pub cycled : Result AuthError Bool × Handler L → Step L
  unfolding auth_msg
  cycled (err e, h) = ok (err e, h, [])
  cycled (ok b, h) = ok (ok b, h, auth_msg h ∷ [])

  module _ {E : Type 0} (engine_encode : Bytes → Bytes)
      (engine_decode : Bytes → Result E Bytes) where
    -- The chunks of a reply, and the messages that send them; the handler has the mechanism's new state.
    abbrev pub answered : Option Bytes → Handler L → Step L
    unfolding rule_out collect new_encoder len chunk_msgs
    answered none h = abort_with (rule_out h)
    answered (some buf) h =
        let encoder = new_encoder engine_encode buf 400 true in
        collect (len encoder) encoder >>= λ cs. ok (ok false, h, chunk_msgs cs)

    -- What the decoder returned.
    abbrev pub challenged : Option (Result E Bytes) × ChunkDecoder → Handler L → Step L
    unfolding msg_abort answered
    challenged (none, d) h = ok (ok false, record h { decoder = d }, [])
    challenged (some (err e), d) h =
        ok (err (broken (codes "base64")), record h { decoder = d }, msg_abort ∷ [])
    challenged (some (ok chal), d) h =
        let (reply, logic) = ops.reply h.logic chal in
        answered reply (record h { logic = logic; decoder = d })

    abbrev pub decoded : Option Bytes → ChunkDecoder → Option (Result E Bytes) × ChunkDecoder
    unfolding add decode
    decoded none d = let (r, d') = decode engine_decode d in (some r, d')
    decoded (some w) d = add engine_decode w d

    unfoldable pub handle_arm : Arm → Args → Handler L → Step L
    unfolding challenged decoded split_last retain is_empty cycled
    handle_arm challenge args h = challenged (decoded (first_word args.words) h.decoder) h
    handle_arm failed args h = cycled (cycle h.queue (fail (or_empty (split_last args).1)) h)
    handle_arm too_long args h = ok (err (broken (codes "counting")), h, [])
    handle_arm aborted args h = ok (ok false, h, auth_msg h ∷ [])
    handle_arm mechanisms args h =
        let set = (split_last args).0 in
        let queue = retain ops (contains_bytes set) h.queue in
        ok (
          (if is_empty queue && not (contains_bytes set (ops.name h.logic))
              then err unsupported
              else ok false),
          record h { queue = queue },
          [],
        )
    handle_arm logged_in args h = ok (ok true, h, [])
    handle_arm other args h = ok (ok false, h, [])

    unfoldable pub handle : ServerMsg → Handler L → Step L
    unfolding arm_of handle_arm as_arg
    handle msg h = handle_arm (arm_of (as_arg msg.kind)) msg.args h
