-- ===== src/Client/Auth/Handler/Leftover.antt =====
-- What the decoder of `src/client/auth/handler.rs` still holds when the next mechanism begins.
use vinezombie.Prelude.{
  ℕ, ◌≤◌, ◌≡◌, false, none, some, List, [], ◌∷◌, Bytes, codes, length, ltb, arith,
}
use vinezombie.Text.Kinds.{Result, ok, err}
use vinezombie.Text.Chunks.{ChunkDecoder, new_decoder, plus, add, decode}
use vinezombie.Ircmsg.Args.{Args}
use vinezombie.Ircmsg.Codec.{ServerMsg, as_arg}
use vinezombie.Client.Auth.{
  Mechanism, plain, included, mechanism_name, mechanism_reply, authenticate_msg, msg_abort, retain,
}
use vinezombie.Client.Auth.Handler.{
  Handler, broken, challenge, failed, arm_of, Step, challenged, answered, abort_with, cycled,
  rule_out, new_handler, decoded, first_word, auth_msg, handle_arm, handle,
}

-- The decoder with what a chunk left in it.
abbrev holding : Bytes → ChunkDecoder
holding c = record { data_added = c; chunk_len = 400 }

module _ {E : Type 0} (engine_encode : Bytes → Bytes) (engine_decode : Bytes → Result E Bytes) where
  add-full :
      (c : Bytes) → 400 ≤ length c → add engine_decode c (new_decoder 400) ≡ (none, holding c)
  unfolding add
  add-full c h = let e : ltb (length c) 400 ≡ false = ground arith in rw e

  plus-holding :
      (args : Args) (c : Bytes) {least : List Bytes}
      → args.words ≡ plus ∷ least
      → decoded included engine_encode engine_decode (first_word args.words) (holding c)
        ≡ (some (engine_decode c), new_decoder 400)
  unfolding decoded add decode
  plus-holding args c h = rw h

  abbrev step : ServerMsg → Handler Mechanism → Step Mechanism
  step = handle included engine_encode engine_decode

  -- A first mechanism gets a full chunk of 400 bytes or more and is then refused; the next and last one,
  -- PLAIN, is asked by a plus. It is given what the chunk decodes to, which is not empty: the handler
  -- aborts, reports that the server's PLAIN is broken and has not sent the credentials.
  pub failed-leftover :
      (logic : Mechanism) (left : Bytes) (c : Bytes) {x : ℕ} {xs : Bytes} {more least : List Bytes}
      (m1 m2 m3 : ServerMsg)
      → 400 ≤ length c
      → engine_decode c ≡ ok (x ∷ xs)
      → arm_of (as_arg m1.kind) ≡ challenge
      → m1.args.words ≡ c ∷ more
      → arm_of (as_arg m2.kind) ≡ failed
      → arm_of (as_arg m3.kind) ≡ challenge
      → m3.args.words ≡ plus ∷ least
      → (h1 : Handler Mechanism) × (h2 : Handler Mechanism) × (h3 : Handler Mechanism) × (step m1
            (new_handler included logic (plain left ∷ []))
          ≡ ok (ok false, h1, []))
        × (step m2 h1 ≡ ok (ok false, h2, authenticate_msg (codes "PLAIN") ∷ []))
        × (step m3 h2 ≡ ok (err (broken (codes "PLAIN")), h3, msg_abort ∷ []))
  unfolding handle handle_arm new_handler challenged decoded answered rule_out cycled abort_with
      auth_msg included mechanism_reply mechanism_name retain
  failed-leftover logic left c m1 m2 m3 long dec a1 w1 a2 a3 w3 = (
    record { queue = plain left ∷ []; logic = logic; decoder = holding c },
    record { queue = []; logic = plain left; decoder = holding c },
    record { queue = []; logic = plain left; decoder = new_decoder 400 },
    rw (a1, w1, add-full c long),
    rw a2,
    rw (a3, plus-holding m3.args c w3, dec),
  )
