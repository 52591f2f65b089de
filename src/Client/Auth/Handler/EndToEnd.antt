-- ===== src/Client/Auth/Handler/EndToEnd.antt =====
-- The SASL handler of `src/client/auth/handler.rs` with the mechanisms that are included, over the base64 chunks.
use vinezombie.Prelude.{
  ℕ, zero, suc, ◌≡◌, refl, ap, Bool, true, false, some, List, [], ◌∷◌, ◌++◌, map, append_assoc,
  Bytes, length, arith,
}
use vinezombie.Text.Kinds.{Result, ok}
use vinezombie.Text.Chunks.{
  ChunkEncoder, new as new_encoder, len, Sends, done, more, new_decoder, receive, plus, add, decode,
}
use vinezombie.Text.Chunks.Delivery.{tagged, Fits}
use vinezombie.Text.Chunks.RoundTrip.{Encodes, encoder-decoder}
use vinezombie.Ircmsg.Args.{Args}
use vinezombie.Ircmsg.Codec.{ServerMsg, as_arg}
use vinezombie.Client.Auth.{
  SaslLogic, Mechanism, plain, included, no_bytes, new_plain, mechanism_reply, authenticate_msg,
}
use vinezombie.Client.Auth.Handler.{
  Handler, challenge, arm_of, Step, collect, chunk_msgs, first_word, challenged, answered,
  new_handler, decoded, handle_arm, handle,
}

-- With as much fuel as there are chunks, all are collected.
collect-Sends :
    {e : ChunkEncoder} {cs : List (Bytes × Bool)}
    → Sends e cs
    → (fuel : ℕ) → fuel ≡ length cs
    → collect fuel e ≡ ok cs
unfolding collect
collect-Sends (done e h) zero k = refl
collect-Sends (done e h) (suc fuel) k = absurd (omega arith)
collect-Sends (more e e' c cs h s) zero k = absurd (omega arith)
collect-Sends (more e e' c cs h s) (suc fuel) k = rw (h, collect-Sends s fuel (omega arith))

chunk_msgs-tagged :
    (secret : Bool) (cs : List Bytes)
    → chunk_msgs (map (tagged secret) cs) ≡ map authenticate_msg cs
unfolding chunk_msgs
chunk_msgs-tagged secret [] = refl
chunk_msgs-tagged secret (c ∷ cs) = ap (◌∷◌ (authenticate_msg c)) (chunk_msgs-tagged secret cs)

length-map-tagged : (secret : Bool) (cs : List Bytes) → length (map (tagged secret) cs) ≡ length cs
length-map-tagged secret [] = refl
length-map-tagged secret (c ∷ cs) = omega (arith, length-map-tagged secret cs)

module _ {L : Type 0} (ops : SaslLogic L) {E : Type 0} (engine_encode : Bytes → Bytes)
    (engine_decode : Bytes → Result E Bytes) where
  -- The chunks of a reply as they are sent, and what a new decoder makes of them.
  pub record Sent (buf : Bytes) (h : Handler L) (step : Step L) : Type 0 where
    pub chunks : List Bytes
    pub result : step ≡ ok (ok false, h, map authenticate_msg chunks)
    pub fitting : Fits 400 chunks
    pub arrived :
        receive engine_decode chunks (new_decoder 400) ≡ (some (ok buf), new_decoder 400, [])

  answered-Sent :
      (buf : Bytes) (h : Handler L)
      → Encodes engine_encode engine_decode buf
      → Sent buf h (answered ops engine_encode engine_decode (some buf) h)
  unfolding answered
  answered-Sent buf h enc =
      let (chunks, sent, counted, fitting, arrived) =
        encoder-decoder engine_encode engine_decode buf true 400 99 refl enc in
      let all : collect (len (new_encoder engine_encode buf 400 true))
            (new_encoder engine_encode buf 400 true)
          ≡ ok (map (tagged true) chunks) =
        collect-Sends sent _ (omega (arith, counted, length-map-tagged true chunks)) in
      record {
        chunks = chunks;
        result = rw (all, chunk_msgs-tagged true chunks);
        fitting = fitting;
        arrived = arrived;
      }

-- RFC 4616: the two identities and the password, with NUL between them.
abbrev pub plain_message : Bytes → Bytes → Bytes → Bytes
plain_message authzid authcid passwd = authzid ++ 0 ∷ (authcid ++ 0 ∷ passwd)

new_plain-message : (z c p : Bytes) → new_plain z c p ≡ plain (plain_message z c p)
unfolding new_plain
new_plain-message z c p = simp append_assoc

message-nonempty : (z c p : Bytes) → no_bytes (plain_message z c p) ≡ false
message-nonempty [] c p = refl
message-nonempty (x ∷ xs) c p = refl

module _ {E : Type 0} (engine_encode : Bytes → Bytes) (engine_decode : Bytes → Result E Bytes)
    (none_encoded : engine_decode [] ≡ ok []) where
  -- A challenge that is a plus is empty.
  plus-challenge :
      (args : Args) (rest : List Bytes)
      → args.words ≡ plus ∷ rest
      → decoded included engine_encode engine_decode (first_word args.words) (new_decoder 400)
        ≡ (some (ok []), new_decoder 400)
  unfolding decoded add decode
  plus-challenge args rest h = rw (h, none_encoded)

  plain-reply : (m : Bytes) → no_bytes m ≡ false → mechanism_reply (plain m) [] ≡ (some m, plain [])
  unfolding mechanism_reply
  plain-reply m h = rw h

  -- Asked by a plus, a new handler for PLAIN sends messages whose chunks, all of them arguments of at most
  -- 400 bytes, a new decoder turns into the two identities and the password with NUL between them; it
  -- then has nothing more to send.
  pub handle-plain_message :
      (authzid authcid passwd : Bytes) (queue : List Mechanism) (msg : ServerMsg)
      (rest : List Bytes)
      → Encodes engine_encode engine_decode (plain_message authzid authcid passwd)
      → arm_of (as_arg msg.kind) ≡ challenge
      → msg.args.words ≡ plus ∷ rest
      → Sent included engine_encode engine_decode
          (plain_message authzid authcid passwd)
          (new_handler included (plain []) queue)
          (handle included engine_encode engine_decode msg
            (new_handler included (new_plain authzid authcid passwd) queue))
  unfolding handle handle_arm challenged new_handler included
  handle-plain_message z c p queue msg rest enc a w =
      rw
        (
          a,
          new_plain-message z c p,
          plus-challenge msg.args rest w,
          plain-reply (plain_message z c p) (message-nonempty z c p),
        )
        (answered-Sent included engine_encode engine_decode (plain_message z c p) _ enc)
