-- ===== src/Text/Chunks/RoundTrip.antt =====
-- What the decoder of `src/string/base64.rs` makes of the chunks of the encoder.
use native.Mathlib.Nat.{div-eq_of_lt, div-eq-sub-div}
use vinezombie.Prelude.{
  ℕ, zero, suc, ◌+◌, ◌-◌, ◌*◌, ◌/◌, ◌≤◌, ◌<◌, ◌≡◌, refl, ◌∙◌, inl, inr, Bool, true, false, some,
  map, List, [], ◌∷◌, ◌++◌, lt_or_le, ◌==◌, Bytes, length, take, drop, length-take, length-drop,
  Lacks, arith,
}
use vinezombie.Text.Kinds.{Result, ok}
use vinezombie.Text.Splitter.{Splitter, new as new_splitter}
use vinezombie.Text.Splitter.View.{View, new-View, View-length}
use vinezombie.Text.Chunks.{
  split_up, new, len, chunks_of, Sends, receive, new_decoder, is_plus, take_chunk, behind,
}
use vinezombie.Text.Chunks.Pieces.{is_outside, Lacks-drop, take_chunk-View}
use vinezombie.Text.Chunks.Delivery.{
  Delivered, plus-Delivered, short-Delivered, full-Delivered, behind-end, behind-more,
  chunk-IsValid, large-nonzero, tagged, Fits,
}

is_plus-long : (bs : Bytes) → 1 < length bs → is_plus bs ≡ false
is_plus-long [] h = refl
is_plus-long (c ∷ []) h = absurd (omega arith)
is_plus-long (c ∷ d ∷ cs) h = refl

module _ {E : Type 0} (engine_decode : Bytes → Result E Bytes) (secret : Bool) (max k : ℕ)
    (whole : max ≡ 4 * suc k) where
  large : 1 < max
  large = omega arith

  -- The bytes behind a full chunk, if there are any, and the chunks that they make.
  after_full :
      {s' : Splitter} (bs chunk : Bytes)
      → max ≤ length chunk
      → View s' bs
      → (acc : Bytes)
      → (0 < length bs
          → Delivered engine_decode secret max
              (record { splitter = ok (s', secret); max = max })
              acc
              bs
              (length bs / max + 1))
      → Delivered engine_decode secret max (behind chunk s' secret max) acc bs (length bs / max + 1)
  after_full {s'} [] chunk full v acc rec =
      rw
        (
          behind-end engine_decode secret max large v chunk full refl,
          div-eq_of_lt {n = 0} {m = max} (omega (arith, large)),
        )
        (plus-Delivered engine_decode secret max large acc)
  after_full {s'} (c ∷ cs) chunk full v acc rec =
      rw (behind-more engine_decode secret max large v chunk full (omega arith)) (rec (omega arith))

  deliver :
      (n j : ℕ) {s : Splitter} {bs : Bytes}
      → j < n
      → View s bs
      → Lacks is_outside bs
      → length bs ≡ 4 * suc j
      → (acc : Bytes)
      → Delivered engine_decode secret max
          (record { splitter = ok (s, secret); max = max })
          acc
          bs
          (length bs / max + 1)
  deliver zero j h v good l acc = absurd (omega arith)
  deliver (suc n) j {s} {bs} h v good l acc = elim (lt_or_le (length bs) max) [
    | inl less ↦ rw (div-eq_of_lt less) (
        short-Delivered engine_decode secret max large v good (omega arith) acc less
          (is_plus-long bs (omega arith)))
    | inr more ↦
        let count : length bs / max + 1 ≡ suc (length (drop max bs) / max + 1) =
          rw
            (
              length-drop max bs,
              div-eq-sub-div {m = max} {n = length bs} (omega (arith, large)) more,
            )
            (omega arith) in
        let taken : max ≤ length (take max bs) = omega (arith, length-take max bs) in
        let left : length (drop max bs) ≡ 4 * (j - k) = omega (arith, length-drop max bs, whole) in
        let nonempty : 0 < length bs = omega arith in
        let rest : View (take_chunk max s).1 (drop max bs) =
          (take_chunk-View v max
            (chunk-IsValid engine_decode secret max large v good nonempty).others_valid).1 in
        rw count (
          full-Delivered engine_decode secret max large v good nonempty _ acc _ more refl (
            after_full (drop max bs) (take max bs) taken rest (acc ++ take max bs) (λ h'.
              deliver n (j - suc k) (omega (arith, whole)) rest (Lacks-drop is_outside max bs good)
                (omega (arith, left)) (acc ++ take max bs))))
  ]

  -- The same for an encoder that starts.
  starting :
      (j : ℕ) (w : Bytes)
      → length w ≡ 4 * j
      → Lacks is_outside w
      → Delivered engine_decode secret max
          (record { splitter = split_up w secret; max = max })
          []
          w
          (chunks_of (split_up w secret) max)
  starting j [] l good = plus-Delivered engine_decode secret max large []
  starting zero (c ∷ cs) l good = absurd (omega arith)
  starting (suc j) (c ∷ cs) l good =
      let v : View (new_splitter (c ∷ cs) true) (c ∷ cs) = new-View (c ∷ cs) true in
      rw (← View-length v) (deliver (suc j) j (omega arith) v good l [])

module _ (max : ℕ) (positive : (max == 0) ≡ false) where
  started :
      (engine_encode : Bytes → Bytes) (bytes : Bytes) (secret : Bool)
      → new engine_encode bytes max secret
        ≡ record { splitter = split_up (engine_encode bytes) secret; max = max }
  unfolding new
  started engine_encode bytes secret = rw positive

  len-chunks_of :
      (r : Result Bool (Splitter × Bool))
      → len (record { splitter = r; max = max }) ≡ chunks_of r max
  unfolding len
  len-chunks_of r = rw positive

-- What the engine does with a string: it is decoded from what it is encoded as, which is made of
-- bytes that an argument may have and is padded to a multiple of four.
pub record Encodes {E : Type 0} (engine_encode : Bytes → Bytes)
    (engine_decode : Bytes → Result E Bytes) (bytes : Bytes) : Type 0 where
  pub decoded : engine_decode (engine_encode bytes) ≡ ok bytes
  pub alphabet : Lacks is_outside (engine_encode bytes)
  pub groups : ℕ
  pub padded : length (engine_encode bytes) ≡ 4 * groups

-- For a maximum that is a positive multiple of four, the encoder yields as many chunks as its length
-- says and panics nowhere. Each is an argument of at most the maximum length and as secret as asked.
-- A new decoder that is given them returns the encoded bytes at the last one and no sooner, and is
-- empty again then.
pub encoder-decoder :
    {E : Type 0} (engine_encode : Bytes → Bytes) (engine_decode : Bytes → Result E Bytes)
    (bytes : Bytes) (secret : Bool) (max k : ℕ)
    → max ≡ 4 * suc k
    → Encodes engine_encode engine_decode bytes
    → (chunks : List Bytes) × Sends
        (new engine_encode bytes max secret)
        (map (tagged secret) chunks)
      × (length chunks ≡ len (new engine_encode bytes max secret))
      × Fits max chunks
      × (receive engine_decode chunks (new_decoder max) ≡ (some (ok bytes), new_decoder max, []))
encoder-decoder engine_encode engine_decode bytes secret max k whole h =
    let d =
      starting engine_decode secret max k whole h.groups (engine_encode bytes) h.padded
        h.alphabet in
    let positive : (max == 0) ≡ false =
      large-nonzero engine_decode secret max (large engine_decode secret max k whole) in
    rw (started max positive engine_encode bytes secret, len-chunks_of max positive)
      (d.chunks, d.sent, d.counted, d.fitting, d.arrived ∙ rw h.decoded)
