-- ===== src/Text/Chunks/Delivery.antt =====
-- What the decoder of `src/string/base64.rs` makes of the chunks of the encoder, one chunk at a time.
use vinezombie.Prelude.{
  ℕ, suc, ◌-◌, ◌≤◌, ◌<◌, ◌≡◌, refl, sym, ap, ◌∙◌, Bool, true, false, none, some, List, [], ◌∷◌,
  ◌++◌, map, append-nil, append_assoc, ltb, lt→ltb, ◌==◌, if◌then◌else◌, Bytes, length, take, drop,
  length-take, take-append-drop, Lacks, arith,
}
use vinezombie.Text.Kinds.{arg, is_invalid, check_others, IsValid, Result, ok, err}
use vinezombie.Text.Splitter.{Splitter, is_empty as splitter_is_empty}
use vinezombie.Text.Splitter.View.{View, View-length}
use vinezombie.Text.Chunks.{
  ChunkEncoder, empty, plus, take_chunk, behind, next, Sends, done, more, ChunkDecoder, is_plus,
  decode, add, receive,
}
use vinezombie.Text.Chunks.Pieces.{is_outside, Lacks-take, take-all, inside, take_chunk-View}

abbrev pub tagged : Bool → Bytes → Bytes × Bool
tagged secret chunk = (chunk, secret)

-- Chunks that are arguments of at most a length.
abbrev pub Fits : ℕ → List Bytes → Type 0
Fits max [] = Unit
Fits max (c ∷ cs) = (length c ≤ max) × IsValid arg c × Fits max cs

plus-IsValid : IsValid arg plus
unfolding is_invalid check_others
plus-IsValid = record { bytes_valid = (refl, tt); others_valid = refl }

module _ {E : Type 0} (engine_decode : Bytes → Result E Bytes) (secret : Bool) (max : ℕ) where
  abbrev pub decoder : Bytes → ChunkDecoder
  decoder acc = record { data_added = acc; chunk_len = max }

  -- The encoder sends so many chunks, all of them as secret as asked; a decoder to which some data
  -- has been added decodes it with these bytes behind it when the last one arrives, and no sooner.
  pub record Delivered (e : ChunkEncoder) (acc bs : Bytes) (n : ℕ) : Type 0 where
    pub chunks : List Bytes
    pub sent : Sends e (map (tagged secret) chunks)
    pub counted : length chunks ≡ n
    pub fitting : Fits max chunks
    pub arrived :
        receive engine_decode chunks (decoder acc)
        ≡ (some (engine_decode (acc ++ bs)), decoder [], [])

  positive : (n : ℕ) → 0 < n → (n == 0) ≡ false
  positive n h = ground arith

  not-ltb : (n : ℕ) → max ≤ n → ltb n max ≡ false
  not-ltb n h = ground arith

  receive-full :
      (c acc : Bytes) (cs : List Bytes)
      → max ≤ length c
      → receive engine_decode (c ∷ cs) (decoder acc) ≡ receive engine_decode cs (decoder (acc ++ c))
  unfolding receive
  receive-full c acc cs h =
      let e : add engine_decode c (decoder acc) ≡ (none, decoder (acc ++ c)) =
        unfold add in rw (not-ltb (length c) h) in
      rw (receive, e)

  receive-last :
      (c acc bs : Bytes)
      → length c < max
      → (if is_plus c then decoder acc else decoder (acc ++ c)) ≡ decoder (acc ++ bs)
      → receive engine_decode (c ∷ []) (decoder acc)
        ≡ (some (engine_decode (acc ++ bs)), decoder [], [])
  unfolding receive
  receive-last c acc bs h k =
      let e : add engine_decode c (decoder acc) ≡ (some (engine_decode (acc ++ bs)), decoder []) =
        unfold add decode in rw (lt→ltb (length c) max h, k) in
      rw (receive, e)

  module _ (large : 1 < max) where
    pub large-nonzero : (max == 0) ≡ false
    large-nonzero = ground arith

    -- What comes behind a full chunk, for the bytes that are left.
    module _ {s : Splitter} {bs : Bytes} (v : View s bs) (chunk : Bytes)
        (full : max ≤ length chunk) where
      pub behind-end :
          length bs ≡ 0 → behind chunk s secret max ≡ record { splitter = err secret; max = max }
      unfolding behind splitter_is_empty
      behind-end h =
          let e : (s.range.end - s.range.start) ≡ 0 = omega (arith, View-length v) in
          rw (not-ltb (length chunk) full, e)

      pub behind-more :
          0 < length bs
          → behind chunk s secret max ≡ record { splitter = ok (s, secret); max = max }
      unfolding behind splitter_is_empty
      behind-more h =
          let e : ((s.range.end - s.range.start) == 0) ≡ false =
            positive (s.range.end - s.range.start) (omega (arith, View-length v)) in
          rw (not-ltb (length chunk) full, e)

    empty-Sends : Sends empty []
    unfolding next
    empty-Sends = done empty refl

    pub plus-Delivered :
        (acc : Bytes) → Delivered (record { splitter = err secret; max = max }) acc [] 1
    unfolding next
    plus-Delivered acc = record {
      chunks = plus ∷ [];
      sent = more _ empty (plus, secret) [] (rw large-nonzero) empty-Sends;
      counted = refl;
      fitting = (omega arith, plus-IsValid, tt);
      arrived = receive-last plus acc [] large (ap decoder (sym (append-nil acc)));
    }

    module _ {s : Splitter} {bs : Bytes} (v : View s bs) (good : Lacks is_outside bs)
        (some_left : 0 < length bs) where
      pub chunk-IsValid : IsValid arg (take max bs)
      chunk-IsValid =
          inside (take max bs) (Lacks-take is_outside max bs good)
            (omega (arith, length-take max bs))

      next-chunk :
          next (record { splitter = ok (s, secret); max = max })
          ≡ ok (some (take max bs, secret), behind (take max bs) (take_chunk max s).1 secret max)
      unfolding next
      next-chunk = rw (large-nonzero, (take_chunk-View v max chunk-IsValid.others_valid).0)

      -- A last chunk that is shorter than the others, and not a plus by itself.
      pub short-Delivered :
          (acc : Bytes)
          → length bs < max
          → is_plus bs ≡ false
          → Delivered (record { splitter = ok (s, secret); max = max }) acc bs 1
      unfolding behind
      short-Delivered acc h p =
          let e : take max bs ≡ bs = take-all max bs (omega arith) in
          let l : ltb (length bs) max ≡ true = lt→ltb (length bs) max h in
          record {
            chunks = bs ∷ [];
            sent = more _ empty (bs, secret) [] (next-chunk ∙ rw (e, l)) empty-Sends;
            counted = refl;
            fitting = (omega arith, rw e at chunk-IsValid, tt);
            arrived = receive-last bs acc bs h (rw p);
          }

      -- A full chunk, and what is left behind it.
      pub full-Delivered :
          (e : ChunkEncoder) (acc : Bytes) (n : ℕ)
          → max ≤ length bs
          → behind (take max bs) (take_chunk max s).1 secret max ≡ e
          → Delivered e (acc ++ take max bs) (drop max bs) n
          → Delivered (record { splitter = ok (s, secret); max = max }) acc bs (suc n)
      full-Delivered e acc n h b d = record {
        chunks = take max bs ∷ d.chunks;
        sent = more _ e (take max bs, secret) _ (next-chunk ∙ rw b) d.sent;
        counted = omega (arith, d.counted);
        fitting = (omega (arith, length-take max bs), chunk-IsValid, d.fitting);
        arrived =
            receive-full (take max bs) acc d.chunks (omega (arith, length-take max bs))
            ∙ d.arrived
            ∙ rw (append_assoc acc (take max bs) (drop max bs), take-append-drop max bs);
      }
