-- ===== src/Text/Chunks/Tests.antt =====
-- A short string in chunks, for an engine that writes each byte four times.
use vinezombie.Prelude.{◌≡◌, refl, true, some, List, [], ◌∷◌, map, Bytes, length, codes}
use vinezombie.Text.Kinds.{InvalidString, Result, ok, is_invalid}
use vinezombie.Text.Splitter.{new as new_splitter}
use vinezombie.Text.Chunks.{new, len, Sends, receive, new_decoder}
use vinezombie.Text.Chunks.Delivery.{tagged, Fits}
use vinezombie.Text.Chunks.RoundTrip.{Encodes, encoder-decoder}

abbrev encode : Bytes → Bytes
encode [] = []
encode (c ∷ cs) = c ∷ c ∷ c ∷ c ∷ encode cs

abbrev every_fourth : Bytes → Bytes
every_fourth (c ∷ x ∷ y ∷ z ∷ cs) = c ∷ every_fourth cs
every_fourth _ = []

abbrev decode : Bytes → Result InvalidString Bytes
decode bs = ok (every_fourth bs)

ab-Encodes : Encodes encode decode (codes "ab")
unfolding is_invalid
ab-Encodes = record {
  decoded = refl;
  alphabet = (refl, (refl, (refl, (refl, (refl, (refl, (refl, (refl, tt))))))));
  groups = 2;
  padded = refl;
}

encoder-decoder_example :
    (chunks : List Bytes) × Sends (new encode (codes "ab") 4 true) (map (tagged true) chunks)
    × (length chunks ≡ len (new encode (codes "ab") 4 true))
    × Fits 4 chunks
    × (receive decode chunks (new_decoder 4) ≡ (some (ok (codes "ab")), new_decoder 4, []))
encoder-decoder_example = encoder-decoder encode decode (codes "ab") true 4 0 refl ab-Encodes

three_chunks : len (new encode (codes "ab") 4 true) ≡ 3
unfolding len new new_splitter
three_chunks = refl
