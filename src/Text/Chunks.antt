-- ===== src/Text/Chunks.antt =====
-- `ChunkEncoder` and `ChunkDecoder` of `src/string/base64.rs`. The engine of the `base64` crate is a
-- parameter. A chunk comes with whether it is secret.
pub mod Pieces
pub mod Delivery
pub mod RoundTrip
mod Tests
use vinezombie.Prelude.{
  ℕ, ◌+◌, ◌/◌, ◌≡◌, Bool, true, false, Option, none, some, List, [], ◌∷◌, ◌++◌, ltb, ◌==◌,
  if◌then◌else◌, Bytes, length,
}
use vinezombie.Text.Kinds.{InvalidString, arg, Result, ok, err, ◌>>=◌}
use vinezombie.Text.Splitter.{
  Splitter, new as new_splitter, is_empty as splitter_is_empty, len as splitter_len, rest,
  until_count, save_end,
}

-- The splitter comes with whether its string is secret. Where it has run out after a full chunk, or
-- has nothing to begin with, only that is left.
pub record ChunkEncoder : Type 0 where
  pub splitter : Result Bool (Splitter × Bool)
  pub max : ℕ

abbrev pub empty : ChunkEncoder
empty = record { splitter = err false; max = 0 }

unfoldable pub is_empty : ChunkEncoder → Bool
is_empty e = e.max == 0

-- `names::PLUS`.
abbrev pub plus : Bytes
plus = b'+' ∷ []

-- The splitter for what is encoded.
abbrev pub split_up : Bytes → Bool → Result Bool (Splitter × Bool)
split_up [] secret = err secret
split_up (c ∷ cs) secret = ok (new_splitter (c ∷ cs) true, secret)

unfoldable pub new : (Bytes → Bytes) → Bytes → ℕ → Bool → ChunkEncoder
new engine_encode bytes max secret =
    if max == 0
    then empty
    else record { splitter = split_up (engine_encode bytes) secret; max = max }

-- `save_end().until_count(max).rest::<Arg>()`
unfoldable pub take_chunk : ℕ → Splitter → Result InvalidString Bytes × Splitter
unfolding until_count rest
take_chunk max = save_end (λ s. rest arg (until_count max s))

-- What is left behind a chunk.
unfoldable pub behind : Bytes → Splitter → Bool → ℕ → ChunkEncoder
unfolding splitter_is_empty
behind chunk s secret max =
    if ltb (length chunk) max
    then empty
    else if splitter_is_empty s
    then record { splitter = err secret; max = max }
    else record { splitter = ok (s, secret); max = max }

-- An error is the panic of `unwrap`.
abbrev pub Step : Type 0
Step = Result InvalidString (Option (Bytes × Bool) × ChunkEncoder)

abbrev pub next_of : Result Bool (Splitter × Bool) → ℕ → Step
unfolding take_chunk behind
next_of (err secret) max = ok (some (plus, secret), empty)
next_of (ok (s, secret)) max = (take_chunk max s).0 >>= λ chunk.
    ok (some (chunk, secret), behind chunk (take_chunk max s).1 secret max)

unfoldable pub next : ChunkEncoder → Step
unfolding take_chunk behind
next e = if e.max == 0 then ok (none, e) else next_of e.splitter e.max

abbrev pub chunks_of : Result Bool (Splitter × Bool) → ℕ → ℕ
chunks_of (ok (s, secret)) max = splitter_len s / max + 1
chunks_of (err secret) max = 1

-- `ExactSizeIterator::len`, which `size_hint` returns twice.
unfoldable pub len : ChunkEncoder → ℕ
len e = if e.max == 0 then 0 else chunks_of e.splitter e.max

-- The chunks that the iterator yields until it ends.
pub data Sends : ChunkEncoder → List (Bytes × Bool) → Type 0 where
  done : (e : ChunkEncoder) → next e ≡ ok (none, e) → Sends e []
  more :
      (e e' : ChunkEncoder) (c : Bytes × Bool) (cs : List (Bytes × Bool))
      → next e ≡ ok (some c, e')
      → Sends e' cs
      → Sends e (c ∷ cs)

pub record ChunkDecoder : Type 0 where
  pub data_added : Bytes
  pub chunk_len : ℕ

abbrev pub new_decoder : ℕ → ChunkDecoder
new_decoder chunk_len = record { data_added = []; chunk_len = chunk_len }

-- `chunk == b"+"`
abbrev pub is_plus : Bytes → Bool
is_plus (c ∷ []) = c == b'+'
is_plus _ = false

abbrev pub extend : Bytes → ChunkDecoder → ChunkDecoder
extend chunk d = record d { data_added = d.data_added ++ chunk }

module _ {E : Type 0} (engine_decode : Bytes → Result E Bytes) where
  unfoldable pub decode : ChunkDecoder → Result E Bytes × ChunkDecoder
  decode d = (engine_decode d.data_added, record d { data_added = [] })

  abbrev finished : Result E Bytes × ChunkDecoder → Option (Result E Bytes) × ChunkDecoder
  finished (r, d) = (some r, d)

  unfoldable pub add : Bytes → ChunkDecoder → Option (Result E Bytes) × ChunkDecoder
  unfolding decode
  add chunk d =
      if ltb (length chunk) d.chunk_len
      then finished (decode (if is_plus chunk then d else extend chunk d))
      else (none, extend chunk d)

  abbrev Received : Type 0
  Received = Option (Result E Bytes) × ChunkDecoder × List Bytes

  abbrev pub go_on :
      Option (Result E Bytes) × ChunkDecoder → List Bytes → (ChunkDecoder → Received) → Received
  go_on (none, d) cs k = k d
  go_on (some r, d) cs k = (some r, d, cs)

  -- The chunks added one after the other, until a result is there; and the chunks left then.
  unfoldable pub receive : List Bytes → ChunkDecoder → Received
  unfolding add
  receive [] d = (none, d, [])
  receive (c ∷ cs) d = go_on (add c d) cs (λ d'. receive cs d')
