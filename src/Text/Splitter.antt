-- ===== src/Text/Splitter.antt =====
-- `Splitter` of `src/string/splitter.rs`: a byte string with the range that is still to be read.
-- A method that changes the splitter returns its result and the new splitter.
pub mod View
pub mod Saved
use vinezombie.Prelude.{
  ℕ, ◌+◌, ◌-◌, ◌≤◌, min, Bool, true, false, not, ◌&&◌, Option, none, some, [], ◌∷◌, ltb, ◌==◌,
  if◌then◌else◌, Bytes, length, take, drop, position, is_ascii, is_ascii_whitespace,
}
use vinezombie.Text.Kinds.{
  InvalidString, empty, byte, Result, ok, err, ◌>>=◌, Kind, is_invalid, check_others,
}

pub data Encoding : Type 0 where
  unknown utf8 ascii : Encoding

pub record Range : Type 0 where
  pub start : ℕ
  pub end : ℕ
  pub encoding : Encoding

pub record Splitter : Type 0 where
  pub string : Bytes
  pub range : Range

-- `Range::len`. Below 0 the source would overflow; `IsValid` excludes it.
abbrev pub range_len : Range → ℕ
range_len r = r.end - r.start

abbrev at_least_utf8 : Encoding → Bool
at_least_utf8 unknown = false
at_least_utf8 _ = true

abbrev is_utf8 : Encoding → Bool
is_utf8 utf8 = true
is_utf8 _ = false

-- What a cut that may split a character leaves of the encoding.
abbrev pub doubted : Bool → Encoding → Encoding
doubted b e = if b && is_utf8 e then unknown else e

unfoldable pub consume_range : Range → ℕ → Bool → ℕ × Range
consume_range r count end =
    let n = min count (range_len r) in
    let e = doubted (ltb 0 n) r.encoding in
    (
      n,
      (if end
          then record r { end = r.start + n; encoding = e }
          else record r { start = r.start + n; encoding = e }),
    )

unfoldable pub restore : Range → Range → Bool → Bool → Range
restore r saved start end = record r {
  start = if start then saved.start else r.start;
  end = if end then saved.end else r.end;
  encoding = if start && end then saved.encoding else r.encoding;
}

-- `Range::constrain`.
abbrev pub constrain : Range → Bytes → Bytes
constrain r bs = take (r.end - r.start) (drop r.start bs)

abbrev pub as_slice : Splitter → Bytes
as_slice s = constrain s.range s.string

unfoldable pub new : Bytes → Bool → Splitter
new string valid = record {
  string = string;
  range = record { start = 0; end = length string; encoding = if valid then utf8 else unknown };
}

unfoldable pub is_utf8_lazy : Splitter → Bool
is_utf8_lazy s = at_least_utf8 s.range.encoding

unfoldable pub is_empty : Splitter → Bool
is_empty s = range_len s.range == 0

abbrev pub len : Splitter → ℕ
len s = range_len s.range

-- `self.range.start += n`.
abbrev pub skip : ℕ → Splitter → Splitter
skip n s = record s { range = record (s.range) { start = s.range.start + n } }

abbrev pub last : Bytes → Option ℕ
last [] = none
last (b ∷ []) = some b
last (b ∷ c ∷ bs) = last (c ∷ bs)

abbrev pub first : Bytes → Option ℕ
first [] = none
first (b ∷ bs) = some b

unfoldable pub peek_byte : Splitter → Option ℕ
peek_byte s = first (as_slice s)

unfoldable pub rpeek_byte : Splitter → Option ℕ
rpeek_byte s = last (as_slice s)

abbrev pub after_byte : ℕ → Encoding → Encoding
after_byte b e = if is_ascii b then e else unknown

abbrev pub advance_byte : Option ℕ → Splitter → Splitter
advance_byte none s = s
advance_byte (some b) s = record s {
  range = record (s.range) { start = s.range.start + 1; encoding = after_byte b s.range.encoding };
}

unfoldable pub next_byte : Splitter → Option ℕ × Splitter
unfolding peek_byte
next_byte s = (peek_byte s, advance_byte (peek_byte s) s)

abbrev pub retreat_byte : Option ℕ → Splitter → Splitter
retreat_byte none s = s
retreat_byte (some b) s = record s {
  range = record (s.range) { end = s.range.end - 1; encoding = after_byte b s.range.encoding };
}

unfoldable pub rnext_byte : Splitter → Option ℕ × Splitter
unfolding rpeek_byte
rnext_byte s = (rpeek_byte s, retreat_byte (rpeek_byte s) s)

-- The end of both `consume` loops: to an index of the slice, or to the end of the range.
abbrev pub skip_to : Option ℕ → Splitter → Splitter
skip_to (some i) s = skip i s
skip_to none s = record s { range = record (s.range) { start = s.range.end } }

unfoldable pub consume_invalid : Kind → Splitter → Splitter
consume_invalid k s = skip_to (position (λ c. not (is_invalid k c)) (as_slice s)) s

unfoldable pub consume_whitespace : Splitter → Splitter
consume_whitespace s = skip_to (position (λ c. not (is_ascii_whitespace c)) (as_slice s)) s

abbrev pub consume_to : Option ℕ → Splitter → Splitter
consume_to none s = s
consume_to (some i) s = record s { range = (consume_range s.range i true).1 }

unfoldable pub until_byte : (ℕ → Bool) → Splitter → Splitter
unfolding consume_range
until_byte f s = consume_to (position f (as_slice s)) s

abbrev pub cut_to : ℕ → Option ℕ → Splitter → Splitter
cut_to b none s = s
cut_to b (some i) s = record s {
  range = record (s.range) {
    end = s.range.start + i;
    encoding = doubted (not (is_ascii b)) s.range.encoding;
  };
}

unfoldable pub until_byte_eq : ℕ → Splitter → Splitter
until_byte_eq b s = cut_to b (position (λ c. c == b) (as_slice s)) s

unfoldable pub until_count : ℕ → Splitter → Splitter
unfolding consume_range
until_count n s = record s { range = (consume_range s.range n true).1 }

abbrev pub accept : Option InvalidString → Bytes → Result InvalidString Bytes
accept none bs = ok bs
accept (some e) bs = err e

unfoldable pub peek_rest : Kind → Splitter → Result InvalidString Bytes
peek_rest k s = accept (check_others k (as_slice s)) (as_slice s)

-- `Err(InvalidString::Byte(slice[idx]))`, on the slice from that index on, which is not empty.
abbrev pub refuse : Bytes → Result InvalidString Bytes
refuse [] = err empty
refuse (c ∷ cs) = err (byte c)

-- The slice that `peek_string` checks: up to the byte at the index, which `require_rest` refuses.
abbrev pub valid_part : Bool → Bytes → Option ℕ → Result InvalidString Bytes
valid_part require_rest bs none = ok bs
valid_part require_rest bs (some i) = if require_rest then refuse (drop i bs) else ok (take i bs)

unfoldable pub peek_string : Kind → Bool → Splitter → Result InvalidString Bytes
peek_string k require_rest s = do
  slice ← valid_part require_rest (as_slice s) (position (is_invalid k) (as_slice s))
  accept (check_others k slice) slice

-- A successful peek is consumed, and a failed one leaves the splitter as it was.
abbrev pub consume_ok :
    Result InvalidString Bytes → Splitter → Result InvalidString Bytes × Splitter
consume_ok (ok bs) s = (ok bs, skip (length bs) s)
consume_ok (err e) s = (err e, s)

-- So with the default, the empty string, in place of an error.
abbrev pub consume_or_default : Result InvalidString Bytes → Splitter → Bytes × Splitter
consume_or_default (ok bs) s = (bs, skip (length bs) s)
consume_or_default (err e) s = ([], skip 0 s)

unfoldable pub rest : Kind → Splitter → Result InvalidString Bytes × Splitter
unfolding peek_rest
rest k s = consume_ok (peek_rest k s) s

unfoldable pub rest_or_default : Kind → Splitter → Bytes × Splitter
unfolding peek_rest
rest_or_default k s = consume_or_default (peek_rest k s) s

unfoldable pub string : Kind → Bool → Splitter → Result InvalidString Bytes × Splitter
unfolding peek_string
string k require_rest s = consume_ok (peek_string k require_rest s) s

unfoldable pub string_or_default : Kind → Bool → Splitter → Bytes × Splitter
unfolding peek_string
string_or_default k require_rest s = consume_or_default (peek_string k require_rest s) s

-- `save(start, end)`: what runs under the guard, and then the restored range.
unfoldable pub with_saved {ℓ} :
    {A : Type ℓ} → Bool → Bool → (Splitter → A × Splitter) → Splitter → A × Splitter
unfolding restore
with_saved start end f s =
    let (a, s') = f s in (a, record s' { range = restore s'.range s.range start end })

abbrev pub save_end {ℓ} : {A : Type ℓ} → (Splitter → A × Splitter) → Splitter → A × Splitter
save_end = with_saved false true

-- The slices taken lie within the string.
pub record IsValid (s : Splitter) : Type 0 where
  pub ordered : s.range.start ≤ s.range.end
  pub within : s.range.end ≤ length s.string
