-- ===== src/Text/Escape/Inverse.antt =====
-- `unescape` after `escape`: the loop undoes the escapes, the treatment of the first one does not.
use vinezombie.Prelude.{
  ℕ, ◌≡◌, ◌≢◌, refl, sym, ap, ◌∙◌, false, some, [], ◌∷◌, ◌++◌, append-nil, append_assoc, arith,
  Bytes, length, length-append, Lacks, position-Lacks, take-append_length, drop-append_length,
  position-append, ◌==◌,
}
use vinezombie.Text.Escape.{
  escape_byte, needs_escape, pushed, escape, unescape_loop, unescape_rest, unescape,
}
use vinezombie.Text.Escape.Safe.{escaped, escaped-append, escaped-Lacks, escape-escaped}

unescape_loop-pushed :
    (b : ℕ) (out rest : Bytes)
    → unescape_loop out false (pushed b (escape_byte b) ++ rest)
      ≡ unescape_loop (out ++ b ∷ []) false rest
unfolding unescape_loop escape_byte
unescape_loop-pushed b out rest = ground arith

unescape_loop-escaped : (out bs : Bytes) → unescape_loop out false (escaped bs) ≡ out ++ bs
unfolding escaped
unescape_loop-escaped out [] = unfold unescape_loop in sym (append-nil out)
unescape_loop-escaped out (b ∷ bs) =
    unescape_loop-pushed b out (escaped bs)
    ∙ unescape_loop-escaped (out ++ b ∷ []) bs
    ∙ append_assoc out (b ∷ []) bs

no_backslash : (bs : Bytes) → Lacks needs_escape bs → Lacks (λ c. c == b'\\') bs
unfolding needs_escape
no_backslash [] h = tt
no_backslash (b ∷ bs) h = ground (arith, no_backslash bs h.1)

-- `unescape` from its first backslash on.
unescape_split :
    (xs ys : Bytes)
    → Lacks (λ c. c == b'\\') xs
    → unescape (xs ++ b'\\' ∷ ys) ≡ unescape_rest xs (b'\\' ∷ ys)
unfolding unescape
unescape_split xs ys h = rw (
  position-append (λ c. c == b'\\') xs b'\\' ys h refl,
  take-append_length xs (b'\\' ∷ ys),
  drop-append_length xs (b'\\' ∷ ys),
)

-- A value with nothing to escape comes back.
pub unescape-escape_plain : (bs : Bytes) → Lacks needs_escape bs → unescape (escape bs) ≡ bs
unfolding unescape
unescape-escape_plain bs h =
    rw (escape-escaped, escaped-Lacks bs h, position-Lacks (λ c. c == b'\\') bs (no_backslash bs h))

escaped-cons :
    (b : ℕ) (ys : Bytes) {e : ℕ}
    → escape_byte b ≡ some e
    → escaped (b ∷ ys) ≡ b'\\' ∷ e ∷ escaped ys
unfolding escaped
escaped-cons b ys h = rw h

-- The code behind the first backslash is copied, not decoded.
unescape_rest_code :
    (xs : Bytes) (b : ℕ) (rest : Bytes) {e : ℕ}
    → escape_byte b ≡ some e
    → b ≢ b'\\'
    → unescape_rest xs (b'\\' ∷ e ∷ rest) ≡ unescape_loop ((xs ++ b'\\' ∷ []) ++ e ∷ []) false rest
unfolding unescape_loop escape_byte
unescape_rest_code xs b rest h other = ground arith

-- Where the first byte to escape is not a backslash, `unescape` leaves its escape sequence as it
-- is, and undoes the later ones only.
pub unescape-escape_first :
    (xs : Bytes) (b : ℕ) (ys : Bytes) {e : ℕ}
    → Lacks needs_escape xs
    → escape_byte b ≡ some e
    → b ≢ b'\\'
    → unescape (escape (xs ++ b ∷ ys)) ≡ xs ++ b'\\' ∷ e ∷ ys
unescape-escape_first xs b ys {e} h code other =
    let written : escaped (xs ++ b ∷ ys) ≡ xs ++ b'\\' ∷ e ∷ escaped ys =
      escaped-append xs (b ∷ ys) ∙ rw (escaped-Lacks xs h, escaped-cons b ys code) in
    ap unescape (escape-escaped (xs ++ b ∷ ys) ∙ written)
    ∙ unescape_split xs (e ∷ escaped ys) (no_backslash xs h)
    ∙ unescape_rest_code xs b (escaped ys) code other
    ∙ unescape_loop-escaped ((xs ++ b'\\' ∷ []) ++ e ∷ []) ys
    ∙ rw (append_assoc, append_assoc)

-- A value whose first byte to escape is not a backslash does not survive being escaped and
-- unescaped.
pub unescape-escape_ne :
    (xs : Bytes) (b : ℕ) (ys : Bytes) {e : ℕ}
    → Lacks needs_escape xs
    → escape_byte b ≡ some e
    → b ≢ b'\\'
    → unescape (escape (xs ++ b ∷ ys)) ≢ xs ++ b ∷ ys
unescape-escape_ne xs b ys h code other same =
    let e = ap length (sym (unescape-escape_first xs b ys h code other) ∙ same) in
    omega (arith, e, length-append xs)
