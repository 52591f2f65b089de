-- ===== src/Text/Escape/Safe.antt =====
-- What `escape` writes, and that it is a word.
use vinezombie.Prelude.{
  ℕ, ◌≡◌, refl, sym, ap, ◌∙◌, false, Option, none, some, [], ◌∷◌, ◌++◌, append-nil, append_assoc,
  arith, Bytes, Lacks, Lacks-append, before, from, take, drop, position, take_to-position,
  drop_to-position, before-append-from, before-Lacks, position-none, ◌==◌,
}
use vinezombie.Text.Kinds.{nonul, word, is_invalid, check_others, IsValid}
use vinezombie.Text.Escape.{
  escape_byte, needs_escape, pushed, escape_loop, escape_rest, escape_at, escape,
}

-- Each byte escaped by itself.
unfoldable pub escaped : Bytes → Bytes
escaped [] = []
escaped (b ∷ bs) = pushed b (escape_byte b) ++ escaped bs

escape_loop-escaped : (out bs : Bytes) → escape_loop out bs ≡ out ++ escaped bs
unfolding escape_loop escaped
escape_loop-escaped out [] = sym (append-nil out)
escape_loop-escaped out (b ∷ bs) =
    escape_loop-escaped (out ++ pushed b (escape_byte b)) bs
    ∙ append_assoc out (pushed b (escape_byte b)) (escaped bs)

pub escaped-append : (xs ys : Bytes) → escaped (xs ++ ys) ≡ escaped xs ++ escaped ys
unfolding escaped
escaped-append [] ys = refl
escaped-append (b ∷ xs) ys =
    ap (◌++◌ (pushed b (escape_byte b))) (escaped-append xs ys)
    ∙ sym (append_assoc (pushed b (escape_byte b)) (escaped xs) (escaped ys))

pub escaped-Lacks : (bs : Bytes) → Lacks needs_escape bs → escaped bs ≡ bs
unfolding escaped needs_escape
escaped-Lacks [] h = refl
escaped-Lacks (b ∷ bs) h = ground (arith, escaped-Lacks bs h.1)

escape_rest-escaped : (out bs : Bytes) → escape_rest out bs ≡ out ++ escaped bs
unfolding escaped
escape_rest-escaped out [] = sym (append-nil out)
escape_rest-escaped out (b ∷ bs) =
    escape_loop-escaped _ bs ∙ append_assoc out (pushed b (escape_byte b)) (escaped bs)

escape_at-escaped :
    (bs : Bytes) (o : Option ℕ) → position needs_escape bs ≡ o → escape_at bs o ≡ escaped bs
escape_at-escaped bs none e = sym (escaped-Lacks bs (position-none needs_escape bs e))
escape_at-escaped bs (some i) e =
    let head : take i bs ≡ before needs_escape bs = rw e at (take_to-position needs_escape bs) in
    let tail : drop i bs ≡ from needs_escape bs = rw e at (drop_to-position needs_escape bs) in
    rw (head, tail)
      (escape_rest-escaped (before needs_escape bs) (from needs_escape bs)
        ∙ ap (λ (t : Bytes). t ++ escaped (from needs_escape bs))
            (sym (escaped-Lacks (before needs_escape bs) (before-Lacks needs_escape bs)))
        ∙ sym (escaped-append (before needs_escape bs) (from needs_escape bs))
        ∙ ap escaped (before-append-from needs_escape bs))

-- The optimised `escape`, which copies up to the first byte to escape, escapes each byte by
-- itself.
pub escape-escaped : (bs : Bytes) → escape bs ≡ escaped bs
unfolding escape
escape-escaped bs = escape_at-escaped bs (position needs_escape bs) refl

pushed-valid :
    (b : ℕ) → is_invalid nonul b ≡ false → Lacks (is_invalid word) (pushed b (escape_byte b))
unfolding is_invalid escape_byte
pushed-valid b h = ground arith

escaped-valid : (bs : Bytes) → Lacks (is_invalid nonul) bs → Lacks (is_invalid word) (escaped bs)
unfolding escaped
escaped-valid [] h = tt
escaped-valid (b ∷ bs) h = Lacks-append _ _ _ (pushed-valid b h.0) (escaped-valid bs h.1)

pushed-no_semicolon : (b : ℕ) → Lacks (λ c. c == b';') (pushed b (escape_byte b))
unfolding escape_byte
pushed-no_semicolon b = ground arith

escaped-no_semicolon : (bs : Bytes) → Lacks (λ c. c == b';') (escaped bs)
unfolding escaped
escaped-no_semicolon [] = tt
escaped-no_semicolon (b ∷ bs) = Lacks-append _ _ _ (pushed-no_semicolon b) (escaped-no_semicolon bs)

-- Whatever a tag value without NUL holds, its escaped form is a valid word, so the unchecked
-- conversion is sound, and it holds no semicolon that could end the tag.
pub escape-IsValid :
    (bs : Bytes) → IsValid nonul bs → IsValid word (escape bs) × Lacks (λ c. c == b';') (escape bs)
unfolding check_others
escape-IsValid bs v = rw escape-escaped (
  record { bytes_valid = escaped-valid bs v.bytes_valid; others_valid = refl },
  escaped-no_semicolon bs,
)
