-- ===== src/Text/Casemap/Laws.antt =====
-- The casemaps of `src/string/tf/casemap.rs` are maps, and they are safe for the types that they
-- are marked safe for.
use vinezombie.Prelude.{
  ℕ, ◌≡◌, refl, sym, ap, Bool, true, false, ◌&&◌, inl, inr, Bool-cases, [], ◌∷◌, ◌++◌, map, Bytes,
  ◌==◌, is_ascii, to_ascii_lowercase, Option, none, some, arith, Lacks,
}
use vinezombie.Text.Kinds.{Kind, is_invalid, check_others, IsValid}
use vinezombie.Text.Casemap.{
  Utf8Policy, scan, map_rest, replaced, policy, map_bytes, IrcCasemap, ascii, rfc1459_strict,
  rfc1459, lower_rfc1459, lower_rfc1459_strict, irc_casemap, irc_safe,
}

-- All bytes are mapped to ASCII.
abbrev pub all_ascii : (ℕ → ℕ) → Bytes → Bool
all_ascii f [] = true
all_ascii f (b ∷ bs) = is_ascii (f b) && all_ascii f bs

and_assoc : (a b c : Bool) → ((a && b) && c) ≡ (a && (b && c))
and_assoc true b c = refl
and_assoc false b c = refl

module _ (f : ℕ → ℕ) where
  map_rest-map : (bs : Bytes) (a : Bool) → map_rest f bs a ≡ (map f bs, a && all_ascii f bs)
  unfolding map_rest
  map_rest-map [] true = refl
  map_rest-map [] false = refl
  map_rest-map (b ∷ bs) a =
      rw (map_rest-map bs (a && is_ascii (f b)), and_assoc a (is_ascii (f b)) (all_ascii f bs)) refl

  -- What the first loop has found out about the bytes.
  abbrev Scanned : Bytes → Bytes × Option (ℕ × Bytes) × Bool → Type 0
  Scanned bs (same, none, all) = (map f bs ≡ bs) × (all ≡ all_ascii f bs)
  Scanned bs (same, some (x, rest), all) =
      (map f bs ≡ same ++ x ∷ map f rest) × (all_ascii f bs ≡ all && all_ascii f rest)

  keep :
      (b : ℕ) (bs : Bytes) (r : Bytes × Option (ℕ × Bytes) × Bool)
      → f b ≡ b
      → Scanned bs r
      → Scanned (b ∷ bs) (b ∷ r.0, r.1, is_ascii (f b) && r.2)
  keep b bs (same, none, all) e h = (rw (e, h.0), rw (h.1) refl)
  keep b bs (same, some (x, rest), all) e h =
      (rw (e, h.0), rw (h.1) (sym (and_assoc (is_ascii (f b)) all (all_ascii f rest))))

  scan-Scanned : (bs : Bytes) → Scanned bs (scan f bs)
  unfolding scan
  scan-Scanned [] = (refl, refl)
  scan-Scanned (b ∷ bs) = elim (Bool-cases (f b == b)) [
    | inl e ↦ rw e (keep b bs (scan f bs) (ground (arith, e)) (scan-Scanned bs))
    | inr e ↦ rw e (refl, refl)
  ]

  replaced-map :
      (bs : Bytes) (utf8 : Utf8Policy) (r : Bytes × Option (ℕ × Bytes) × Bool)
      → Scanned bs r
      → replaced f bs utf8 r ≡ (map f bs, policy (all_ascii f bs) utf8)
  replaced-map bs utf8 (same, none, all) h = rw (h.0, h.1)
  replaced-map bs utf8 (same, some (x, rest), all) h = rw (map_rest-map rest all, h.0, h.1)

  abbrev pub policy_of : Bytes → Utf8Policy → Utf8Policy
  policy_of bs utf8 = policy (all_ascii f bs) utf8

  -- `map_bytes`, which copies only from the first changed byte on, is the plain map; its policy is
  -- valid UTF-8 if all mapped bytes are ASCII, and the given one otherwise.
  pub map_bytes-map :
      (bs : Bytes) (utf8 : Utf8Policy) → map_bytes bs utf8 f ≡ (map f bs, policy_of bs utf8)
  unfolding map_bytes
  map_bytes-map bs utf8 = replaced-map bs utf8 (scan f bs) (scan-Scanned bs)

-- The byte function of a casemap.
abbrev pub lower : IrcCasemap → ℕ → ℕ
lower ascii = to_ascii_lowercase
lower rfc1459_strict = lower_rfc1459_strict
lower rfc1459 = lower_rfc1459

irc_casemap-map : (m : IrcCasemap) (bs : Bytes) → (irc_casemap m bs).0 ≡ map (lower m) bs
unfolding irc_casemap
irc_casemap-map ascii bs = ap (λ (r : Bytes × Utf8Policy). r.0) (map_bytes-map _ bs _)
irc_casemap-map rfc1459_strict bs = ap (λ (r : Bytes × Utf8Policy). r.0) (map_bytes-map _ bs _)
irc_casemap-map rfc1459 bs = ap (λ (r : Bytes × Utf8Policy). r.0) (map_bytes-map _ bs _)

lower-twice : (m : IrcCasemap) (b : ℕ) → lower m (lower m b) ≡ lower m b
unfolding lower_rfc1459 lower_rfc1459_strict
lower-twice ascii b = ground arith
lower-twice rfc1459_strict b = ground arith
lower-twice rfc1459 b = ground arith

map-twice : (m : IrcCasemap) (bs : Bytes) → map (lower m) (map (lower m) bs) ≡ map (lower m) bs
map-twice m [] = refl
map-twice m (b ∷ bs) = rw (lower-twice m b, map-twice m bs)

-- Casemapping twice is casemapping once, so that a mapped name is its own canonical form.
pub irc_casemap-twice :
    (m : IrcCasemap) (bs : Bytes) → (irc_casemap m (irc_casemap m bs).0).0 ≡ (irc_casemap m bs).0
irc_casemap-twice m bs =
    rw (irc_casemap-map m bs, irc_casemap-map m (map (lower m) bs)) (map-twice m bs)

lower-is_invalid :
    (m : IrcCasemap) (k : Kind) (b : ℕ)
    → irc_safe k ≡ true
    → is_invalid k b ≡ false
    → is_invalid k (lower m b) ≡ false
unfolding is_invalid lower_rfc1459 lower_rfc1459_strict
lower-is_invalid ascii k b s h = ground arith
lower-is_invalid rfc1459_strict k b s h = ground arith
lower-is_invalid rfc1459 k b s h = ground arith

lower-Lacks :
    (m : IrcCasemap) (k : Kind) (bs : Bytes)
    → irc_safe k ≡ true
    → Lacks (is_invalid k) bs
    → Lacks (is_invalid k) (map (lower m) bs)
lower-Lacks m k [] s h = tt
lower-Lacks m k (b ∷ bs) s h = (lower-is_invalid m k b s h.0, lower-Lacks m k bs s h.1)

lower-check_others :
    (m : IrcCasemap) (k : Kind) (bs : Bytes)
    → check_others k bs ≡ none
    → check_others k (map (lower m) bs) ≡ none
unfolding check_others lower_rfc1459 lower_rfc1459_strict
lower-check_others m k [] h = h
lower-check_others ascii k (b ∷ bs) h = ground arith
lower-check_others rfc1459_strict k (b ∷ bs) h = ground arith
lower-check_others rfc1459 k (b ∷ bs) h = ground arith

-- Casemapping a valid string of a type that the casemap is marked safe for gives a valid string
-- of that type: the unchecked conversion is sound.
pub irc_casemap-IsValid :
    (m : IrcCasemap) (k : Kind) (bs : Bytes)
    → irc_safe k ≡ true
    → IsValid k bs
    → IsValid k (irc_casemap m bs).0
irc_casemap-IsValid m k bs s v = rw irc_casemap-map (record {
  bytes_valid = lower-Lacks m k bs s v.bytes_valid;
  others_valid = lower-check_others m k bs v.others_valid;
})
