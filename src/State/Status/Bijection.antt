-- ===== src/State/Status/Bijection.antt =====
-- That a `StatusModes` maps modes and prefixes to each other, `src/state/mode.rs`.
use vinezombie.Prelude.{
  ℕ, zero, suc, ◌≡◌, ◌↔◌, refl, ap, Bool, false, Option, none, some, [], ◌∷◌, ◌++◌, Bytes, ◌==◌,
  arith, subst, Option-cases, Bool-cases, inl, inr, ==_iff,
}
use vinezombie.Text.Kinds.{ok, err}
use vinezombie.Ircmsg.Failure.{invalid_field, missing_open}
use vinezombie.State.Mode.{new_mode}
use vinezombie.State.Status.{
  StatusModes, duplicate, parse_loop, parse, get_prefix, get_mode, nonzero, next_prefix,
  split_close, with_pieces,
}

-- A mode and a prefix that no entry has.
abbrev pub Fresh : ℕ → ℕ → StatusModes → Type 0
Fresh m p [] = Unit
Fresh m p ((n, q) ∷ map) = ((m == n) ≡ false) × ((p == q) ≡ false) × Fresh m p map

-- No two entries share a mode or a prefix.
abbrev pub Distinct : StatusModes → Type 0
Distinct [] = Unit
Distinct ((m, p) ∷ map) = Fresh m p map × Distinct map

pub duplicate-Fresh : (m p : ℕ) (map : StatusModes) → (duplicate m p map ≡ none) ↔ Fresh m p map
unfolding duplicate
duplicate-Fresh m p map = (to m p map, of m p map)
  where
    to : (m p : ℕ) (map : StatusModes) → duplicate m p map ≡ none → Fresh m p map
    to m p [] h = tt
    to m p ((n, q) ∷ map) h = ground (arith, to m p map)

    of : (m p : ℕ) (map : StatusModes) → Fresh m p map → duplicate m p map ≡ none
    of m p [] h = refl
    of m p ((n, q) ∷ map) (a, b, h) = rw (duplicate, a, b) (of m p map h)

pub flip : (a b : ℕ) → (a == b) ≡ false → (b == a) ≡ false
flip a b h = ground arith

pub Fresh-append :
    (a b m p : ℕ) (map : StatusModes)
    → Fresh a b map
    → (a == m) ≡ false
    → (b == p) ≡ false
    → Fresh a b (map ++ (m, p) ∷ [])
Fresh-append a b m p [] h e k = (e, k, tt)
Fresh-append a b m p ((n, q) ∷ map) (x, y, h) e k = (x, y, Fresh-append a b m p map h e k)

Distinct-append :
    (m p : ℕ) (map : StatusModes) → Distinct map → Fresh m p map → Distinct (map ++ (m, p) ∷ [])
Distinct-append m p [] d f = (tt, tt)
Distinct-append m p ((n, q) ∷ map) (h, d) (x, y, f) =
    (Fresh-append n q m p map h (flip m n x) (flip p q y), Distinct-append m p map d f)

module _ (p m : ℕ) where
  mode_apart :
      (a b : ℕ) (map : StatusModes)
      → Fresh a b map
      → get_mode map p ≡ some m
      → ((a == m) ≡ false) × ((b == p) ≡ false)
  unfolding get_mode
  mode_apart a b [] f h = absurd (cc)
  mode_apart a b ((n, q) ∷ map) (x, y, f) h = elim (Bool-cases (q == p)) [
    | inl e ↦ let eq = (==_iff q p).0 e in let k : n ≡ m = ground arith in ground arith
    | inr e ↦ mode_apart a b map f (ground arith)
  ]

nonzero-suc : (b p : ℕ) → nonzero b ≡ some (suc p) → b ≡ suc p
nonzero-suc zero p h = absurd (cc)
nonzero-suc (suc b) p h = ground arith

mode_of_prefix :
    (map : StatusModes) (m p : ℕ)
    → Distinct map
    → get_prefix map m ≡ some (suc p)
    → get_mode map (suc p) ≡ some m
unfolding get_prefix get_mode
mode_of_prefix [] m p d h = absurd (cc)
mode_of_prefix ((a, b) ∷ map) m p (f, d) h = elim (Bool-cases (a == m)) [
  | inl e ↦
      let k : nonzero b ≡ some (suc p) = rw (get_prefix, e) at h in
      let q = nonzero-suc b p k in
      let r = (==_iff b (suc p)).1 q in rw (get_mode, r) (ap some ((==_iff a m).0 e))
  | inr e ↦
      let k : get_prefix map m ≡ some (suc p) = rw (get_prefix, e) at h in
      let IH = mode_of_prefix map m p d k in rw (get_mode, (mode_apart (suc p) m a b map f IH).1) IH
]

prefix_of_mode :
    (map : StatusModes) (m p : ℕ)
    → Distinct map
    → get_mode map (suc p) ≡ some m
    → get_prefix map m ≡ some (suc p)
unfolding get_prefix get_mode
prefix_of_mode [] m p d h = absurd (cc)
prefix_of_mode ((a, b) ∷ map) m p (f, d) h = elim (Bool-cases (b == suc p)) [
  | inl e ↦
      let k : some a ≡ some m = rw (get_mode, e) at h in
      let q : a ≡ m = cc in rw (get_prefix, (==_iff a m).1 q) (ap nonzero ((==_iff b (suc p)).0 e))
  | inr e ↦
      let k : get_mode map (suc p) ≡ some m = rw (get_mode, e) at h in
      rw (get_prefix, (mode_apart (suc p) m a b map f k).0) (prefix_of_mode map m p d k)
]

parse_loop-Distinct :
    (modes prefixes : Bytes) (skip : Bool) (map : StatusModes) (s : StatusModes)
    → Distinct map
    → parse_loop modes prefixes skip map ≡ ok s
    → Distinct s
unfolding parse_loop
parse_loop-Distinct [] prefixes skip map s d h = let e : map ≡ s = cc in subst Distinct e d
parse_loop-Distinct (letter ∷ modes) prefixes skip map s d h =
    let np = next_prefix skip prefixes in
    elim (Option-cases (new_mode letter)) [
      | inl e ↦ parse_loop-Distinct modes np.1 np.2 map s d (rw (parse_loop, e) at h)
      | inr (m, e) ↦ elim (Option-cases (duplicate m np.0 map)) [
        | inl k ↦
            parse_loop-Distinct modes np.1 np.2 (map ++ (m, np.0) ∷ []) s
              (Distinct-append m np.0 map d ((duplicate-Fresh m np.0 map).0 k))
              (rw (parse_loop, e, k) at h)
        | inr (x, k) ↦
            let bad : err (invalid_field x) ≡ ok s = rw (parse_loop, e, k) at h in absurd (cc)
      ]
    ]

pieces-Distinct : (r : Bytes × Option Bytes) (s : StatusModes) → with_pieces r ≡ ok s → Distinct s
pieces-Distinct (modes, none) s h = absurd (cc)
pieces-Distinct (modes, some prefixes) s h = parse_loop-Distinct modes prefixes false [] s tt h

pub parse-Distinct : (arg : Bytes) (s : StatusModes) → parse arg ≡ ok s → Distinct s
unfolding parse
parse-Distinct [] s h = absurd (cc)
parse-Distinct (c ∷ arg) s h = elim (Bool-cases (c == b'(')) [
  | inl e ↦ pieces-Distinct (split_close arg) s (rw e at h)
  | inr e ↦ let bad : err (invalid_field missing_open) ≡ ok s = rw e at h in absurd (cc)
]

-- Where a `PREFIX` value is accepted, a prefix that is not NUL is the one of a mode exactly if the mode is
-- the one of the prefix.
pub get_prefix-get_mode :
    (arg : Bytes) (s : StatusModes) (m p : ℕ)
    → parse arg ≡ ok s
    → (get_prefix s m ≡ some (suc p)) ↔ (get_mode s (suc p) ≡ some m)
get_prefix-get_mode arg s m p h =
    let d = parse-Distinct arg s h in (mode_of_prefix s m p d, prefix_of_mode s m p d)
