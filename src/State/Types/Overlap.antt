-- ===== src/State/Types/Overlap.antt =====
-- The overlap that `ModeTypes::from_sets` computes, `src/state/mode.rs`.
use vinezombie.Prelude.{ℕ, ◌≡◌, refl, ◌∙◌, Bool, true, false, not, ◌&&◌, ◌||◌, arith}
use vinezombie.State.Mode.{ModeSet, empty, is_letter, contains, union, intersection, difference}
use vinezombie.State.Mode.Sets.{
  IsValid as SetValid, union_op, intersection_op, difference_op, apply-meaning,
}
use vinezombie.State.Types.{from_sets, overlap}
use vinezombie.State.Types.Coherent.{Disjoint, apart-contains, contains-apart}

abbrev shared : Bool → Bool → Bool → Bool → Bool
shared a b c d = (a && b) || (b && c) || (c && d) || (b && d)

shared_cases :
    (a b c d : Bool)
    → ((((a && b) || (b && c)) || (c && d)) || (b && d)) || (c && d) ≡ shared a b c d
shared_cases a b c d = ground arith

both_left : (p q o : Bool) → ((p && q) && not o) ≡ false → ((p && not o) && (q && not o)) ≡ false
both_left p q true h = ground arith
both_left true q false h = ground arith
both_left false q false h = refl

module _ (a b c d : ModeSet) (ha : SetValid a) (hb : SetValid b) (hc : SetValid c)
    (hd : SetValid d) where
  -- The overlap is a set of letters, with those that stand in two sets, except for the pairs of the
  -- first set with the third and the fourth.
  overlap-contains :
      SetValid (overlap a b c d)
      × ((x : ℕ)
          → is_letter x ≡ true
          → contains (overlap a b c d) x
            ≡ shared (contains a x) (contains b x) (contains c x) (contains d x))
  unfolding overlap
  overlap-contains =
      let (v1, e1) = apply-meaning (intersection_op b) a hb ha in
      let (v2, e2) = apply-meaning (intersection_op c) b hc hb in
      let (v3, e3) = apply-meaning (intersection_op d) c hd hc in
      let (v4, e4) = apply-meaning (intersection_op d) b hd hb in
      let (w1, f1) = apply-meaning (union_op (intersection b c)) (intersection a b) v2 v1 in
      let (w2, f2) =
        apply-meaning (union_op (intersection c d)) (union (intersection a b) (intersection b c)) v3
          w1 in
      let (w3, f3) =
        apply-meaning (union_op (intersection b d))
          (union (union (intersection a b) (intersection b c)) (intersection c d)) v4 w2 in
      let (w4, f4) =
        apply-meaning (union_op (intersection c d))
          (union (union (union (intersection a b) (intersection b c)) (intersection c d))
            (intersection b d))
          v3 w3 in
      (
        w4,
        λ x hx.
            f4 x hx
            ∙ rw (f3 x hx, f2 x hx, f1 x hx, e1 x hx, e2 x hx, e3 x hx, e4 x hx)
                (shared_cases (contains a x) (contains b x) (contains c x) (contains d x)),
      )

  -- What is left of a set of the four.
  left_over :
      (s : ModeSet)
      → SetValid s
      → SetValid (difference s (overlap a b c d))
        × ((x : ℕ)
            → is_letter x ≡ true
            → contains (difference s (overlap a b c d)) x ≡ (
                contains s x
                && not (shared (contains a x) (contains b x) (contains c x) (contains d x))))
  left_over s hs =
      let (vo, eo) = overlap-contains in
      let (v, e) = apply-meaning (difference_op (overlap a b c d)) s vo hs in
      (v, λ x hx. e x hx ∙ rw (eo x hx) refl)

  left_apart :
      (s t : ModeSet)
      → SetValid s
      → SetValid t
      → ((x : ℕ)
          → is_letter x ≡ true
          → ((contains s x && contains t x)
              && not (shared (contains a x) (contains b x) (contains c x) (contains d x)))
            ≡ false)
      → intersection (difference s (overlap a b c d)) (difference t (overlap a b c d)) ≡ empty
  left_apart s t hs ht h =
      let (vs, es) = left_over s hs in
      let (vt, et) = left_over t ht in
      contains-apart (difference s (overlap a b c d)) (difference t (overlap a b c d)) vs vt
        (λ x hx. rw (es x hx, et x hx) (both_left (contains s x) (contains t x) _ (h x hx)))

  -- If the first set shares no letter with the third and none with the fourth, then the sets that
  -- `from_sets` gives share no letters.
  pub from_sets-Disjoint :
      intersection a c ≡ empty → intersection a d ≡ empty → Disjoint ((from_sets a b c d).0)
  unfolding from_sets
  from_sets-Disjoint hac had = record {
    apart_ab = left_apart a b ha hb (λ x hx. ground arith);
    apart_ac = left_apart a c ha hc (λ x hx. rw (apart-contains a c ha hc hac x hx) refl);
    apart_ad = left_apart a d ha hd (λ x hx. rw (apart-contains a d ha hd had x hx) refl);
    apart_bc = left_apart b c hb hc (λ x hx. ground arith);
    apart_bd = left_apart b d hb hd (λ x hx. ground arith);
    apart_cd = left_apart c d hc hd (λ x hx. ground arith);
  }

  -- A letter that the first and the third set share, and neither the second nor the fourth has, is left
  -- in both sets by `from_sets`, and is not in the overlap.
  pub from_sets-shared :
      (x : ℕ)
      → is_letter x ≡ true
      → contains a x ≡ true
      → contains b x ≡ false
      → contains c x ≡ true
      → contains d x ≡ false
      → (contains ((from_sets a b c d).0.set_a) x ≡ true)
        × (contains ((from_sets a b c d).0.set_c) x ≡ true)
        × (contains ((from_sets a b c d).1) x ≡ false)
  unfolding from_sets
  from_sets-shared x hx pa pb pc pd = (
    (left_over a ha).1 x hx ∙ rw (pa, pb, pc, pd) refl,
    (left_over c hc).1 x hx ∙ rw (pa, pb, pc, pd) refl,
    overlap-contains.1 x hx ∙ rw (pa, pb, pc, pd) refl,
  )
