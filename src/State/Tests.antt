-- ===== src/State/Tests.antt =====
-- Runs of modes, their sets and their maps.
use vinezombie.Prelude.{ℕ, ◌+◌, ◌^◌, ◌≡◌, ◌↔◌, refl, true, false, some, [], ◌∷◌, codes, arith}
use vinezombie.Text.Kinds.{ok, err}
use vinezombie.Ircmsg.Failure.{invalid_field, duplicate_prefix}
use vinezombie.State.Mode.{
  ModeSet, empty, is_letter, new_mode, contains, elements, next, intersection,
}
use vinezombie.State.Mode.Sets.{IsValid, difference_op, apply, meaning, apply-meaning}
use vinezombie.State.Types.{type_d, ModeTypes, insert, insert_set, from_sets, display}
use vinezombie.State.Types.Lookup.{IsValid as TypesValid}
use vinezombie.State.Types.Coherent.{Disjoint, insert-insert_set-Disjoint}
use vinezombie.State.Types.Overlap.{from_sets-shared}
use vinezombie.State.Status
use vinezombie.State.Status.{StatusModes, get_prefix, get_mode}
use vinezombie.State.Status.Bijection.{get_prefix-get_mode}
use vinezombie.State.Status.Parsing.{print, parse-no_prefixes}

-- The set of the letters a, b and o.
abbrev abo : ModeSet
abo = 2 ^ 51 + (2 ^ 49 + 2 ^ 23)

abo-elements : elements 64 abo ≡ codes "abo"
unfolding elements next
abo-elements = refl

abo-IsValid : IsValid abo
abo-IsValid = omega arith

a-IsValid : IsValid (2 ^ 51)
a-IsValid = omega arith

apply-meaning_example :
    IsValid (apply (difference_op (2 ^ 51)) abo)
    × ((x : ℕ)
        → is_letter x ≡ true
        → contains (apply (difference_op (2 ^ 51)) abo) x
          ≡ meaning (difference_op (2 ^ 51)) (contains abo) x)
apply-meaning_example = apply-meaning (difference_op (2 ^ 51)) abo a-IsValid abo-IsValid

-- The types of "b,k,l,imnpst".
abbrev common : ModeTypes
common = record {
  set_a = 2 ^ 49;
  set_b = 2 ^ 31;
  set_c = 2 ^ 29;
  set_d = 2 ^ 35 + (2 ^ 27 + (2 ^ 25 + (2 ^ 21 + (2 ^ 15 + 2 ^ 13))));
}

common-display : display common ≡ codes "b,k,l,imnpst"
unfolding display elements next
common-display = refl

common-valid : TypesValid common
common-valid = record {
  a_valid = omega arith;
  b_valid = omega arith;
  c_valid = omega arith;
  d_valid = omega arith;
}

common-Disjoint : Disjoint common
unfolding intersection
common-Disjoint = record {
  apart_ab = refl;
  apart_ac = refl;
  apart_ad = refl;
  apart_bc = refl;
  apart_bd = refl;
  apart_cd = refl;
}

insert-insert_set-Disjoint_example :
    Disjoint (insert common b'b' type_d) × Disjoint (insert_set common abo type_d)
insert-insert_set-Disjoint_example =
    insert-insert_set-Disjoint common b'b' abo type_d common-valid common-Disjoint refl abo-IsValid

empty-IsValid : IsValid empty
empty-IsValid = omega arith

a-in : contains (2 ^ 51) b'a' ≡ true
unfolding contains
a-in = refl

a-not_in : contains empty b'a' ≡ false
unfolding contains
a-not_in = refl

from_sets-shared_example :
    (contains ((from_sets (2 ^ 51) empty (2 ^ 51) empty).0.set_a) b'a' ≡ true)
    × (contains ((from_sets (2 ^ 51) empty (2 ^ 51) empty).0.set_c) b'a' ≡ true)
    × (contains ((from_sets (2 ^ 51) empty (2 ^ 51) empty).1) b'a' ≡ false)
from_sets-shared_example =
    from_sets-shared (2 ^ 51) empty (2 ^ 51) empty a-IsValid empty-IsValid a-IsValid empty-IsValid
      b'a' refl a-in a-not_in a-in a-not_in

-- The map of "(ov)@+".
abbrev ov : StatusModes
ov = (b'o', b'@') ∷ (b'v', b'+') ∷ []

ov-print : print ov ≡ codes "(ov)@+"
ov-print = refl

ov-parsed : Status.parse (codes "(ov)@+") ≡ ok ov
unfolding Status.parse Status.parse_loop Status.duplicate new_mode
ov-parsed = refl

get_prefix-get_mode_example : (get_prefix ov b'o' ≡ some b'@') ↔ (get_mode ov b'@' ≡ some b'o')
get_prefix-get_mode_example = get_prefix-get_mode (codes "(ov)@+") ov b'o' 63 ov-parsed

parse-no_prefixes_example : Status.parse (codes "(ov)") ≡ err (invalid_field (duplicate_prefix 0))
parse-no_prefixes_example = parse-no_prefixes b'o' b'v' [] refl refl refl tt
