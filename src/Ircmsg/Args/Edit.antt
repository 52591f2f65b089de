-- ===== src/Ircmsg/Args/Edit.antt =====
-- The operations of `ArgsMut` of `src/ircmsg/args.rs` keep the invariant of `Args`.
use vinezombie.Prelude.{Option, none, some, inl, inr, Option-cases, List, [], ◌∷◌, Bytes}
use vinezombie.Text.Kinds.{arg, line, from_bytes, find_invalid, IsValid as IsKind}
use vinezombie.Text.Kinds.Checks.{from_bytes-IsValid}
use vinezombie.Ircmsg.Args.{
  Args, add, add_word, add_before_last, insert_before_last, set_args, empty_args, ArgWords, IsLong,
  IsValid,
}
use vinezombie.Ircmsg.Args.Sound.{add-IsValid, ArgWords-snoc}

-- One call of an operation that changes the arguments.
pub data Edit : Type 0 where
  adding word before_last : Bytes → Edit
  setting : List Bytes → Option Bytes → Edit
  clearing : Edit

unfoldable pub apply : Edit → Args → Args
unfolding add add_word add_before_last set_args
apply (adding l) a = (add a l).0
apply (word w) a = add_word a w
apply (before_last w) a = add_before_last a w
apply (setting ws last) a = set_args ws last
apply clearing a = empty_args

abbrev pub LineIf : Option Bytes → Type 0
LineIf none = Unit
LineIf (some l) = IsKind line l

-- The types of the call's arguments.
abbrev pub EditValid : Edit → Type 0
EditValid (adding l) = IsKind line l
EditValid (word w) = IsKind arg w
EditValid (before_last w) = IsKind arg w
EditValid (setting ws last) = ArgWords ws × LineIf last
EditValid clearing = Unit

insert-ArgWords :
    (w : Bytes) (ws : List Bytes) → ArgWords ws → IsKind arg w → ArgWords (insert_before_last w ws)
insert-ArgWords w [] h k = (k, tt)
insert-ArgWords w (x ∷ []) h k = (k, h)
insert-ArgWords w (x ∷ y ∷ ws) h k = (h.0, insert-ArgWords w (y ∷ ws) h.1 k)

set_args-IsValid :
    (ws : List Bytes) (last : Option Bytes) → ArgWords ws → LineIf last → IsValid (set_args ws last)
unfolding set_args
set_args-IsValid ws none h k = record { words_valid = h; long_valid = tt }
set_args-IsValid ws (some l) h k = elim (Option-cases (find_invalid arg l)) [
  | inl e ↦
      rw (e, set_args)
        (record {
          words_valid =
              ArgWords-snoc ws l h ((from_bytes-IsValid arg l).0 (unfold from_bytes in rw e));
          long_valid = tt;
        })
  | inr (why, e) ↦ rw (e, set_args) (record { words_valid = h; long_valid = (k, why, e) })
]

before_last-IsValid :
    (ws : List Bytes) (long : Option Bytes) (w : Bytes)
    → ArgWords ws
    → IsLong long
    → IsKind arg w
    → IsValid (add_before_last (record { words = ws; long = long }) w)
unfolding add_before_last
before_last-IsValid ws none w h l k = record {
  words_valid = insert-ArgWords w ws h k;
  long_valid = tt;
}
before_last-IsValid ws (some x) w h l k = record {
  words_valid = ArgWords-snoc ws w h k;
  long_valid = l;
}

-- Every operation on the arguments keeps them valid: only the last one may be longer than a word,
-- and it is stored as long only if it could not be a word.
pub apply-IsValid : (e : Edit) (a : Args) → EditValid e → IsValid a → IsValid (apply e a)
unfolding apply add_word
apply-IsValid (adding l) a k v = add-IsValid a.words a.long l v.words_valid k
apply-IsValid (word w) a k v = record {
  words_valid = ArgWords-snoc a.words w v.words_valid k;
  long_valid = v.long_valid;
}
apply-IsValid (before_last w) a k v =
    before_last-IsValid a.words a.long w v.words_valid v.long_valid k
apply-IsValid (setting ws last) a k v = set_args-IsValid ws last k.0 k.1
apply-IsValid clearing a k v = record { words_valid = tt; long_valid = tt }
