-- ===== src/Client/Queue/Labels.antt =====
-- The labeler of `Queue` and `push_labeled`, `src/client/queue.rs`. The labeler is a state with the function
-- that gives the next label; it stands beside the rest of the queue.
use vinezombie.Prelude.{
  ℕ, ◌+◌, ◌%◌, ◌^◌, ◌≡◌, refl, Bool, true, false, Option, none, some, [], ◌∷◌, ◌++◌, Bytes, codes,
}
use vinezombie.Util.FlatMap.{is_eq, IsSorted}
use vinezombie.Util.EditGuard.{drop_guard, get}
use vinezombie.Ircmsg.Codec.{ClientMsg}
use vinezombie.Ircmsg.Tags.{Tags, tag_key, compare_bytes}
use vinezombie.Ircmsg.Tags.Edit.{edit_tags, insert_pair, insert_pair-get, value_of, if_some}
use vinezombie.Client.Queue.{EditGuard, push}

pub record Labeled (A L : Type 0) : Type 0 where
  pub guard : EditGuard A
  pub labeler : Option L

module _ {A L : Type 0} where
  unfoldable pub use_labeler : L → Labeled A L → Labeled A L
  use_labeler l q = record q { labeler = some l }

  unfoldable pub use_no_labeler : Labeled A L → Labeled A L
  use_no_labeler q = record q { labeler = none }

  unfoldable pub is_using_labeler : Labeled A L → Bool
  is_using_labeler q = elim q.labeler [ none ↦ false | some l ↦ true ]

-- The labeler of `use_labeler_default` counts in 32 bits; `from_id` is `User::from_id`.
abbrev pub default_label : (ℕ → Bytes) → ℕ → Bytes × ℕ
default_label from_id id = let next = (id + 1) % 2 ^ 32 in (from_id next, next)

abbrev pub label_key : Bytes
label_key = codes "label"

-- The tags with the label, once the guard that inserts it is dropped.
unfoldable pub with_label : Bytes → Tags → Tags
unfolding edit_tags insert_pair drop_guard compare_bytes
with_label label tags =
    drop_guard tag_key compare_bytes ((insert_pair label_key label (edit_tags tags)).1)

module _ {A L : Type 0} (label_of : L → Bytes × L) where
  unfoldable pub push_labeled : ClientMsg → Labeled A L → Option Bytes × Labeled A L
  unfolding push with_label
  push_labeled msg q = elim q.labeler [
    | none ↦ (none, record q { guard = push msg q.guard })
    | some l ↦
        let (label, l') = label_of l in
        (
          some label,
          record {
            guard = push (record msg { tags = with_label label msg.tags }) q.guard;
            labeler = some l';
          },
        )
  ]

  -- With a labeler, a message whose tags are sorted is pushed with the next label, which is returned: the
  -- tags of the message in the queue are sorted and have the label under the key "label", and under
  -- every other key what they had before.
  pub push_labeled-with_label :
      (msg : ClientMsg) (q : Labeled A L) (l : L)
      → q.labeler ≡ some l
      → IsSorted tag_key compare_bytes msg.tags
      → ((push_labeled msg q).0 ≡ some (label_of l).0)
        × ((push_labeled msg q).1.guard.edited.queue
            ≡ q.guard.edited.queue ++ record msg { tags = with_label (label_of l).0 msg.tags } ∷ [])
        × IsSorted tag_key compare_bytes (with_label (label_of l).0 msg.tags)
        × ((k : Bytes)
            → value_of (get tag_key compare_bytes (with_label (label_of l).0 msg.tags) k)
              ≡ if_some
                  (is_eq (compare_bytes label_key k))
                  (label_of l).0
                  (value_of (get tag_key compare_bytes msg.tags k)))
  unfolding push_labeled push with_label
  push_labeled-with_label msg q l e h =
      let (old, sorted, new) = insert_pair-get msg.tags label_key (label_of l).0 h in
      (rw (push_labeled, e) refl, rw (push_labeled, e) refl, sorted, new)
