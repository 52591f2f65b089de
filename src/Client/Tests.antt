-- ===== src/Client/Tests.antt =====
-- Runs of the rate-limited queue, with a delay of 2 and a burst of 1 more message, of its labeler, and of
-- the time limits.
use vinezombie.Prelude.{
  ℕ, ◌+◌, ◌-◌, ◌*◌, max, ◌≤◌, ◌<◌, ◌≡◌, refl, Option, Bytes, none, some, List, [], ◌∷◌, ◌++◌,
  length, codes, arith,
}
use vinezombie.Text.Kinds.{ok}
use vinezombie.Util.FlatMap.{is_eq, IsSorted}
use vinezombie.Util.EditGuard.{
  edit as edit_elems, insert as insert_elem, push as push_elem, get_idx, get_impl, binary_search,
  get, drop_guard,
}
use vinezombie.Ircmsg.Tags.{Tags, tag_key, compare_bytes}
use vinezombie.Ircmsg.Tags.Edit.{edit_tags, insert_pair, value_of, if_some}
use vinezombie.Ircmsg.Codec.{ClientMsg}
use vinezombie.Client.Queue.{Queue, Popped, pop, edit}
use vinezombie.Client.Queue.Rate.{Run, Ordered, Run-rate, Run-fifo}
use vinezombie.Client.Queue.Wait.{pop_timeout}
use vinezombie.Client.Queue.Labels.{
  Labeled, label_key, with_label, push_labeled, push_labeled-with_label,
}
use vinezombie.Client.TimeLimits.{
  Limited, Timeouts, BufRead, TimeLimits, new_limits, one_second, set_read_timeout,
}
use vinezombie.Client.TimeLimits.Reading.{call}

abbrev msg : ClientMsg
msg = record { tags = []; command = codes "PING"; args = record { words = []; long = none } }

abbrev queue_at : List ClientMsg → ℕ → Queue ℕ
queue_at ms t = record { queue = ms; delay = 2; sub = 2; timepoint = t; adjuster = none }

abbrev times : List (ℕ × ℕ)
times = (10, 10) ∷ (10, 11) ∷ (11, 11) ∷ []

-- Two messages leave at once, and the third has to wait.
run : Run 1000 times (queue_at (msg ∷ msg ∷ msg ∷ []) 10) (msg ∷ msg ∷ []) (queue_at (msg ∷ []) 14)
unfolding pop
run = Run.call refl (Run.call refl (Run.call refl Run.stop))

times-Ordered : Ordered 10 times 11
times-Ordered =
    (omega arith, omega arith, (omega arith, omega arith, (omega arith, omega arith, omega arith)))

Run-rate_example : length (msg ∷ msg ∷ []) * 2 ≤ (11 - 10) + 2 + 2
Run-rate_example = Run-rate 1000 times 10 11 run times-Ordered

Run-fifo_example : (msg ∷ msg ∷ []) ++ (msg ∷ []) ≡ msg ∷ msg ∷ msg ∷ []
Run-fifo_example = Run-fifo 1000 times 10 11 run times-Ordered

abbrev waiting : Popped ℕ
waiting = record { value = none; timeout = some (some 1); after = queue_at (msg ∷ []) 14 }

abbrev sent : Popped ℕ
sent = record { value = some msg; timeout = none; after = queue_at [] 16 }

pop-waiting : pop 1000 11 11 (queue_at (msg ∷ []) 14) ≡ some waiting
unfolding pop
pop-waiting = refl

pop-sent : pop 1000 12 12 (queue_at (msg ∷ []) 14) ≡ some sent
unfolding pop
pop-sent = refl

passed : 11 + 1 ≤ 12
passed = omega arith

pop_timeout_example :
    (0 < 1)
    × (waiting.value ≡ none)
    × (waiting.after ≡ queue_at (msg ∷ []) 14)
    × (sent.timeout ≡ none)
pop_timeout_example =
    pop_timeout 1000 11 11 (queue_at (msg ∷ []) 14) pop-waiting refl 12 12 passed pop-sent

-- Labels that count, one byte each.
abbrev count_label : ℕ → Bytes × ℕ
count_label n = (n ∷ [], n + 1)

abbrev labeled : Labeled ℕ ℕ
labeled = record { guard = edit (queue_at [] 0); labeler = some b'A' }

abbrev tagged : Tags
tagged = with_label (b'A' ∷ []) []

tagged-label : tagged ≡ (label_key, b'A' ∷ []) ∷ []
unfolding with_label insert_pair edit_tags edit_elems insert_elem get_idx get_impl binary_search
    push_elem drop_guard
tagged-label = refl

push_labeled-with_label_example :
    ((push_labeled count_label msg labeled).0 ≡ some (b'A' ∷ []))
    × ((push_labeled count_label msg labeled).1.guard.edited.queue
        ≡ labeled.guard.edited.queue ++ record msg { tags = tagged } ∷ [])
    × IsSorted tag_key compare_bytes tagged
    × ((k : Bytes)
        → value_of (get tag_key compare_bytes tagged k)
          ≡ if_some
              (is_eq (compare_bytes label_key k))
              (b'A' ∷ [])
              (value_of (get tag_key compare_bytes [] k)))
push_labeled-with_label_example = push_labeled-with_label count_label msg labeled b'A' refl tt

-- A connection that remembers its read timeout.
abbrev remembering : Timeouts (Option ℕ)
remembering = record {
  conn_read_timeout = λ c t. (ok tt, t);
  conn_write_timeout = λ c t. (ok tt, c);
}

abbrev waited : Option ℕ → ℕ → ℕ
waited none now = now
waited (some t) now = now + t

-- It answers when its read timeout passes.
abbrev answering : BufRead (Option ℕ)
answering = record {
  conn_read = λ len c now. (ok [], c, waited c now);
  conn_fill_buf = λ c now. (ok [], c, waited c now);
  conn_consume = λ c n. c;
}

abbrev read_limits : TimeLimits
read_limits = set_read_timeout (some 5) new_limits

abbrev from_ten : Limited (Option ℕ)
from_ten = record { conn = none; deadline = some (10 + max 5 one_second) }
