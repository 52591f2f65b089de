-- ===== src/Client/Handlers/Tests.antt =====
-- Handlers that count down: each message takes one off, and at zero they yield and are done.
use mathlib.Core.List.{Perm, Nodup}
use vinezombie.Prelude.{
  ℕ, zero, suc, ◌+◌, ◌≡◌, refl, true, false, some, List, [], ◌∷◌, ◌++◌, length,
}
use vinezombie.Client.Handlers.{
  keep, finish, Ran, Handlers, Flow, closed, send, empty_handlers, add, cancel_one, handle,
}
use vinezombie.Client.Handlers.Served.{serve, handle-serve}
use vinezombie.Client.Handlers.Ids.{ids, start, adding, cancelling, handling, Reached-Nodup}

abbrev count_down : ℕ → ℕ → ℕ → List ℕ → Ran ℕ ℕ (List ℕ)
count_down zero m s q = (finish true, 0, s + m, q ++ s ∷ [])
count_down (suc n) m s q = (keep false false, n, s + m, q ++ s ∷ [])

abbrev three : Handlers ℕ
three = record {
  handlers = (0, 0) ∷ (4, 1) ∷ (0, 2) ∷ [];
  yielded = [];
  finished = [];
  wants_owning = true;
}

-- The last handler takes the place of the first and is run before the second.
handle_three : handle count_down 1 three 10 [] ≡ (
  0,
  record {
    handlers = (3, 1) ∷ [];
    yielded = 0 ∷ 2 ∷ [];
    finished = 0 ∷ 2 ∷ [];
    wants_owning = false;
  },
  13,
  10 ∷ 11 ∷ 12 ∷ [],
)
unfolding handle
handle_three = refl

handle-serve_example :
    (order : List (ℕ × ℕ)) × Perm order three.handlers
    × (handle count_down 1 three 10 [] ≡ (
      length three.finished,
      record {
        handlers = (serve count_down 1 order 10 []).kept;
        yielded = (serve count_down 1 order 10 []).yields;
        finished = three.finished ++ (serve count_down 1 order 10 []).finishes;
        wants_owning = (serve count_down 1 order 10 []).wants;
      },
      (serve count_down 1 order 10 []).state,
      (serve count_down 1 order 10 []).queue,
    ))
handle-serve_example = handle-serve count_down 1 three 10 []

unfoldable two_added : Handlers ℕ
unfolding add
two_added = (add 5 false (add 0 true empty_handlers).1).1

abbrev one_left : Handlers ℕ
one_left = record { handlers = (5, 1) ∷ []; yielded = []; finished = 0 ∷ []; wants_owning = true }

cancel_first : cancel_one 0 two_added ≡ some one_left
unfolding cancel_one two_added
cancel_first = refl

Reached-Nodup_example : Nodup (
    ids (handle count_down 1 (add 7 false one_left).1 0 []).1.handlers
    ++ (handle count_down 1 (add 7 false one_left).1 0 []).1.finished)
unfolding add two_added
Reached-Nodup_example = Reached-Nodup count_down (
    handling 1 0 []
      (adding 7 false (cancelling 0 cancel_first (adding 5 false (adding 0 true start)))))

-- A closed channel does not count as yielded to.
abbrev deaf : ℕ → ℕ → Flow × ℕ
deaf c v = (closed, c + v)

send_closed :
    send deaf 3 (record { sender = 4; flag = false })
    ≡ (closed, record { sender = 7; flag = false })
unfolding send
send_closed = refl
