-- ===== src/Client/Handlers/Served.antt =====
-- What one message does to the handlers of `src/client/handler.rs`.
use mathlib.Core.List.{Perm}
use mathlib.Core.List.Perm
use vinezombie.Prelude.{
  ℕ, zero, suc, ◌+◌, ◌≤◌, ◌≡◌, refl, sym, ◌∙◌, Bool, true, false, ◌||◌, none, List, [], ◌∷◌, ◌++◌,
  append_assoc, append-nil, length, length-append, get_elem?, arith,
}
use vinezombie.Client.Handlers.{
  HandlerStatus, keep, finish, Ran, Handlers, push_if, settle, handle_loop, handle,
}
use vinezombie.Client.Handlers.SwapRemove.{
  brought, set-append_length, get_elem?-append_length, get_elem?-length, swap_remove-append,
  brought-Perm, length-brought,
}

-- What running some handlers in order comes to: those that stay, in that order, the identifiers that
-- yielded and those that finished, whether owning messages are wanted, and the state and the queue.
pub record Outcome (B S Q : Type 0) : Type 0 where
  pub kept : List (B × ℕ)
  pub yields : List ℕ
  pub finishes : List ℕ
  pub wants : Bool
  pub state : S
  pub queue : Q

abbrev pub ids_if : Bool → ℕ → List ℕ → List ℕ
ids_if true id ids = id ∷ ids
ids_if false id ids = ids

module _ {B M S Q : Type 0} (run : B → M → S → Q → Ran B S Q) (msg : M) where
  abbrev pub with_status : HandlerStatus → ℕ → B → Outcome B S Q → Outcome B S Q
  with_status (keep y w) id b o = record o {
    kept = (b, id) ∷ o.kept;
    yields = ids_if y id o.yields;
    wants = w || o.wants;
  }
  with_status (finish y) id b o = record o {
    yields = ids_if y id o.yields;
    finishes = id ∷ o.finishes;
  }

  -- Every handler in a list is run once, in that order.
  unfoldable pub serve : List (B × ℕ) → S → Q → Outcome B S Q
  serve [] s q = record {
    kept = [];
    yields = [];
    finishes = [];
    wants = false;
    state = s;
    queue = q;
  }
  serve ((b, id) ∷ hs) s q =
      let (status, b', s', q') = run b msg s q in with_status status id b' (serve hs s' q')

  -- The collection after an outcome, in front of which some handlers have been settled.
  abbrev after : List (B × ℕ) → Handlers B → Outcome B S Q → Handlers B × S × Q
  after front h o = (
    record {
      handlers = front ++ o.kept;
      yielded = h.yielded ++ o.yields;
      finished = h.finished ++ o.finishes;
      wants_owning = h.wants_owning || o.wants;
    },
    o.state,
    o.queue,
  )

  -- The loop from an index on: the handlers there are run once each, in some order.
  record Runs (front todo : List (B × ℕ)) (h : Handlers B) (s : S) (q : Q)
      (result : Handlers B × S × Q) : Type 0 where
    order : List (B × ℕ)
    all : Perm order todo
    served : result ≡ after front h (serve order s q)

  or-false : (b : Bool) → (b || false) ≡ b
  or-false true = refl
  or-false false = refl

  or_assoc : (a b c : Bool) → ((a || b) || c) ≡ (a || (b || c))
  or_assoc true b c = refl
  or_assoc false b c = refl

  push_if-append :
      (b : Bool) (id : ℕ) (xs ys : List ℕ) → push_if b id xs ++ ys ≡ xs ++ ids_if b id ys
  push_if-append true id xs ys = append_assoc xs (id ∷ []) ys
  push_if-append false id xs ys = refl

  abbrev collection : List (B × ℕ) → List ℕ → List ℕ → Bool → Handlers B
  collection hs ys fs w = record { handlers = hs; yielded = ys; finished = fs; wants_owning = w }

  none-Runs :
      (front : List (B × ℕ)) (ys fs : List ℕ) (w : Bool) (s : S) (q : Q)
      → Runs front []
          (collection (front ++ []) ys fs w)
          s
          q
          (collection (front ++ []) ys fs w, s, q)
  unfolding serve
  none-Runs front ys fs w s q = record {
    order = [];
    all = Perm.nil;
    served = rw (append-nil ys, append-nil fs, or-false w);
  }

  module _ (front ts : List (B × ℕ)) (b b' : B) (id : ℕ) (ys fs : List ℕ) (w : Bool) (s s' : S)
      (q q' : Q) where
    keep-Runs :
        (y w1 : Bool) {result : Handlers B × S × Q}
        → run b msg s q ≡ (keep y w1, b', s', q')
        → Runs
            (front ++ (b', id) ∷ [])
            ts
            (collection ((front ++ (b', id) ∷ []) ++ ts) (push_if y id ys) fs (w || w1))
            s'
            q'
            result
        → Runs front ((b, id) ∷ ts) (collection (front ++ (b, id) ∷ ts) ys fs w) s q result
    unfolding serve
    keep-Runs y w1 e r = record {
      order = (b, id) ∷ r.order;
      all = Perm.cons (b, id) r.all;
      served =
          r.served
          ∙ rw (
            e,
            push_if-append y id ys (serve r.order s' q').yields,
            append_assoc front ((b', id) ∷ []) (serve r.order s' q').kept,
            or_assoc w w1 (serve r.order s' q').wants,
          );
    }

    finish-Runs :
        (y : Bool) {result : Handlers B × S × Q}
        → run b msg s q ≡ (finish y, b', s', q')
        → Runs front
            (brought ts)
            (collection (front ++ brought ts) (push_if y id ys) (fs ++ id ∷ []) w)
            s'
            q'
            result
        → Runs front ((b, id) ∷ ts) (collection (front ++ (b, id) ∷ ts) ys fs w) s q result
    unfolding serve
    finish-Runs y e r = record {
      order = (b, id) ∷ r.order;
      all = Perm.cons (b, id) (Perm.trans r.all (brought-Perm ts));
      served =
          r.served
          ∙ rw (
            e,
            push_if-append y id ys (serve r.order s' q').yields,
            append_assoc fs (id ∷ []) (serve r.order s' q').finishes,
          );
    }

  loop-Runs :
      (fuel : ℕ) (front todo : List (B × ℕ)) (ys fs : List ℕ) (w : Bool) (s : S) (q : Q)
      → length todo ≤ fuel
      → Runs front todo
          (collection (front ++ todo) ys fs w)
          s
          q
          (handle_loop run msg fuel (length front) (collection (front ++ todo) ys fs w) s q)
  unfolding handle_loop
  loop-Runs zero front [] ys fs w s q k = none-Runs front ys fs w s q
  loop-Runs zero front (t ∷ ts) ys fs w s q k = absurd (omega arith)
  loop-Runs (suc fuel) front [] ys fs w s q k =
      let e : get_elem? (front ++ []) (length front) ≡ none =
        rw (append-nil front) (get_elem?-length front) in
      rw e (none-Runs front ys fs w s q)
  loop-Runs (suc fuel) front ((b, id) ∷ ts) ys fs w s q k =
      rw (get_elem?-append_length front (b, id) ts) (by_run (run b msg s q) refl (loop-Runs fuel))
    where
      by_run :
          (r : Ran B S Q)
          → run b msg s q ≡ r
          → ((front todo : List (B × ℕ)) (ys fs : List ℕ) (w : Bool) (s : S) (q : Q)
              → length todo ≤ fuel
              → Runs front todo (collection (front ++ todo) ys fs w) s q (
                  handle_loop run msg fuel (length front) (collection (front ++ todo) ys fs w) s q))
          → Runs front ((b, id) ∷ ts) (collection (front ++ (b, id) ∷ ts) ys fs w) s q (
              let (status, b', s', q') = r in
              let (i', h') =
                settle status (length front) id b' (collection (front ++ (b, id) ∷ ts) ys fs w) in
              handle_loop run msg fuel i' h' s' q')
      by_run (keep y w1, b', s', q') e ih =
          let front' : List (B × ℕ) = front ++ (b', id) ∷ [] in
          let n : length front + 1 ≡ length front' =
            omega (arith, length-append front ((b', id) ∷ [])) in
          let split : front ++ (b', id) ∷ ts ≡ front' ++ ts =
            sym (append_assoc front ((b', id) ∷ []) ts) in
          rw (set-append_length front (b', id) (b, id) ts, split, n)
            (keep-Runs front ts b b' id ys fs w s s' q q' y w1 e
              (ih front' ts (push_if y id ys) fs (w || w1) s' q' (omega arith)))
      by_run (finish y, b', s', q') e ih = rw (swap_remove-append front (b, id) ts) (
          finish-Runs front ts b b' id ys fs w s s' q q' y e (
            ih front (brought ts) (push_if y id ys) (fs ++ id ∷ []) w s' q'
              (omega (arith, length-brought ts))))

  -- `handle` calls every handler of the collection once, in some order: those that go on stay, in that
  -- order, those that are done are added to the finished ones, and nothing but what the message yields
  -- is counted as yielded. It returns how many had finished before.
  pub handle-serve :
      (h : Handlers B) (s : S) (q : Q)
      → (order : List (B × ℕ)) × Perm order h.handlers
        × (handle run msg h s q ≡ (
          length h.finished,
          record {
            handlers = (serve order s q).kept;
            yielded = (serve order s q).yields;
            finished = h.finished ++ (serve order s q).finishes;
            wants_owning = (serve order s q).wants;
          },
          (serve order s q).state,
          (serve order s q).queue,
        ))
  unfolding handle
  handle-serve h s q =
      let r = loop-Runs (length h.handlers) [] h.handlers [] h.finished false s q (omega arith) in
      (r.order, r.all, rw r.served)
