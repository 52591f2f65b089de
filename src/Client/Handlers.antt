-- ===== src/Client/Handlers.antt =====
-- `Handlers` and `box_handler` of `src/client/handler.rs`, and `SenderRef` of `src/client/handler/channel.rs`.
-- A boxed handler is a state with the function that runs it; the types of messages, of the shared state
-- and of the queue are parameters.
pub mod SwapRemove
pub mod Served
pub mod Ids
mod Tests
use vinezombie.Prelude.{
  ℕ, zero, suc, ◌+◌, Bool, true, false, not, ◌&&◌, ◌||◌, Option, none, some, List, [], ◌∷◌, ◌++◌,
  length, get_elem?, set, drop, ltb, leb, ◌==◌, if◌then◌else◌,
}

-- `ControlFlow<Sent>` of `Sender::send`.
pub data Flow : Type 0 where
  open_still sent_last closed : Flow

abbrev pub is_closed : Flow → Bool
is_closed closed = true
is_closed _ = false

pub record SenderRef (C : Type 0) : Type 0 where
  pub sender : C
  pub flag : Bool

-- `SenderRef::send`, with the sender's own.
unfoldable pub send : {C V : Type 0} → (C → V → Flow × C) → V → SenderRef C → Flow × SenderRef C
send send_to value r =
    let (result, sender) = send_to r.sender value in
    (result, record { sender = sender; flag = r.flag || not (is_closed result) })

-- `HandlerStatus`, with whether something was yielded and whether owning messages are wanted.
pub data HandlerStatus : Type 0 where
  keep : Bool → Bool → HandlerStatus
  finish : Bool → HandlerStatus

-- `Handler`: `handle` breaks if its Boolean is true.
pub record HandlerOps (H C M S Q : Type 0) : Type 0 where
  pub handle : H → M → S → Q → SenderRef C → Bool × H × S × Q × SenderRef C
  pub wants_owning : H → Bool

abbrev pub Ran : Type 0 → Type 0 → Type 0 → Type 0
Ran B S Q = HandlerStatus × B × S × Q

module _ {H C M S Q : Type 0} (ops : HandlerOps H C M S Q) where
  abbrev status_of : Bool × H × S × Q × SenderRef C → Ran (H × C) S Q
  status_of (true, h, s, q, r) = (finish r.flag, (h, r.sender), s, q)
  status_of (false, h, s, q, r) = (keep r.flag (ops.wants_owning h), (h, r.sender), s, q)

  -- The closure of `box_handler`, whose state is that of the handler and of its sender.
  unfoldable pub box_handler : H × C → M → S → Q → Ran (H × C) S Q
  box_handler (h, c) msg s q =
      status_of (ops.handle h msg s q (record { sender = c; flag = false }))

pub record Handlers (B : Type 0) : Type 0 where
  pub handlers : List (B × ℕ)
  pub yielded : List ℕ
  pub finished : List ℕ
  pub wants_owning : Bool

module _ {ℓ} {A : Type ℓ} where
  abbrev pub last_of : List A → Option A
  last_of [] = none
  last_of (x ∷ []) = some x
  last_of (x ∷ y ∷ ys) = last_of (y ∷ ys)

  abbrev pub init_of : List A → List A
  init_of [] = []
  init_of (x ∷ []) = []
  init_of (x ∷ y ∷ ys) = x ∷ init_of (y ∷ ys)

  abbrev pub set_last : List A → ℕ → Option A → List A
  set_last xs i none = xs
  set_last xs i (some x) = set xs i x

  -- `Vec::swap_remove`: the last element moves to the index.
  unfoldable pub swap_remove : List A → ℕ → List A
  swap_remove xs i = set_last (init_of xs) i (last_of xs)

abbrev pub no_more {ℓ} : {A : Type ℓ} → List A → Bool
no_more [] = true
no_more (x ∷ xs) = false

-- `push` where something was yielded.
abbrev pub push_if : Bool → ℕ → List ℕ → List ℕ
push_if true id ids = ids ++ id ∷ []
push_if false id ids = ids

abbrev pub id_or : Option ℕ → ℕ → ℕ
id_or none n = n
id_or (some id) n = id

module _ {B : Type 0} where
  abbrev pub empty_handlers : Handlers B
  empty_handlers = record { handlers = []; yielded = []; finished = []; wants_owning = false }

  -- `add` of a boxed handler, with what its `wants_owning` says.
  unfoldable pub add : B → Bool → Handlers B → ℕ × Handlers B
  add b wants h =
      let id = id_or (last_of h.finished) (length h.handlers) in
      (
        id,
        record h {
          handlers = h.handlers ++ (b, id) ∷ [];
          finished = init_of h.finished;
          wants_owning = h.wants_owning || wants;
        },
      )

  unfoldable pub is_empty : Handlers B → Bool
  is_empty h = no_more h.handlers

  abbrev pub position_of : ℕ → List (B × ℕ) → Option ℕ
  position_of id [] = none
  position_of id ((b, id') ∷ hs) = elim (id == id') [
    | true ↦ some 0
    | false ↦ elim (position_of id hs) [ none ↦ none | some i ↦ some (suc i) ]
  ]

  -- `cancel_one`; `none` is its panic.
  unfoldable pub cancel_one : ℕ → Handlers B → Option (Handlers B)
  unfolding swap_remove
  cancel_one id h = elim (position_of id h.handlers) [
    | none ↦ none
    | some idx ↦
        let rest = swap_remove h.handlers idx in
        some (record h {
          handlers = rest;
          finished = h.finished ++ id ∷ [];
          wants_owning = h.wants_owning && not (no_more rest);
        })
  ]

  unfoldable pub cancel : Handlers B → Handlers B
  cancel h = empty_handlers

  unfoldable pub has_results : ℕ → Handlers B → Bool
  has_results finished_at h = not (no_more h.yielded) || ltb finished_at (length h.finished)

  -- `last_run_results`; `none` is the panic of `split_at`.
  unfoldable pub last_run_results : ℕ → Handlers B → Option (List ℕ × List ℕ)
  last_run_results finished_at h =
      if leb finished_at (length h.finished)
      then some (h.yielded, drop finished_at h.finished)
      else none

  -- What the arms of the match do with the handler at an index: the index to go on at, and the collection.
  abbrev pub settle : HandlerStatus → ℕ → ℕ → B → Handlers B → ℕ × Handlers B
  unfolding swap_remove
  settle (keep yielded wants) i id b h = (
    i + 1,
    record h {
      handlers = set h.handlers i (b, id);
      yielded = push_if yielded id h.yielded;
      wants_owning = h.wants_owning || wants;
    },
  )
  settle (finish yielded) i id b h = (
    i,
    record h {
      handlers = swap_remove h.handlers i;
      yielded = push_if yielded id h.yielded;
      finished = h.finished ++ id ∷ [];
    },
  )

  module _ {M S Q : Type 0} (run : B → M → S → Q → Ran B S Q) (msg : M) where
    abbrev pub run_one :
        Option (B × ℕ)
        → ℕ
        → Handlers B
        → S
        → Q
        → (ℕ → Handlers B → S → Q → Handlers B × S × Q)
        → Handlers B × S × Q
    run_one none i h s q loop = (h, s, q)
    run_one (some (b, id)) i h s q loop =
        let (status, b', s', q') = run b msg s q in
        let (i', h') = settle status i id b' h in loop i' h' s' q'

    -- The loop of `handle`, with fuel for its rounds.
    unfoldable pub handle_loop : ℕ → ℕ → Handlers B → S → Q → Handlers B × S × Q
    unfolding settle
    handle_loop zero i h s q = (h, s, q)
    handle_loop (suc fuel) i h s q = run_one (get_elem? h.handlers i) i h s q (handle_loop fuel)

    -- `handle`: the length of `finished` before, and what has changed.
    unfoldable pub handle : Handlers B → S → Q → ℕ × Handlers B × S × Q
    unfolding handle_loop
    handle h s q =
        let (h', s', q') =
          handle_loop (length h.handlers) 0 (record h { yielded = []; wants_owning = false }) s q in
        (length h.finished, h', s', q')
