-- ===== src/PhpTimer.antt =====
-- The timers of PHP, src/php_timer.c: `Timer::add`, `Timer::del`, and what a due timer does.
--
-- A timer's block stands at the address that is its id; `none` is freed memory, and to read or write it
-- gives `none` for the whole run. The table `timers` has the ids of the timers that its pointers lead to, by
-- the 32 bits that its keys have. `pending` is what the timing wheel holds: for a node its userdata.
-- The functions of PHP are scripts of the calls that they make before they first yield.
mod Sound
mod Changed
mod Runs
mod Freed
mod Tests
use warrior_man.Prelude.{
  ℕ, ◌+◌, ◌%◌, ◌^◌, Bool, true, false, not, ◌||◌, Option, none, some, List, [], ◌∷◌, ◌==◌,
  if◌then◌else◌,
}

-- `php_worker_timer`, but for `id`; a `timer` of `none` is NULL.
pub record Block : Type 0 where
  pub cid : ℕ
  pub ticks : ℕ
  pub persistent : Bool
  pub timer : Option ℕ
  pub fcc : ℕ

pub record State : Type 0 where
  pub last_id : ℕ
  pub timers : ℕ → Option ℕ
  pub block : ℕ → Option Block
  pub pending : ℕ → Option ℕ
  pub next_node : ℕ
  pub next_cid : ℕ

abbrev pub put {ℓ} : {A : Type ℓ} → (ℕ → A) → ℕ → A → ℕ → A
put f i a j = if j == i then a else f j

-- A `long` as a key of the table.
abbrev pub key : ℕ → ℕ
key id = id % 2 ^ 32

-- `wmTimerWheel_del`; NULL deletes nothing.
abbrev pub del_node : (ℕ → Option ℕ) → Option ℕ → ℕ → Option ℕ
del_node pending none = pending
del_node pending (some n) = put pending n none

-- `timer_free`
unfoldable pub timer_free : State → ℕ → Option State
timer_free s id = elim (s.block id) [
  | none ↦ none
  | some b ↦ some (record s {
    pending = del_node s.pending b.timer;
    timers = put s.timers (key id) none;
    block = put s.block id none;
  })
]

-- An argument of `Timer::add`.
pub data Arg : Type 0 where
  absent : Arg
  array : Arg
  is_false : Arg
  other : Arg

-- The flag that the two optional arguments give.
abbrev pub persists : Arg → Arg → Bool
persists array is_false = false
persists is_false args2 = false
persists args1 args2 = true

-- `timer->timer = wmTimerWheel_add_quick(…)`, on the timer `b` of the id.
abbrev pub arm : State → ℕ → Block → State
arm s id b = record s {
  pending = put s.pending s.next_node (some id);
  block = put s.block id (some (record b { timer = some s.next_node }));
  next_node = s.next_node + 1;
}

abbrev pub failed : Option State → Option (State × Option ℕ)
failed none = none
failed (some s) = some (s, none)

-- The end of `Timer::add`: the table takes the timer unless it has its key.
abbrev pub entered : Option ℕ → State → ℕ → Block → Option (State × Option ℕ)
entered (some other_id) s id b = failed (timer_free s id)
entered none s id b =
    some (arm (record s { timers = put s.timers (key id) (some id) }) id b, some id)

-- `Timer::add`, with its answer, an id or `false`. `short` says that `seconds` is below 0.001, and
-- `ticks` is `seconds * 1000`.
unfoldable pub add : State → Bool → ℕ → ℕ → Arg → Arg → Option (State × Option ℕ)
add s true ticks fcc args1 args2 = some (s, none)
add s false ticks fcc args1 args2 =
    let id = s.last_id + 1 in
    let b : Block = record {
      cid = 0;
      ticks = ticks;
      persistent = persists args1 args2;
      timer = none;
      fcc = fcc;
    } in
    entered (s.timers (key id)) (record s { last_id = id; block = put s.block id (some b) }) id b

abbrev pub answered : Option State → Option (State × Bool)
answered none = none
answered (some s) = some (s, true)

-- `Timer::del`, with its answer.
unfoldable pub del : State → ℕ → Option (State × Bool)
del s id = elim (s.timers (key id)) [ none ↦ some (s, false) | some i ↦ answered (timer_free s i) ]

-- What a function of PHP does with timers.
pub data Call : Type 0 where
  adds : (short : Bool) (ticks fcc : ℕ) → Arg → Arg → Call
  deletes : ℕ → Call

abbrev pub state_of : {A : Type 0} → Option (State × A) → Option State
state_of none = none
state_of (some (s, a)) = some s

unfoldable pub call : State → Call → Option State
call s (adds short ticks fcc a b) = state_of (add s short ticks fcc a b)
call s (deletes id) = state_of (del s id)

unfoldable pub calls : State → List Call → Option State
calls s [] = some s
calls s (c ∷ cs) = elim (call s c) [ none ↦ none | some s' ↦ calls s' cs ]

-- The end of `timer_add_callback`, once the function of PHP has run in its coroutine.
abbrev pub called : Bool → State → ℕ → Option State
called reloading s id = elim (s.block id) [
  | none ↦ none
  | some b ↦
      let b' = record b { cid = s.next_cid } in
      let s' = record s { block = put s.block id (some b'); next_cid = s.next_cid + 1 } in
      elim (not b.persistent || reloading) [ true ↦ timer_free s' id | false ↦ some (arm s' id b') ]
]

-- `timer_add_callback`, where the function of PHP makes the calls `cs`.
unfoldable pub timer_add_callback : Bool → List Call → State → ℕ → Option State
timer_add_callback reloading cs s id = elim (s.block id) [
  | none ↦ none
  | some b ↦
      elim (calls (record s { block = put s.block id (some (record b { timer = none })) }) cs) [
        | none ↦ none
        | some s' ↦ called reloading s' id
      ]
]

-- A node is due: it leaves the wheel, and its callback runs on its userdata.
unfoldable pub fire : Bool → List Call → State → ℕ → Option State
fire reloading cs s n = elim (s.pending n) [
  | none ↦ some s
  | some id ↦ timer_add_callback reloading cs (record s { pending = put s.pending n none }) id
]

pub data Event : Type 0 where
  calls_from_php : Call → Event
  fires : (reloading : Bool) → List Call → (n : ℕ) → Event

unfoldable pub step : State → Event → Option State
step s (calls_from_php c) = call s c
step s (fires reloading cs n) = fire reloading cs s n

unfoldable pub steps : State → List Event → Option State
steps s [] = some s
steps s (e ∷ es) = elim (step s e) [ none ↦ none | some s' ↦ steps s' es ]

abbrev pub initial : State
initial = record {
  last_id = 0;
  timers = λ k. none;
  block = λ id. none;
  pending = λ n. none;
  next_node = 0;
  next_cid = 0;
}
