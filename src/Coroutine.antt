-- ===== src/Coroutine.antt =====
-- The scheduler of src/coroutine/coroutine.c: which coroutine runs, whom each gives the control back
-- to, and whose PHP stack is loaded.
--
-- A coroutine is named by its key in the tables plus 1 (the tables have keys of 32 bits); 0 is
-- `main_task`, and the NULL that `get_task` turns into it. The globals of the PHP engine that
-- `save_vm_stack` and `restore_vm_stack` copy are one value, `eg`. An operation is cut where the context
-- is switched, and `none` is a crash: a failed `assert`, or a use of NULL or of a freed coroutine.
mod Stack
mod Refine
mod Runs
mod Switch
mod Deferred
mod Tests
use warrior_man.Prelude.{
  ℕ, ◌+◌, ◌-◌, ◌%◌, ◌^◌, Bool, true, false, not, ◌||◌, Option, none, some, List, [], ◌∷◌, keep, leb,
  ◌==◌, if◌then◌else◌,
}

-- The static variables of the file, the globals of the engine, and in each coroutine `origin` and the
-- saved globals.
pub record Sched : Type 0 where
  pub current : ℕ
  pub origin : ℕ → ℕ
  pub coroutines : List ℕ
  pub yielded : List ℕ
  pub last_cid : ℕ
  pub total_num : ℕ
  pub eg : ℕ
  pub saved : ℕ → ℕ

abbrev pub update : (ℕ → ℕ) → ℕ → ℕ → ℕ → ℕ
update f a v x = if x == a then v else f x

-- `WM_HASH_GET`, as a test, and `WM_HASH_DEL`.
abbrev pub has : ℕ → List ℕ → Bool
has t [] = false
has t (c ∷ cs) = t == c || has t cs

abbrev pub remove : ℕ → List ℕ → List ℕ
remove t = keep (λ c. not (c == t))

abbrev pub save_vm_stack : Sched → ℕ → Sched
save_vm_stack s t = record s { saved = update s.saved t s.eg }

abbrev pub restore_vm_stack : Sched → ℕ → Sched
restore_vm_stack s t = record s { eg = s.saved t }

-- `++last_cid`, and 101 after an overflow.
abbrev pub next_cid : ℕ → ℕ
next_cid last = let c = (last + 1) % 2 ^ 64 in if leb (2 ^ 63) c then 101 else c

abbrev pub name_of : ℕ → ℕ
name_of cid = cid % 2 ^ 32 + 1

-- `run` up to the switch, and `main_func` up to the PHP code; `page` is the new stack.
abbrev pub run : Sched → ℕ → ℕ → Sched
run s t page =
    save_vm_stack (record s { origin = update s.origin t s.current; current = t; eg = page }) t

-- `wmCoroutine_create` up to the PHP code; `valid` says that the function is of a valid type.
pub create : Sched → Bool → ℕ → Sched × Option ℕ
create s valid page =
    let cid = next_cid s.last_cid in
    let t = name_of cid in
    let s' = record s {
      last_cid = cid;
      coroutines = t ∷ s.coroutines;
      total_num = (s.total_num + 1) % 2 ^ 64;
    } in
    let added : Sched × Option ℕ =
      if has t s.coroutines
      then (record s { last_cid = cid }, none)
      else (run (save_vm_stack s' s.current) t page, some cid) in
    if valid then added else (s, none)

-- `wmCoroutine_yield`
pub yield : Sched → Option Sched
yield s =
    let t = s.current in
    let o = s.origin t in
    let s₁ = save_vm_stack (record s { yielded = t ∷ s.yielded }) t in
    let s₂ = restore_vm_stack s₁ o in
    if t == 0 then none else if has t s.yielded then some s else some (record s₂ { current = o })

-- `wmCoroutine_resume` up to the switch; false is a coroutine that has not yielded.
pub resume : Sched → ℕ → Option (Sched × Bool)
resume s t =
    let s₁ = save_vm_stack (record s { yielded = remove t s.yielded }) s.current in
    let s₂ = restore_vm_stack s₁ t in
    let s₃ = record s₂ { origin = update s₂.origin t s.current; current = t } in
    if s.current == t
    then none
    else if has t s.coroutines
    then some (if has t s.yielded then (s₃, true) else (s, false))
    else none

-- The end of `run` or `wmCoroutine_resume` when the current coroutine has come to its end, with
-- `close_coro`.
pub finish : Sched → Option Sched
finish s =
    let t = s.current in
    let o = s.origin t in
    let s₁ = record s {
      current = o;
      coroutines = remove t s.coroutines;
      yielded = remove t s.yielded;
      total_num = (s.total_num + 2 ^ 64 - 1) % 2 ^ 64;
    } in
    if t == 0 then none else some (restore_vm_stack s₁ o)

-- What a run is made of; `computes` is PHP code, which leaves other globals behind.
pub data Event : Type 0 where
  creates : (valid : Bool) → (page : ℕ) → Event
  yields : Event
  resumes : ℕ → Event
  finishes : Event
  computes : ℕ → Event

abbrev drop_answer : Option (Sched × Bool) → Option Sched
drop_answer none = none
drop_answer (some (s, b)) = some s

pub step : Sched → Event → Option Sched
step s (creates valid page) = some (create s valid page).0
step s yields = yield s
step s (resumes t) = drop_answer (resume s t)
step s finishes = finish s
step s (computes v) = some (record s { eg = v })

abbrev pub and_then : Option Sched → (Sched → Option Sched) → Option Sched
and_then none f = none
and_then (some s) f = f s

-- A run, from `wmCoroutine_init` on: a step that crashes ends it.
pub steps : Option Sched → List Event → Option Sched
steps s [] = s
steps s (e ∷ es) = steps (and_then s (λ s'. step s' e)) es

abbrev pub initial : ℕ → Sched
initial eg = record {
  current = 0;
  origin = λ t. 0;
  coroutines = [];
  yielded = [];
  last_cid = 0;
  total_num = 0;
  eg = eg;
  saved = λ t. 0;
}
