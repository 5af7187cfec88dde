-- ===== src/PhpTimer/Tests.antt =====
-- A timer of a second that repeats, and the theorems on runs applied to it.
use warrior_man.Prelude.{ℕ, ◌≡◌, arith, refl, true, false, none, some, [], ◌∷◌}
use warrior_man.PhpTimer.{
  State, absent, is_false, Call, adds, deletes, add, call, fire, calls_from_php, fires, step, put,
}
use warrior_man.PhpTimer.Runs.{Reach, start, next, polite_lem}
use warrior_man.PhpTimer.Freed.{self_delete}

abbrev each_second : Call
each_second = adds false 1000 7 absent absent

abbrev with_one : State
with_one = record {
  last_id = 1;
  timers = put (λ k. none) 1 (some 1);
  block =
      put
        (put (λ id. none) 1
          (some (record { cid = 0; ticks = 1000; persistent = true; timer = none; fcc = 7 })))
        1 (some (record { cid = 0; ticks = 1000; persistent = true; timer = some 0; fcc = 7 }));
  pending = put (λ n. none) 0 (some 1);
  next_node = 1;
  next_cid = 0;
}

reach_one : Reach with_one
unfolding step call add
reach_one = next (calls_from_php each_second) start (tt, omega arith) refl

-- The function adds another timer, for once.
polite_lem_example :
    let e = fires false (adds false 50 8 is_false absent ∷ []) 0 in
    (s' : State) × (step with_one e ≡ some s')
    × ((k id : ℕ) → s'.timers k ≡ some id → (k ≡ id) × ((n : ℕ) × (s'.pending n ≡ some id)))
    × ((n id : ℕ) → s'.pending n ≡ some id → s'.timers id ≡ some id)
polite_lem_example =
    polite_lem with_one (fires false (adds false 50 8 is_false absent ∷ []) 0) reach_one
      (λ id h. (tt, tt), omega arith)

self_delete_example : fire false (deletes 1 ∷ each_second ∷ []) with_one 0 ≡ none
self_delete_example = self_delete false (each_second ∷ []) with_one 0 1 reach_one refl
