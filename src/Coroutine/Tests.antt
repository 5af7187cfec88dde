-- ===== src/Coroutine/Tests.antt =====
-- A few coroutines, and the theorems on the scheduler applied to them.
use warrior_man.Prelude.{ℕ, ◌++◌, Bool, ◌≡◌, arith, refl, true, Option, none, some, List, [], ◌∷◌}
use warrior_man.Coroutine.{
  Sched, Event, creates, yields, resumes, finishes, computes, has, create, yield, resume, finish,
  step, steps, initial,
}
use warrior_man.Coroutine.Refine.{Refines, Matches}
use warrior_man.Coroutine.Runs.{stack_steps, no_stacks, steps_refine}
use warrior_man.Stack.{Stack}
use warrior_man.Coroutine.Deferred.{
  deferred, defer_all, end_main, last_first, run_callback, end_main_lem,
}
use warrior_man.Coroutine.Switch.{switch_back}

-- The first coroutine starts a second one, which yields; the first resumes it, and both end.
abbrev script : List Event
script = creates true 10 ∷ creates true 20 ∷ yields ∷ resumes 3 ∷ finishes ∷ finishes ∷ []

abbrev outline : Option Sched → Option (ℕ × ℕ)
outline none = none
outline (some s) = some (s.current, s.eg)

run-script : outline (steps (some (initial 5)) script) ≡ some (0, 5)
unfolding steps step create yield resume finish
run-script = refl

main_cannot_yield : steps (some (initial 5)) (yields ∷ []) ≡ none
unfolding steps step yield
main_cannot_yield = refl

steps_refine_example :
    Matches (steps (some (initial 5)) script) (stack_steps (some no_stacks) script)
steps_refine_example = steps_refine 5 script

-- Coroutine 2 is suspended, with the globals 7.
abbrev asleep : Sched
asleep = record (initial 5) {
  coroutines = 2 ∷ [];
  yielded = 2 ∷ [];
  last_cid = 1;
  total_num = 1;
  saved = λ t. 7;
}

asleep-Refines : Refines asleep (record { running = []; suspended = 2 ∷ []; last = 1 })
asleep-Refines = record {
  current_top = refl;
  chain = tt;
  same_yielded = refl;
  live = λ t. refl;
  apart = λ t. refl;
  distinct_running = tt;
  distinct_suspended = (refl, tt);
  no_main = (refl, refl);
  total = omega arith;
  same_last = refl;
}

switch_back_example :
    (s : Sched) × (steps (some asleep) (resumes 2 ∷ computes 9 ∷ yields ∷ []) ≡ some s)
    × (s.current ≡ 0)
    × (s.eg ≡ 5)
    × (has 2 s.yielded ≡ true)
    × (s.saved 2 ≡ 9)
switch_back_example =
    switch_back asleep (record { running = []; suspended = 2 ∷ []; last = 1 }) 2 9 asleep-Refines
      refl

abbrev ample : ℕ → Bool
ample n = true

three-run : last_first (7 ∷ 8 ∷ 9 ∷ []) ≡ deferred 9 ∷ deferred 8 ∷ deferred 7 ∷ []
unfolding last_first
three-run = refl

end_main_lem_example :
    (o : Option Stack) × (defer_all ample none (7 ∷ 8 ∷ 9 ∷ []) ≡ some o)
    × (end_main ample o (some 5) ≡ some (last_first (7 ∷ 8 ∷ 9 ∷ []) ++ run_callback (some 5)))
end_main_lem_example =
    end_main_lem ample (λ n. refl) ample (7 ∷ 8 ∷ 9 ∷ []) (some 5) (omega arith)
      ((refl, refl), ((refl, refl), ((refl, refl), tt)))
