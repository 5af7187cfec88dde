-- ===== src/Stack/Tests.antt =====
-- A stack on small inputs, and its theorems applied to them.
use warrior_man.Prelude.{ℕ, ◌≡◌, ◌⊎◌, arith, refl, Bool, true, false, some, [], ◌∷◌}
use warrior_man.Stack.{Stack, push, pop, wipe, clear}
use warrior_man.Stack.Lifo.{stack_of, Holds, Pushed, push_lem}

abbrev ample : ℕ → Bool
ample n = true

-- Two data in a block for two.
two-Holds : Holds (7 ∷ 8 ∷ []) 2 2 (7 ∷ 8 ∷ [])
two-Holds = record { whole = refl; fits = omega arith; small = omega arith; same = refl }

clear-two : clear (stack_of (7 ∷ 8 ∷ []) 2 2) ≡ stack_of (0 ∷ 0 ∷ []) 0 2
unfolding clear wipe
clear-two = refl

push_lem_example :
    Pushed (7 ∷ 8 ∷ []) 9 (push ample (stack_of (7 ∷ 8 ∷ []) 2 2) 9)
    ⊎ (((stack_of (7 ∷ 8 ∷ []) 2 2).num ≡ 2)
        × (ample 4 ≡ false)
        × ((s : Stack) × (push ample (stack_of (7 ∷ 8 ∷ []) 2 2) 9 ≡ some (s, 0))
            × (pop s ≡ some (s, 0))
            × (s.num ≡ 2)))
push_lem_example = push_lem ample (7 ∷ 8 ∷ []) 2 2 (7 ∷ 8 ∷ []) 9 two-Holds (omega arith)
