-- ===== src/Coroutine/Deferred.antt =====
-- `wmCoroutine_defer` of src/coroutine/coroutine.c, and the end of `main_func`, where the deferred
-- functions of a coroutine run, and then its callback.
--
-- A function is its number, `calls` says whether PHP can call it, and a deferred function defers none
-- itself.
use warrior_man.Prelude.{
  ℕ, zero, suc, ◌+◌, ◌*◌, ◌<◌, ◌^◌, ◌≡◌, refl, sym, ap, subst, ◌∙◌, arith, Bool, true, false,
  Option, none, some, List, [], ◌∷◌, ◌++◌, length, length-take, All, ◌==◌, append_assoc, append_nil,
  snoc_of, replicate,
}
use warrior_man.Stack.{Stack, create, push, pop, init_len, cre}
use warrior_man.Stack.Lifo.{stack_of, Holds, push_enough, pop_last}

-- What runs at the end.
pub data Ran : Type 0 where
  deferred : ℕ → Ran
  callback : ℕ → Ran

abbrev pub pushed : Option (Stack × ℕ) → Option (Option Stack)
pushed none = none
pushed (some (s, b)) = some (some s)

module _ (memory : ℕ → Bool) where
  -- `wmCoroutine_defer`, on `defer_tasks`. To push on NULL does nothing.
  pub defer : Option Stack → ℕ → Option (Option Stack)
  defer (some s) fn = pushed (push memory s fn)
  defer none fn = elim (create memory) [ none ↦ some none | some s ↦ pushed (push memory s fn) ]

  pub defer_all : Option Stack → List ℕ → Option (Option Stack)
  defer_all o [] = some o
  defer_all o (fn ∷ fns) = elim (defer o fn) [ none ↦ none | some o' ↦ defer_all o' fns ]

abbrev pub run_callback : Option ℕ → List Ran
run_callback none = []
run_callback (some c) = callback c ∷ []

module _ (calls : ℕ → Bool) where
  abbrev pub first_ran : ℕ → Option (List Ran × Bool) → Option (List Ran × Bool)
  first_ran fn none = none
  first_ran fn (some (rs, b)) = some (deferred fn ∷ rs, b)

  -- The `while` of `main_func`, with the answer whether it came to its end. One round more than there
  -- are functions is fuel enough. A NULL that it pops is written through, which ends the process: `none`.
  pub run_deferred : ℕ → Stack → Option (List Ran × Bool)
  run_deferred zero s = none
  run_deferred (suc fuel) s = elim (s.num == 0) [
    | true ↦ some ([], true)
    | false ↦ elim (pop s) [
      | none ↦ none
      | some (s', fn) ↦ elim (fn == 0) [
        | true ↦ none
        | false ↦ elim (calls fn) [
          | false ↦ some ([], false)
          | true ↦ first_ran fn (run_deferred fuel s')
        ]
      ]
    ]
  ]

  abbrev pub then_callback : Option ℕ → Option (List Ran × Bool) → Option (List Ran)
  then_callback c none = none
  then_callback c (some (rs, true)) = some (rs ++ run_callback c)
  then_callback c (some (rs, false)) = some rs

  -- The end of `main_func`.
  pub end_main : Option Stack → Option ℕ → Option (List Ran)
  end_main none c = some (run_callback c)
  end_main (some s) c = then_callback c (run_deferred (suc s.num) s)

-- A function that is there, and that PHP can call.
abbrev pub Callable : (ℕ → Bool) → ℕ → Type 0
Callable calls fn = ((fn == 0) ≡ false) × (calls fn ≡ true)

-- The last first.
unfoldable pub last_first : List ℕ → List Ran
last_first [] = []
last_first (fn ∷ fns) = last_first fns ++ deferred fn ∷ []

last_first-snoc :
    (fns : List ℕ) (fn : ℕ) → last_first (fns ++ fn ∷ []) ≡ deferred fn ∷ last_first fns
unfolding last_first
last_first-snoc [] fn = refl
last_first-snoc (f ∷ fns) fn = ap (λ t. t ++ deferred f ∷ []) (last_first-snoc fns fn)

All-left :
    (calls : ℕ → Bool) (ys : List ℕ) (y : ℕ)
    → All (Callable calls) (ys ++ y ∷ [])
    → All (Callable calls) ys
All-left calls [] y a = tt
All-left calls (x ∷ xs) y a = (a.0, All-left calls xs y a.1)

All-last :
    (calls : ℕ → Bool) (ys : List ℕ) (y : ℕ)
    → All (Callable calls) (ys ++ y ∷ [])
    → Callable calls y
All-last calls [] y a = a.0
All-last calls (x ∷ xs) y a = All-last calls xs y a.1

module _ (calls : ℕ → Bool) where
  run_deferred_lem :
      (n : ℕ) (block : List ℕ) (num size : ℕ) (xs : List ℕ)
      → Holds block num size xs
      → length xs ≡ n
      → All (Callable calls) xs
      → run_deferred calls (suc n) (stack_of block num size) ≡ some (last_first xs, true)
  unfolding run_deferred last_first
  run_deferred_lem zero block num size (x ∷ xs) h l a = absurd (omega (arith, l))
  run_deferred_lem zero block num size [] h l a =
      let z : num ≡ 0 = omega (arith, length-take num block, ap length h.same, h.whole, h.fits) in
      rw (run_deferred, z) refl
  run_deferred_lem (suc n) block num size xs h l a =
      let (ys, (y, e, k)) = snoc_of n xs l in
      let (block', num', p, h') = pop_last block num size ys y (subst (Holds block num size) e h) in
      let ays = subst (All (Callable calls)) e a in
      let nz : (num == 0) ≡ false =
        ground (arith, length-take num block, ap length h.same, h.whole, h.fits, l) in
      let ih = run_deferred_lem n block' num' size ys h' k (All-left calls ys y ays) in
      let (there, called) = All-last calls ys y ays in
      rw (run_deferred, nz, p, there, called, ih)
        (ap (λ r. some (r, true)) (sym (last_first-snoc ys y) ∙ ap last_first (sym e)))

module _ (memory : ℕ → Bool) (enough : (n : ℕ) → memory n ≡ true) where
  -- The stack after the functions `fns` onto the functions `xs`.
  abbrev pub After : List ℕ → Option (Option Stack) → Type 0
  After xs r =
      (block : List ℕ) × ((num : ℕ) × ((size : ℕ) × (r ≡ some (some (stack_of block num size)))
          × Holds block num size xs))

  defer_all_lem :
      (block : List ℕ) (num size : ℕ) (xs fns : List ℕ)
      → Holds block num size xs
      → size + cre * length fns < 2 ^ 31
      → After (xs ++ fns) (defer_all memory (some (stack_of block num size)) fns)
  unfolding defer_all defer
  defer_all_lem block num size xs [] h room =
      (block, (num, (size, refl, subst (Holds block num size) (sym (append_nil xs)) h)))
  defer_all_lem block num size xs (fn ∷ fns) h room =
      let (b, (n, (z, p, grown, held))) =
        push_enough memory block num size xs fn h (omega (arith, room)) enough in
      let (b', (n', (z', p', held'))) =
        defer_all_lem b n z (xs ++ fn ∷ []) fns held (omega (arith, room, grown)) in
      (
        b',
        (
          n',
          (
            z',
            rw (defer_all, defer, p) p',
            subst (Holds b' n' z') (append_assoc xs (fn ∷ []) fns) held',
          ),
        ),
      )

  -- A coroutine defers functions `fns`, none of them NULL, and returns, where the memory that it asks
  -- for is there, the stack has fewer than 2 ^ 31 places and PHP can call each of them: no call is
  -- lost, and all of them run, the last one first, and after them the callback of the coroutine.
  pub end_main_lem :
      (calls : ℕ → Bool) (fns : List ℕ) (after : Option ℕ)
      → init_len + cre * length fns < 2 ^ 31
      → All (Callable calls) fns
      → (o : Option Stack) × (defer_all memory none fns ≡ some o)
        × (end_main calls o after ≡ some (last_first fns ++ run_callback after))
  unfolding defer_all defer end_main last_first create
  end_main_lem calls [] after room a = (none, refl, refl)
  end_main_lem calls (fn ∷ fns) after room a =
      let start : List ℕ = replicate init_len 0 in
      let first : defer_all memory none (fn ∷ fns)
          ≡ defer_all memory (some (stack_of start 0 init_len)) (fn ∷ fns) =
        rw (defer_all, defer, create, enough init_len) refl in
      let held : Holds start 0 init_len [] = record {
        whole = refl;
        fits = omega arith;
        small = omega arith;
        same = refl;
      } in
      let (b, (n, (z, p, h))) =
        defer_all_lem start 0 init_len [] (fn ∷ fns) held (omega (arith, room)) in
      let count : n ≡ length (fn ∷ fns) =
        omega (arith, length-take n b, ap length h.same, h.whole, h.fits) in
      let ran = run_deferred_lem calls n b n z (fn ∷ fns) h (sym count) a in
      (some (stack_of b n z), first ∙ p, rw (end_main, ran) refl)
