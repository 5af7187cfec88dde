-- ===== src/Stack/Lifo.antt =====
-- The stack gives back its data, the last one first.
use warrior_man.Prelude.{
  ℕ, suc, ◌+◌, ◌-◌, ◌%◌, ◌^◌, ◌≤◌, ◌<◌, ◌≡◌, ◌⊎◌, inl, inr, arith, refl, sym, ap, subst, ◌∙◌, Bool,
  true, false, Option, none, some, List, [], ◌∷◌, ◌++◌, length, length-append, length-set,
  replicate, get_elem?, set, take, take-append_le, take-set_above, take-set_next, length-take, ltb,
  ltb_of_lt, ◌==◌, Bool-cases, eq_of_==, ne_of_==,
}
use warrior_man.Stack.{Stack, cre, put, put_on_top, push, pop}

-- A stack that has its block.
abbrev pub stack_of : List ℕ → ℕ → ℕ → Stack
stack_of block num size = record { node = some block; num = num; size = size }

-- The block has room for `size` data, and `num` of them are these, the lowest first.
pub record Holds (block : List ℕ) (num size : ℕ) (xs : List ℕ) : Type 0 where
  pub whole : length block ≡ size
  pub fits : num ≤ size
  pub small : size < 2 ^ 31
  pub same : take num block ≡ xs

-- What a push of `x` onto `xs` does.
abbrev pub Pushed : List ℕ → ℕ → Option (Stack × ℕ) → Type 0
Pushed xs x r =
    (block : List ℕ) × (num : ℕ) × (size : ℕ) × (r ≡ some (stack_of block num size, 1))
    × Holds block num size (xs ++ x ∷ [])

put_on_top-eq :
    (block : List ℕ) (num size : ℕ) (xs : List ℕ) (x : ℕ)
    → Holds block num size xs
    → num < size
    → (put_on_top (stack_of block num size) x ≡ some (stack_of (set block num x) (num + 1) size, 1))
      × Holds (set block num x) (num + 1) size (xs ++ x ∷ [])
put_on_top-eq block num size xs x h lt =
    let l : ltb num (length block) ≡ true = ltb_of_lt num (length block) (omega (arith, h.whole)) in
    let n : (num + 1) % 2 ^ 32 ≡ num + 1 = omega (arith, h.small) in
    (
      rw (put_on_top, put, l, n) refl,
      record {
        whole = length-set block num x ∙ h.whole;
        fits = omega arith;
        small = h.small;
        same = take-set_next block num x (omega (arith, h.whole)) ∙ ap (λ t. t ++ x ∷ []) h.same;
      },
    )

put_on_top_lem :
    (block : List ℕ) (num size : ℕ) (xs : List ℕ) (x : ℕ)
    → Holds block num size xs
    → num < size
    → Pushed xs x (put_on_top (stack_of block num size) x)
put_on_top_lem block num size xs x h lt =
    let (p, held) = put_on_top-eq block num size xs x h lt in
    (set block num x, num + 1, size, p, held)

grown-Holds :
    (block : List ℕ) (num size : ℕ) (xs : List ℕ)
    → Holds block num size xs
    → size + cre < 2 ^ 31
    → Holds (block ++ replicate cre 0) num (size + cre) xs
grown-Holds block num size xs h room = record {
  whole = length-append block (replicate cre 0) ∙ ap (λ l. l + cre) h.whole;
  fits = omega (arith, h.fits);
  small = room;
  same = take-append_le num block (replicate cre 0) (omega (arith, h.whole, h.fits)) ∙ h.same;
}

-- A push that has the memory that it needs: the datum is on top, and the stack has grown by `cre` places at most.
pub push_enough :
    (memory : ℕ → Bool) (block : List ℕ) (num size : ℕ) (xs : List ℕ) (x : ℕ)
    → Holds block num size xs
    → size + cre < 2 ^ 31
    → ((n : ℕ) → memory n ≡ true)
    → (block' : List ℕ) × ((num' : ℕ) × ((size' : ℕ) × (push memory (stack_of block num size) x
            ≡ some (stack_of block' num' size', 1))
          × (size' ≤ size + cre)
          × Holds block' num' size' (xs ++ x ∷ [])))
unfolding push
push_enough memory block num size xs x h room m = elim (Bool-cases (num == size)) [
  | inr e ↦
      let lt : num < size = omega (arith, h.fits, ne_of_== num size e) in
      let (p, held) = put_on_top-eq block num size xs x h lt in
      (set block num x, (num + 1, (size, rw (push, e) p, omega arith, held)))
  | inl e ↦
      let eq = eq_of_== num size e in
      let n : (size + cre) % 2 ^ 32 ≡ size + cre = omega arith in
      let (p, held) =
        put_on_top-eq (block ++ replicate cre 0) num (size + cre) xs x
          (grown-Holds block num size xs h room) (omega arith) in
      (
        set (block ++ replicate cre 0) num x,
        (num + 1, (size + cre, rw (push, e, n, m (size + cre)) p, omega arith, held)),
      )
]

-- A push onto a stack of fewer than 2 ^ 31 - 2 places: either the answer is 1 and the datum is on
-- top of those that the stack holds; or a bigger block is needed and cannot be had, the answer is
-- 0, and the stack has lost its block: a pop gives NULL, and the number of data stays.
pub push_lem :
    (memory : ℕ → Bool) (block : List ℕ) (num size : ℕ) (xs : List ℕ) (x : ℕ)
    → Holds block num size xs
    → size + cre < 2 ^ 31
    → Pushed xs x (push memory (stack_of block num size) x)
      ⊎ ((num ≡ size)
          × (memory (size + cre) ≡ false)
          × ((s : Stack) × (push memory (stack_of block num size) x ≡ some (s, 0))
              × (pop s ≡ some (s, 0))
              × (s.num ≡ num)))
unfolding push pop
push_lem memory block num size xs x h room = elim (Bool-cases (num == size)) [
  | inr e ↦
      let lt : num < size = omega (arith, h.fits, ne_of_== num size e) in
      let here : push memory (stack_of block num size) x ≡ put_on_top (stack_of block num size) x =
        rw (push, e) refl in
      inl (subst (Pushed xs x) (sym here) (put_on_top_lem block num size xs x h lt))
  | inl e ↦
      let eq = eq_of_== num size e in
      let n : (size + cre) % 2 ^ 32 ≡ size + cre = omega arith in
      elim (Bool-cases (memory (size + cre))) [
        | inr m ↦ inr (
          eq,
          m,
          (record { node = none; num = num; size = size }, rw (push, e, n, m) refl, refl, refl),
        )
        | inl m ↦
            let g : Stack = stack_of (block ++ replicate cre 0) num (size + cre) in
            let here : push memory (stack_of block num size) x ≡ put_on_top g x =
              rw (push, e, n, m) refl in
            inl (
              subst (Pushed xs x) (sym here) (
                put_on_top_lem (block ++ replicate cre 0) num (size + cre) xs x
                  (grown-Holds block num size xs h room) (omega arith)))
      ]
]

last_of :
    (block xs : List ℕ) (x : ℕ)
    → take (length xs + 1) block ≡ xs ++ x ∷ []
    → (get_elem? block (length xs) ≡ some x) × (take (length xs) block ≡ xs)
last_of [] [] x h = cc
last_of [] (y ∷ xs) x h =
    let e : suc (length xs) + 1 ≡ suc (length xs + 1) = omega arith in
    let n : [] ≡ y ∷ (xs ++ x ∷ []) = subst (λ k. take k [] ≡ y ∷ (xs ++ x ∷ [])) e h in cc
last_of (z ∷ block) [] x h = (cc, refl)
last_of (z ∷ block) (y ∷ xs) x h =
    let e : suc (length xs) + 1 ≡ suc (length xs + 1) = omega arith in
    let n : z ∷ take (length xs + 1) block ≡ y ∷ (xs ++ x ∷ []) =
      subst (λ k. take k (z ∷ block) ≡ y ∷ (xs ++ x ∷ [])) e h in
    let t : take (length xs + 1) block ≡ xs ++ x ∷ [] = cc in
    let r = last_of block xs x t in let same : z ≡ y = cc in (r.0, rw same (ap (λ t. y ∷ t) r.1))

-- A pop from a stack that holds data gives the last one, and the others stay.
pub pop_last :
    (block : List ℕ) (num size : ℕ) (xs : List ℕ) (x : ℕ)
    → Holds block num size (xs ++ x ∷ [])
    → (block' : List ℕ) × (num' : ℕ) × (pop (stack_of block num size)
        ≡ some (stack_of block' num' size, x))
      × Holds block' num' size xs
unfolding pop
pop_last block num size xs x h =
    let count : num ≡ length xs + 1 = omega (
      arith,
      length-take num block,
      ap length h.same,
      length-append xs (x ∷ []),
      h.whole,
      h.fits,
    ) in
    let z : (num == 0) ≡ false = ground (arith, count) in
    let less : num - 1 ≡ length xs = omega (arith, count) in
    let below : take (length xs + 1) block ≡ xs ++ x ∷ [] =
      ap (λ n. take n block) (sym count) ∙ h.same in
    let found = last_of block xs x below in
    let here : get_elem? block (num - 1) ≡ some x = ap (get_elem? block) less ∙ found.0 in
    (
      set block (num - 1) 0,
      num - 1,
      rw (pop, z, here) refl,
      record {
        whole = length-set block (num - 1) 0 ∙ h.whole;
        fits = omega (arith, count, h.fits);
        small = h.small;
        same = take-set_above block (num - 1) 0 ∙ ap (λ n. take n block) less ∙ found.1;
      },
    )
