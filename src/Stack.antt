-- ===== src/Stack.antt =====
-- The growing stack of include/stack.h.
--
-- `node` is the block of data, or `none` for NULL; a datum of 0 is NULL. `memory n` says whether the
-- block can be had with `n` places. `none` of an operation is an access outside the block.
pub mod Lifo
mod Tests
use warrior_man.Prelude.{
  ℕ, zero, suc, ◌+◌, ◌-◌, ◌%◌, ◌^◌, Bool, true, false, Option, none, some, List, [], ◌∷◌, ◌++◌,
  replicate, length, get_elem?, set, ltb, ◌==◌, if◌then◌else◌,
}

abbrev pub init_len : ℕ
init_len = 10

abbrev pub cre : ℕ
cre = 2

-- `wmStack`
pub record Stack : Type 0 where
  pub node : Option (List ℕ)
  pub num : ℕ
  pub size : ℕ

-- `stack->node[i].data = datum`
abbrev pub put : Stack → ℕ → ℕ → Option Stack
put s i datum = elim s.node [
  | none ↦ none
  | some block ↦
      if ltb i (length block) then some (record s { node = some (set block i datum) }) else none
]

-- The end of `wmStack_push`.
abbrev pub put_on_top : Stack → ℕ → Option (Stack × ℕ)
put_on_top s datum = elim (put s s.num datum) [
  | none ↦ none
  | some s' ↦ some (record s' { num = (s'.num + 1) % 2 ^ 32 }, 1)
]

module _ (memory : ℕ → Bool) where
  -- `wmStack_create`, once it has the memory for the stack itself; `none` is NULL.
  unfoldable pub create : Option Stack
  create =
      if memory init_len
      then some (record { node = some (replicate init_len 0); num = 0; size = init_len })
      else none

  -- `wmStack_push` of a stack that is not NULL, with its answer.
  unfoldable pub push : Stack → ℕ → Option (Stack × ℕ)
  push s datum = elim s.node [
    | none ↦ some (s, 0)
    | some block ↦
        let size' = (s.size + cre) % 2 ^ 32 in
        let grown : Stack = record s { node = some (block ++ replicate cre 0); size = size' } in
        let lost : Stack = record s { node = none } in
        if s.num == s.size
        then (if memory size' then put_on_top grown datum else some (lost, 0))
        else put_on_top s datum
  ]

-- `wmStack_pop` of a stack that is not NULL: the stack and the datum, or NULL.
unfoldable pub pop : Stack → Option (Stack × ℕ)
pop s = elim s.node [
  | none ↦ some (s, 0)
  | some block ↦
      let popped : Option (Stack × ℕ) = elim (get_elem? block (s.num - 1)) [
        | none ↦ none
        | some datum ↦
            some (record s { node = some (set block (s.num - 1) 0); num = s.num - 1 }, datum)
      ] in
      if s.num == 0 then some (s, 0) else popped
]

-- `wmStack_clear`: the places below `n` are set to NULL, from the top down.
pub wipe : ℕ → List ℕ → List ℕ
wipe zero block = block
wipe (suc n) block = wipe n (set block n 0)

pub clear : Stack → Stack
clear s = elim s.node [
  | none ↦ s
  | some block ↦ record s { node = some (wipe s.num block); num = 0 }
]
