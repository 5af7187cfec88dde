-- ===== src/Queue/Laws.antt =====
-- The counter of a queue counts its items, and the operations are those of a list.
use warrior_man.Prelude.{
  ℕ, suc, ◌+◌, ◌-◌, ◌%◌, ◌^◌, ◌<◌, ◌≡◌, inl, inr, arith, refl, ap, false, List, [], ◌∷◌, length,
  length-append, ◌==◌, Bool-cases, eq_of_==,
}
use warrior_man.Queue.{Queue, push, pop, remove_all, clear}

-- The counter is right, as a `uint32_t`, and the allocator leaves the datum of a node in its place when the node
-- is freed, until the memory is given out again.
pub record IsCounted (q : Queue) : Type 0 where
  pub num-length : q.num ≡ length q.items
  pub num_u32 : q.num < 2 ^ 32
  pub stays : (d : ℕ) → q.after_free d ≡ d

-- A counted queue with room in its counter takes a datum behind the others and stays counted.
pub push-IsCounted : (q : Queue) (x : ℕ) → IsCounted q → q.num + 1 < 2 ^ 32 → IsCounted (push q x)
unfolding push
push-IsCounted q x c h = record {
  num-length = omega (arith, c.num-length, length-append q.items (x ∷ []));
  num_u32 = omega arith;
  stays = c.stays;
}

nonempty : (q : Queue) (x : ℕ) (xs : List ℕ) → IsCounted q → q.items ≡ x ∷ xs → (q.num == 0) ≡ false
nonempty q x xs c e =
    let l : length q.items ≡ suc (length xs) = ap length e in
    let p : 0 < q.num = omega (arith, c.num-length) in ground arith

-- A counted queue gives its oldest datum, keeps the others in order, and stays counted.
pub pop_lem :
    (q : Queue) (x : ℕ) (xs : List ℕ)
    → IsCounted q
    → q.items ≡ x ∷ xs
    → let (q', datum) = pop q in (datum ≡ x) × (q'.items ≡ xs) × (q'.num + 1 ≡ q.num) × IsCounted q'
unfolding pop
pop_lem q x xs c e =
    let l : length q.items ≡ suc (length xs) = ap length e in
    let less : (q.num + 2 ^ 32 - 1) % 2 ^ 32 ≡ length xs = omega (arith, c.num-length, c.num_u32) in
    rw (e, nonempty q x xs c e, less)
      (
        c.stays x,
        refl,
        omega (arith, c.num-length),
        record {
          num-length = refl;
          num_u32 = omega (arith, c.num-length, c.num_u32);
          stays = c.stays;
        },
      )

-- An empty queue gives NULL and stays as it is.
pub pop-nil : (q : Queue) → q.items ≡ [] → pop q ≡ (q, 0)
unfolding pop
pop-nil q e = rw e refl

remove_all_lem : (xs : List ℕ) → remove_all xs ≡ []
unfolding remove_all
remove_all_lem [] = refl
remove_all_lem (x ∷ xs) = remove_all_lem xs

length-zero : (xs : List ℕ) → length xs ≡ 0 → xs ≡ []
length-zero [] h = refl
length-zero (x ∷ xs) h = absurd (omega arith)

-- A counted queue is empty after it is cleared, and counts 0.
pub clear-nil : (q : Queue) → IsCounted q → ((clear q).items ≡ []) × ((clear q).num ≡ 0)
unfolding clear
clear-nil q c = elim (Bool-cases (q.num == 0)) [
  | inl e ↦
      let z = eq_of_== q.num 0 e in rw e (length-zero q.items (omega (arith, c.num-length)), z)
  | inr e ↦ rw e (remove_all_lem q.items, refl)
]
