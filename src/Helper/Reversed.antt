-- ===== src/Helper/Reversed.antt =====
-- The loop that turns a text round in its place.
use mathlib.Core.List.{reverse, reverse-append, reverse-cons}
use warrior_man.Prelude.{
  ℕ, zero, suc, ◌+◌, ◌-◌, ◌<◌, ◌≡◌, arith, refl, sym, ap, ◌∙◌, true, false, some, List, [], ◌∷◌,
  ◌++◌, length, length-append, ltb, append_assoc, snoc_of, get_elem?, set, get_elem?-middle,
  set-middle,
}
use warrior_man.Helper.{swap, turn_round}

swap_lem :
    (pre mid post : List ℕ) (x y i j : ℕ)
    → i ≡ length pre
    → j ≡ length pre + (1 + length mid)
    → swap (pre ++ x ∷ (mid ++ y ∷ post)) i j ≡ some (pre ++ y ∷ (mid ++ x ∷ post))
swap_lem pre mid post x y i j hi hj =
    let count : (v : ℕ) → j ≡ length (pre ++ v ∷ mid) =
      λ v. omega (arith, length-append pre (v ∷ mid)) in
    let first = get_elem?-middle pre (mid ++ y ∷ post) x i hi in
    let second : get_elem? (pre ++ x ∷ (mid ++ y ∷ post)) j ≡ some y =
      ap (λ t. get_elem? t j) (sym (append_assoc pre (x ∷ mid) (y ∷ post)))
      ∙ get_elem?-middle (pre ++ x ∷ mid) post y j (count x) in
    let third : set (pre ++ y ∷ (mid ++ y ∷ post)) j x ≡ pre ++ y ∷ (mid ++ x ∷ post) =
      ap (λ t. set t j x) (sym (append_assoc pre (y ∷ mid) (y ∷ post)))
      ∙ set-middle (pre ++ y ∷ mid) post y x j (count y)
      ∙ append_assoc pre (y ∷ mid) (x ∷ post) in
    rw (swap, first, second, set-middle pre (mid ++ y ∷ post) x y i hi) (ap some third)

pub turn_round_lem :
    (fuel : ℕ) (pre seg post : List ℕ) (i j : ℕ)
    → i ≡ length pre
    → j + 1 ≡ length pre + length seg
    → length seg < fuel
    → turn_round fuel (pre ++ (seg ++ post)) i j ≡ some (pre ++ (reverse seg ++ post))
unfolding turn_round
turn_round_lem zero pre seg post i j hi hj f = absurd (omega arith)
turn_round_lem (suc fuel) pre [] post i j hi hj f =
    let t : ltb i j ≡ false = ground (arith, hi, hj) in rw (turn_round, t) refl
turn_round_lem (suc fuel) pre (x ∷ []) post i j hi hj f =
    let t : ltb i j ≡ false = ground (arith, hi, hj) in rw (turn_round, t) refl
turn_round_lem (suc fuel) pre (x ∷ z ∷ seg) post i j hi hj f =
    let (mid, (y, e, l)) = snoc_of (length seg) (z ∷ seg) refl in
    let t : ltb i j ≡ true = ground (arith, hi, hj) in
    let shape : pre ++ (x ∷ z ∷ seg ++ post) ≡ pre ++ x ∷ (mid ++ y ∷ post) =
      ap (λ r. pre ++ x ∷ r) (ap (λ r. r ++ post) e ∙ append_assoc mid (y ∷ []) post) in
    let swapped : swap (pre ++ (x ∷ z ∷ seg ++ post)) i j ≡ some (pre ++ y ∷ (mid ++ x ∷ post)) =
      ap (λ b. swap b i j) shape ∙ swap_lem pre mid post x y i j hi (omega (arith, hj, l)) in
    let inner =
      turn_round_lem fuel (pre ++ y ∷ []) mid (x ∷ post) (i + 1) (j - 1)
        (omega (arith, hi, length-append pre (y ∷ [])))
        (omega (arith, hi, hj, l, length-append pre (y ∷ []))) (omega (arith, f, l)) in
    let ends : reverse (x ∷ z ∷ seg) ++ post ≡ y ∷ (reverse mid ++ x ∷ post) =
      ap (λ r. reverse (x ∷ r) ++ post) e
      ∙ ap (λ r. r ++ post)
          (reverse-cons x (mid ++ y ∷ []) ∙ ap (λ r. r ++ x ∷ []) (reverse-append mid (y ∷ [])))
      ∙ append_assoc (y ∷ reverse mid) (x ∷ []) post in
    rw (turn_round, t, swapped)
      (ap (λ b. turn_round fuel b (i + 1) (j - 1))
          (sym (append_assoc pre (y ∷ []) (mid ++ x ∷ post)))
        ∙ inner
        ∙ ap some
            (append_assoc pre (y ∷ []) (reverse mid ++ x ∷ post) ∙ ap (λ r. pre ++ r) (sym ends)))
