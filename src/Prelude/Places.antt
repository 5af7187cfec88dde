-- ===== src/Prelude/Places.antt =====
-- Reads and writes at a place of a list, and lists taken apart at their end.
use Prim.Native.Nat.{ℕ, zero, suc, ◌+◌, ◌<◌}
use mathlib.Core.Path.{◌≡◌, refl, ap}
use mathlib.Core.List.{List, [], ◌∷◌, ◌++◌}
use mathlib.Core.Option.{some}
use native.Mathlib.Omega.{arith}
use warrior_man.Prelude.Lists.{length}
use warrior_man.Prelude.Arrays.{get_elem?, set, take}

module _ {ℓ} {A : Type ℓ} where
  pub snoc_of :
      (n : ℕ) (xs : List A)
      → length xs ≡ suc n
      → (ys : List A) × ((y : A) × (xs ≡ ys ++ y ∷ []) × (length ys ≡ n))
  snoc_of n [] h = absurd (omega (arith, h))
  snoc_of zero (x ∷ []) h = ([], (x, refl, refl))
  snoc_of zero (x ∷ y ∷ xs) h = absurd (omega (arith, h))
  snoc_of (suc n) (x ∷ xs) h =
      let (ys, (y, e, l)) = snoc_of n xs (omega (arith, h)) in
      (x ∷ ys, (y, ap (λ t. x ∷ t) e, ap suc l))

  pub take-set_above : (block : List A) (n : ℕ) (x : A) → take n (set block n x) ≡ take n block
  take-set_above [] zero x = refl
  take-set_above [] (suc n) x = refl
  take-set_above (y ∷ ys) zero x = refl
  take-set_above (y ∷ ys) (suc n) x = ap (λ t. y ∷ t) (take-set_above ys n x)

  pub take-set_next :
      (block : List A) (n : ℕ) (x : A)
      → n < length block
      → take (n + 1) (set block n x) ≡ take n block ++ x ∷ []
  take-set_next [] n x h = absurd (omega arith)
  take-set_next (y ∷ ys) zero x h = refl
  take-set_next (y ∷ ys) (suc n) x h =
      let e : suc n + 1 ≡ suc (n + 1) = omega arith in
      rw e (ap (λ t. y ∷ t) (take-set_next ys n x (omega arith)))

  pub get_elem?-middle :
      (xs ys : List A) (x : A) (i : ℕ) → i ≡ length xs → get_elem? (xs ++ x ∷ ys) i ≡ some x
  get_elem?-middle [] ys x i h = rw h refl
  get_elem?-middle (z ∷ xs) ys x zero h = absurd (omega (arith, h))
  get_elem?-middle (z ∷ xs) ys x (suc i) h = get_elem?-middle xs ys x i (omega (arith, h))

  pub set-middle :
      (xs ys : List A) (x v : A) (i : ℕ) → i ≡ length xs → set (xs ++ x ∷ ys) i v ≡ xs ++ v ∷ ys
  set-middle [] ys x v i h = rw h refl
  set-middle (z ∷ xs) ys x v zero h = absurd (omega (arith, h))
  set-middle (z ∷ xs) ys x v (suc i) h = ap (λ t. z ∷ t) (set-middle xs ys x v i (omega (arith, h)))
