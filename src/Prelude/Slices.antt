-- ===== src/Prelude/Slices.antt =====
-- Parts of arrays, and a copy into an array.
use Prim.Native.Nat.{ℕ, zero, suc, ◌+◌, ◌≤◌}
use mathlib.Core.Path.{sym, ◌≡◌, refl, ap, ◌∙◌}
use mathlib.Core.List.{List, [], ◌∷◌, ◌++◌}
use native.Mathlib.Omega.{arith}
use warrior_man.Prelude.Lists.{length, length-append}
use warrior_man.Prelude.Arrays.{take, drop, length-take, length-drop}

module _ {ℓ} {A : Type ℓ} where
  pub append_nil : (xs : List A) → xs ++ [] ≡ xs
  append_nil [] = refl
  append_nil (x ∷ xs) = ap (λ ys. x ∷ ys) (append_nil xs)

  pub append_assoc : (xs ys zs : List A) → (xs ++ ys) ++ zs ≡ xs ++ (ys ++ zs)
  append_assoc [] ys zs = refl
  append_assoc (x ∷ xs) ys zs = ap (λ t. x ∷ t) (append_assoc xs ys zs)

  pub take-append : (k : ℕ) (xs ys : List A) → take (length xs + k) (xs ++ ys) ≡ xs ++ take k ys
  take-append k [] ys = let e : 0 + k ≡ k = omega arith in rw e refl
  take-append k (x ∷ xs) ys =
      let e : suc (length xs) + k ≡ suc (length xs + k) = omega arith in
      rw e (ap (λ t. x ∷ t) (take-append k xs ys))

  pub take-append_le : (n : ℕ) (xs ys : List A) → n ≤ length xs → take n (xs ++ ys) ≡ take n xs
  take-append_le zero xs ys h = refl
  take-append_le (suc n) [] ys h = absurd (omega arith)
  take-append_le (suc n) (x ∷ xs) ys h = ap (λ t. x ∷ t) (take-append_le n xs ys (omega arith))

  pub take-length : (xs : List A) → take (length xs) xs ≡ xs
  take-length [] = refl
  take-length (x ∷ xs) = ap (λ t. x ∷ t) (take-length xs)

  pub take-take : (m n : ℕ) (xs : List A) → m ≤ n → take m (take n xs) ≡ take m xs
  take-take zero n xs h = refl
  take-take (suc m) zero xs h = absurd (omega arith)
  take-take (suc m) (suc n) [] h = refl
  take-take (suc m) (suc n) (x ∷ xs) h = ap (λ t. x ∷ t) (take-take m n xs (omega arith))

  abbrev nil : List A
  nil = []

  take-nil : (k : ℕ) → take k (nil) ≡ []
  take-nil zero = refl
  take-nil (suc k) = refl

  pub take-drop : (k n : ℕ) (xs : List A) → take k (drop n xs) ≡ drop n (take (n + k) xs)
  take-drop k zero xs = let e : 0 + k ≡ k = omega arith in rw e refl
  take-drop k (suc n) [] = let e : suc n + k ≡ suc (n + k) = omega arith in rw e (take-nil k)
  take-drop k (suc n) (x ∷ xs) =
      let e : suc n + k ≡ suc (n + k) = omega arith in rw e (take-drop k n xs)

  -- `src` copied over the elements from the index `off` on.
  abbrev pub splice : List A → ℕ → List A → List A
  splice buf off src = take off buf ++ (src ++ drop (off + length src) buf)

  pub length-splice :
      (buf : List A) (off : ℕ) (src : List A)
      → off + length src ≤ length buf
      → length (splice buf off src) ≡ length buf
  length-splice buf off src h =
      let e : length (take off buf ++ (src ++ drop (off + length src) buf)) ≡ length buf = omega (
        arith,
        length-append (take off buf) (src ++ drop (off + length src) buf),
        length-append src (drop (off + length src) buf),
        length-take off buf,
        length-drop (off + length src) buf,
      ) in
      e

  pub take-splice_before :
      (k : ℕ) (buf : List A) (off : ℕ) (src : List A)
      → k ≤ off
      → off ≤ length buf
      → take k (splice buf off src) ≡ take k buf
  take-splice_before k buf off src hk ho =
      take-append_le k (take off buf) (src ++ drop (off + length src) buf)
        (omega (arith, length-take off buf))
      ∙ take-take k off buf hk

  pub take-splice_after :
      (k : ℕ) (buf : List A) (off : ℕ) (src : List A)
      → off ≤ length buf
      → take (off + (length src + k)) (splice buf off src)
        ≡ take off buf ++ (src ++ take k (drop (off + length src) buf))
  take-splice_after k buf off src ho =
      let e : off + (length src + k) ≡ length (take off buf) + (length src + k) =
        omega (arith, length-take off buf) in
      ap (λ n. take n (splice buf off src)) e
      ∙ take-append (length src + k) (take off buf) (src ++ drop (off + length src) buf)
      ∙ ap (λ t. take off buf ++ t) (take-append k src (drop (off + length src) buf))

  pub take-splice :
      (buf : List A) (off : ℕ) (src : List A)
      → off ≤ length buf
      → take (off + length src) (splice buf off src) ≡ take off buf ++ src
  take-splice buf off src ho =
      let e : length src ≡ length src + 0 = omega arith in
      ap (λ n. take (off + n) (splice buf off src)) e
      ∙ take-splice_after 0 buf off src ho
      ∙ ap (λ t. take off buf ++ t) (append_nil src)

  drop-nil : (k : ℕ) → drop {A = A} k [] ≡ []
  drop-nil zero = refl
  drop-nil (suc k) = refl

  pub drop-drop : (n k : ℕ) (xs : List A) → drop (n + k) xs ≡ drop k (drop n xs)
  drop-drop zero k xs = let e : 0 + k ≡ k = omega arith in rw e refl
  drop-drop (suc n) k [] = let e : suc n + k ≡ suc (n + k) = omega arith in rw e (sym (drop-nil k))
  drop-drop (suc n) k (x ∷ xs) =
      let e : suc n + k ≡ suc (n + k) = omega arith in rw e (drop-drop n k xs)

  pub drop-append_le :
      (n : ℕ) (xs ys : List A) → n ≤ length xs → drop n (xs ++ ys) ≡ drop n xs ++ ys
  drop-append_le zero xs ys h = refl
  drop-append_le (suc n) [] ys h = absurd (omega arith)
  drop-append_le (suc n) (x ∷ xs) ys h = drop-append_le n xs ys (omega arith)

  pub take_and_drop : (n : ℕ) (xs : List A) → take n xs ++ drop n xs ≡ xs
  take_and_drop zero xs = refl
  take_and_drop (suc n) [] = refl
  take_and_drop (suc n) (x ∷ xs) = ap (λ t. x ∷ t) (take_and_drop n xs)

  pub drop_all : (n : ℕ) (xs : List A) → length xs ≤ n → drop n xs ≡ []
  drop_all zero [] h = refl
  drop_all zero (x ∷ xs) h = absurd (omega arith)
  drop_all (suc n) [] h = refl
  drop_all (suc n) (x ∷ xs) h = drop_all n xs (omega arith)
