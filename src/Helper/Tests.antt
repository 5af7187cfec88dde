-- ===== src/Helper/Tests.antt =====
-- Numbers written into small buffers, and the theorems on `wm_itoa` applied to them.
use warrior_man.Prelude.{
  ℕ, ◌-◌, ◌^◌, ◌≤◌, ◌≡◌, ◌↔◌, arith, refl, inl, none, some, List, [], ◌∷◌, length, take, get_elem?,
  replicate,
}
use warrior_man.Helper.{itoa, put_digits, turn_round}
use warrior_man.Helper.Printed.{decimal, length-decimal_int, read_long, itoa_lem, ten_bytes}

-- -12 needs a place for the sign, three bytes and the end mark.
minus_twelve : itoa (replicate 5 7) (2 ^ 64 - 12) ≡ some (45 ∷ 49 ∷ 50 ∷ 0 ∷ 7 ∷ [], 3)
unfolding itoa put_digits turn_round
minus_twelve = refl

-- With one digit and no sign, the place for the sign holds the end mark.
no_room : itoa (replicate 3 7) (2 ^ 64 - 12) ≡ none
unfolding itoa put_digits turn_round
no_room = refl

itoa_lem_example :
    (buf' : List ℕ) × (itoa (replicate 21 7) 42 ≡ some (buf', length (decimal 42)))
    × (read_long (take (length (decimal 42)) buf') ≡ 42)
    × (get_elem? buf' (length (decimal 42)) ≡ some 0)
itoa_lem_example =
    itoa_lem 42 (omega arith) (replicate 21 7)
      (omega (arith, length-decimal_int 42 (inl (omega arith))))

ten_bytes_example : (itoa (replicate 10 7) 1000000000 ≡ none) ↔ (10 ^ 9 ≤ 1000000000)
ten_bytes_example = ten_bytes 1000000000 (replicate 10 7) (omega arith) refl
