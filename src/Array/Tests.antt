-- ===== src/Array/Tests.antt =====
-- An array on small inputs, and its theorems applied to them.
use warrior_man.Prelude.{ltb, ℕ, ◌/◌, ◌≡◌, ◌⊎◌, arith, refl, Bool, some, [], ◌∷◌}
use warrior_man.Array.{Array, add}
use warrior_man.Array.Items.{IsValid}
use warrior_man.Array.Grow.{NoPage, Added, add_lem}

-- Memory for two pages.
abbrev two_pages : ℕ → Bool
two_pages k = ltb k 2

-- One page of two items, both taken.
abbrev one_page : Array
one_page = record {
  pages = (7 ∷ 8 ∷ []) ∷ [];
  page_num = 1;
  page_size = 2;
  item_num = 2;
  offset = 2;
}

one_page-IsValid : IsValid one_page
one_page-IsValid = record {
  counted = refl;
  some_pages = omega arith;
  some_items = omega arith;
  full_pages = (refl, tt);
}

add_lem_example :
    ((a : Array) × (add two_pages one_page 9 ≡ some (a, 2)) × Added two_pages one_page 9 a)
    ⊎ ((1 ≡ 2 / 2)
        × NoPage two_pages one_page
        × (add two_pages one_page 9 ≡ some (record one_page { offset = 3 }, 0)))
add_lem_example = add_lem two_pages one_page 9 one_page-IsValid (omega arith) (omega arith)
