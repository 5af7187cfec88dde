-- ===== src/Array.antt =====
-- The paged array of src/core/array.c and include/array.h.
--
-- An item is a number, and `pages` gives the pages that are allocated, each with `page_size` items.
-- `memory k` says whether the allocation of page `k` succeeds. `none` is a use of memory outside the
-- pages, or a division by zero.
mod Items
mod Grow
mod Alloc
mod Tests
use warrior_man.Prelude.{
  ℕ, zero, suc, ◌+◌, ◌*◌, ◌/◌, ◌%◌, ◌^◌, Bool, true, false, Option, none, some, List, [], ◌∷◌, ◌++◌,
  replicate, get_elem?, set, ltb, leb, ◌==◌, if◌then◌else◌,
}

-- `WM_ARRAY_PAGE_MAX`
abbrev pub page_max : ℕ
page_max = 1024

-- `wmArray`
pub record Array : Type 0 where
  pub pages : List (List ℕ)
  pub page_num : ℕ
  pub page_size : ℕ
  pub item_num : ℕ
  pub offset : ℕ

-- `memcpy` to the place of an index, in the page and at the offset that the two macros give.
abbrev pub store : Array → ℕ → ℕ → Option Array
store a n item = elim (get_elem? a.pages (n / a.page_size)) [
  | none ↦ none
  | some page ↦
      let page' = set page (n % a.page_size) item in
      some (record a { pages = set a.pages (n / a.page_size) page' })
]

-- The end of `wmArray_add`: the item is counted and stored.
pub put_last : Array → ℕ → ℕ → Option (Array × ℕ)
put_last a n item = elim (store (record a { item_num = (a.item_num + 1) % 2 ^ 32 }) n item) [
  | none ↦ none
  | some a' ↦ some (a', n)
]

module _ (memory : ℕ → Bool) where
  -- `wmArray_extend`
  pub extend : Array → Array × Bool
  extend a =
      let grown = record a {
        pages = a.pages ++ replicate a.page_size 0 ∷ [];
        page_num = (a.page_num + 1) % 2 ^ 16;
      } in
      if a.page_num == page_max
      then (a, false)
      else if memory a.page_num
      then (grown, true)
      else (a, false)

  -- `wmArray_new`, once it has the memory for the array and its table of pages. It ignores the answer
  -- of `wmArray_extend`.
  pub new : ℕ → Array
  new page_size =
      (extend (record {
        pages = [];
        page_num = 0;
        page_size = page_size % 2 ^ 16;
        item_num = 0;
        offset = 0;
      })).0

  -- `wmArray_add`, whose `int n` must not be negative; the answer `false` is 0.
  pub add : Array → ℕ → Option (Array × ℕ)
  add a item =
      let n = a.offset in
      let a₁ = record a { offset = (a.offset + 1) % 2 ^ 32 } in
      let (a₂, ok) = if leb a.page_num (n / a.page_size) then extend a₁ else (a₁, true) in
      let stored = put_last a₂ n item in
      if ltb n (2 ^ 31) then (if ok then stored else some (a₂, 0)) else none

  -- `while (n >= array->page_num * array->page_size)`; the answer is false where a page cannot be had.
  -- Each round adds a page, so one round more than the pages there can be is fuel enough.
  pub grow : ℕ → Array → ℕ → Option (Array × Bool)
  grow zero a n = none
  grow (suc fuel) a n =
      let (a', ok) = extend a in
      let rest = grow fuel a' n in
      if leb (a.page_num * a.page_size) n
      then (if ok then rest else some (a', false))
      else some (a, true)

  -- `wmArray_alloc`: the array, and the page and the offset of the place, or `none` for NULL.
  pub alloc : Array → ℕ → Option (Array × Option (ℕ × ℕ))
  alloc a n = elim (grow (suc page_max) a n) [
    | none ↦ none
    | some (a', false) ↦ some (a', none)
    | some (a', true) ↦ some (
      a',
      if leb a'.page_num (n / a'.page_size)
          then none
          else some (n / a'.page_size, n % a'.page_size),
    )
  ]

-- `wmArray_find`: the page and the offset of the place, or `none` for NULL.
pub find : Array → ℕ → Option (ℕ × ℕ)
find a n =
    if leb a.page_num (n / a.page_size) then none else some (n / a.page_size, n % a.page_size)

-- `wmArray_set`
pub set_item : Array → ℕ → ℕ → Option (Array × Bool)
set_item a n item =
    let stored : Option (Array × Bool) = elim (store a n item) [
      | none ↦ none
      | some a' ↦ some (a', true)
    ] in
    if leb a.page_num (n / a.page_size) then some (a, false) else stored

-- `wmArray_clear`
pub clear : Array → Array
clear a = record a { offset = 0; item_num = 0 }
