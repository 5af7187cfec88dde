-- ===== src/Array/Grow.antt =====
-- Adding items and pages to an array.
use warrior_man.Prelude.{
  ℕ, ◌+◌, ◌/◌, ◌%◌, ◌^◌, ◌≤◌, ◌<◌, ◌≡◌, ◌≢◌, ◌⊎◌, inl, inr, arith, refl, ◌∙◌, Bool, true, false,
  some, [], ◌∷◌, ◌++◌, All-snoc, length, length-append, length-replicate, replicate,
  get_elem?-append_left, leb, ◌==◌, Bool-cases, lt_of_leb, le_of_leb, eq_of_==, ne_of_==, ltb_of_lt,
}
use warrior_man.Array.{Array, page_max, put_last, extend, add}
use warrior_man.Array.Items.{IsValid, item, store_lem}

-- One page more, with items of 0.
abbrev pub with_page : Array → Array
with_page a = record a {
  pages = a.pages ++ replicate a.page_size 0 ∷ [];
  page_num = a.page_num + 1;
}

abbrev pub counted_as : Array → ℕ → ℕ → Array
counted_as a item_num offset = record a { item_num = item_num; offset = offset }

counted_as-IsValid : (a : Array) (k n : ℕ) → IsValid a → IsValid (counted_as a k n)
counted_as-IsValid a k n v = record {
  counted = v.counted;
  some_pages = v.some_pages;
  some_items = v.some_items;
  full_pages = v.full_pages;
}

pub with_page-IsValid : (a : Array) → IsValid a → a.page_num < page_max → IsValid (with_page a)
with_page-IsValid a v h = record {
  counted = omega (arith, v.counted, length-append a.pages (replicate a.page_size 0 ∷ []));
  some_pages = omega arith;
  some_items = v.some_items;
  full_pages =
      All-snoc (λ page. length page ≡ a.page_size) a.pages (replicate a.page_size 0) v.full_pages
        (length-replicate a.page_size 0);
}

pub item-with_page :
    (a : Array) (m : ℕ) → IsValid a → m / a.page_size < a.page_num → item (with_page a) m ≡ item a m
unfolding item
item-with_page a m v h =
    rw
      (
        item,
        get_elem?-append_left a.pages (replicate a.page_size 0 ∷ []) (m / a.page_size)
            (omega (arith, v.counted)),
      )
      refl

module _ (memory : ℕ → Bool) where
  -- A page cannot be had: the table is full, or the memory out.
  abbrev pub NoPage : Array → Type 0
  NoPage a = (a.page_num ≡ page_max) ⊎ (memory a.page_num ≡ false)

  pub extend_lem :
      (a : Array)
      → IsValid a
      → ((a.page_num < page_max) × (extend memory a ≡ (with_page a, true)))
        ⊎ (NoPage a × (extend memory a ≡ (a, false)))
  unfolding extend
  extend_lem a v = elim (Bool-cases (a.page_num == page_max)) [
    | inl e ↦ inr (inl (eq_of_== a.page_num page_max e), rw e refl)
    | inr e ↦ elim (Bool-cases (memory a.page_num)) [
      | inl m ↦
          let lt : a.page_num < page_max =
            omega (arith, v.some_pages, ne_of_== a.page_num page_max e) in
          let small : (a.page_num + 1) % 2 ^ 16 ≡ a.page_num + 1 = omega arith in
          inl (lt, rw (e, m, small) refl)
      | inr m ↦ inr (inr m, rw (e, m) refl)
    ]
  ]

  -- The outcome of an addition that succeeds.
  pub record Added (a : Array) (value : ℕ) (a' : Array) : Type 0 where
    pub valid : IsValid a'
    pub next : a'.offset ≡ a.offset + 1
    pub there : item a' a.offset ≡ some value
    pub others : (m : ℕ) → m ≢ a.offset → m / a.page_size < a.page_num → item a' m ≡ item a m

  add_to :
      (a b : Array) (value : ℕ)
      → IsValid b
      → b.page_size ≡ a.page_size
      → b.offset ≡ a.offset + 1
      → a.offset / a.page_size < b.page_num
      → ((m : ℕ) → m / a.page_size < a.page_num → item b m ≡ item a m)
      → (a' : Array) × (put_last b a.offset value ≡ some (a', a.offset)) × Added a value a'
  unfolding put_last item
  add_to a b value v size next h keeps =
      let b₁ : Array = counted_as b ((b.item_num + 1) % 2 ^ 32) b.offset in
      let (a', s, k) =
        store_lem b₁ a.offset value (counted_as-IsValid b ((b.item_num + 1) % 2 ^ 32) b.offset v)
          (rw size h) in
      (
        a',
        rw (put_last, s) refl,
        record {
          valid = k.valid;
          next = k.same_offset ∙ next;
          there = k.there;
          others = λ m ne l. k.others m ne ∙ keeps m l;
        },
      )

  -- An addition to a valid array, whose next index is below 2 ^ 31 and no further than the page after
  -- the last. Either it answers the next index, the array stays valid, the item is there, and the
  -- items of the pages before stay; or no page can be had where one is needed, the answer is 0, which
  -- is an index too, and the next index has moved on all the same.
  pub add_lem :
      (a : Array) (value : ℕ)
      → IsValid a
      → a.offset < 2 ^ 31
      → a.offset / a.page_size ≤ a.page_num
      → ((a' : Array) × (add memory a value ≡ some (a', a.offset)) × Added a value a')
        ⊎ ((a.page_num ≡ a.offset / a.page_size)
            × NoPage a
            × (add memory a value ≡ some (record a { offset = a.offset + 1 }, 0)))
  unfolding add item
  add_lem a value v small near =
      let e : (a.offset + 1) % 2 ^ 32 ≡ a.offset + 1 = omega arith in
      let l = ltb_of_lt a.offset (2 ^ 31) small in
      let a₁ : Array = counted_as a a.item_num (a.offset + 1) in
      let v₁ : IsValid a₁ = counted_as-IsValid a a.item_num (a.offset + 1) v in
      elim (Bool-cases (leb a.page_num (a.offset / a.page_size))) [
        | inr here ↦
            let (a', s, k) =
              add_to a a₁ value v₁ refl refl (lt_of_leb a.page_num (a.offset / a.page_size) here)
                (λ m h. refl) in
            inl (a', rw (e, l, here, s) refl, k)
        | inl beyond ↦
            let last : a.page_num ≡ a.offset / a.page_size =
              omega (arith, le_of_leb a.page_num (a.offset / a.page_size) beyond) in
            elim (extend_lem a₁ v₁) [
              | inr (np, x) ↦ inr (last, np, rw (e, l, beyond, x) refl)
              | inl (lt, x) ↦
                  let (a', s, k) =
                    add_to a (with_page a₁) value (with_page-IsValid a₁ v₁ lt) refl refl
                      (omega (arith, last)) (λ m h. item-with_page a m v h) in
                  inl (a', rw (e, l, beyond, x, s) refl, k)
            ]
      ]
