-- ===== src/Array/Alloc.antt =====
-- `wmArray_alloc`: pages until an index has its place.
use warrior_man.Prelude.{
  ℕ, zero, suc, ◌+◌, ◌*◌, ◌/◌, ◌%◌, ◌≤◌, ◌<◌, ◌≡◌, ◌⊎◌, inl, inr, arith, refl, subst, ◌∙◌, Bool,
  true, false, none, some, leb, Bool-cases, lt_of_leb,
}
use warrior_man.Array.{Array, page_max, grow, alloc}
use warrior_man.Array.Items.{IsValid, item}
use warrior_man.Array.Grow.{with_page, with_page-IsValid, item-with_page, NoPage, extend_lem}

-- More pages, with the items that were there.
pub record Grown (a a' : Array) : Type 0 where
  pub valid : IsValid a'
  pub same_size : a'.page_size ≡ a.page_size
  pub more : a.page_num ≤ a'.page_num
  pub keeps : (m : ℕ) → m / a.page_size < a.page_num → item a' m ≡ item a m

place_exists : (n k w : ℕ) → 0 < w → n < k * w → n / w < k
place_exists n k w hw h = grind arith

module _ (memory : ℕ → Bool) where
  grow_lem :
      (fuel : ℕ) (a : Array) (n : ℕ)
      → IsValid a
      → page_max < fuel + a.page_num
      → (a' : Array) × Grown a a'
        × (((grow memory fuel a n ≡ some (a', true)) × (n < a'.page_num * a'.page_size))
            ⊎ ((grow memory fuel a n ≡ some (a', false)) × NoPage memory a'))
  unfolding grow
  grow_lem zero a n v h = absurd (omega (arith, v.some_pages))
  grow_lem (suc fuel) a n v h = elim (Bool-cases (leb (a.page_num * a.page_size) n)) [
    | inr e ↦ (
      a,
      record { valid = v; same_size = refl; more = omega arith; keeps = λ m l. refl },
      inl (rw (grow, e) refl, lt_of_leb (a.page_num * a.page_size) n e),
    )
    | inl e ↦ elim (extend_lem memory a v) [
      | inr (np, x) ↦ (
        a,
        record { valid = v; same_size = refl; more = omega arith; keeps = λ m l. refl },
        inr (rw (grow, e, x) refl, np),
      )
      | inl (lt, x) ↦
          let (a', g, r) = grow_lem fuel (with_page a) n (with_page-IsValid a v lt) (omega arith) in
          let here : grow memory (suc fuel) a n ≡ grow memory fuel (with_page a) n =
            rw (grow, e, x) refl in
          (
            a',
            record {
              valid = g.valid;
              same_size = g.same_size;
              more = omega (arith, g.more);
              keeps = λ m l. g.keeps m (omega arith) ∙ item-with_page a m v l;
            },
            elim r [ inl (s, l) ↦ inl (here ∙ s, l) | inr (s, np) ↦ inr (here ∙ s, np) ],
          )
    ]
  ]

  -- A place asked of a valid array: the search ends, the pages that it adds leave the array valid and
  -- every item as it was, and the answer is the place of the index in an allocated page, or NULL if no
  -- further page could be had.
  pub alloc_place :
      (a : Array) (n : ℕ)
      → IsValid a
      → (a' : Array) × Grown a a'
        × (((alloc memory a n ≡ some (a', some (n / a.page_size, n % a.page_size)))
              × (n / a.page_size < a'.page_num))
            ⊎ ((alloc memory a n ≡ some (a', none)) × NoPage memory a'))
  unfolding alloc
  alloc_place a n v =
      let (a', g, r) = grow_lem (suc page_max) a n v (omega arith) in
      (
        a',
        g,
        elim r [
          | inl (s, l) ↦
              let p : n / a.page_size < a'.page_num =
                place_exists n a'.page_num a.page_size v.some_items
                  (subst (λ w. n < a'.page_num * w) g.same_size l) in
              let e : leb a'.page_num (n / a.page_size) ≡ false = ground (arith, p) in
              inl (rw (alloc, s, g.same_size, e) refl, p)
          | inr (s, np) ↦ inr (rw (alloc, s) refl, np)
        ],
      )
