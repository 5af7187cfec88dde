-- ===== src/Array/Items.antt =====
-- The items of an array by their index: what a write changes and what it leaves.
use warrior_man.Prelude.{
  ℕ, zero, suc, ◌/◌, ◌%◌, ◌≤◌, ◌<◌, ◌≡◌, ◌≢◌, ◌⊎◌, inl, inr, arith, refl, sym, subst, ◌∙◌, true,
  false, Option, none, some, List, [], ◌∷◌, All, length, length-set, get_elem?, set,
  get_elem?-set_self, get_elem?-set_ne, leb, ◌==◌, Bool-cases, lt_of_leb, le_of_leb, eq_of_==,
  ne_of_==,
}
use native.Mathlib.Nat.{mod-lt}
use warrior_man.Array.{Array, page_max, store, set_item}

-- The pages are those counted, `page_max` at most, and each has `page_size` items, one at least.
pub record IsValid (a : Array) : Type 0 where
  pub counted : length a.pages ≡ a.page_num
  pub some_pages : a.page_num ≤ page_max
  pub some_items : 0 < a.page_size
  pub full_pages : All (λ page. length page ≡ a.page_size) a.pages

-- The item with an index, if its page is allocated.
unfoldable pub item : Array → ℕ → Option ℕ
item a n = elim (get_elem? a.pages (n / a.page_size)) [
  | none ↦ none
  | some page ↦ get_elem? page (n % a.page_size)
]

pub get_elem?-some :
    {A : Type 0} (xs : List A) (i : ℕ) → i < length xs → (x : A) × (get_elem? xs i ≡ some x)
get_elem?-some [] i h = absurd (omega arith)
get_elem?-some (x ∷ xs) zero h = (x, refl)
get_elem?-some (x ∷ xs) (suc i) h = get_elem?-some xs i (omega arith)

pub All-get_elem? :
    {A : Type 0} (P : A → Type 0) (xs : List A) (i : ℕ) (x : A)
    → All P xs
    → get_elem? xs i ≡ some x
    → P x
All-get_elem? P [] i x h e = cc
All-get_elem? P (y ∷ xs) zero x h e = let s : y ≡ x = cc in subst P s h.0
All-get_elem? P (y ∷ xs) (suc i) x h e = All-get_elem? P xs i x h.1 e

All-set :
    {A : Type 0} (P : A → Type 0) (xs : List A) (i : ℕ) (x : A)
    → All P xs
    → P x
    → All P (set xs i x)
All-set P [] i x h p = tt
All-set P (y ∷ xs) zero x h p = (p, h.1)
All-set P (y ∷ xs) (suc i) x h p = (h.0, All-set P xs i x h.1 p)

apart : (m n w : ℕ) → 0 < w → m ≢ n → m / w ≡ n / w → m % w ≢ n % w
apart m n w h ne q r = grind arith

-- An index within the pages: the write succeeds, the array stays valid with the same sizes, the item
-- is there, and every other index has what it had.
pub record Stored (a : Array) (n value : ℕ) (a' : Array) : Type 0 where
  pub valid : IsValid a'
  pub same_pages : a'.page_num ≡ a.page_num
  pub same_size : a'.page_size ≡ a.page_size
  pub same_offset : a'.offset ≡ a.offset
  pub there : item a' n ≡ some value
  pub others : (m : ℕ) → m ≢ n → item a' m ≡ item a m

store_page :
    (a : Array) (n value : ℕ) (page : List ℕ)
    → IsValid a
    → n / a.page_size < a.page_num
    → get_elem? a.pages (n / a.page_size) ≡ some page
    → (a' : Array) × (store a n value ≡ some a') × Stored a n value a'
unfolding item
store_page a n value page v h e =
    let size : length page ≡ a.page_size =
      All-get_elem? (λ p. length p ≡ a.page_size) a.pages (n / a.page_size) page v.full_pages e in
    let page' : List ℕ = set page (n % a.page_size) value in
    let size' : length page' ≡ a.page_size = length-set page (n % a.page_size) value ∙ size in
    let back : get_elem? (set a.pages (n / a.page_size) page') (n / a.page_size) ≡ some page' =
      get_elem?-set_self a.pages (n / a.page_size) page' (omega (arith, v.counted)) in
    (
      record a { pages = set a.pages (n / a.page_size) page' },
      rw (store, e) refl,
      record {
        valid = record {
          counted = length-set a.pages (n / a.page_size) page' ∙ v.counted;
          some_pages = v.some_pages;
          some_items = v.some_items;
          full_pages =
              All-set (λ p. length p ≡ a.page_size) a.pages (n / a.page_size) page' v.full_pages
                size';
        };
        same_pages = refl;
        same_size = refl;
        same_offset = refl;
        there =
            rw (item, back)
              (get_elem?-set_self page (n % a.page_size) value
                (omega (arith, size, mod-lt n v.some_items)));
        others = λ m ne. elim (Bool-cases (n / a.page_size == m / a.page_size)) [
          | inl q ↦
              let same = eq_of_== (n / a.page_size) (m / a.page_size) q in
              rw (item, ← same, back, e)
                (get_elem?-set_ne page value
                  (λ r. apart m n a.page_size v.some_items ne (sym same) (sym r)))
          | inr q ↦
              rw
                (
                  item,
                  get_elem?-set_ne a.pages page' (ne_of_== (n / a.page_size) (m / a.page_size) q),
                )
                refl
        ];
      },
    )

pub store_lem :
    (a : Array) (n value : ℕ)
    → IsValid a
    → n / a.page_size < a.page_num
    → (a' : Array) × (store a n value ≡ some a') × Stored a n value a'
store_lem a n value v h =
    let (page, e) = get_elem?-some a.pages (n / a.page_size) (omega (arith, v.counted)) in
    store_page a n value page v h e

-- Setting an item of an allocated page of a valid array answers true: the array stays valid, the item
-- is there, and every other index has what it had. On a page that is not allocated the answer is false
-- and nothing changes.
pub set_item_lem :
    (a : Array) (n value : ℕ)
    → IsValid a
    → ((n / a.page_size < a.page_num)
        × ((a' : Array) × (set_item a n value ≡ some (a', true)) × Stored a n value a'))
      ⊎ ((a.page_num ≤ n / a.page_size) × (set_item a n value ≡ some (a, false)))
unfolding set_item
set_item_lem a n value v = elim (Bool-cases (leb a.page_num (n / a.page_size))) [
  | inl e ↦ inr (le_of_leb a.page_num (n / a.page_size) e, rw e refl)
  | inr e ↦
      let h = lt_of_leb a.page_num (n / a.page_size) e in
      let (a', s, k) = store_lem a n value v h in inl (h, (a', rw (e, s) refl, k))
]
