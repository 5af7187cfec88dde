-- ===== src/WmString/Room.antt =====
-- The memory block of a string: its well-formedness, and what the copies into it keep.
use warrior_man.Prelude.{
  ℕ, ◌+◌, ◌*◌, ◌%◌, ◌^◌, ◌≤◌, ◌<◌, ◌≡◌, ◌⊎◌, inl, inr, arith, refl, sym, ap, ◌∙◌, true, false, none,
  some, List, [], ◌∷◌, length, take, splice, take-splice_before, take-take, ltb, Bool-cases,
  Option-cases, leb_of_le, le_of_ltb, lt_of_ltb, ltb_of_lt,
}
use warrior_man.WmString.{Allocator, WmString, copy_in, end_at, extend, make_room}

-- What the C library says of `malloc` and `realloc`.
pub record IsAllocator (heap : Allocator) : Type 0 where
  pub malloc-length : (n : ℕ) (bs : List ℕ) → heap.malloc n ≡ some bs → length bs ≡ n
  pub realloc-grows :
      (old : List ℕ) (n : ℕ) (bs : List ℕ)
      → length old ≤ n
      → heap.realloc old n ≡ some bs
      → (length bs ≡ n) × (take (length old) bs ≡ old)

-- The block has one byte more than `size`, and the string fits; its sizes leave room to be doubled.
pub record IsValid (s : WmString) : Type 0 where
  pub block : length s.str ≡ s.size + 1
  pub fits : s.length ≤ s.size

-- The text, as the bytes up to the length.
abbrev pub text : WmString → List ℕ
text s = take s.length s.str

pub copy_in_lem :
    (block : List ℕ) (off : ℕ) (src : List ℕ)
    → off + length src ≤ length block
    → copy_in block off src ≡ some (splice block off src)
copy_in_lem block off src h = rw (leb_of_le (off + length src) (length block) h) refl

-- A string with other bytes and another length, of the same size.
abbrev pub relaid : WmString → ℕ → List ℕ → WmString
relaid s n block = record s { length = n; str = block }

pub end_at_lem :
    (s : WmString) (n : ℕ)
    → length s.str ≡ s.size + 1
    → n ≤ s.size
    → end_at s n ≡ some (relaid s n (splice s.str n (0 ∷ [])))
end_at_lem s n hb hn = rw (end_at, copy_in_lem s.str n (0 ∷ []) (omega arith)) refl

-- The block after the end mark is set at `n`: the bytes before it stay.
pub take-end_mark :
    (block : List ℕ) (n : ℕ) → n < length block → take n (splice block n (0 ∷ [])) ≡ take n block
take-end_mark block n h = take-splice_before n block n (0 ∷ []) (omega arith) (omega arith)

-- The string has to be extended for `n` bytes, and `realloc` answers NULL to that.
abbrev pub Refuses : Allocator → WmString → ℕ → Type 0
Refuses heap s n = (s.size < n) × (heap.realloc s.str (n * 2 + 1) ≡ none)

module _ (heap : Allocator) (lawful : IsAllocator heap) where
  -- What an extension does to a valid string: with memory left it has the new size and its text
  -- stays; with none the string is as before.
  pub extend_lem :
      (s : WmString) (n : ℕ)
      → IsValid s
      → s.size < n
      → n < 2 ^ 63
      → ((extend heap s n ≡ some (s, false)) × (heap.realloc s.str (n + 1) ≡ none))
        ⊎ ((block : List ℕ) × (extend heap s n ≡ some (record s { str = block; size = n }, true))
            × (length block ≡ n + 1)
            × (take (length s.str) block ≡ s.str))
  unfolding extend
  extend_lem s n v lt small =
      let e : (n + 1) % 2 ^ 64 ≡ n + 1 = omega arith in
      elim (Option-cases (heap.realloc s.str (n + 1))) [
        | inl o ↦ inl (rw (ltb_of_lt s.size n lt, e, o) refl, o)
        | inr (block, o) ↦
            let g = lawful.realloc-grows s.str (n + 1) block (omega (arith, v.block, v.fits)) o in
            inr (block, rw (ltb_of_lt s.size n lt, e, o) refl, g.0, g.1)
      ]

  -- Room for `n` bytes: either the memory is out and nothing has changed, or the string is valid as
  -- before, has that room, and keeps its length and its text.
  pub make_room_lem :
      (s : WmString) (n : ℕ)
      → IsValid s
      → n < 2 ^ 62
      → ((make_room heap s n ≡ some (s, false)) × Refuses heap s n)
        ⊎ ((s' : WmString) × (make_room heap s n ≡ some (s', true))
            × IsValid s'
            × (n ≤ s'.size)
            × (s'.length ≡ s.length)
            × (text s' ≡ text s))
  unfolding make_room
  make_room_lem s n v small = elim (Bool-cases (ltb s.size n)) [
    | inl e ↦
        let lt = lt_of_ltb s.size n e in
        let twice : n * 2 % 2 ^ 64 ≡ n * 2 = omega arith in
        elim (extend_lem s (n * 2) v (omega arith) (omega arith)) [
          | inl (x, o) ↦ inl (rw (e, twice) x, (lt, o))
          | inr (block, x, hb, ht) ↦ inr (
            record s { str = block; size = n * 2 },
            rw (e, twice) x,
            record { block = hb; fits = omega (arith, v.fits) },
            omega arith,
            refl,
            sym (take-take s.length (length s.str) block (omega (arith, v.block, v.fits)))
                ∙ ap (take s.length) ht,
          )
        ]
    | inr e ↦ inr (s, rw e refl, v, le_of_ltb s.size n e, refl, refl)
  ]
