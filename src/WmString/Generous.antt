-- ===== src/WmString/Generous.antt =====
-- Strings over an allocator whose memory never runs out: every append succeeds, and a copy is made.
use warrior_man.Prelude.{
  ℕ, ◌+◌, ◌*◌, ◌%◌, ◌^◌, ◌<◌, ◌≤◌, ◌≡◌, ◌≢◌, inl, inr, arith, refl, sym, ap, ◌∙◌, Bool, Bool-cases,
  true, false, Option, Option-cases, none, some, List, [], ◌∷◌, ◌++◌, append_assoc, length,
  length-append, length-take, take, drop, splice, ltb,
}
use warrior_man.WmString.{
  Allocator, WmString, append_ptr, answer, copy_in, end_at, make_room, extend, dup2,
}
use warrior_man.WmString.Room.{IsAllocator, IsValid, text, copy_in_lem}
use warrior_man.WmString.Text.{Wrote, append_ptr_lem}
use warrior_man.WmString.Create.{new-some}

-- Memory never runs out.
pub record IsGenerous (heap : Allocator) : Type 0 where
  pub malloc-some : (n : ℕ) → heap.malloc n ≢ none
  pub realloc-some : (old : List ℕ) (n : ℕ) → heap.realloc old n ≢ none

-- The end mark stands behind the text.
abbrev pub HasEnd : WmString → Type 0
HasEnd s = take (s.length + 1) s.str ≡ text s ++ 0 ∷ []

abbrev answer_of : Option (WmString × Bool) → Bool
answer_of none = true
answer_of (some (s, b)) = b

answer-true : (o : Option WmString) → answer_of (answer true o) ≡ true
answer-true none = refl
answer-true (some s) = refl

-- The part of an append behind the test for room.
abbrev appended : List ℕ → Option (WmString × Bool) → Option (WmString × Bool)
appended src none = none
appended src (some (s, false)) = some (s, false)
appended src (some (s, true)) = elim (copy_in s.str s.length src) [
  | none ↦ none
  | some block ↦ answer true (end_at (record s { str = block }) (s.length + length src))
]

appended-answer :
    (src : List ℕ) (r : Option (WmString × Bool))
    → answer_of r ≡ true
    → answer_of (appended src r) ≡ true
appended-answer src none h = refl
appended-answer src (some (s, false)) h = h
appended-answer src (some (s, true)) h = elim (Option-cases (copy_in s.str s.length src)) [
  | inl o ↦ rw (answer_of, o) refl
  | inr (block, o) ↦
      rw (answer_of, o) (answer-true (end_at (record s { str = block }) (s.length + length src)))
]

module _ (heap : Allocator) (generous : IsGenerous heap) where
  extend-answer : (s : WmString) (n : ℕ) → answer_of (extend heap s n) ≡ true
  unfolding extend
  extend-answer s n = elim (Bool-cases (ltb s.size n)) [
    | inr e ↦ rw (extend, e) refl
    | inl e ↦ elim (Option-cases (heap.realloc s.str ((n + 1) % 2 ^ 64))) [
      | inl o ↦ absurd (generous.realloc-some s.str ((n + 1) % 2 ^ 64) o)
      | inr (block, o) ↦ rw (extend, e, o) refl
    ]
  ]

  make_room-answer : (s : WmString) (n : ℕ) → answer_of (make_room heap s n) ≡ true
  unfolding make_room
  make_room-answer s n = elim (Bool-cases (ltb s.size n)) [
    | inl e ↦ rw (make_room, e) (extend-answer s (n * 2 % 2 ^ 64))
    | inr e ↦ rw (make_room, e) refl
  ]

  append_ptr-answer : (s : WmString) (src : List ℕ) → answer_of (append_ptr heap s src) ≡ true
  unfolding append_ptr
  append_ptr-answer s src =
      appended-answer src (make_room heap s ((s.length + length src) % 2 ^ 64))
        (make_room-answer s ((s.length + length src) % 2 ^ 64))

joined : (a a' p q out : List ℕ) → a' ≡ a ++ p → out ≡ p ++ q → a' ++ q ≡ a ++ out
joined a a' p q out e o = ap (λ t. t ++ q) e ∙ append_assoc a p q ∙ ap (λ t. a ++ t) (sym o)

-- An append with memory left.
abbrev Appends : Allocator → WmString → List ℕ → Type 0
Appends heap s src =
    (s' : WmString) × (append_ptr heap s src ≡ some (s', true))
    × IsValid s'
    × (text s' ≡ text s ++ src)

module _ (heap : Allocator) (lawful : IsAllocator heap) (generous : IsGenerous heap) where
  append_ptr-true :
      (s : WmString) (src : List ℕ)
      → IsValid s
      → s.length + length src < 2 ^ 62
      → Appends heap s src
  unfolding Wrote
  append_ptr-true s src v small = elim (append_ptr_lem heap lawful s src v small) [
    | inr good ↦ good
    | inl (r, dry) ↦
        let a : false ≡ true = sym (ap answer_of r) ∙ append_ptr-answer heap generous s src in
        absurd (cc)
  ]

  -- A part appended, of the text `out` that is to follow.
  pub append_ptr-part :
      (s : WmString) (p q out : List ℕ)
      → IsValid s
      → length (text s) + length out < 2 ^ 62
      → out ≡ p ++ q
      → (s' : WmString) × (append_ptr heap s p ≡ some (s', true))
        × IsValid s'
        × (length (text s') + length q < 2 ^ 62)
        × ((r : List ℕ) → r ≡ text s' ++ q → r ≡ text s ++ out)
  append_ptr-part s p q out v small o =
      let n = length-append p q in
      let m : length out ≡ length p + length q = ap length o ∙ n in
      let ns : length (text s) ≡ s.length =
        omega (arith, length-take s.length s.str, v.block, v.fits) in
      let (s', r, v', t) = append_ptr-true s p v (omega (arith, ns, m, small)) in
      let k : length (text s') ≡ length (text s) + length p =
        ap length t ∙ length-append (text s) p in
      (s', r, v', omega (arith, k, m, small), λ x e. e ∙ joined (text s) (text s') p q out t o)

  -- The copy of a string with an end mark.
  pub dup2_lem :
      (s : WmString)
      → IsValid s
      → s.size < 2 ^ 62
      → HasEnd s
      → (dst : WmString) × (rest : List ℕ) × (dup2 heap s ≡ some (some dst))
        × (dst.str ≡ text s ++ 0 ∷ rest)
        × (dst.length ≡ s.length)
  unfolding dup2
  dup2_lem s v small mark = elim (Option-cases (heap.malloc (s.size + 1))) [
    | inl o ↦ absurd (generous.malloc-some (s.size + 1) o)
    | inr (block, o) ↦
        let (b, r, vb, size, empty) = new-some heap lawful s.size block small o in
        let whole = take (s.length + 1) s.str in
        let n : 0 + length whole ≤ length b.str =
          omega (arith, length-take (s.length + 1) s.str, vb.block, size, v.fits) in
        let rest = drop (0 + length whole) b.str in
        (
          record b { length = s.length; offset = s.offset; str = splice b.str 0 whole },
          rest,
          rw (dup2, r, copy_in_lem b.str 0 whole n) refl,
          ap (λ t. t ++ rest) mark ∙ append_assoc (text s) (0 ∷ []) rest,
          refl,
        )
  ]
