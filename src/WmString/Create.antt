-- ===== src/WmString/Create.antt =====
-- `wmString_dup` and `wmString_alloc`: copies, and space handed out.
use warrior_man.Prelude.{
  ℕ, ◌+◌, ◌%◌, ◌^◌, ◌<◌, ◌≡◌, ◌⊎◌, inl, inr, arith, refl, sym, ap, subst, ◌∙◌, none, some, List, [],
  ◌∷◌, length, take, splice, length-splice, take-take, ltb, Bool-cases, Option-cases, le_of_ltb,
  lt_of_ltb,
}
use warrior_man.WmString.{Allocator, WmString, end_at, new, dup, alloc}
use warrior_man.WmString.Room.{IsAllocator, IsValid, text, copy_in_lem, extend_lem}
use warrior_man.WmString.Text.{laid, laid-IsValid, text-laid, end_at-laid}

module _ (heap : Allocator) (lawful : IsAllocator heap) where
  -- A new string where `malloc` has given the block: it is valid and empty, of that size.
  pub new-some :
      (n : ℕ) (block : List ℕ)
      → n < 2 ^ 62
      → heap.malloc (n + 1) ≡ some block
      → (s : WmString) × (new heap n ≡ some (some s)) × IsValid s × (s.size ≡ n) × (s.length ≡ 0)
  unfolding new
  new-some n block small o =
      let e : (n + 1) % 2 ^ 64 ≡ n + 1 = omega arith in
      let hb = lawful.malloc-length (n + 1) block o in
      let b : length (splice block 0 (0 ∷ [])) ≡ length block =
        length-splice block 0 (0 ∷ []) (omega arith) in
      (
        record { length = 0; size = n; offset = 0; str = splice block 0 (0 ∷ []) },
        rw (new, e, o, copy_in_lem block 0 (0 ∷ []) (omega (arith, hb))) refl,
        record { block = omega (arith, b, hb); fits = omega arith },
        refl,
        refl,
      )

  -- A new string of fewer than 2 ^ 62 bytes: it is NULL for want of memory, or valid and empty, with that
  -- size.
  pub new_lem :
      (n : ℕ)
      → n < 2 ^ 62
      → ((new heap n ≡ some none) × (heap.malloc (n + 1) ≡ none))
        ⊎ ((s : WmString) × (new heap n ≡ some (some s))
            × IsValid s
            × (s.size ≡ n)
            × (s.length ≡ 0))
  unfolding new
  new_lem n small =
      let e : (n + 1) % 2 ^ 64 ≡ n + 1 = omega arith in
      elim (Option-cases (heap.malloc (n + 1))) [
        | inl o ↦ inl (rw (new, e, o) refl, o)
        | inr (block, o) ↦ inr (new-some n block small o)
      ]

  -- A copy of fewer than 2 ^ 62 bytes: it is NULL for want of memory, or a valid string with the
  -- bytes as its text.
  pub dup_lem :
      (src : List ℕ)
      → length src < 2 ^ 62
      → (dup heap src ≡ some none)
        ⊎ ((s : WmString) × (dup heap src ≡ some (some s)) × IsValid s × (text s ≡ src))
  unfolding dup new
  dup_lem src small =
      let e : (length src + 1) % 2 ^ 64 ≡ length src + 1 = omega arith in
      elim (Option-cases (heap.malloc (length src + 1))) [
        | inl o ↦ inl (rw (dup, new, e, o) refl)
        | inr (block, o) ↦
            let hb = lawful.malloc-length (length src + 1) block o in
            let b : length (splice block 0 (0 ∷ [])) ≡ length block =
              length-splice block 0 (0 ∷ []) (omega arith) in
            let s₀ : WmString = record {
              length = 0;
              size = length src;
              offset = 0;
              str = splice block 0 (0 ∷ []);
            } in
            let v₀ : IsValid s₀ = record { block = omega (arith, b, hb); fits = omega arith } in
            let z : 0 + length src ≡ length src = omega arith in
            let ended : end_at (record s₀ { str = splice s₀.str 0 src }) (length src)
                ≡ some (laid s₀ 0 src) =
              subst (λ n. end_at (record s₀ { str = splice s₀.str 0 src }) n ≡ some (laid s₀ 0 src))
                z (end_at-laid s₀ 0 src v₀ (omega arith)) in
            inr (
              laid s₀ 0 src,
              rw
                  (
                    dup,
                    new,
                    e,
                    o,
                    copy_in_lem block 0 (0 ∷ []) (omega (arith, hb)),
                    copy_in_lem s₀.str 0 src (omega (arith, b, hb)),
                    ended,
                  )
                  refl,
              laid-IsValid s₀ 0 src v₀ (omega arith),
              text-laid s₀ 0 src v₀ (omega arith),
            )
      ]

  -- Space asked of a valid string, with sizes below 2 ^ 62: no assertion fails. Either no memory is
  -- left, the answer is NULL and the string is as it was; or the string is valid and longer by the
  -- space, which begins at its old length, and the text before the space stays.
  pub alloc_lem :
      (s : WmString) (more : ℕ)
      → IsValid s
      → s.size + more < 2 ^ 62
      → (alloc heap s more ≡ some (s, none))
        ⊎ ((s' : WmString) × (alloc heap s more ≡ some (s', some s.length))
            × IsValid s'
            × (s'.length ≡ s.length + more)
            × (take s.length s'.str ≡ text s))
  unfolding alloc
  alloc_lem s more v small =
      let longer : (s.length + more) % 2 ^ 64 ≡ s.length + more = omega (arith, v.fits) in
      let wider : (s.size + more) % 2 ^ 64 ≡ s.size + more = omega arith in
      elim (Bool-cases (ltb s.size (s.length + more))) [
        | inl e ↦
            let lt = lt_of_ltb s.size (s.length + more) e in
            elim (extend_lem heap lawful s (s.size + more) v (omega (arith, v.fits))
              (omega arith)) [
                | inl (x, dry) ↦ inl (rw (alloc, longer, wider, e, x) refl)
                | inr (block, x, hb, ht) ↦ inr (
                  record s { str = block; size = s.size + more; length = s.length + more },
                  rw (alloc, longer, wider, e, x, longer) refl,
                  record { block = hb; fits = omega (arith, v.fits) },
                  refl,
                  sym (take-take s.length (length s.str) block (omega (arith, v.block, v.fits)))
                      ∙ ap (take s.length) ht,
                )
              ]
        | inr e ↦ inr (
          record s { length = s.length + more },
          rw (alloc, longer, e) refl,
          record { block = v.block; fits = le_of_ltb s.size (s.length + more) e },
          refl,
          refl,
        )
      ]
