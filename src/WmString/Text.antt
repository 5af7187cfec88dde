-- ===== src/WmString/Text.antt =====
-- What the operations of a string do to its text.
use warrior_man.Prelude.{
  ℕ, ◌+◌, ◌%◌, ◌^◌, ◌≤◌, ◌<◌, ◌≡◌, ◌⊎◌, inl, inr, arith, refl, ap, ◌∙◌, Bool, true, false, Option,
  some, List, [], ◌∷◌, ◌++◌, length, take, splice, length-splice, take-splice,
}
use warrior_man.WmString.{Allocator, WmString, end_at, append_ptr}
use warrior_man.WmString.Room.{
  IsAllocator, IsValid, Refuses, text, copy_in_lem, relaid, end_at_lem, take-end_mark,
  make_room_lem,
}

-- The bytes go to `off`, and the end mark behind them.
abbrev pub laid : WmString → ℕ → List ℕ → WmString
laid s off src =
    relaid s (off + length src) (splice (splice s.str off src) (off + length src) (0 ∷ []))

pub laid-IsValid :
    (s : WmString) (off : ℕ) (src : List ℕ)
    → IsValid s
    → off + length src ≤ s.size
    → IsValid (laid s off src)
laid-IsValid s off src v h =
    let b : length (splice s.str off src) ≡ length s.str =
      length-splice s.str off src (omega (arith, v.block)) in
    let e =
      length-splice (splice s.str off src) (off + length src) (0 ∷ [])
        (omega (arith, v.block, b)) in
    record { block = e ∙ b ∙ v.block; fits = h }

pub text-laid :
    (s : WmString) (off : ℕ) (src : List ℕ)
    → IsValid s
    → off + length src ≤ s.size
    → text (laid s off src) ≡ take off s.str ++ src
text-laid s off src v h =
    let b : length (splice s.str off src) ≡ length s.str =
      length-splice s.str off src (omega (arith, v.block)) in
    take-end_mark (splice s.str off src) (off + length src) (omega (arith, b, v.block))
    ∙ take-splice s.str off src (omega (arith, v.block))

pub end_at-laid :
    (s : WmString) (off : ℕ) (src : List ℕ)
    → IsValid s
    → off + length src ≤ s.size
    → end_at (record s { str = splice s.str off src }) (off + length src) ≡ some (laid s off src)
end_at-laid s off src v h =
    let b : length (splice s.str off src) ≡ length s.str =
      length-splice s.str off src (omega (arith, v.block)) in
    end_at_lem (record s { str = splice s.str off src }) (off + length src) (b ∙ v.block) h

-- What holds of the outcome `r` of a write to `s` that needs room for `n` bytes and makes the text `bytes`: it
-- comes back, with a valid string; either `realloc` has answered NULL and nothing has changed, or the text is
-- `bytes`.
unfoldable pub Wrote : Allocator → WmString → ℕ → List ℕ → Option (WmString × Bool) → Type 0
Wrote heap s n bytes r =
    ((r ≡ some (s, false)) × Refuses heap s n)
    ⊎ ((s' : WmString) × (r ≡ some (s', true)) × IsValid s' × (text s' ≡ bytes))

module _ (heap : Allocator) (lawful : IsAllocator heap) where
  -- Bytes appended to a valid string, of a total length below 2 ^ 62: no copy leaves the block and no
  -- assertion fails. Either the string has no room for them, `realloc` answers NULL to the extension, and
  -- the string is as it was, with the answer false; or the answer is true, and the string is valid and its
  -- text is the text before and then the bytes.
  pub append_ptr_lem :
      (s : WmString) (src : List ℕ)
      → IsValid s
      → s.length + length src < 2 ^ 62
      → Wrote heap s (s.length + length src) (text s ++ src) (append_ptr heap s src)
  unfolding Wrote append_ptr
  append_ptr_lem s src v small =
      let e : (s.length + length src) % 2 ^ 64 ≡ s.length + length src = omega arith in
      elim (make_room_lem heap lawful s (s.length + length src) v small) [
        | inl (x, dry) ↦ inl (rw (append_ptr, e, x) refl, dry)
        | inr (s', x, v', room, el, et) ↦
            let fits : s'.length + length src ≤ s'.size = omega (arith, room, el) in
            inr (
              laid s' s'.length src,
              rw
                  (
                    append_ptr,
                    e,
                    x,
                    copy_in_lem s'.str s'.length src (omega (arith, v'.block, fits)),
                    end_at-laid s' s'.length src v' fits,
                  )
                  refl,
              laid-IsValid s' s'.length src v' fits,
              text-laid s' s'.length src v' fits ∙ ap (λ t. t ++ src) et,
            )
      ]
