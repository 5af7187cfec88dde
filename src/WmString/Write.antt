-- ===== src/WmString/Write.antt =====
-- `wmString_write_ptr`: a write inside the text.
use warrior_man.Prelude.{
  ℕ, ◌+◌, ◌-◌, ◌%◌, ◌^◌, ◌≤◌, ◌<◌, ◌≡◌, inl, inr, arith, refl, sym, ap, ◌∙◌, List, [], ◌++◌, length,
  take, drop, splice, length-splice, take-splice_after, take-drop, drop_all, take-take, length-take,
  append_nil, ltb, Bool-cases, le_of_ltb, lt_of_ltb,
}
use warrior_man.WmString.{Allocator, WmString, write_ptr}
use warrior_man.WmString.Room.{IsAllocator, IsValid, text, copy_in_lem, make_room_lem}
use warrior_man.WmString.Text.{laid, laid-IsValid, text-laid, end_at-laid, Wrote}

-- A write in the middle: the bytes, and after them what the text has there already.
pub overwrite : List ℕ → ℕ → List ℕ → List ℕ
overwrite bytes off src = take off bytes ++ (src ++ drop (off + length src) bytes)

take-text : (s : WmString) (off : ℕ) → off ≤ s.length → take off s.str ≡ take off (text s)
take-text s off h = sym (take-take off s.length s.str h)

-- The write reaches past the text's end.
overwrite_past :
    (s : WmString) (off : ℕ) (src : List ℕ)
    → off ≤ s.length
    → s.length ≤ off + length src
    → take off s.str ++ src ≡ overwrite (text s) off src
unfolding overwrite
overwrite_past s off src ho h =
    let d : drop (off + length src) (text s) ≡ [] =
      drop_all (off + length src) (text s) (omega (arith, length-take s.length s.str)) in
    rw (d, append_nil src) (ap (λ t. t ++ src) (take-text s off ho))

-- The write ends inside the text.
overwrite_inside :
    (s : WmString) (off : ℕ) (src : List ℕ)
    → off + length src ≤ s.length
    → s.length ≤ length s.str
    → take s.length (splice s.str off src) ≡ overwrite (text s) off src
unfolding overwrite
overwrite_inside s off src h hl =
    ap (λ n. take n (splice s.str off src)) whole
    ∙ take-splice_after k s.str off src (omega arith)
    ∙ ap (λ t. take off s.str ++ (src ++ t))
        (take-drop k (off + length src) s.str
          ∙ ap (λ n. drop (off + length src) (take n s.str)) (sym whole'))
    ∙ ap (λ t. t ++ (src ++ drop (off + length src) (text s))) (take-text s off (omega arith))
  where
    k : ℕ
    k = s.length - (off + length src)

    whole : s.length ≡ off + (length src + k)
    whole = omega arith

    whole' : s.length ≡ off + length src + k
    whole' = omega arith

module _ (heap : Allocator) (lawful : IsAllocator heap) where
  -- Bytes written into a valid string at an offset inside it, of a total length below 2 ^ 62: no copy
  -- leaves the block and no assertion fails. Either no memory is left and the string is as it was,
  -- or the text has the bytes from the offset on, before and after them what it had, and the string
  -- is valid.
  pub write_ptr_lem :
      (s : WmString) (off : ℕ) (src : List ℕ)
      → IsValid s
      → off ≤ s.length
      → off + length src < 2 ^ 62
      → Wrote heap s (off + length src) (overwrite (text s) off src) (write_ptr heap s off src)
  unfolding Wrote write_ptr
  write_ptr_lem s off src v ho small =
      let e : (off + length src) % 2 ^ 64 ≡ off + length src = omega arith in
      elim (make_room_lem heap lawful s (off + length src) v small) [
        | inl (x, dry) ↦ inl (rw (write_ptr, e, x) refl, dry)
        | inr (s', x, v', room, el, et) ↦
            let copied = copy_in_lem s'.str off src (omega (arith, v'.block, room)) in
            elim (Bool-cases (ltb s'.length (off + length src))) [
              | inl longer ↦ inr (
                laid s' off src,
                rw (write_ptr, e, x, copied, longer, end_at-laid s' off src v' room) refl,
                laid-IsValid s' off src v' room,
                text-laid s' off src v' room
                    ∙ overwrite_past s' off src (omega arith)
                        (omega (arith, lt_of_ltb s'.length (off + length src) longer))
                    ∙ ap (λ t. overwrite t off src) et,
              )
              | inr inside ↦ inr (
                record s' { str = splice s'.str off src },
                rw (write_ptr, e, x, copied, inside) refl,
                record {
                  block = length-splice s'.str off src (omega (arith, v'.block, room)) ∙ v'.block;
                  fits = v'.fits;
                },
                overwrite_inside s' off src (le_of_ltb s'.length (off + length src) inside)
                      (omega (arith, v'.block, v'.fits))
                    ∙ ap (λ t. overwrite t off src) et,
              )
            ]
      ]
