-- ===== src/WmString/Number.antt =====
-- `wmString_append_int` of src/core/wm_string.c, over `wm_itoa`.
use warrior_man.Prelude.{
  ℕ, ◌+◌, ◌^◌, ◌<◌, ◌≡◌, arith, refl, sym, ap, subst, ◌∙◌, Option, none, some, Bool, List, ◌++◌,
  length, take,
}
use warrior_man.Helper.{itoa}
use warrior_man.Helper.Printed.{IsInt, decimal, itoa-Ends, word_of_int, length-decimal_int}
use warrior_man.WmString.{Allocator, WmString, append_ptr}
use warrior_man.WmString.Room.{IsAllocator, IsValid, text}
use warrior_man.WmString.Text.{Wrote, append_ptr_lem}

module _ (heap : Allocator) where
  -- `buf` is what stands in the sixteen bytes on the stack.
  pub append_int : List ℕ → WmString → ℕ → Option (WmString × Bool)
  append_int buf s value = elim (itoa buf value) [
    | none ↦ none
    | some (buf', s_len) ↦ append_ptr heap s (take s_len buf')
  ]

  -- An `int` appended to a valid string, of a total length below 2 ^ 62, whatever the sixteen bytes
  -- held: no write leaves them. Either the string has no room for the number's text, `realloc` answers NULL to
  -- the extension, and the string is as it was, with the answer false; or the answer is true, and the string
  -- is valid and its text is the text before and then that of the number.
  pub append_int_lem :
      IsAllocator heap
      → (buf : List ℕ) (s : WmString) (value : ℕ) → length buf ≡ 16
      → IsInt value
      → IsValid s
      → s.length + 11 < 2 ^ 62
      → Wrote heap s
          (s.length + length (decimal value))
          (text s ++ decimal value)
          (append_int buf s value)
  unfolding append_int
  append_int_lem lawful buf s value sixteen int v small =
      let l = length-decimal_int value int in
      let (buf', p, t, _) =
        itoa-Ends value (word_of_int value int) buf (omega (arith, l, sixteen)) in
      let here : append_int buf s value ≡ append_ptr heap s (take (length (decimal value)) buf') =
        rw (append_int, p) refl in
      subst (Wrote heap s (s.length + length (decimal value)) (text s ++ decimal value))
        (sym (here ∙ ap (append_ptr heap s) t))
        (append_ptr_lem heap lawful s (decimal value) v (omega (arith, l, small)))
