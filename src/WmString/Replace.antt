-- ===== src/WmString/Replace.antt =====
-- `wmString_replace` of src/core/wm_string.c.
--
-- The loop runs on fuel, one round more than the text has bytes, which is enough where `find` is not empty.
-- `none` is also a copy that is NULL and read.
pub mod Replaced
use warrior_man.Prelude.{
  ℕ, zero, suc, ◌+◌, Bool, true, false, ◌&&◌, Option, none, some, List, [], ◌∷◌, length, take, drop,
  ltb, ◌==◌,
}
use warrior_man.WmString.{Allocator, WmString, dup2, append_ptr}

-- `!strncmp(bytes, find, strlen(find))`; `find` has no byte 0, so the comparison ends at one in `bytes`.
unfoldable pub starts_with : List ℕ → List ℕ → Bool
starts_with [] bytes = true
starts_with (f ∷ fs) [] = false
starts_with (f ∷ fs) (b ∷ bs) = (f == b) && starts_with fs bs

module _ (heap : Allocator) (find replacement : List ℕ) where
  -- The `for` loop, on what is left of the copy `dst` from `i` on. The answers of the appends are dropped.
  unfoldable pub replace_loop : ℕ → WmString → ℕ → WmString → Option WmString
  replace_loop zero dst i str = none
  replace_loop (suc fuel) dst i str = elim (ltb i dst.length) [
    | false ↦ some str
    | true ↦ elim (starts_with find (drop i dst.str)) [
      | true ↦ elim (append_ptr heap str replacement) [
        | none ↦ none
        | some (str', appended) ↦ replace_loop fuel dst (i + length find) str'
      ]
      | false ↦ elim (append_ptr heap str (take 1 (drop i dst.str))) [
        | none ↦ none
        | some (str', appended) ↦ replace_loop fuel dst (i + 1) str'
      ]
    ]
  ]

  unfoldable pub replace_from : WmString → Option (Option WmString) → Option WmString
  replace_from str none = none
  replace_from str (some none) = none
  replace_from str (some (some dst)) =
      replace_loop (dst.length + 1) dst 0 (record str { length = 0 })

  -- `wmString_replace`
  unfoldable pub replace : WmString → Option WmString
  replace str = replace_from str (dup2 heap str)
