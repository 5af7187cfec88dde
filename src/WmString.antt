-- ===== src/WmString.antt =====
-- The growing string of src/core/wm_string.c and include/wm_string.h.
--
-- `str` is the whole memory block, as the list of its bytes. The allocator is a parameter. A result
-- of `none` is a run that stops: a failed `assert`, or a copy past the end of a block. The answer
-- of an operation is its C result, and a string is left as it is where that is `false`.
pub mod Room
pub mod Text
pub mod Offset
pub mod Ample
mod Write
mod Number
pub mod Create
mod Generous
mod Replace
mod Utf8
mod Tests
use warrior_man.Prelude.{
  ℕ, zero, suc, ◌+◌, ◌-◌, ◌*◌, ◌/◌, ◌%◌, ◌^◌, Bool, true, false, Option, none, some, List, [], ◌∷◌,
  ◌++◌, length, take, drop, splice, ltb, leb, ◌==◌, if◌then◌else◌,
}

-- `malloc` and `realloc`, with the bytes of the block that they give; `none` is NULL.
pub record Allocator : Type 0 where
  pub malloc : ℕ → Option (List ℕ)
  pub realloc : List ℕ → ℕ → Option (List ℕ)

-- `wmString`
pub record WmString : Type 0 where
  pub length : ℕ
  pub size : ℕ
  pub offset : ℕ
  pub str : List ℕ

-- `memcpy(block + off, src, length)`
abbrev pub copy_in : List ℕ → ℕ → List ℕ → Option (List ℕ)
copy_in block off src =
    if leb (off + length src) (length block) then some (splice block off src) else none

-- `str->str[i] = '\0'`, at the string's length.
abbrev pub end_at : WmString → ℕ → Option WmString
end_at s n = elim (copy_in s.str n (0 ∷ [])) [
  | none ↦ none
  | some block ↦ some (record s { str = block; length = n })
]

abbrev pub answer : Bool → Option WmString → Option (WmString × Bool)
answer b none = none
answer b (some s) = some (s, b)

-- The string `more` longer, and the index of the space.
abbrev pub hand_out : WmString → ℕ → WmString × Option ℕ
hand_out s more = (record s { length = (s.length + more) % 2 ^ 64 }, some s.length)

module _ (heap : Allocator) where
  -- `wmString_new`; an answer of `none` is NULL.
  pub new : ℕ → Option (Option WmString)
  new size = elim (heap.malloc ((size + 1) % 2 ^ 64)) [
    | none ↦ some none
    | some block ↦ elim (copy_in block 0 (0 ∷ [])) [
      | none ↦ none
      | some block' ↦ some (some (record { length = 0; size = size; offset = 0; str = block' }))
    ]
  ]

  -- `wmString_dup`; `src` is the `length` bytes behind `src_str`.
  pub dup : List ℕ → Option (Option WmString)
  dup src = elim (new (length src)) [
    | none ↦ none
    | some none ↦ some none
    | some (some s) ↦ elim (copy_in s.str 0 src) [
      | none ↦ none
      | some block ↦ elim (end_at (record s { str = block }) (length src)) [
        | none ↦ none
        | some s' ↦ some (some s')
      ]
    ]
  ]

  -- `wmString_dup2`
  pub dup2 : WmString → Option (Option WmString)
  dup2 src = elim (new src.size) [
    | none ↦ none
    | some none ↦ some none
    | some (some s) ↦ elim (copy_in s.str 0 (take (src.length + 1) src.str)) [
      | none ↦ none
      | some block ↦
          some (some (record s { length = src.length; offset = src.offset; str = block }))
    ]
  ]

  -- `wmString_extend`
  unfoldable pub extend : WmString → ℕ → Option (WmString × Bool)
  extend s new_size =
      let grown : WmString × Bool = elim (heap.realloc s.str ((new_size + 1) % 2 ^ 64)) [
        | none ↦ (s, false)
        | some block ↦ (record s { str = block; size = new_size }, true)
      ] in
      if ltb s.size new_size then some grown else none

  -- `if (new_size > str->size)`: the string is extended to twice the need.
  unfoldable pub make_room : WmString → ℕ → Option (WmString × Bool)
  make_room s new_size =
      if ltb s.size new_size then extend s (new_size * 2 % 2 ^ 64) else some (s, true)

  -- `wmString_append_ptr`
  unfoldable pub append_ptr : WmString → List ℕ → Option (WmString × Bool)
  append_ptr s src = elim (make_room s ((s.length + length src) % 2 ^ 64)) [
    | none ↦ none
    | some (s', false) ↦ some (s', false)
    | some (s', true) ↦ elim (copy_in s'.str s'.length src) [
      | none ↦ none
      | some block ↦ answer true (end_at (record s' { str = block }) (s'.length + length src))
    ]
  ]

  -- `wmString_append`
  pub append : WmString → WmString → Option (WmString × Bool)
  append s appended = append_ptr s (take appended.length appended.str)

  -- `wmString_write_ptr`, and `wmString_write`, whose bytes are those of a string.
  pub write_ptr : WmString → ℕ → List ℕ → Option (WmString × Bool)
  write_ptr s off src = elim (make_room s ((off + length src) % 2 ^ 64)) [
    | none ↦ none
    | some (s', false) ↦ some (s', false)
    | some (s', true) ↦ elim (copy_in s'.str off src) [
      | none ↦ none
      | some block ↦
          let s'' = record s' { str = block } in
          if ltb s'.length (off + length src)
          then answer true (end_at s'' (off + length src))
          else some (s'', true)
    ]
  ]

  pub write : WmString → ℕ → WmString → Option (WmString × Bool)
  write s off written = write_ptr s off (take written.length written.str)

  -- `wmString_alloc`: the string, and the index of the space that it hands out, or `none` for NULL.
  pub alloc : WmString → ℕ → Option (WmString × Option ℕ)
  alloc s more =
      let extended : Option (WmString × Option ℕ) = elim (extend s ((s.size + more) % 2 ^ 64)) [
        | none ↦ none
        | some (s', false) ↦ some (s', none)
        | some (s', true) ↦ some (hand_out s' more)
      ] in
      if ltb s.size ((s.length + more) % 2 ^ 64) then extended else some (hand_out s more)
