-- ===== src/WmString/Tests.antt =====
-- Strings on small inputs, and their theorems applied to them.
use warrior_man.Prelude.{
  ℕ, List, ◌+◌, length, ◌≡◌, arith, refl, inl, some, [], ◌∷◌, ◌++◌, replicate,
}
use warrior_man.WmString.{WmString, append_ptr}
use warrior_man.WmString.Room.{IsValid, text}
use warrior_man.WmString.Ample.{ample, ample-IsAllocator}
use warrior_man.WmString.Text.{Wrote, append_ptr_lem}
use warrior_man.Helper.Printed.{decimal}
use warrior_man.WmString.Number.{append_int, append_int_lem}
use warrior_man.WmString.Generous.{IsGenerous}
use warrior_man.WmString.Replace.{replace, starts_with}
use warrior_man.WmString.Replace.Replaced.{replaced, replace_lem}
use warrior_man.WmString.Utf8.{utf8_decode, utf8_encode, decode-encode}

-- "ab" in a block for two bytes
abbrev ab : WmString
ab = record { length = 2; size = 2; offset = 0; str = 97 ∷ 98 ∷ 0 ∷ [] }

ab-IsValid : IsValid ab
ab-IsValid = record { block = refl; fits = omega arith }

append_ptr_lem_example : Wrote ample ab 3 (97 ∷ 98 ∷ 99 ∷ []) (append_ptr ample ab (99 ∷ []))
append_ptr_lem_example =
    append_ptr_lem ample ample-IsAllocator ab (99 ∷ []) ab-IsValid (omega arith)

append_int_lem_example :
    Wrote ample ab
      (ab.length + length (decimal 42))
      (text ab ++ decimal 42)
      (append_int ample (replicate 16 7) ab 42)
append_int_lem_example =
    append_int_lem ample ample-IsAllocator (replicate 16 7) ab 42 refl (inl (omega arith))
      ab-IsValid (omega arith)

-- U+1F600 and then a letter
decode-encode_example : utf8_decode (utf8_encode 0x1f600 ++ 97 ∷ []) 5 ≡ some (0x1f600, 97 ∷ [])
decode-encode_example =
    decode-encode 0x1f600 5 (97 ∷ []) (omega arith) (omega arith) (omega arith) (omega arith)

ample-IsGenerous : IsGenerous ample
ample-IsGenerous = record { malloc-some = λ n e. cc; realloc-some = λ old n e. cc }

-- "<g>a<<g>" with the end mark
abbrev tagged : WmString
tagged = record {
  length = 8;
  size = 9;
  offset = 0;
  str = 60 ∷ 103 ∷ 62 ∷ 97 ∷ 60 ∷ 60 ∷ 103 ∷ 62 ∷ 0 ∷ 7 ∷ [];
}

abbrev tag : List ℕ
tag = 60 ∷ 103 ∷ 62 ∷ []

abbrev green : List ℕ
green = 27 ∷ 91 ∷ 51 ∷ 50 ∷ 109 ∷ []

tagged-replaced :
    replaced tag green 0 (text tagged)
    ≡ 27 ∷ 91 ∷ 51 ∷ 50 ∷ 109 ∷ 97 ∷ 60 ∷ 27 ∷ 91 ∷ 51 ∷ 50 ∷ 109 ∷ []
unfolding starts_with
tagged-replaced = refl

tagged-IsValid : IsValid tagged
tagged-IsValid = record { block = refl; fits = omega arith }

replace_lem_example :
    (s' : WmString) × (replace ample tag green tagged ≡ some s')
    × IsValid s'
    × (text s' ≡ replaced tag green 0 (text tagged))
unfolding starts_with
replace_lem_example =
    replace_lem ample ample-IsAllocator ample-IsGenerous tag green
      (
        (λ e. absurd (omega (arith, e))),
        ((λ e. absurd (omega (arith, e))), ((λ e. absurd (omega (arith, e))), tt)),
      )
      (omega arith) tagged tagged-IsValid refl (omega arith) (omega arith) (omega arith)
