-- ===== src/WmString/Ample.antt =====
-- An allocator whose memory never runs out.
use warrior_man.Prelude.{
  ℕ, ◌-◌, ◌≡◌, arith, sym, ap, ◌∙◌, some, List, ◌++◌, length, length-append, length-replicate,
  replicate, take, take-append_le, take-length,
}
use warrior_man.WmString.{Allocator}
use warrior_man.WmString.Room.{IsAllocator}

abbrev garbage : ℕ → List ℕ
garbage n = replicate n 170

length-garbage : (n : ℕ) → length (garbage n) ≡ n
length-garbage n = length-replicate n 170

-- Memory never runs out, and a new byte is 170.
abbrev pub ample : Allocator
ample = record {
  malloc = λ n. some (garbage n);
  realloc = λ old n. some (take n (old ++ garbage (n - length old)));
}

some_eq : (a b : List ℕ) → some a ≡ some b → a ≡ b
some_eq a b e = cc

pub ample-IsAllocator : IsAllocator ample
ample-IsAllocator = record {
  malloc-length = λ n bs e. ap length (sym (some_eq (garbage n) bs e)) ∙ length-garbage n;
  realloc-grows = λ old n bs h e.
      let whole : n ≡ length (old ++ garbage (n - length old)) =
        omega
          (arith, length-append old (garbage (n - length old)), length-garbage (n - length old)) in
      let all : take n (old ++ garbage (n - length old)) ≡ old ++ garbage (n - length old) =
        ap (λ k. take k (old ++ garbage (n - length old))) whole
        ∙ take-length (old ++ garbage (n - length old)) in
      let b : bs ≡ old ++ garbage (n - length old) = sym (some_eq _ bs e) ∙ all in
      (
        ap length b ∙ sym whole,
        ap (take (length old)) b
            ∙ take-append_le (length old) old _ (omega arith)
            ∙ take-length old,
      );
}
