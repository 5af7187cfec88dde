-- ===== src/WmString/Replace/Replaced.antt =====
-- What a replacement makes of a text.
use warrior_man.Prelude.{
  ℕ, zero, suc, ◌+◌, ◌-◌, ◌^◌, ◌<◌, ◌≡◌, ◌≢◌, inl, inr, arith, refl, sym, ap, ◌∙◌, Bool-cases, true,
  false, ◌&&◌, Option, some, List, [], ◌∷◌, ◌++◌, append_nil, length, length-drop, length-take,
  take, drop, drop-drop, drop_all, drop-append_le, take-append_le, take-length, All, ltb, le_of_ltb,
  lt_of_ltb, ◌==◌, if◌then◌else◌,
}
use warrior_man.WmString.{Allocator, WmString, new}
use warrior_man.WmString.Room.{IsAllocator, IsValid, text}
use warrior_man.WmString.Replace.{starts_with, replace_loop, replace_from, replace}
use warrior_man.WmString.Generous.{IsGenerous, HasEnd, append_ptr-part, dup2_lem}

-- The text with each occurrence of `find`, from the left and without overlaps, replaced; `skip` bytes belong
-- to an occurrence already.
abbrev pub replaced : List ℕ → List ℕ → (skip : ℕ) → List ℕ → List ℕ
replaced find new skip [] = []
replaced find new (suc skip) (b ∷ bs) = replaced find new skip bs
replaced find new zero (b ∷ bs) =
    if starts_with find (b ∷ bs)
    then new ++ replaced find new (length find - 1) bs
    else b ∷ replaced find new zero bs

replaced-skip :
    (find new : List ℕ) (k : ℕ) (bs : List ℕ)
    → replaced find new k bs ≡ replaced find new 0 (drop k bs)
replaced-skip find new zero bs = refl
replaced-skip find new (suc k) [] = refl
replaced-skip find new (suc k) (b ∷ bs) = replaced-skip find new k bs

-- A comparison does not look past the end mark.
starts_with-end :
    (find bs rest : List ℕ)
    → All (λ f. f ≢ 0) find
    → starts_with find (bs ++ 0 ∷ rest) ≡ starts_with find bs
unfolding starts_with
starts_with-end [] bs rest a = refl
starts_with-end (f ∷ fs) [] rest (n, a) = elim (Bool-cases (f == 0)) [
  | inl e ↦ absurd (n (ground arith))
  | inr e ↦ rw e refl
]
starts_with-end (f ∷ fs) (b ∷ bs) rest (n, a) =
    ap (λ t. (f == b) && t) (starts_with-end fs bs rest a)

module _ (heap : Allocator) (lawful : IsAllocator heap) (generous : IsGenerous heap)
    (find new : List ℕ) (no_end : All (λ f. f ≢ 0) find) (some_bytes : 0 < length find) where
  abbrev rest_of : WmString → ℕ → List ℕ
  rest_of dst i = drop i (text dst)

  -- A round at a match, and one at another byte.
  replaced-match :
      (bs : List ℕ)
      → 0 < length bs
      → starts_with find bs ≡ true
      → replaced find new 0 bs ≡ new ++ replaced find new 0 (drop (length find) bs)
  replaced-match [] h m = absurd (omega (arith, h))
  replaced-match (b ∷ bs) h m =
      let e : length find ≡ suc (length find - 1) = omega (arith, some_bytes) in
      rw m (
        ap (λ t. new ++ t)
          (replaced-skip find new (length find - 1) bs
            ∙ ap (λ k. replaced find new 0 (drop k (b ∷ bs))) (sym e)))

  replaced-other :
      (bs : List ℕ)
      → 0 < length bs
      → starts_with find bs ≡ false
      → replaced find new 0 bs ≡ take 1 bs ++ replaced find new 0 (drop 1 bs)
  replaced-other [] h m = absurd (omega (arith, h))
  replaced-other (b ∷ bs) h m = rw m refl

  take_one : (bs cs : List ℕ) → 0 < length bs → take 1 (bs ++ cs) ≡ take 1 bs
  take_one [] cs h = absurd (omega (arith, h))
  take_one (b ∷ bs) cs h = refl

  abbrev Makes : List ℕ → Option WmString → Type 0
  Makes bytes r = (s : WmString) × (r ≡ some s) × IsValid s × (text s ≡ bytes)

  replace_loop_lem :
      (fuel : ℕ) (dst : WmString) (rest : List ℕ) (i : ℕ) (s : WmString)
      → dst.str ≡ text dst ++ 0 ∷ rest
      → length (text dst) ≡ dst.length
      → 0 < fuel
      → dst.length < i + fuel
      → IsValid s
      → length (text s) + length (replaced find new 0 (rest_of dst i)) < 2 ^ 62
      → Makes
          (text s ++ replaced find new 0 (rest_of dst i))
          (replace_loop heap find new fuel dst i s)
  unfolding replace_loop
  replace_loop_lem zero dst rest i s ds dl pos f v small = absurd (omega (arith, pos))
  replace_loop_lem (suc fuel) dst rest i s ds dl pos f v small =
      let bs = rest_of dst i in
      let out = replaced find new 0 bs in
      let nb : length bs ≡ dst.length - i = omega (arith, length-drop i (text dst), dl) in
      let ns : length (text s) ≡ s.length =
        omega (arith, length-take s.length s.str, v.block, v.fits) in
      elim (Bool-cases (ltb i dst.length)) [
        | inr e ↦
            let le = le_of_ltb i dst.length e in
            let none_left : bs ≡ [] = drop_all i (text dst) (omega (arith, le, dl)) in
            (
              s,
              rw (replace_loop, e) refl,
              v,
              sym (append_nil (text s)) ∙ ap (λ t. text s ++ replaced find new 0 t) (sym none_left),
            )
        | inl e ↦
            let lt = lt_of_ltb i dst.length e in
            let some_left : 0 < length bs = omega (arith, nb, lt) in
            let d : drop i dst.str ≡ bs ++ 0 ∷ rest =
              ap (drop i) ds ∙ drop-append_le i (text dst) (0 ∷ rest) (omega (arith, lt, dl)) in
            let sw : starts_with find (drop i dst.str) ≡ starts_with find bs =
              ap (starts_with find) d ∙ starts_with-end find bs rest no_end in
            elim (Bool-cases (starts_with find bs)) [
              | inl m ↦
                  let j = i + length find in
                  let out_eq : out ≡ new ++ replaced find new 0 (rest_of dst j) =
                    replaced-match bs some_left m
                    ∙ ap (λ t. new ++ replaced find new 0 t)
                        (sym (drop-drop i (length find) (text dst))) in
                  let (s₁, r, v₁, small₁, so) =
                    append_ptr-part heap lawful generous s new (replaced find new 0 (rest_of dst j))
                      out v small out_eq in
                  let (s₂, r₂, v₂, t) =
                    replace_loop_lem fuel dst rest j s₁ ds dl (omega (arith, f, lt))
                      (omega (arith, f, some_bytes)) v₁ small₁ in
                  (s₂, rw (replace_loop, e, sw, m, r) r₂, v₂, so (text s₂) t)
              | inr m ↦
                  let p = take 1 bs in
                  let one : take 1 (drop i dst.str) ≡ p =
                    ap (take 1) d ∙ take_one bs (0 ∷ rest) some_left in
                  let out_eq : out ≡ p ++ replaced find new 0 (rest_of dst (i + 1)) =
                    replaced-other bs some_left m
                    ∙ ap (λ t. p ++ replaced find new 0 t) (sym (drop-drop i 1 (text dst))) in
                  let (s₁, r, v₁, small₁, so) =
                    append_ptr-part heap lawful generous s p
                      (replaced find new 0 (rest_of dst (i + 1))) out v small out_eq in
                  let (s₂, r₂, v₂, t) =
                    replace_loop_lem fuel dst rest (i + 1) s₁ ds dl (omega (arith, f, lt))
                      (omega (arith, f)) v₁ small₁ in
                  (s₂, rw (replace_loop, e, sw, m, one, r) r₂, v₂, so (text s₂) t)
            ]
      ]

  -- Memory that never runs out, a `find` of at least a byte and with no byte 0, and a valid string with its
  -- end mark and fewer than 2 ^ 31 bytes, that does not become longer than 2 ^ 62: the loop ends, and
  -- the string is valid and its text is the one before with every occurrence of `find`, from the left and
  -- without overlaps, replaced.
  pub replace_lem :
      (s : WmString)
      → IsValid s
      → HasEnd s
      → s.length < 2 ^ 31
      → s.size < 2 ^ 62
      → length (replaced find new 0 (text s)) < 2 ^ 62
      → (s' : WmString) × (replace heap find new s ≡ some s')
        × IsValid s'
        × (text s' ≡ replaced find new 0 (text s))
  unfolding replace replace_from
  replace_lem s v mark short room small =
      let (dst, rest, d, ds, dl) = dup2_lem heap lawful generous s v room mark in
      let ns : length (text s) ≡ s.length =
        omega (arith, length-take s.length s.str, v.block, v.fits) in
      let same : text dst ≡ text s =
        ap (λ n. take n dst.str) (dl ∙ sym ns)
        ∙ ap (take (length (text s))) ds
        ∙ take-append_le (length (text s)) (text s) (0 ∷ rest) (omega arith)
        ∙ take-length (text s) in
      let v₀ : IsValid (record s { length = 0 }) = record { block = v.block; fits = omega arith } in
      let (s', r, v', t) =
        replace_loop_lem (dst.length + 1) dst rest 0 (record s { length = 0 })
          (ds ∙ ap (λ t. t ++ 0 ∷ rest) (sym same)) (ap length same ∙ ns ∙ sym dl) (omega arith)
          (omega arith) v₀ (omega (arith, small, ap (λ t. length (replaced find new 0 t)) same)) in
      (s', ap (replace_from heap find new s) d ∙ r, v', t ∙ ap (replaced find new 0) same)
