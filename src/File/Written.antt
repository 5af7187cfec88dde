-- ===== src/File/Written.antt =====
-- What is written to a file.
use warrior_man.Prelude.{
  ℕ, zero, suc, ◌+◌, ◌-◌, ◌<◌, ◌≤◌, ◌≡◌, inl, inr, arith, refl, sym, ap, ◌∙◌, Bool, Bool-cases,
  true, false, List, [], ◌∷◌, ◌++◌, append_assoc, append_nil, length, length-take, length-drop,
  take, take-append, take-length, take_and_drop, drop, All, ltb, le_of_ltb, lt_of_ltb, ◌==◌,
  if◌then◌else◌, min,
}
use warrior_man.File.{
  Answer, breaks, moves, returns, buffer_size_big, max_content, chunk_size, write_all, put_contents,
}

-- An answer that moves bytes or is interrupted.
abbrev pub Steady : Answer → Type 0
Steady (breaks interrupted) = interrupted ≡ true
Steady (moves count) = Unit {0}

-- The bytes that a script moves, at most `cap` with each answer.
abbrev pub moved : ℕ → List Answer → ℕ
moved cap [] = 0
moved cap (breaks interrupted ∷ later) = moved cap later
moved cap (moves count ∷ later) = min count cap + moved cap later

take_nested : (a b : ℕ) (xs : List ℕ) → take (length (take a (take b xs))) xs ≡ take a (take b xs)
take_nested zero b xs = refl
take_nested (suc a) zero xs = refl
take_nested (suc a) (suc b) [] = refl
take_nested (suc a) (suc b) (x ∷ xs) = ap (λ t. x ∷ t) (take_nested a b xs)

-- A piece behind the first `n` bytes.
pub take-piece :
    (n a b : ℕ) (xs : List ℕ)
    → n ≤ length xs
    → take (n + length (take a (take b (drop n xs)))) xs ≡ take n xs ++ take a (take b (drop n xs))
take-piece n a b xs h =
    let p = take a (take b (drop n xs)) in
    let e : n + length p ≡ length (take n xs) + length p = omega (arith, length-take n xs, h) in
    ap (λ k. take k xs) e
    ∙ ap (take (length (take n xs) + length p)) (sym (take_and_drop n xs))
    ∙ take-append (length p) (take n xs) (drop n xs)
    ∙ ap (λ t. take n xs ++ t) (take_nested a b (drop n xs))

pub length-piece :
    (n a b : ℕ) (xs : List ℕ) → length (take a (take b (drop n xs))) ≡ min a (min b (length xs - n))
length-piece n a b xs =
    omega (arith, length-take a (take b (drop n xs)), length-take b (drop n xs), length-drop n xs)

pub take_whole : (n : ℕ) (xs : List ℕ) → n ≤ length xs → length xs ≤ n → take n xs ≡ xs
take_whole n xs h k =
    let e : n ≡ length xs = omega (arith, h, k) in ap (λ m. take m xs) e ∙ take-length xs

chunk_size_lem : (n : ℕ) → chunk_size n ≡ min 65536 n
chunk_size_lem n = elim (Bool-cases (ltb 65536 n)) [
  | inl e ↦ let lt = lt_of_ltb 65536 n e in rw e (omega (arith, lt))
  | inr e ↦ let le = le_of_ltb 65536 n e in rw e (omega (arith, le))
]

-- The writes, with the part of the content that is written behind the old bytes.
write_all_lem :
    (base content : List ℕ) (w : ℕ) (script : List Answer)
    → All Steady script
    → w ≤ length content
    → length content ≤ w + moved buffer_size_big script
    → write_all content w (base ++ take w content) script ≡ (base ++ content, returns true)
unfolding write_all
write_all_lem base content w [] st h en =
    let whole = take_whole w content h (omega (arith, en)) in
    elim (Bool-cases (ltb w (length content))) [
      | inl e ↦ absurd (omega (arith, lt_of_ltb w (length content) e, en))
      | inr e ↦ rw (write_all, e) (ap (λ f. (base ++ f, returns true)) whole)
    ]
write_all_lem base content w (breaks interrupted ∷ later) (i, st) h en =
    elim (Bool-cases (ltb w (length content))) [
      | inl e ↦ rw (write_all, e, i) (write_all_lem base content w later st h en)
      | inr e ↦
          rw (write_all, e)
            (ap (λ f. (base ++ f, returns true))
              (take_whole w content h (le_of_ltb w (length content) e)))
    ]
write_all_lem base content w (moves count ∷ later) (u, st) h en =
    elim (Bool-cases (ltb w (length content))) [
      | inl e ↦
          let lt = lt_of_ltb w (length content) e in
          let size = chunk_size (length content - w) in
          let piece = take count (take size (drop w content)) in
          let l : length piece ≡ min count (min size (length content - w)) =
            length-piece w count size content in
          let c = chunk_size_lem (length content - w) in
          let f : (base ++ take w content) ++ piece ≡ base ++ take (w + length piece) content =
            append_assoc base (take w content) piece
            ∙ ap (λ t. base ++ t) (sym (take-piece w count size content h)) in
          rw (write_all, e)
            (ap (λ g. write_all content (w + length piece) g later) f
              ∙ write_all_lem base content (w + length piece) later st (omega (arith, l, lt))
                  (omega (arith, l, c, lt, en)))
      | inr e ↦
          rw (write_all, e)
            (ap (λ f. (base ++ f, returns true))
              (take_whole w content h (le_of_ltb w (length content) e)))
    ]

-- Content of at least a byte, and at most as many as a file may have, which replaces a file or is appended to
-- it: enough answers of the system to the writes, none of which fails, and the answer is true and the file
-- holds the old bytes, if they are kept, and then the content.
pub put_contents_lem :
    (append : Bool) (old content : List ℕ) (script : List Answer)
    → 0 < length content
    → length content ≤ max_content
    → All Steady script
    → length content ≤ moved buffer_size_big script
    → put_contents append true old content script
      ≡ ((if append then old else []) ++ content, returns true)
unfolding put_contents
put_contents_lem append old content script some_bytes small st en =
    let base = if append then old else [] in
    let a : (length content == 0) ≡ false = ground arith in
    let b : ltb max_content (length content) ≡ false = ground arith in
    rw (put_contents, a, b)
      (ap (λ f. write_all content 0 f script) (sym (append_nil base))
        ∙ write_all_lem base content 0 script st (omega arith) (omega (arith, en)))
