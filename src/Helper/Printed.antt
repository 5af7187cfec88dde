-- ===== src/Helper/Printed.antt =====
-- `wm_itoa`: the text that it writes says the number, and the room that the text needs.
use mathlib.Core.List.{reverse, reverse-append, reverse-cons}
use warrior_man.Prelude.{
  ℕ, zero, suc, ◌+◌, ◌-◌, ◌/◌, ◌%◌, ◌^◌, ◌<◌, ◌≤◌, ◌≡◌, ◌⊎◌, ◌↔◌, inl, inr, arith, refl, ap, ◌∙◌,
  true, false, none, some, List, [], ◌∷◌, ◌++◌, length, length-append, take, get_elem?, ltb,
  ltb_of_lt, lt_of_ltb, le_of_ltb, ◌==◌, Bool-cases, eq_of_==, ne_of_==, All, All-append,
  if◌then◌else◌, append_nil,
}
use warrior_man.Helper.{put_digits, itoa, sign_mask, absolute, put_sign}
use warrior_man.Helper.Itoa.{
  tens, digits, read_digits, read_digits-reverse, put_digits_lem, put_digits-short,
  length-digits_le, le-length-digits,
}
use warrior_man.Helper.Written.{reverse_length, sign, Ends, put_sign_lem, put_sign-short}

-- What a text says: a minus before a row of digits is the number's complement in 64 bits.
abbrev pub read_long : List ℕ → ℕ
read_long [] = 0
read_long (c ∷ cs) = if c == 45 then 2 ^ 64 - read_digits 0 cs else read_digits 0 (c ∷ cs)

digits_pos : (k nn : ℕ) → 0 < length (digits (suc k) nn)
unfolding digits
digits_pos k nn = omega arith

digits_high : (k nn : ℕ) → All (λ c. 48 ≤ c) (digits k nn)
unfolding digits
digits_high zero nn = tt
digits_high (suc k) nn = elim (Bool-cases (nn / 10 == 0)) [
  | inl e ↦ rw e (omega arith, tt)
  | inr e ↦ rw e (omega arith, digits_high k (nn / 10))
]

All-reverse : (xs : List ℕ) → All (λ c. 48 ≤ c) xs → All (λ c. 48 ≤ c) (reverse xs)
All-reverse [] h = tt
All-reverse (x ∷ xs) h =
    rw reverse-cons (All-append (λ c. 48 ≤ c) (reverse xs) (x ∷ []) (All-reverse xs h.1) (h.0, tt))

-- A row of digits has no sign.
read_long-digits : (cs : List ℕ) → All (λ c. 48 ≤ c) cs → read_long cs ≡ read_digits 0 cs
read_long-digits [] h = refl
read_long-digits (c ∷ cs) h = let e : (c == 45) ≡ false = ground (arith, h.0) in rw e refl

read_digits_text : (nn : ℕ) → nn < tens 20 → read_long (reverse (digits 20 nn)) ≡ nn
read_digits_text nn h =
    read_long-digits (reverse (digits 20 nn)) (All-reverse (digits 20 nn) (digits_high 20 nn))
    ∙ read_digits-reverse 20 nn h

magnitude : ℕ → ℕ
magnitude value = absolute value (sign_mask value)

-- The text of a number.
pub decimal : ℕ → List ℕ
unfolding magnitude
decimal value = reverse (digits 20 (magnitude value) ++ sign (sign_mask value))

length-signed : (ds : List ℕ) (mask : ℕ) → length (reverse (ds ++ sign mask)) ≡ length ds + mask % 2
length-signed ds mask = elim (Bool-cases (mask % 2 == 1)) [
  | inl e ↦ rw e (
      omega (
        arith,
        reverse_length (ds ++ 45 ∷ []),
        length-append ds (45 ∷ []),
        eq_of_== (mask % 2) 1 e,
      ))
  | inr e ↦ rw (e, append_nil) (omega (arith, reverse_length ds, ne_of_== (mask % 2) 1 e))
]

-- The two steps of `wm_itoa`, on a number and a sign.
module _ (buf : List ℕ) (nn mask : ℕ) (bound : nn < tens 20) where
  abbrev ds : List ℕ
  ds = digits 20 nn

  parts-short :
      length buf ≤ length (reverse (ds ++ sign mask))
      → put_sign mask (put_digits 20 buf 0 nn) ≡ none
  parts-short room = elim (Bool-cases (ltb (length buf) (length ds))) [
    | inl t ↦
        rw
          (put_digits-short 20 buf 0 nn (omega (arith, lt_of_ltb (length buf) (length ds) t))
            (omega arith))
          refl
    | inr t ↦
        let (buf', p, l, _) =
          put_digits_lem 19 buf 0 nn bound (omega (arith, le_of_ltb (length buf) (length ds) t)) in
        rw p
          (put_sign-short buf' (0 + length ds) mask (omega (arith, l, length-signed ds mask, room)))
  ]

  parts-Ends :
      length (reverse (ds ++ sign mask)) < length buf
      → Ends (reverse (ds ++ sign mask)) (put_sign mask (put_digits 20 buf 0 nn))
  parts-Ends room =
      let count = length-signed ds mask in
      let (buf', p, l, t) = put_digits_lem 19 buf 0 nn bound (omega (arith, count, room)) in
      let zero_plus : 0 + length ds ≡ length ds = omega arith in
      rw p (
        put_sign_lem buf' ds (0 + length ds) mask zero_plus (omega (arith, digits_pos 19 nn)) t
          (omega (arith, count, l, room)))

module _ (value : ℕ) (word : value < 2 ^ 64) where
  magnitude_bound : magnitude value < tens 20
  unfolding magnitude
  magnitude_bound = ground arith

  module _ (buf : List ℕ) where
    itoa-short : length buf ≤ length (decimal value) → itoa buf value ≡ none
    unfolding itoa decimal magnitude
    itoa-short room = parts-short buf (magnitude value) (sign_mask value) magnitude_bound room

    pub itoa-Ends : length (decimal value) < length buf → Ends (decimal value) (itoa buf value)
    unfolding itoa decimal magnitude
    itoa-Ends room = parts-Ends buf (magnitude value) (sign_mask value) magnitude_bound room

  pub read_long-decimal : read_long (decimal value) ≡ value
  unfolding decimal magnitude
  read_long-decimal = elim (Bool-cases (ltb value (2 ^ 63))) [
    | inl p ↦
        let m : value % 2 ^ 64 ≡ value = omega arith in
        let z : value + 0 ≡ value = omega arith in
        rw (p, z, m, append_nil) (read_digits_text value (omega arith))
    | inr q ↦
        let m : 2 ^ 64 - 1 - (value + (2 ^ 64 - 1)) % 2 ^ 64 ≡ 2 ^ 64 - value =
          omega (arith, le_of_ltb value (2 ^ 63) q) in
        rw (q, m)
          (rw (reverse-append (digits 20 (2 ^ 64 - value)) (45 ∷ [])) (
            omega (
              arith,
              word,
              read_digits-reverse 20 (2 ^ 64 - value) (omega (arith, le_of_ltb value (2 ^ 63) q)),
            )))
  ]

  -- A number of 64 bits and a buffer with room for its text and one byte more: the answer is the
  -- length of the text, the bytes before that place read as the number, and at that place stands 0.
  pub itoa_lem :
      (buf : List ℕ)
      → length (decimal value) < length buf
      → (buf' : List ℕ) × (itoa buf value ≡ some (buf', length (decimal value)))
        × (read_long (take (length (decimal value)) buf') ≡ value)
        × (get_elem? buf' (length (decimal value)) ≡ some 0)
  itoa_lem buf room =
      let (buf', p, t, z) = itoa-Ends buf room in (buf', p, ap read_long t ∙ read_long-decimal, z)

length-decimal : (value : ℕ) → value < 2 ^ 63 → length (decimal value) ≡ length (digits 20 value)
unfolding decimal magnitude
length-decimal value small =
    let p : ltb value (2 ^ 63) ≡ true = ltb_of_lt value (2 ^ 63) small in
    let m : value % 2 ^ 64 ≡ value = omega arith in
    let z : value + 0 ≡ value = omega arith in
    rw (p, z, m, append_nil) (reverse_length (digits 20 value))

-- A number that is not negative, and a buffer of ten bytes, as those that
-- `writeStatisticsToStatusFile` has: the text leaves the buffer exactly when the number has ten digits
-- or more.
pub ten_bytes :
    (value : ℕ) (buf : List ℕ)
    → value < 2 ^ 63
    → length buf ≡ 10
    → (itoa buf value ≡ none) ↔ (10 ^ 9 ≤ value)
ten_bytes value buf small ten =
    let word : value < 2 ^ 64 = omega arith in
    let l = length-decimal value small in
    (
      λ r. elim (Bool-cases (ltb value (10 ^ 9))) [
        | inr q ↦ le_of_ltb value (10 ^ 9) q
        | inl p ↦
            let nine = length-digits_le 20 8 value (lt_of_ltb value (10 ^ 9) p) in
            let (_, e, _, _) = itoa-Ends value word buf (omega (arith, l, nine, ten)) in
            absurd (cc (r, e))
      ],
      λ big.
          itoa-short value word buf
            (omega (arith, l, ten, le-length-digits 20 9 value (omega (arith, small)) big)),
    )

-- An `int`, as the bits of a `long`.
abbrev pub IsInt : ℕ → Type 0
IsInt value = (value < 2 ^ 31) ⊎ ((2 ^ 64 - 2 ^ 31 ≤ value) × (value < 2 ^ 64))

pub word_of_int : (value : ℕ) → IsInt value → value < 2 ^ 64
word_of_int value (inl h) = omega arith
word_of_int value (inr h) = h.1

-- The text of an `int` has eleven bytes at most.
pub length-decimal_int : (value : ℕ) → IsInt value → length (decimal value) ≤ 11
unfolding decimal magnitude
length-decimal_int value (inl h) =
    omega (arith, length-decimal value (omega arith), length-digits_le 20 9 value (omega arith))
length-decimal_int value (inr h) =
    let q : ltb value (2 ^ 63) ≡ false = ground arith in
    let m : 2 ^ 64 - 1 - (value + (2 ^ 64 - 1)) % 2 ^ 64 ≡ 2 ^ 64 - value = omega arith in
    rw (q, m)
      (omega (
        arith,
        reverse_length (digits 20 (2 ^ 64 - value) ++ 45 ∷ []),
        length-append (digits 20 (2 ^ 64 - value)) (45 ∷ []),
        length-digits_le 20 9 (2 ^ 64 - value) (omega arith),
      ))
