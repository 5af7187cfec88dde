-- ===== src/WmString/Utf8.antt =====
-- `wmString_utf8_decode` and `wmString_utf8_length`, on a machine whose `char` is signed (x86-64).
--
-- A pointer into the bytes is the list of the bytes from there on, each below 256; `none` is a read
-- past the end of the list.
use warrior_man.Prelude.{
  ℕ, zero, suc, ◌+◌, ◌-◌, ◌*◌, ◌/◌, ◌%◌, ◌^◌, ◌≤◌, ◌<◌, ◌≡◌, arith, refl, Bool, true, false, Option,
  none, some, List, [], ◌∷◌, ◌++◌, length, All, ltb, leb, if◌then◌else◌, ltb_of_lt, leb_of_le,
}

-- The `u_int32_t` that a `char` becomes: the sign is extended.
abbrev pub widen : ℕ → ℕ
widen c = if ltb c 128 then c else c + (2 ^ 32 - 256)

-- `a < b` of two `int`s, by their bit patterns.
abbrev pub int_below : ℕ → ℕ → Bool
int_below a b = ltb ((a + 2 ^ 31) % 2 ^ 32) ((b + 2 ^ 31) % 2 ^ 32)

-- `while (len)`, with what follows it; the result and the pointer.
pub continued : (len u valid : ℕ) → List ℕ → Option (ℕ × List ℕ)
continued zero u valid p = some (if ltb valid u then u else 0xffffffff, p)
continued (suc len) u valid [] = none
continued (suc len) u valid (c ∷ p) =
    let rest = continued len (u * 64 % 2 ^ 32 + widen c % 64) valid p in
    if ltb (widen c) 0x80 then some (0xffffffff, p) else rest

-- `if (n - 1 < len)`: too few bytes, and the pointer stays.
abbrev pub enough : (n len u valid : ℕ) → List ℕ → List ℕ → Option (ℕ × List ℕ)
enough n len u valid here p =
    let rest = continued len u valid p in
    if ltb ((n + 2 ^ 64 - 1) % 2 ^ 64) len then some (0xfffffffe, here) else rest

-- `wmString_utf8_decode`
pub utf8_decode : List ℕ → ℕ → Option (ℕ × List ℕ)
utf8_decode [] n = none
utf8_decode (c ∷ p) n =
    let u = widen c in
    if leb 0xf0 u
    then enough n 3 (u % 8) 0xffff (c ∷ p) p
    else if leb 0xe0 u
    then enough n 2 (u % 16) 0x7ff (c ∷ p) p
    else if leb 0xc2 u
    then enough n 1 (u % 32) 0x7f (c ∷ p) p
    else some (0xffffffff, p)

-- The loop of `wmString_utf8_length`: `left` bytes before `last`, and the count so far; `none` also
-- where the fuel runs out.
pub count_chars : (fuel left n len : ℕ) → List ℕ → Option ℕ
count_chars zero left n len p = none
count_chars (suc fuel) zero n len p = some len
count_chars (suc fuel) (suc left) n len [] = none
count_chars (suc fuel) (suc left) n len (c ∷ p) =
    let plain = count_chars fuel left n (len + 1) p in
    let decoded : Option ℕ = elim (utf8_decode (c ∷ p) n) [
      | none ↦ none
      | some (u, p') ↦
          let next = count_chars fuel (suc left - (suc (length p) - length p')) n (len + 1) p' in
          if ltb 0x10ffff u then some n else next
    ] in
    if int_below (widen c) 0x80 then plain else decoded

-- `wmString_utf8_length`: each round moves the pointer, so one round more than `n` is fuel enough.
pub utf8_length : List ℕ → ℕ → Option ℕ
utf8_length p n = count_chars (suc n) n n 0 p

-- The four bytes of a code point from 0x10000 on.
abbrev pub utf8_encode : ℕ → List ℕ
utf8_encode u =
    (0xf0 + u / 2 ^ 18) ∷ (0x80 + u / 2 ^ 12 % 64) ∷ (0x80 + u / 2 ^ 6 % 64) ∷ (0x80 + u % 64) ∷ []

widen_high : (c : ℕ) → 128 ≤ c → widen c ≡ c + (2 ^ 32 - 256)
widen_high c h = ground arith

continued_step :
    (len u valid c : ℕ) (p : List ℕ)
    → 128 ≤ c
    → c < 256
    → continued (suc len) u valid (c ∷ p) ≡ continued len (u * 64 % 2 ^ 32 + c % 64) valid p
unfolding continued
continued_step len u valid c p lo hi =
    let w = widen_high c lo in
    let b : (c + (2 ^ 32 - 256)) % 64 ≡ c % 64 = omega arith in
    let nb : ltb (c + (2 ^ 32 - 256)) 0x80 ≡ false = ground arith in rw (w, b, nb) refl

-- Every byte from 128 on is taken for the first of four.
decode_high :
    (c n : ℕ) (p : List ℕ)
    → 128 ≤ c
    → c < 256
    → utf8_decode (c ∷ p) n ≡ enough n 3 (c % 8) 0xffff (c ∷ p) p
unfolding utf8_decode
decode_high c n p lo hi =
    let w = widen_high c lo in
    let b : (c + (2 ^ 32 - 256)) % 8 ≡ c % 8 = omega arith in
    let big = leb_of_le 0xf0 (c + (2 ^ 32 - 256)) (omega arith) in rw (w, b, big) refl

-- A code point from 0x10000 to 0x1fffff comes back from its four bytes, whatever bytes follow, and
-- the pointer stands behind them.
pub decode-encode :
    (u n : ℕ) (p : List ℕ)
    → 0x10000 ≤ u
    → u < 0x200000
    → 4 ≤ n
    → n < 2 ^ 64
    → utf8_decode (utf8_encode u ++ p) n ≡ some (u, p)
unfolding continued
decode-encode u n p lo hi hn hw =
    let room : ltb ((n + 2 ^ 64 - 1) % 2 ^ 64) 3 ≡ false = ground arith in
    let wide : ltb 0xffff u ≡ true = ltb_of_lt 0xffff u (omega arith) in
    let whole : (((((0xf0 + u / 2 ^ 18) % 8) * 64 % 2 ^ 32 + (0x80 + u / 2 ^ 12 % 64) % 64)
                * 64
                % 2 ^ 32
              + (0x80 + u / 2 ^ 6 % 64) % 64)
            * 64
            % 2 ^ 32
          + (0x80 + u % 64) % 64)
        ≡ u =
      omega arith in
    rw
      (
        decode_high (0xf0 + u / 2 ^ 18) n _ (omega arith) (omega arith),
        room,
        continued_step 2 ((0xf0 + u / 2 ^ 18) % 8) 0xffff (0x80 + u / 2 ^ 12 % 64) _ (omega arith)
            (omega arith),
        continued_step 1 _ 0xffff (0x80 + u / 2 ^ 6 % 64) _ (omega arith) (omega arith),
        continued_step 0 _ 0xffff (0x80 + u % 64) _ (omega arith) (omega arith),
        whole,
        wide,
      )
      refl

-- A character of two or three bytes is not decoded: with fewer than four bytes left, any first byte
-- from 128 on gives 0xfffffffe, and the pointer stays.
pub decode_short :
    (c n : ℕ) (p : List ℕ)
    → 128 ≤ c
    → c < 256
    → 0 < n
    → n < 4
    → utf8_decode (c ∷ p) n ≡ some (0xfffffffe, c ∷ p)
decode_short c n p lo hi pos small =
    let short : ltb ((n + 2 ^ 64 - 1) % 2 ^ 64) 3 ≡ true = ground arith in
    rw (decode_high c n p lo hi, short) refl

plain_byte : (c : ℕ) → c < 256 → int_below (widen c) 0x80 ≡ true
plain_byte c h = ground arith

count_chars_lem :
    (fuel left n len : ℕ) (p : List ℕ)
    → left < fuel
    → left ≤ length p
    → All (λ c. c < 256) p
    → count_chars fuel left n len p ≡ some (len + left)
unfolding count_chars
count_chars_lem zero left n len p hf hp h = absurd (omega arith)
count_chars_lem (suc fuel) zero n len p hf hp h =
    let e : len ≡ len + 0 = omega arith in rw (← e) refl
count_chars_lem (suc fuel) (suc left) n len [] hf hp h = absurd (omega arith)
count_chars_lem (suc fuel) (suc left) n len (c ∷ p) hf hp h =
    let e : len + 1 + left ≡ len + suc left = omega arith in
    rw (count_chars, plain_byte c h.0, ← e)
      (count_chars_lem fuel left n (len + 1) p (omega arith) (omega arith) h.1)

-- The length counts bytes, not characters: it is `n` for any `n` bytes.
pub utf8_length_lem :
    (p : List ℕ) (n : ℕ) → n ≤ length p → All (λ c. c < 256) p → utf8_length p n ≡ some n
unfolding utf8_length
utf8_length_lem p n hp h =
    let e : 0 + n ≡ n = omega arith in
    rw (utf8_length, count_chars_lem (suc n) n n 0 p (omega arith) hp h, e) refl
