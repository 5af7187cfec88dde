-- ===== src/Helper.antt =====
-- include/helper.h: numbers written as text.
--
-- A `char[]` is the list of its bytes; a write past its end gives `none`. A `long` is its 64 bits.
mod Reversed
mod Itoa
mod Written
pub mod Printed
mod Tests
use warrior_man.Prelude.{
  ℕ, zero, suc, ◌+◌, ◌-◌, ◌*◌, ◌/◌, ◌%◌, ◌^◌, Bool, true, false, Option, none, some, List, [], ◌∷◌,
  length, get_elem?, set, ltb, ◌==◌, if◌then◌else◌,
}

-- `buf[i] = c`
abbrev pub put : List ℕ → ℕ → ℕ → Option (List ℕ)
put buf i c = if ltb i (length buf) then some (set buf i c) else none

-- The `do` loop of `wm_itoa`: the digits from `buf[i]` on, the lowest first, and the index behind them.
unfoldable pub put_digits : ℕ → List ℕ → ℕ → ℕ → Option (List ℕ × ℕ)
put_digits zero buf i nn = none
put_digits (suc fuel) buf i nn = elim (put buf i (nn % 10 + 48)) [
  | none ↦ none
  | some buf' ↦ elim (nn / 10 == 0) [
    | true ↦ some (buf', i + 1)
    | false ↦ put_digits fuel buf' (i + 1) (nn / 10)
  ]
]

-- The body of the `for` loop: the bytes at `i` and `j` change places.
abbrev pub swap : List ℕ → ℕ → ℕ → Option (List ℕ)
swap buf i j = elim (get_elem? buf i) [
  | none ↦ none
  | some a ↦ elim (get_elem? buf j) [ none ↦ none | some b ↦ some (set (set buf i b) j a) ]
]

-- The `for` loop.
unfoldable pub turn_round : ℕ → List ℕ → ℕ → ℕ → Option (List ℕ)
turn_round zero buf i j = none
turn_round (suc fuel) buf i j = elim (ltb i j) [
  | false ↦ some buf
  | true ↦ elim (swap buf i j) [ none ↦ none | some buf' ↦ turn_round fuel buf' (i + 1) (j - 1) ]
]

-- `value >> 63`, with the sign bit in every place.
abbrev pub sign_mask : ℕ → ℕ
sign_mask value = if ltb value (2 ^ 63) then 0 else 2 ^ 64 - 1

-- `(value + sign_mask) ^ sign_mask`; to combine with a word of ones turns every bit over.
abbrev pub absolute : ℕ → ℕ → ℕ
absolute value mask =
    let sum = (value + mask) % 2 ^ 64 in if mask == 0 then sum else 2 ^ 64 - 1 - sum

abbrev pub numbered : ℕ → Option (List ℕ) → Option (List ℕ × ℕ)
numbered n none = none
numbered n (some buf) = some (buf, n)

abbrev pub end_text : ℕ → Option (List ℕ) → Option (List ℕ × ℕ)
end_text n none = none
end_text n (some buf) = numbered n (put buf n 0)

-- The sign behind the digits, if there is one, and the end mark; then the text is turned round.
abbrev pub put_sign : ℕ → Option (List ℕ × ℕ) → Option (List ℕ × ℕ)
put_sign mask none = none
put_sign mask (some (buf, i)) = elim (put buf i 45) [
  | none ↦ none
  | some buf' ↦
      let n = i + mask % 2 in
      elim (put buf' n 0) [
        | none ↦ none
        | some buf'' ↦ end_text n (turn_round (suc n) buf'' 0 (n - 1))
      ]
]

-- `wm_itoa`, with its answer, the length of the text. A word has twenty digits at most.
unfoldable pub itoa : List ℕ → ℕ → Option (List ℕ × ℕ)
itoa buf value =
    let mask = sign_mask value in put_sign mask (put_digits 20 buf 0 (absolute value mask))
