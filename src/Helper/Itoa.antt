-- ===== src/Helper/Itoa.antt =====
-- What `wm_itoa` writes: the digits of the number, which read back give it, within the room it needs.
use mathlib.Core.List.{reverse, reverse-cons}
use warrior_man.Prelude.{
  ℕ, zero, suc, ◌+◌, ◌-◌, ◌*◌, ◌/◌, ◌%◌, ◌<◌, ◌≤◌, ◌≡◌, inl, inr, arith, refl, sym, ap, subst, ◌∙◌,
  true, false, Option, none, some, List, [], ◌∷◌, ◌++◌, length, length-set, take, set, ltb,
  ltb_of_lt, lt_of_ltb, ◌==◌, Bool-cases, eq_of_==, append_assoc, take-set_next,
}
use warrior_man.Helper.{put, put_digits}

abbrev pub tens : ℕ → ℕ
tens zero = 1
tens (suc k) = 10 * tens k

-- The digits of a number, the lowest first.
unfoldable pub digits : ℕ → ℕ → List ℕ
digits zero nn = []
digits (suc k) nn =
    (nn % 10 + 48) ∷ (elim (nn / 10 == 0) [ true ↦ [] | false ↦ digits k (nn / 10) ])

-- What a text says that is a row of digits, the highest first.
abbrev pub read_digits : ℕ → List ℕ → ℕ
read_digits n [] = n
read_digits n (c ∷ cs) = read_digits (n * 10 + (c - 48)) cs

read_digits-snoc :
    (n c : ℕ) (cs : List ℕ) → read_digits n (cs ++ c ∷ []) ≡ read_digits n cs * 10 + (c - 48)
read_digits-snoc n c [] = refl
read_digits-snoc n c (d ∷ cs) = read_digits-snoc (n * 10 + (d - 48)) c cs

pub read_digits-reverse : (k nn : ℕ) → nn < tens k → read_digits 0 (reverse (digits k nn)) ≡ nn
unfolding digits
read_digits-reverse zero nn h = omega arith
read_digits-reverse (suc k) nn h = elim (Bool-cases (nn / 10 == 0)) [
  | inl e ↦ rw e (omega (arith, eq_of_== (nn / 10) 0 e))
  | inr e ↦
      let ih = read_digits-reverse k (nn / 10) (omega arith) in
      rw (e, reverse-cons)
        (read_digits-snoc 0 (nn % 10 + 48) (reverse (digits k (nn / 10))) ∙ omega (arith, ih))
]

tens_pos : (b : ℕ) → 0 < tens b
tens_pos zero = omega arith
tens_pos (suc b) = omega (arith, tens_pos b)

-- A digit more for each power of ten.
pub length-digits_le : (k b nn : ℕ) → nn < tens (suc b) → length (digits k nn) ≤ suc b
unfolding digits
length-digits_le zero b nn h = omega arith
length-digits_le (suc k) zero nn h =
    let e : (nn / 10 == 0) ≡ true = ground arith in rw e (omega arith)
length-digits_le (suc k) (suc b) nn h = elim (Bool-cases (nn / 10 == 0)) [
  | inl e ↦ rw e (omega arith)
  | inr e ↦ rw e (omega (arith, length-digits_le k b (nn / 10) (omega arith)))
]

pub le-length-digits : (k b nn : ℕ) → nn < tens k → tens b ≤ nn → suc b ≤ length (digits k nn)
unfolding digits
le-length-digits zero zero nn h low = absurd (omega arith)
le-length-digits zero (suc b) nn h low = absurd (omega (arith, tens_pos b))
le-length-digits (suc k) zero nn h low = omega arith
le-length-digits (suc k) (suc b) nn h low = elim (Bool-cases (nn / 10 == 0)) [
  | inl e ↦ absurd (omega (arith, tens_pos b, eq_of_== (nn / 10) 0 e))
  | inr e ↦ rw e (omega (arith, le-length-digits k b (nn / 10) (omega arith) (omega arith)))
]

-- What holds of the buffer once the loop has written `ds` from `i` on.
abbrev pub Put : List ℕ → ℕ → List ℕ → Option (List ℕ × ℕ) → Type 0
Put buf i ds r =
    (buf' : List ℕ) × (r ≡ some (buf', i + length ds))
    × (length buf' ≡ length buf)
    × (take (i + length ds) buf' ≡ take i buf ++ ds)

module _ (k nn : ℕ) where
  digits-one : (nn / 10 == 0) ≡ true → digits (suc k) nn ≡ (nn % 10 + 48) ∷ []
  unfolding digits
  digits-one e = rw e refl

  digits-more : (nn / 10 == 0) ≡ false → digits (suc k) nn ≡ (nn % 10 + 48) ∷ digits k (nn / 10)
  unfolding digits
  digits-more e = rw e refl

  module _ (buf : List ℕ) (i : ℕ) (h : i < length buf) where
    abbrev after : List ℕ
    after = set buf i (nn % 10 + 48)

    put_digits-one : (nn / 10 == 0) ≡ true → put_digits (suc k) buf i nn ≡ some (after, i + 1)
    unfolding put_digits
    put_digits-one e = rw (put_digits, put, ltb_of_lt i (length buf) h, e) refl

    put_digits-more :
        (nn / 10 == 0) ≡ false → put_digits (suc k) buf i nn ≡ put_digits k after (i + 1) (nn / 10)
    unfolding put_digits
    put_digits-more e = rw (put_digits, put, ltb_of_lt i (length buf) h, e) refl

put_digits-last :
    (k : ℕ) (buf : List ℕ) (i nn : ℕ)
    → i < length buf
    → (nn / 10 == 0) ≡ true
    → Put buf i (digits (suc k) nn) (put_digits (suc k) buf i nn)
put_digits-last k buf i nn fits e =
    subst (λ ds. Put buf i ds (put_digits (suc k) buf i nn)) (sym (digits-one k nn e))
      (
        set buf i (nn % 10 + 48),
        put_digits-one k nn buf i fits e,
        length-set buf i (nn % 10 + 48),
        take-set_next buf i (nn % 10 + 48) fits,
      )

put_digits-outside :
    (k : ℕ) (buf : List ℕ) (i nn : ℕ)
    → ltb i (length buf) ≡ false
    → put_digits (suc k) buf i nn ≡ none
unfolding put_digits
put_digits-outside k buf i nn t = rw (put_digits, put, t) refl

pub put_digits_lem :
    (k : ℕ) (buf : List ℕ) (i nn : ℕ)
    → nn < tens (suc k)
    → i + length (digits (suc k) nn) ≤ length buf
    → Put buf i (digits (suc k) nn) (put_digits (suc k) buf i nn)
put_digits_lem zero buf i nn h room =
    let e : (nn / 10 == 0) ≡ true = ground arith in
    put_digits-last zero buf i nn (omega (arith, ap length (digits-one zero nn e), room)) e
put_digits_lem (suc k) buf i nn h room = elim (Bool-cases (nn / 10 == 0)) [
  | inl e ↦
      put_digits-last (suc k) buf i nn (omega (arith, ap length (digits-one (suc k) nn e), room)) e
  | inr e ↦
      let c = nn % 10 + 48 in
      let ds = digits (suc k) (nn / 10) in
      let count = ap length (digits-more (suc k) nn e) in
      let fits : i < length buf = omega (arith, count, room) in
      let (buf', p, l, t) =
        put_digits_lem k (set buf i c) (i + 1) (nn / 10) (omega arith)
          (omega (arith, count, room, length-set buf i c)) in
      let shift : i + 1 + length ds ≡ i + suc (length ds) = omega arith in
      subst (λ ds. Put buf i ds (put_digits (suc (suc k)) buf i nn))
        (sym (digits-more (suc k) nn e))
        (
          buf',
          put_digits-more (suc k) nn buf i fits e ∙ p ∙ ap (λ n. some (buf', n)) shift,
          l ∙ length-set buf i c,
          ap (λ n. take n buf') (sym shift)
              ∙ t
              ∙ ap (λ r. r ++ ds) (take-set_next buf i c fits)
              ∙ append_assoc (take i buf) (c ∷ []) ds,
        )
]

pub put_digits-short :
    (k : ℕ) (buf : List ℕ) (i nn : ℕ)
    → length buf < i + length (digits k nn)
    → i ≤ length buf
    → put_digits k buf i nn ≡ none
put_digits-short zero buf i nn room fits = unfold put_digits in refl
put_digits-short (suc k) buf i nn room fits = elim (Bool-cases (ltb i (length buf))) [
  | inr t ↦ put_digits-outside k buf i nn t
  | inl t ↦
      let h = lt_of_ltb i (length buf) t in
      elim (Bool-cases (nn / 10 == 0)) [
        | inl e ↦ absurd (omega (arith, room, h, ap length (digits-one k nn e)))
        | inr e ↦
            let c = nn % 10 + 48 in
            put_digits-more k nn buf i h e
            ∙ put_digits-short k (set buf i c) (i + 1) (nn / 10)
                (omega (arith, room, ap length (digits-more k nn e), length-set buf i c))
                (omega (arith, h, length-set buf i c))
      ]
]
