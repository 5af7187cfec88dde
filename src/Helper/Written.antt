-- ===== src/Helper/Written.antt =====
-- `wm_itoa` as a whole: the text that it leaves in the buffer, and the room that it needs.
use mathlib.Core.List.{reverse, reverse-cons}
use warrior_man.Prelude.{
  ℕ, suc, ◌+◌, ◌-◌, ◌%◌, ◌<◌, ◌≤◌, ◌≡◌, inl, inr, arith, refl, sym, ap, subst, ◌∙◌, Bool, false,
  Option, none, some, List, [], ◌∷◌, ◌++◌, length, length-append, length-set, length-drop, take,
  drop, set, get_elem?, ltb, ltb_of_lt, ◌==◌, Bool-cases, eq_of_==, ne_of_==, take-set_next,
  take-set_above, if◌then◌else◌, take_and_drop, take-append_le, take-length, get_elem?-set_self,
  append_nil,
}
use warrior_man.Helper.{put, turn_round, put_sign, end_text}
use warrior_man.Helper.Reversed.{turn_round_lem}

abbrev pub negative : ℕ → Bool
negative mask = mask % 2 == 1

abbrev pub sign : ℕ → List ℕ
sign mask = if negative mask then 45 ∷ [] else []

pub reverse_length : (xs : List ℕ) → length (reverse xs) ≡ length xs
reverse_length [] = refl
reverse_length (x ∷ xs) =
    rw reverse-cons (omega (arith, length-append (reverse xs) (x ∷ []), reverse_length xs))

-- A text of `n` bytes, and its end mark behind it.
abbrev pub Ends : List ℕ → Option (List ℕ × ℕ) → Type 0
Ends txt r =
    (buf' : List ℕ) × (r ≡ some (buf', length txt))
    × (take (length txt) buf' ≡ txt)
    × (get_elem? buf' (length txt) ≡ some 0)

turned :
    (buf txt : List ℕ) (n : ℕ)
    → n ≡ length txt
    → 0 < n
    → n < length buf
    → take n buf ≡ txt
    → Ends (reverse txt) (end_text n (turn_round (suc n) buf 0 (n - 1)))
turned buf txt n en pos room t =
    let post = drop n buf in
    let whole : buf ≡ txt ++ post = sym (take_and_drop n buf) ∙ ap (λ r. r ++ post) t in
    let round : turn_round (suc n) buf 0 (n - 1) ≡ some (reverse txt ++ post) =
      ap (λ b. turn_round (suc n) b 0 (n - 1)) whole
      ∙ turn_round_lem (suc n) [] txt post 0 (n - 1) refl (omega (arith, en, pos))
          (omega (arith, en)) in
    let rl = reverse_length txt in
    let inside : n < length (reverse txt ++ post) =
      omega (arith, length-append (reverse txt) post, rl, en, length-drop n buf, room) in
    let here : length (reverse txt) ≡ n = rl ∙ sym en in
    let final = set (reverse txt ++ post) n 0 in
    let step : end_text n (turn_round (suc n) buf 0 (n - 1)) ≡ some (final, n) =
      rw (round, put, ltb_of_lt n (length (reverse txt ++ post)) inside) refl in
    (
      final,
      step ∙ ap (λ m. some (final, m)) (sym here),
      ap (λ m. take m final) here
          ∙ take-set_above (reverse txt ++ post) n 0
          ∙ take-append_le n (reverse txt) post (omega (arith, here))
          ∙ ap (λ m. take m (reverse txt)) (sym here)
          ∙ take-length (reverse txt),
      ap (get_elem? final) here ∙ get_elem?-set_self (reverse txt ++ post) n 0 inside,
    )

-- With the place of the sign, the text is the digits and the sign.
signed_lem :
    (buf ds : List ℕ) (i mask : ℕ)
    → i ≡ length ds
    → take i buf ≡ ds
    → i < length buf
    → (take (i + mask % 2) (set buf i 45) ≡ ds ++ sign mask)
      × (i + mask % 2 ≡ length (ds ++ sign mask))
signed_lem buf ds i mask hi t room = elim (Bool-cases (mask % 2 == 1)) [
  | inl e ↦
      let n : mask % 2 ≡ 1 = eq_of_== (mask % 2) 1 e in
      rw (e, n)
        (
          take-set_next buf i 45 room ∙ ap (λ r. r ++ 45 ∷ []) t,
          omega (arith, hi, length-append ds (45 ∷ [])),
        )
  | inr e ↦
      let n : mask % 2 ≡ 0 = omega (arith, ne_of_== (mask % 2) 1 e) in
      let z : i + 0 ≡ i = omega arith in
      rw (e, n)
        (rw (z, append_nil) (take-set_above buf i 45 ∙ t), rw append_nil (omega (arith, hi)))
]

pub put_sign_lem :
    (buf ds : List ℕ) (i mask : ℕ)
    → i ≡ length ds
    → 0 < i
    → take i buf ≡ ds
    → i + mask % 2 < length buf
    → Ends (reverse (ds ++ sign mask)) (put_sign mask (some (buf, i)))
put_sign_lem buf ds i mask hi pos t room =
    let l1 = length-set buf i 45 in
    let n = i + mask % 2 in
    let (signed, count) = signed_lem buf ds i mask hi t (omega arith) in
    let buf2 = set (set buf i 45) n 0 in
    let r =
      turned buf2 (ds ++ sign mask) n count (omega arith)
        (omega (arith, l1, length-set (set buf i 45) n 0, room))
        (take-set_above (set buf i 45) n 0 ∙ signed) in
    let step : put_sign mask (some (buf, i)) ≡ end_text n (turn_round (suc n) buf2 0 (n - 1)) =
      rw
        (
          put_sign,
          put,
          ltb_of_lt i (length buf) (omega arith),
          ltb_of_lt n (length (set buf i 45)) (omega (arith, l1)),
        )
        refl in
    subst (Ends (reverse (ds ++ sign mask))) (sym step) r

pub put_sign-short :
    (buf : List ℕ) (i mask : ℕ) → length buf ≤ i + mask % 2 → put_sign mask (some (buf, i)) ≡ none
put_sign-short buf i mask room = elim (Bool-cases (ltb i (length buf))) [
  | inr t ↦ rw (put_sign, put, t) refl
  | inl t ↦
      let u : ltb (i + mask % 2) (length (set buf i 45)) ≡ false =
        ground (arith, length-set buf i 45) in
      rw (put_sign, put, t, u) refl
]
