-- ===== src/Timer/Aging.antt =====
-- One tick of the clock against the places of the nodes.
use warrior_man.Prelude.{
  ℕ, zero, suc, ◌+◌, ◌/◌, ◌%◌, ◌^◌, ◌<◌, ◌≡◌, ◌≢◌, inl, inr, arith, ℕ_discrete,
}
use warrior_man.Timer.{Node, Head, first, nth, so_long}
use warrior_man.Timer.Placed.{left, IsAhead, Placed}

-- A tick later each node has one tick less, and the upper wheels may be due.
unfoldable pub age : ℕ → ℕ
age c = (c + 1) % 2 ^ 32

-- Inside a slot the quotient stands still.
div_still : (w c : ℕ) → 0 < w → (c + 1) % w ≢ 0 → (c + 1) / w ≡ c / w
div_still w c hw h = grind arith

grows-ne-zero : (w c d : ℕ) → c / w < (c + d) / w → d ≢ 0
grows-ne-zero w c d h e = grind arith

pub left-age :
    (c : ℕ) (n : Node)
    → c < 2 ^ 32
    → n.expire < 2 ^ 32
    → left c n ≢ 0
    → left (age c) n + 1 ≡ left c n
unfolding age
left-age c n hc he h = omega arith

age-eq-suc : (w c : ℕ) → c < 2 ^ 32 → age c % w ≢ 0 → age c ≡ c + 1
unfolding age
age-eq-suc w c hc h = elim (ℕ_discrete (c + 1) (2 ^ 32)) [
  | yes e ↦ absurd (h (rw e (mod-eq_zero w)))
  | no ne ↦ omega arith
]
  where
    mod-eq_zero : (w : ℕ) → 0 % w ≡ 0
    mod-eq_zero w = grind arith

still_ahead :
    (w c d d' : ℕ)
    → 0 < w
    → c < 2 ^ 32
    → d' + 1 ≡ d
    → age c % w ≢ 0
    → c / w < (c + d) / w
    → age c / w < (age c + d') / w
still_ahead w c d d' hw hc hd nz h =
    let e = age-eq-suc w c hc nz in
    let sum : c + 1 + d' ≡ c + d = omega arith in rw (e, div_still w c hw (rw (← e) nz), sum) h

IsAhead-age :
    (b j c i : ℕ) (n : Node)
    → 0 < 2 ^ b
    → j < 4
    → c < 2 ^ 32
    → IsAhead b 4 j c i n
    → IsAhead b 0 j (age c) i n
IsAhead-age b j c i n hb hj hc a =
    let ahead : c / 2 ^ b < (c + left c n) / 2 ^ b = elim a.to_come [
      | inl h ↦ h
      | inr h ↦ absurd (omega arith)
    ] in
    let e = left-age c n hc a.is_u32 (grows-ne-zero (2 ^ b) c (left c n) ahead) in
    record {
      is_u32 = a.is_u32;
      slot = a.slot;
      within = omega arith;
      to_come = elim (ℕ_discrete (age c % 2 ^ b) 0) [
        | yes z ↦ inr (z, omega arith)
        | no nz ↦ inl (still_ahead (2 ^ b) c (left c n) (left (age c) n) hb hc e nz ahead)
      ];
    }

-- A tick has passed: no node is late, and the wheels that are due are known.
pub Placed-age :
    (c : ℕ) (h : Head) (n : Node) → c < 2 ^ 32 → Placed 4 1 c h n → Placed 0 0 (age c) h n
Placed-age c (first i) n hc p = let e = left-age c n hc p.is_u32 (omega arith) in omega arith
Placed-age c (nth zero i) n hc p = IsAhead-age 8 0 c i n (omega arith) (omega arith) hc p
Placed-age c (nth (suc zero) i) n hc p = IsAhead-age 14 1 c i n (omega arith) (omega arith) hc p
Placed-age c (nth (suc (suc zero)) i) n hc p =
    IsAhead-age 20 2 c i n (omega arith) (omega arith) hc p
Placed-age c (nth (suc (suc (suc zero))) i) n hc p =
    IsAhead-age 26 3 c i n (omega arith) (omega arith) hc p
Placed-age c (nth (suc (suc (suc (suc j)))) i) n hc p = elim p [ ]
Placed-age c so_long n hc p = elim p [ ]

-- A node that stands in a settled wheel has ticks left.
pub Placed-left : (c : ℕ) (h : Head) (n : Node) → Placed 4 1 c h n → 0 < left c n
Placed-left c (first i) n p = p.at_least
Placed-left c (nth zero i) n p = omega (arith, grows-ne-zero (2 ^ 8) c (left c n))
Placed-left c (nth (suc zero) i) n p = omega (arith, grows-ne-zero (2 ^ 14) c (left c n))
Placed-left c (nth (suc (suc zero)) i) n p = omega (arith, grows-ne-zero (2 ^ 20) c (left c n))
Placed-left c (nth (suc (suc (suc zero))) i) n p =
    omega (arith, grows-ne-zero (2 ^ 26) c (left c n))
Placed-left c (nth (suc (suc (suc (suc j)))) i) n p = elim p [ ]
Placed-left c so_long n p = elim p [ ]
