-- ===== src/Timer/Turning.antt =====
-- One turn of the upper wheels, and the slot that is due.
use warrior_man.Prelude.{
  ℕ, zero, suc, ◌+◌, ◌*◌, ◌/◌, ◌%◌, ◌^◌, ◌≤◌, ◌<◌, ◌≡◌, ◌≢◌, inl, inr, arith, sym, ap, ◌∙◌, false,
  ne_of_==, dec_lt, ℕ_discrete,
}
use warrior_man.Timer.{
  Node, Head, first, nth, so_long, same, first_index, nth_index, tvr_bits, tvn_bits,
}
use warrior_man.Timer.Placed.{left, IsAhead, Placed, div_grows}

-- A multiple of `w` leaves room for a whole slot below a multiple of `w`.
lt_of_mul_lt : (w q m : ℕ) → w * q < w * m → q < m
lt_of_mul_lt w q m h = grind arith

mul_room : (w q m : ℕ) → q < m → w * q + w ≤ w * m
mul_room w q m h = grind arith

slot_room : (w m c : ℕ) → c % w ≡ 0 → c < w * m → c + w ≤ w * m
slot_room w m c hz hc =
    let e : w * (c / w) ≡ c = grind arith in
    rw e at (mul_room w (c / w) m (lt_of_mul_lt w (c / w) m (rw e hc)))

div_inside : (w c d : ℕ) → 0 < w → c % w ≡ 0 → d < w → (c + d) / w ≡ c / w
div_inside w c d hw hz h = grind arith

-- What stands in another slot of a wheel that moves now is not due.
slot_ahead :
    (w m c d e : ℕ)
    → 0 < w
    → w * m ≡ 2 ^ 32
    → c < 2 ^ 32
    → c % w ≡ 0
    → e ≡ (c + d) % 2 ^ 32
    → e / w ≢ c / w
    → w ≤ d
slot_ahead w m c d e hw hm hc hz he h = elim (dec_lt d w) [
  | yes p ↦
      let fits : e ≡ c + d = omega (arith, slot_room w m c hz (rw hm hc)) in
      absurd (h (rw fits (div_inside w c d hw hz p)))
  | no p ↦ omega arith
]

IsAhead-next :
    (b m k j c i : ℕ) (n : Node)
    → 0 < 2 ^ b
    → 2 ^ b * m ≡ 2 ^ 32
    → c < 2 ^ 32
    → (j ≡ k → i ≢ c / 2 ^ b % 64)
    → IsAhead b k j c i n
    → IsAhead b (suc k) j c i n
IsAhead-next b m k j c i n hb hm hc other a = record {
  is_u32 = a.is_u32;
  slot = a.slot;
  within = a.within;
  to_come = elim a.to_come [
    | inl h ↦ inl h
    | inr (z, le) ↦ elim (ℕ_discrete j k) [
      | yes e ↦ inl (
          div_grows (2 ^ b) c (left c n) hb (
            slot_ahead (2 ^ b) m c (left c n) n.expire hb hm hc z (omega arith)
              (λ q. other e (sym a.slot ∙ ap (λ t. t % 64) q))))
      | no ne ↦ inr (z, omega arith)
    ]
  ];
}

-- A wheel that is not due is settled.
IsAhead-settle :
    (b k j c i : ℕ) (n : Node)
    → (c % 2 ^ b ≡ 0 → k ≤ j → ⊥)
    → IsAhead b k j c i n
    → IsAhead b 4 j c i n
IsAhead-settle b k j c i n calm a = record {
  is_u32 = a.is_u32;
  slot = a.slot;
  within = a.within;
  to_come = elim a.to_come [ inl h ↦ inl h | inr (z, le) ↦ absurd (calm z le) ];
}

-- The first wheel is inside its turn: no other wheel is due.
pub Placed-quiet :
    (low c : ℕ) (h : Head) (n : Node) → first_index c ≢ 0 → Placed 0 low c h n → Placed 4 low c h n
Placed-quiet low c (first i) n q p = p
Placed-quiet low c (nth zero i) n q p = IsAhead-settle 8 0 0 c i n (λ z le. omega arith) p
Placed-quiet low c (nth (suc zero) i) n q p = IsAhead-settle 14 0 1 c i n (λ z le. omega arith) p
Placed-quiet low c (nth (suc (suc zero)) i) n q p =
    IsAhead-settle 20 0 2 c i n (λ z le. omega arith) p
Placed-quiet low c (nth (suc (suc (suc zero))) i) n q p =
    IsAhead-settle 26 0 3 c i n (λ z le. omega arith) p
Placed-quiet low c (nth (suc (suc (suc (suc j)))) i) n q p = p
Placed-quiet low c so_long n q p = p

-- Where a wide wheel begins a slot, the narrower ones begin a turn.
low_index : (k j c : ℕ) → k < j → j < 4 → c % 2 ^ (tvr_bits + j * tvn_bits) ≡ 0 → nth_index c k ≡ 0
low_index k zero c lt le z = elim lt [ ]
low_index zero (suc zero) c lt le z = omega arith
low_index (suc k) (suc zero) c lt le z = absurd (omega arith)
low_index zero (suc (suc zero)) c lt le z = omega arith
low_index (suc zero) (suc (suc zero)) c lt le z = omega arith
low_index (suc (suc k)) (suc (suc zero)) c lt le z = absurd (omega arith)
low_index zero (suc (suc (suc zero))) c lt le z = omega arith
low_index (suc zero) (suc (suc (suc zero))) c lt le z = omega arith
low_index (suc (suc zero)) (suc (suc (suc zero))) c lt le z = omega arith
low_index (suc (suc (suc k))) (suc (suc (suc zero))) c lt le z = absurd (omega arith)
low_index k (suc (suc (suc (suc j)))) c lt le z = absurd (omega arith)

-- The wheel `k` is inside its turn: no wheel above it is due.
pub Placed-stop :
    (k low c : ℕ) (h : Head) (n : Node)
    → nth_index c k ≢ 0
    → Placed (suc k) low c h n
    → Placed 4 low c h n
Placed-stop k low c (first i) n q p = p
Placed-stop k low c (nth zero i) n q p =
    IsAhead-settle 8 (suc k) 0 c i n (λ z le. q (low_index k 0 c le (omega arith) z)) p
Placed-stop k low c (nth (suc zero) i) n q p =
    IsAhead-settle 14 (suc k) 1 c i n (λ z le. q (low_index k 1 c le (omega arith) z)) p
Placed-stop k low c (nth (suc (suc zero)) i) n q p =
    IsAhead-settle 20 (suc k) 2 c i n (λ z le. q (low_index k 2 c le (omega arith) z)) p
Placed-stop k low c (nth (suc (suc (suc zero))) i) n q p =
    IsAhead-settle 26 (suc k) 3 c i n (λ z le. q (low_index k 3 c le (omega arith) z)) p
Placed-stop k low c (nth (suc (suc (suc (suc j)))) i) n q p = p
Placed-stop k low c so_long n q p = p

other_slot :
    (k j i c : ℕ) → same (nth j i) (nth k (nth_index c k)) ≡ false → j ≡ k → i ≢ nth_index c j
other_slot k j i c q e e' =
    let q' : same (nth j i) (nth j (nth_index c j)) ≡ false = rw e (rw e at q) in ground arith

-- The wheel `k` has moved its slot: what stands elsewhere waits for later.
pub Placed-next :
    (k low c : ℕ) (h : Head) (n : Node)
    → c < 2 ^ 32
    → same h (nth k (nth_index c k)) ≡ false
    → Placed k low c h n
    → Placed (suc k) low c h n
Placed-next k low c (first i) n hc q p = p
Placed-next k low c (nth zero i) n hc q p =
    IsAhead-next 8 (2 ^ 24) k 0 c i n (omega arith) (omega arith) hc (other_slot k 0 i c q) p
Placed-next k low c (nth (suc zero) i) n hc q p =
    IsAhead-next 14 (2 ^ 18) k 1 c i n (omega arith) (omega arith) hc (other_slot k 1 i c q) p
Placed-next k low c (nth (suc (suc zero)) i) n hc q p =
    IsAhead-next 20 (2 ^ 12) k 2 c i n (omega arith) (omega arith) hc (other_slot k 2 i c q) p
Placed-next k low c (nth (suc (suc (suc zero))) i) n hc q p =
    IsAhead-next 26 (2 ^ 6) k 3 c i n (omega arith) (omega arith) hc (other_slot k 3 i c q) p
Placed-next k low c (nth (suc (suc (suc (suc j)))) i) n hc q p = p
Placed-next k low c so_long n hc q p = p

-- What the first wheel holds at its present slot expires now; all else expires later.
pub expire-eq :
    (c : ℕ) (n : Node) → c < 2 ^ 32 → Placed 4 0 c (first (first_index c)) n → n.expire ≡ c
expire-eq c n hc p = omega arith

pub Placed-later :
    (c : ℕ) (h : Head) (n : Node)
    → c < 2 ^ 32
    → same h (first (first_index c)) ≡ false
    → Placed 4 0 c h n
    → Placed 4 1 c h n
Placed-later c (first i) n hc q p = let ne = ne_of_== i (first_index c) q in omega arith
Placed-later c (nth zero i) n hc q p = p
Placed-later c (nth (suc zero) i) n hc q p = p
Placed-later c (nth (suc (suc zero)) i) n hc q p = p
Placed-later c (nth (suc (suc (suc zero))) i) n hc q p = p
Placed-later c (nth (suc (suc (suc (suc j)))) i) n hc q p = p
Placed-later c so_long n hc q p = p
