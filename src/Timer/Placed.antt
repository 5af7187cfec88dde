-- ===== src/Timer/Placed.antt =====
-- Where a node may stand: the arithmetic of the five wheels of include/timer.h.
use warrior_man.Prelude.{
  ℕ, zero, suc, ◌+◌, ◌*◌, ◌/◌, ◌%◌, ◌^◌, ◌≤◌, ◌<◌, ◌≡◌, ◌⊎◌, inl, inr, arith, refl, ltb, ltb_of_lt,
  tests, Bool-cases,
}
use warrior_man.Timer.{Node, Head, first, nth, so_long, sub32, upper_head, head_for}

-- The ticks that a node has left.
abbrev pub left : ℕ → Node → ℕ
left c n = sub32 n.expire c

-- A node of an upper wheel whose slots are `2 ^ b` ticks wide, at tick `c`: its slot is that of its
-- expiry, which lies ahead by less than a turn, and the slot is still to come; or the wheel is due
-- to move now (`k ≤ j`: the wheels up to `k` have moved).
pub record IsAhead (b k j c i : ℕ) (n : Node) : Type 0 where
  pub is_u32 : n.expire < 2 ^ 32
  pub slot : n.expire / 2 ^ b % 64 ≡ i
  pub within : left c n < 2 ^ b * 64
  pub to_come : (c / 2 ^ b < (c + left c n) / 2 ^ b) ⊎ ((c % 2 ^ b ≡ 0) × (k ≤ j))

pub record IsNear (low c i : ℕ) (n : Node) : Type 0 where
  pub is_u32 : n.expire < 2 ^ 32
  pub slot : n.expire % 256 ≡ i
  pub at_least : low ≤ left c n
  pub within : left c n < 256

-- Nothing stands in the spare list, nor in a wheel that does not exist.
abbrev pub Placed : ℕ → ℕ → ℕ → Head → Node → Type 0
Placed k low c (first i) n = IsNear low c i n
Placed k low c (nth zero i) n = IsAhead 8 k 0 c i n
Placed k low c (nth (suc zero) i) n = IsAhead 14 k 1 c i n
Placed k low c (nth (suc (suc zero)) i) n = IsAhead 20 k 2 c i n
Placed k low c (nth (suc (suc (suc zero))) i) n = IsAhead 26 k 3 c i n
Placed k low c (nth (suc (suc (suc (suc j)))) i) n = ⊥
Placed k low c so_long n = ⊥

pub div_grows : (w c d : ℕ) → 0 < w → w ≤ d → c / w < (c + d) / w
div_grows w c d hw h = grind arith

-- `_wmTimerWheel_add` finds such a place for every node.
pub head_for-Placed :
    (k low c : ℕ) (n : Node)
    → c < 2 ^ 32
    → n.expire < 2 ^ 32
    → low ≤ left c n
    → Placed k low c (head_for n.expire c) n
unfolding head_for upper_head
head_for-Placed k low c n hc he hl = elim (Bool-cases (ltb (left c n) 256)) [
  | inl p ↦ rw p (record { is_u32 = he; slot = refl; at_least = hl; within = omega tests })
  | inr p ↦ rw p (elim (Bool-cases (ltb (left c n) (2 ^ 14))) [
    | inl q ↦ rw q (ahead 8 (omega arith) (omega tests) (omega tests))
    | inr q ↦ rw q (elim (Bool-cases (ltb (left c n) (2 ^ 20))) [
      | inl r ↦ rw r (ahead 14 (omega arith) (omega tests) (omega tests))
      | inr r ↦ rw r (elim (Bool-cases (ltb (left c n) (2 ^ 26))) [
        | inl s ↦ rw s (ahead 20 (omega arith) (omega tests) (omega tests))
        | inr s ↦
            rw (s, ltb_of_lt (left c n) (2 ^ 32) (omega arith))
              (ahead 26 (omega arith) (omega tests) (omega tests))
      ])
    ])
  ])
]
  where
    ahead :
        (b : ℕ) {j : ℕ}
        → 0 < 2 ^ b
        → 2 ^ b ≤ left c n
        → left c n < 2 ^ b * 64
        → IsAhead b k j c (n.expire / 2 ^ b % 64) n
    ahead b hb lo hi = record {
      is_u32 = he;
      slot = refl;
      within = hi;
      to_come = inl (div_grows (2 ^ b) c (left c n) hb lo);
    }
