-- ===== src/Timer/Valid.antt =====
-- The wheel's invariant, and that linking, adding, cascading and turning keep it.
use warrior_man.Prelude.{
  ℕ, zero, suc, ◌+◌, ◌%◌, ◌^◌, ◌≤◌, ◌<◌, ◌≡◌, inl, inr, arith, refl, ap, subst, ◌∙◌, true, false,
  List, [], ◌∷◌, ◌++◌, All, All-snoc, All-mono, ne_of_==, eq_of_==, ==_self, Bool-cases, ◌==◌,
}
use warrior_man.Timer.{
  Node, Head, first, nth, so_long, same, Wheel, replace, first_index, nth_index, head_for, link,
  link_all, cascade, turn_round, turn, advance,
}
use warrior_man.Timer.Placed.{left, Placed, head_for-Placed}
use warrior_man.Timer.Aging.{age, Placed-age}
use warrior_man.Timer.Turning.{Placed-next, Placed-stop, Placed-quiet}

abbrev pub Standing : ℕ → ℕ → Wheel → Type 0
Standing k low w = (h : Head) → All (Placed k low w.currtick h) (w.vec h)

-- Between two ticks: the tick is a `uint32_t`, each node stands where its expiry says and has a tick
-- left at least, and the spare list is empty.
pub record IsValid (w : Wheel) : Type 0 where
  pub tick_u32 : w.currtick < 2 ^ 32
  pub placed : Standing 4 1 w

pub same-eq : (h k : Head) → same h k ≡ true → h ≡ k
same-eq (first i) (first j) e = ap first (eq_of_== i j e)
same-eq (nth n i) (nth k j) e = ground arith
same-eq so_long so_long e = refl
same-eq _ _ e = cc

same_self : (h : Head) → same h h ≡ true
same_self (first i) = ==_self i
same_self (nth n i) = rw (==_self n) (==_self i)
same_self so_long = refl

pub replace_self : (vec : Head → List Node) (h : Head) (ns : List Node) → replace vec h ns h ≡ ns
replace_self vec h ns = rw (same_self h)

same_comm : (h k : Head) → same h k ≡ same k h
same_comm (first i) (first j) = ground arith
same_comm (nth n i) (nth k j) = ground arith
same_comm so_long so_long = refl
same_comm (first i) (nth k j) = refl
same_comm _ _ = refl

-- What holds of every list still holds when one is replaced.
pub replace-All :
    (P Q : Head → Node → Type 0) (vec : Head → List Node) (h : Head) (ns : List Node)
    → ((k : Head) → All (P k) (vec k))
    → ((k : Head) (n : Node) → same k h ≡ false → P k n → Q k n)
    → All (Q h) ns
    → (k : Head) → All (Q k) (replace vec h ns k)
replace-All P Q vec h ns hv go hn k = elim (Bool-cases (same h k)) [
  | inl e ↦ rw e (subst (λ k. All (Q k) ns) (same-eq h k e) hn)
  | inr e ↦ rw e (All-mono (P k) (Q k) (vec k) (λ n. go k n (same_comm k h ∙ e)) (hv k))
]

pub Placed-u32 : (k low c : ℕ) (h : Head) (n : Node) → Placed k low c h n → n.expire < 2 ^ 32
Placed-u32 k low c (first i) n p = p.is_u32
Placed-u32 k low c (nth zero i) n p = p.is_u32
Placed-u32 k low c (nth (suc zero) i) n p = p.is_u32
Placed-u32 k low c (nth (suc (suc zero)) i) n p = p.is_u32
Placed-u32 k low c (nth (suc (suc (suc zero))) i) n p = p.is_u32
Placed-u32 k low c (nth (suc (suc (suc (suc j)))) i) n p = elim p [ ]
Placed-u32 k low c so_long n p = elim p [ ]

pub link-Standing :
    (k low : ℕ) (w : Wheel) (n : Node)
    → w.currtick < 2 ^ 32
    → n.expire < 2 ^ 32
    → low ≤ left w.currtick n
    → Standing k low w
    → Standing k low (link w n)
unfolding link
link-Standing k low w n hc he hl s =
    replace-All (Placed k low w.currtick) (Placed k low w.currtick) w.vec h (w.vec h ++ n ∷ []) s
      (λ h' m _ p. p)
      (All-snoc (Placed k low w.currtick h) (w.vec h) n (s h)
        (head_for-Placed k low w.currtick n hc he hl))
  where
    h : Head
    h = head_for n.expire w.currtick

pub currtick-link : (w : Wheel) (n : Node) → (link w n).currtick ≡ w.currtick
unfolding link
currtick-link w n = refl

currtick-link_all : (w : Wheel) (ns : List Node) → (link_all w ns).currtick ≡ w.currtick
unfolding link_all
currtick-link_all w [] = refl
currtick-link_all w (n ∷ ns) = currtick-link_all (link w n) ns ∙ currtick-link w n

currtick-cascade : (w : Wheel) (h : Head) → (cascade w h).currtick ≡ w.currtick
unfolding cascade
currtick-cascade w h = currtick-link_all _ (w.vec h)

link_all-Standing :
    (k : ℕ) (w : Wheel) (ns : List Node)
    → w.currtick < 2 ^ 32
    → All (λ n. n.expire < 2 ^ 32) ns
    → Standing k 0 w
    → Standing k 0 (link_all w ns)
unfolding link_all
link_all-Standing k w [] hc hn s = s
link_all-Standing k w (n ∷ ns) hc hn s =
    link_all-Standing k (link w n) ns (rw (currtick-link w n) hc) hn.1
      (link-Standing k 0 w n hc hn.0 (omega arith) s)

-- A cascade relinks the nodes of one list, and moves the stage on where the others allow it.
cascade-Standing :
    (k k' : ℕ) (w : Wheel) (h : Head)
    → w.currtick < 2 ^ 32
    → ((h' : Head) (n : Node)
        → same h' h ≡ false
        → Placed k 0 w.currtick h' n
        → Placed k' 0 w.currtick h' n)
    → Standing k 0 w
    → Standing k' 0 (cascade w h)
unfolding cascade
cascade-Standing k k' w h hc go s =
    link_all-Standing k' _ (w.vec h) hc
      (All-mono (Placed k 0 w.currtick h) _ (w.vec h) (Placed-u32 k 0 w.currtick h) (s h))
      (replace-All (Placed k 0 w.currtick) (Placed k' 0 w.currtick) w.vec h [] s go tt)

currtick-turn_round : (k : ℕ) (w : Wheel) → (turn_round k w).currtick ≡ w.currtick
unfolding turn_round
currtick-turn_round k w = ground (
  arith,
  currtick-cascade w (nth k (nth_index w.currtick k)),
  currtick-cascade (cascade w (nth k (nth_index w.currtick k))) so_long,
)

turn_round-Standing :
    (k : ℕ) (w : Wheel) → w.currtick < 2 ^ 32 → Standing k 0 w → Standing (suc k) 0 (turn_round k w)
unfolding turn_round
turn_round-Standing k w hc s = elim (Bool-cases (k == 3)) [
  | inl e ↦ rw e (
      cascade-Standing (suc k) (suc k) w' so_long (rw (currtick-cascade w h) hc) (λ h' n _ p. p)
        moved)
  | inr e ↦ rw e moved
]
  where
    h : Head
    h = nth k (nth_index w.currtick k)

    w' : Wheel
    w' = cascade w h

    moved : Standing (suc k) 0 w'
    moved = cascade-Standing k (suc k) w h hc (λ h' n q. Placed-next k 0 w.currtick h' n hc q) s

currtick-turn : (r k : ℕ) (w : Wheel) → (turn r k w).currtick ≡ w.currtick
unfolding turn
currtick-turn zero k w = refl
currtick-turn (suc r) k w =
    ground (arith, currtick-turn_round k w, currtick-turn r (k + 1) (turn_round k w))

turn-Standing :
    (r k : ℕ) (w : Wheel)
    → r + k ≡ 4
    → w.currtick < 2 ^ 32
    → Standing k 0 w
    → Standing 4 0 (turn r k w)
unfolding turn
turn-Standing zero k w e hc s = subst (λ t. Standing t 0 w) (omega arith) s
turn-Standing (suc r) k w e hc s = elim (Bool-cases (nth_index w.currtick k == 0)) [
  | inl z ↦ rw z (
      turn-Standing r (k + 1) w' (omega arith) (rw (currtick-turn_round k w) hc)
        (subst (λ t. Standing t 0 w') (omega arith) moved))
  | inr nz ↦ rw nz (λ h.
      All-mono (Placed (suc k) 0 w'.currtick h) _ (w'.vec h)
        (λ n.
          Placed-stop k 0 w'.currtick h n
            (λ q. ne_of_== _ _ nz (rw (currtick-turn_round k w) at q)))
        (moved h))
]
  where
    w' : Wheel
    w' = turn_round k w

    moved : Standing (suc k) 0 w'
    moved = turn_round-Standing k w hc s

pub currtick-advance : (w : Wheel) → (advance w).currtick ≡ age w.currtick
unfolding advance age
currtick-advance w =
    ground (arith, currtick-turn 4 0 (record w { currtick = (w.currtick + 1) % 2 ^ 32 }))

pub advance-Standing : (w : Wheel) → IsValid w → Standing 4 0 (advance w)
unfolding advance age
advance-Standing w v = elim (Bool-cases (first_index w'.currtick == 0)) [
  | inl z ↦ rw z (turn-Standing 4 0 w' (omega arith) (omega arith) aged)
  | inr nz ↦ rw nz (λ h.
      All-mono (Placed 0 0 w'.currtick h) _ (w.vec h)
        (λ n. Placed-quiet 0 w'.currtick h n (ne_of_== _ _ nz)) (aged h))
]
  where
    w' : Wheel
    w' = record w { currtick = age w.currtick }

    aged : Standing 0 0 w'
    aged h =
        All-mono (Placed 4 1 w.currtick h) _ (w.vec h) (λ n. Placed-age w.currtick h n v.tick_u32)
          (v.placed h)

pub age-lt : (c : ℕ) → age c < 2 ^ 32
unfolding age
age-lt c = omega arith
