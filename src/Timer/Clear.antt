-- ===== src/Timer/Clear.antt =====
-- `wmTimerWheel_del` and `wmTimerWheel_clear`: what they take out, and what stays.
use warrior_man.Prelude.{
  ℕ, zero, suc, ◌+◌, ◌≤◌, ◌<◌, ◌≡◌, ◌≢◌, inl, inr, arith, refl, ◌∙◌, ◌==◌, true, not, some, List,
  [], ◌∷◌, Bool-cases, In, All, ne_of_==, In-keep,
}
use warrior_man.Timer.{
  Node, Head, first, nth, so_long, Wheel, Run, unlink, is_linked, del, clear_first, clear_upper,
  clear, tvr_size, tvn_size,
}

clear_first-nth :
    (n k : ℕ) (w : Wheel) (j i : ℕ) → (clear_first n k w).vec (nth j i) ≡ w.vec (nth j i)
unfolding clear_first
clear_first-nth zero k w j i = refl
clear_first-nth (suc n) k w j i = clear_first-nth n (k + 1) _ j i

clear_upper-nth : (n : ℕ) (w : Wheel) (j i : ℕ) → (clear_upper n w).vec (nth j i) ≡ w.vec (nth j i)
unfolding clear_upper
clear_upper-nth zero w j i = refl
clear_upper-nth (suc n) w j i =
    clear_upper-nth n (clear_first tvn_size 0 w) j i ∙ clear_first-nth tvn_size 0 w j i

clear_first-stays :
    (n k : ℕ) (w : Wheel) (i : ℕ) → w.vec (first i) ≡ [] → (clear_first n k w).vec (first i) ≡ []
unfolding clear_first
clear_first-stays zero k w i e = e
clear_first-stays (suc n) k w i e = clear_first-stays n (k + 1) _ i (ground arith)

clear_upper-stays :
    (n : ℕ) (w : Wheel) (i : ℕ) → w.vec (first i) ≡ [] → (clear_upper n w).vec (first i) ≡ []
unfolding clear_upper
clear_upper-stays zero w i e = e
clear_upper-stays (suc n) w i e =
    clear_upper-stays n (clear_first tvn_size 0 w) i (clear_first-stays tvn_size 0 w i e)

clear_first-empties :
    (n k : ℕ) (w : Wheel) (i : ℕ) → k ≤ i → i < k + n → (clear_first n k w).vec (first i) ≡ []
unfolding clear_first
clear_first-empties zero k w i lo hi = absurd (omega arith)
clear_first-empties (suc n) k w i lo hi = elim (Bool-cases (k == i)) [
  | inl e ↦ clear_first-stays n (k + 1) _ i (rw e)
  | inr e ↦ clear_first-empties n (k + 1) _ i (ground arith) (omega arith)
]

-- Clearing empties the first wheel and the spare list and resets the counter to 0. It leaves every
-- list of the four upper wheels as it is: the second loop splices from the first wheel again.
pub clear_lem :
    (w : Wheel)
    → ((i : ℕ) → i < tvr_size → (clear w).vec (first i) ≡ [])
      × ((clear w).vec so_long ≡ [])
      × ((clear w).num ≡ 0)
      × ((n i : ℕ) → (clear w).vec (nth n i) ≡ w.vec (nth n i))
unfolding clear
clear_lem w = (
  λ i h.
      clear_upper-stays 4 (clear_first tvr_size 0 w) i
        (clear_first-empties tvr_size 0 w i (omega arith) h),
  refl,
  refl,
  λ n i. clear_upper-nth 4 (clear_first tvr_size 0 w) n i ∙ clear_first-nth tvr_size 0 w n i,
)

-- No node of the list has the address.
abbrev pub Lacks : ℕ → List Node → Type 0
Lacks addr = All (λ n. n.addr ≢ addr)

unlink-Lacks : (addr : ℕ) (ns : List Node) → Lacks addr (unlink addr ns)
unlink-Lacks addr [] = tt
unlink-Lacks addr (n ∷ ns) = elim (Bool-cases (n.addr == addr)) [
  | inl e ↦ rw e (unlink-Lacks addr ns)
  | inr e ↦ rw e (ne_of_== n.addr addr e, unlink-Lacks addr ns)
]

In-unlink : (n : Node) (addr : ℕ) (ns : List Node) → n.addr ≢ addr → In n ns → In n (unlink addr ns)
In-unlink n addr ns h = In-keep (λ n. not (n.addr == addr)) n ns (ground arith)

-- Deleting a linked node answers 1 and takes every node of that address out of every list, and no
-- other node. The wheel's counter still counts the node.
pub del_lem :
    {S : Type 0} (m : Run S) (addr : ℕ)
    → is_linked m addr ≡ true
    → let (m', answer) = del m (some addr) in
      (answer ≡ 1)
      × ((h : Head) → Lacks addr (m'.wheel.vec h))
      × Lacks addr m'.firing
      × ((n : Node) (h : Head) → n.addr ≢ addr → In n (m.wheel.vec h) → In n (m'.wheel.vec h))
      × (m'.wheel.num ≡ m.wheel.num)
unfolding del
del_lem m addr l = rw l (
  refl,
  λ h. unlink-Lacks addr (m.wheel.vec h),
  unlink-Lacks addr m.firing,
  λ n h ne. In-unlink n addr (m.wheel.vec h) ne,
  refl,
)
