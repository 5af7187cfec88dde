-- ===== src/Timer/Linked.antt =====
-- The moves of the wheel lose no node: what is linked before is linked after.
use warrior_man.Prelude.{
  ℕ, zero, suc, ◌+◌, ◌%◌, ◌^◌, ◌⊎◌, inl, inr, sym, subst, List, [], ◌∷◌, ◌++◌, In, In-append_left,
  In-snoc, Bool-cases, ◌==◌,
}
use warrior_man.Timer.{
  Node, Head, so_long, same, Wheel, replace, first_index, nth_index, head_for, link, link_all,
  cascade, turn_round, turn, advance, Run,
}
use warrior_man.Timer.Valid.{same-eq, replace_self}

-- The node is linked behind some head of the wheel.
abbrev pub Linked : Node → Wheel → Type 0
Linked n w = (h : Head) × In n (w.vec h)

-- The node's callback has run in some tick.
abbrev pub Ran : {S : Type 0} → Node → Run S → Type 0
Ran n m = (t : ℕ) × In (t, n) m.ran

module _ (n : Node) where
  -- What one list loses and the others keep.
  pub replace-Linked :
      (vec : Head → List Node) (h : Head) (ns : List Node)
      → ((h : Head) × In n (vec h))
      → (In n (vec h)) ⊎ ((k : Head) × In n (replace vec h ns k))
  replace-Linked vec h ns (k, i) = elim (Bool-cases (same h k)) [
    | inl e ↦ inl (subst (λ h. In n (vec h)) (sym (same-eq h k e)) i)
    | inr e ↦ inr (k, rw e i)
  ]

  pub link_self : (w : Wheel) → Linked n (link w n)
  unfolding link
  link_self w = (
    head_for n.expire w.currtick,
    rw replace_self (In-snoc n (w.vec (head_for n.expire w.currtick))),
  )

  pub link-Linked : (w : Wheel) (k : Node) → Linked n w → Linked n (link w k)
  unfolding link
  link-Linked w k l = elim (replace-Linked w.vec h (w.vec h ++ k ∷ []) l) [
    | inl i ↦ (h, rw replace_self (In-append_left n (w.vec h) (k ∷ []) i))
    | inr l' ↦ l'
  ]
    where
      h : Head
      h = head_for k.expire w.currtick

  link_all-Linked : (w : Wheel) (ns : List Node) → Linked n w ⊎ In n ns → Linked n (link_all w ns)
  unfolding link_all
  link_all-Linked w [] (inl l) = l
  link_all-Linked w [] (inr i) = elim i [ ]
  link_all-Linked w (k ∷ ns) (inl l) = link_all-Linked (link w k) ns (inl (link-Linked w k l))
  link_all-Linked w (k ∷ ns) (inr (inl e)) =
      link_all-Linked (link w k) ns (inl (rw (← e) (link_self w)))
  link_all-Linked w (k ∷ ns) (inr (inr i)) = link_all-Linked (link w k) ns (inr i)

  cascade-Linked : (w : Wheel) (h : Head) → Linked n w → Linked n (cascade w h)
  unfolding cascade
  cascade-Linked w h l = elim (replace-Linked w.vec h [] l) [
    | inl i ↦ link_all-Linked _ _ (inr i)
    | inr l' ↦ link_all-Linked _ _ (inl l')
  ]

  turn_round-Linked : (k : ℕ) (w : Wheel) → Linked n w → Linked n (turn_round k w)
  unfolding turn_round
  turn_round-Linked k w l = elim (Bool-cases (k == 3)) [
    | inl e ↦ rw e (cascade-Linked _ so_long (cascade-Linked w _ l))
    | inr e ↦ rw e (cascade-Linked w _ l)
  ]

  turn-Linked : (r k : ℕ) (w : Wheel) → Linked n w → Linked n (turn r k w)
  unfolding turn
  turn-Linked zero k w l = l
  turn-Linked (suc r) k w l = elim (Bool-cases (nth_index w.currtick k == 0)) [
    | inl e ↦ rw e (turn-Linked r (k + 1) _ (turn_round-Linked k w l))
    | inr e ↦ rw e (turn_round-Linked k w l)
  ]

  pub advance-Linked : (w : Wheel) → Linked n w → Linked n (advance w)
  unfolding advance
  advance-Linked w l = elim (Bool-cases (first_index ((w.currtick + 1) % 2 ^ 32) == 0)) [
    | inl e ↦ rw e (turn-Linked 4 0 _ l)
    | inr e ↦ rw e l
  ]
