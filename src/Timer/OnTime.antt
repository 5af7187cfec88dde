-- ===== src/Timer/OnTime.antt =====
-- A node that no callback deletes runs when its ticks are up.
use warrior_man.Prelude.{
  ℕ, zero, suc, ◌^◌, ◌<◌, ◌≡◌, ◌≢◌, ◌⊎◌, inl, inr, arith, refl, sym, ap, subst, ◌∙◌, true, not,
  none, some, List, [], ◌∷◌, ◌++◌, All, All-In, In, In-append_left, In-snoc, In-keep, Bool-cases,
  Option-cases, List-cases, ◌==◌,
}
use warrior_man.Timer.{
  Node, add, add_quick, advance, Call, adds, deletes, Run, is_linked, unlink_everywhere, del, call,
  calls, run_callback, fire_node, fire, take_due, tick,
}
use warrior_man.Timer.Placed.{left, Placed}
use warrior_man.Timer.Aging.{Placed-left}
use warrior_man.Timer.Valid.{IsValid, Placed-u32}
use warrior_man.Timer.Exact.{IsExact, tick-IsExact}
use warrior_man.Timer.Linked.{Linked, Ran, replace-Linked, link-Linked, advance-Linked}

-- What a call leaves alone.
abbrev pub Spares : ℕ → Call → Type 0
Spares a (adds addr cb ud ticks) = Unit {0}
Spares a (deletes addr) = a ≢ addr

-- Where a node can be inside a tick.
abbrev Kept : {S : Type 0} → Node → Run S → Type 0
Kept n m = Linked n m.wheel ⊎ In n m.firing ⊎ Ran n m

module _ {S : Type 0} (n : Node) where
  take_due-Kept : (m : Run S) → Linked n m.wheel ⊎ Ran n m → Kept n (take_due m)
  unfolding take_due
  take_due-Kept m (inr r) = inr (inr r)
  take_due-Kept m (inl l) =
      elim (replace-Linked n (advance m.wheel).vec _ [] (advance-Linked n m.wheel l)) [
        | inl i ↦ inr (inl i)
        | inr l' ↦ inl l'
      ]

  del-Kept : (m : Run S) (addr : ℕ) → n.addr ≢ addr → Kept n m → Kept n (del m (some addr)).0
  unfolding del
  del-Kept m addr h k = elim (Bool-cases (is_linked m addr)) [
    | inl e ↦ rw e (stays k)
    | inr e ↦ rw e k
  ]
    where
      differs : not (n.addr == addr) ≡ true
      differs = ground arith

      stays : Kept n m → Kept n (unlink_everywhere m addr)
      stays (inl (g, i)) = inl (g, In-keep _ n (m.wheel.vec g) differs i)
      stays (inr (inl i)) = inr (inl (In-keep _ n m.firing differs i))
      stays (inr (inr r)) = inr (inr r)

  call-Kept : (m : Run S) (c : Call) → Spares n.addr c → Kept n m → Kept n (call m c)
  unfolding call add_quick add
  call-Kept m (adds addr cb ud ticks) h (inl l) = inl (link-Linked n m.wheel _ l)
  call-Kept m (adds addr cb ud ticks) h (inr k) = inr k
  call-Kept m (deletes addr) h k = del-Kept m addr h k

  calls-Kept :
      (m : Run S) (cs : List Call) → All (Spares n.addr) cs → Kept n m → Kept n (calls m cs)
  unfolding calls
  calls-Kept m [] h k = k
  calls-Kept m (c ∷ cs) h k = calls-Kept (call m c) cs h.1 (call-Kept m c h.0 k)

-- `k` ticks in a row.
unfoldable pub run_ticks : {S : Type 0} → (Node → S → S × List Call) → ℕ → Run S → Run S
run_ticks callback zero m = m
run_ticks callback (suc k) m = run_ticks callback k (tick callback m)

module _ {S : Type 0} (callback : Node → S → S × List Call) (n : Node) {f : ℕ}
    (has : n.callback ≡ some f)
    (spared : (k : Node) (s : S) → All (Spares n.addr) (callback k s).1) where
  run_callback-Kept :
      (k : Node) (m : Run S) → Kept n m ⊎ (n ≡ k) → Kept n (run_callback callback k m)
  unfolding run_callback
  run_callback-Kept k m h = calls-Kept n _ (callback k m.rest).1 (spared k m.rest) (noted h)
    where
      noted :
          Kept n m ⊎ (n ≡ k)
          → Kept n
              (record m { rest = (callback k m.rest).0; ran = m.ran ++ (m.wheel.currtick, k) ∷ [] })
      noted (inl (inl l)) = inl l
      noted (inl (inr (inl i))) = inr (inl i)
      noted (inl (inr (inr (t, i)))) = inr (inr (t, In-append_left (t, n) m.ran _ i))
      noted (inr e) = inr (inr (m.wheel.currtick, rw e (In-snoc (m.wheel.currtick, k) m.ran)))

  fire_node-Kept : (k : Node) (m : Run S) → Kept n m ⊎ (n ≡ k) → Kept n (fire_node callback k m)
  unfolding fire_node
  fire_node-Kept k m h = elim (Option-cases k.callback) [
    | inl o ↦ rw (o, fire_node) (counted o h)
    | inr (g, o) ↦ rw (o, fire_node) (run_callback-Kept k _ h)
  ]
    where
      counted : k.callback ≡ none → Kept n m ⊎ (n ≡ k) → Kept n m
      counted o (inl c) = c
      counted o (inr e) =
          let q : some f ≡ none = sym has ∙ ap (λ (n : Node). n.callback) e ∙ o in cc

  fire-Kept : (fuel : ℕ) (m : Run S) → Kept n m → Kept n (fire callback fuel m)
  unfolding fire
  fire-Kept zero m k = k
  fire-Kept (suc fuel) m k = elim (List-cases m.firing) [
    | inl e ↦ rw (e, fire) k
    | inr (g, ns, e) ↦ rw (e, fire) (fire-Kept fuel _ (fire_node-Kept g _ (popped g ns e k)))
  ]
    where
      popped :
          (g : Node) (ns : List Node)
          → m.firing ≡ g ∷ ns
          → Kept n m
          → Kept n (record m { firing = ns }) ⊎ (n ≡ g)
      popped g ns e (inl l) = inl (inl l)
      popped g ns e (inr (inl i)) = elim (rw e at i) [ inl q ↦ inr q | inr j ↦ inl (inr (inl j)) ]
      popped g ns e (inr (inr r)) = inl (inr (inr r))

  tick-Kept :
      (m : Run S)
      → IsValid m.wheel
      → IsExact m.ran
      → Linked n m.wheel ⊎ Ran n m
      → Linked n (tick callback m).wheel ⊎ Ran n (tick callback m)
  tick-Kept m v x k = settle (unfold tick in fire-Kept _ (take_due m) (take_due-Kept n m k))
    where
      settle : Kept n (tick callback m) → Linked n (tick callback m).wheel ⊎ Ran n (tick callback m)
      settle (inl l) = inl l
      settle (inr (inr r)) = inr r
      settle (inr (inl i)) = absurd (rw (tick-IsExact callback m v x).3 at i)

  run_ticks-Ran :
      (k : ℕ) (m : Run S)
      → IsValid m.wheel
      → IsExact m.ran
      → left m.wheel.currtick n ≡ k
      → n.expire < 2 ^ 32
      → Linked n m.wheel ⊎ Ran n m
      → IsExact (run_ticks callback k m).ran × Ran n (run_ticks callback k m)
  unfolding run_ticks
  run_ticks-Ran zero m v x e he (inr r) = (x, r)
  run_ticks-Ran zero m v x e he (inl (h, i)) =
      let p =
        Placed-left m.wheel.currtick h n
          (All-In (Placed 4 1 m.wheel.currtick h) (m.wheel.vec h) n (v.placed h) i) in
      absurd (omega arith)
  run_ticks-Ran (suc k) m v x e he s =
      let t = tick-IsExact callback m v x in
      run_ticks-Ran k (tick callback m) t.0 t.2 (omega (arith, t.1)) he (tick-Kept m v x s)

  -- On a valid wheel, a linked node with a callback, which no callback deletes, runs in the very tick
  -- of its expiry: after as many ticks as its expiry lies ahead of the wheel's counter.
  pub on_time :
      (m : Run S)
      → IsValid m.wheel
      → IsExact m.ran
      → Linked n m.wheel
      → In (n.expire, n) (run_ticks callback (left m.wheel.currtick n) m).ran
  on_time m v x (h, i) = subst (λ t. In (t, n) end.ran) (sym due) out.1.1
    where
      end : Run S
      end = run_ticks callback (left m.wheel.currtick n) m

      p : Placed 4 1 m.wheel.currtick h n
      p = All-In _ (m.wheel.vec h) n (v.placed h) i

      out : IsExact end.ran × Ran n end
      out = run_ticks-Ran _ m v x refl (Placed-u32 4 1 m.wheel.currtick h n p) (inl (h, i))

      due : n.expire ≡ out.1.0
      due = All-In (λ (q : ℕ × Node). q.1.expire ≡ q.0) end.ran (out.1.0, n) out.0 out.1.1
