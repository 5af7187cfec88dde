-- ===== src/Timer/Record.antt =====
-- Later ticks keep the wheel valid and the record of the callbacks that have run.
use warrior_man.Prelude.{
  ℕ, zero, suc, ◌+◌, ◌%◌, ◌^◌, ◌≡◌, inl, inr, arith, refl, ◌∙◌, List, [], ◌∷◌, Option-cases,
  List-cases, In, In-append_left,
}
use warrior_man.Timer.{
  Node, Call, adds, deletes, Run, del, call, calls, run_callback, fire_node, fire, take_due, tick,
}
use warrior_man.Timer.Valid.{IsValid}
use warrior_man.Timer.Exact.{IsExact, tick-IsExact}
use warrior_man.Timer.OnTime.{run_ticks}

module _ {S : Type 0} where
  ran-call : (m : Run S) (c : Call) → (call m c).ran ≡ m.ran
  unfolding call del
  ran-call m (adds addr cb ud ticks) = refl
  ran-call m (deletes addr) = ground arith

  ran-calls : (m : Run S) (cs : List Call) → (calls m cs).ran ≡ m.ran
  unfolding calls
  ran-calls m [] = refl
  ran-calls m (c ∷ cs) = ran-calls (call m c) cs ∙ ran-call m c

  ran-take_due : (m : Run S) → (take_due m).ran ≡ m.ran
  unfolding take_due
  ran-take_due m = refl

module _ {S : Type 0} (callback : Node → S → S × List Call) (e : ℕ × Node) where
  fire_node-keeps : (n : Node) (m : Run S) → In e m.ran → In e (fire_node callback n m).ran
  unfolding fire_node run_callback
  fire_node-keeps n m i = elim (Option-cases n.callback) [
    | inl o ↦ rw (o, fire_node) i
    | inr (f, o) ↦ rw (o, fire_node, ran-calls) (In-append_left e m.ran _ i)
  ]

  fire-keeps : (fuel : ℕ) (m : Run S) → In e m.ran → In e (fire callback fuel m).ran
  unfolding fire
  fire-keeps zero m i = i
  fire-keeps (suc fuel) m i = elim (List-cases m.firing) [
    | inl p ↦ rw (p, fire) i
    | inr (n, ns, p) ↦
        rw (p, fire) (fire-keeps fuel _ (fire_node-keeps n (record m { firing = ns }) i))
  ]

  tick-keeps : (m : Run S) → In e m.ran → In e (tick callback m).ran
  unfolding tick
  tick-keeps m i = fire-keeps _ (take_due m) (rw ran-take_due i)

  pub run_ticks-keeps : (k : ℕ) (m : Run S) → In e m.ran → In e (run_ticks callback k m).ran
  unfolding run_ticks
  run_ticks-keeps zero m i = i
  run_ticks-keeps (suc k) m i = run_ticks-keeps k (tick callback m) (tick-keeps m i)

module _ {S : Type 0} (callback : Node → S → S × List Call) where
  pub run_ticks-add :
      (j k : ℕ) (m : Run S)
      → run_ticks callback (j + k) m ≡ run_ticks callback k (run_ticks callback j m)
  unfolding run_ticks
  run_ticks-add zero k m = let e : 0 + k ≡ k = omega arith in rw e
  run_ticks-add (suc j) k m =
      let e : suc j + k ≡ suc (j + k) = omega arith in
      rw (e, run_ticks) (run_ticks-add j k (tick callback m))

  -- Any number of ticks keeps a valid wheel valid, and moves its counter by that number; and every
  -- callback in the record ran in the tick of its node's expiry.
  pub run_ticks-IsExact :
      (k : ℕ) (m : Run S)
      → IsValid m.wheel
      → IsExact m.ran
      → let m' = run_ticks callback k m in
        IsValid m'.wheel × (m'.wheel.currtick ≡ (m.wheel.currtick + k) % 2 ^ 32) × IsExact m'.ran
  unfolding run_ticks
  run_ticks-IsExact zero m v x = (v, omega arith, x)
  run_ticks-IsExact (suc k) m v x =
      let t = tick-IsExact callback m v x in
      let r = run_ticks-IsExact k (tick callback m) t.0 t.2 in (r.0, omega (arith, t.1, r.1), r.2)
