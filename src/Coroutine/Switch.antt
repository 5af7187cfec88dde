-- ===== src/Coroutine/Switch.antt =====
-- A switch to a coroutine and back loads the PHP stacks that were left.
use warrior_man.Prelude.{
  ℕ, ◌≡◌, inl, inr, arith, refl, ap, ◌∙◌, true, false, some, List, [], ◌∷◌, ◌==◌, Bool-cases,
  eq_of_==, ==_self,
}
use warrior_man.Coroutine.{
  Sched, yields, resumes, computes, has, remove, update, yield, resume, step, steps,
}
use warrior_man.Coroutine.Stack.{Stacks, top, has-remove}
use warrior_man.Coroutine.Refine.{Refines, and_right}

has-top : (t : ℕ) (cs : List ℕ) → has t cs ≡ false → (0 == t) ≡ false → (top cs == t) ≡ false
has-top t [] h z = z
has-top t (c ∷ cs) h z = ground (arith, h)

not_main : (t : ℕ) (cs : List ℕ) → has 0 cs ≡ false → has t cs ≡ true → (0 == t) ≡ false
not_main t cs h k = elim (Bool-cases (0 == t)) [
  | inl z ↦ let e = eq_of_== 0 t z in absurd (ground (arith, ap (λ x. has x cs) e, h, k))
  | inr z ↦ z
]

-- A suspended coroutine is resumed, leaves the globals at `v`, and yields: the coroutine that resumed
-- it is current again, with the globals that it had; and the coroutine is suspended again, with `v`
-- saved for it.
pub switch_back :
    (s : Sched) (a : Stacks) (t v : ℕ)
    → Refines s a
    → has t a.suspended ≡ true
    → (s' : Sched) × (steps (some s) (resumes t ∷ computes v ∷ yields ∷ []) ≡ some s')
      × (s'.current ≡ s.current)
      × (s'.eg ≡ s.eg)
      × (has t s'.yielded ≡ true)
      × (s'.saved t ≡ v)
unfolding steps step resume yield
switch_back s a t v r asleep =
    let f : has t a.running ≡ false =
      and_right (has t a.running) (has t a.suspended) (r.apart t) asleep in
    let z : (0 == t) ≡ false = not_main t a.suspended r.no_main.1 asleep in
    let apart : (s.current == t) ≡ false =
      ap (λ c. c == t) r.current_top ∙ has-top t a.running f z in
    let known : has t s.coroutines ≡ true = r.live t ∙ rw (f, asleep) refl in
    let waits : has t s.yielded ≡ true = ap (has t) r.same_yielded ∙ asleep in
    let z' : (t == 0) ≡ false = ground (arith, z) in
    let gone : has t (remove t s.yielded) ≡ false =
      has-remove t t s.yielded ∙ rw (==_self t) refl in
    let self = ==_self t in
    (
      record s {
        origin = update s.origin t s.current;
        yielded = t ∷ remove t s.yielded;
        saved = update (update s.saved s.current s.eg) t v;
      },
      rw (apart, known, waits, z', gone, self, apart, ==_self s.current) refl,
      refl,
      refl,
      rw self refl,
      rw self refl,
    )
