-- ===== src/Coroutine/Runs.antt =====
-- Whole runs of the scheduler are runs of the stack.
use warrior_man.Prelude.{
  ℕ, ◌≡◌, inl, inr, arith, refl, ap, ◌∙◌, Bool, false, ◌||◌, Option, none, some, List, [], ◌∷◌,
  ◌==◌, Bool-cases, eq_of_==, ==_self,
}
use warrior_man.Coroutine.{
  Sched, Event, creates, yields, resumes, finishes, computes, has, remove, resume, step, steps,
  and_then, initial,
}
use warrior_man.Coroutine.Stack.{
  Stacks, top, stack_resume, stack_step, Chain-update, has-remove, remove-Distinct, length-remove,
}
use warrior_man.Coroutine.Refine.{
  Refines, Matches, and_right, update_self, initial-Refines, create-Refines, yield-Refines,
  finish-Refines,
}

resume-Refines :
    (s : Sched) (a : Stacks) (t : ℕ) → Refines s a → Matches (step s (resumes t)) (stack_resume a t)
unfolding step resume
resume-Refines s a t r = elim (Bool-cases (top a.running == t)) [
  | inl e ↦ rw (here e, e) tt
  | inr e ↦ elim (Bool-cases (has t a.running || has t a.suspended)) [
    | inr dead ↦ rw (here e, e, r.live t, dead) tt
    | inl known ↦ elim (Bool-cases (has t a.suspended)) [
      | inr awake ↦ rw (here e, e, r.live t, known, waits awake, awake) r
      | inl asleep ↦
          let f : has t a.running ≡ false =
            and_right (has t a.running) (has t a.suspended) (r.apart t) asleep in
          let pos : (0 == t) ≡ false = elim (Bool-cases (0 == t)) [
            | inl z ↦ absurd (ground (arith, eq_of_== 0 t z, r.no_main.1, asleep))
            | inr z ↦ z
          ] in
          let shorter = length-remove t a.suspended r.distinct_suspended asleep in
          let gone : has t (remove t a.suspended) ≡ false =
            has-remove t t a.suspended ∙ rw (==_self t) refl in
          rw (here e, e, r.live t, known, waits asleep, asleep)
            (record {
              current_top = refl;
              chain = (
                update_self s.origin t s.current ∙ r.current_top,
                Chain-update s.origin t s.current a.running f r.chain,
              );
              same_yielded = ap (remove t) r.same_yielded;
              live = λ x. elim (Bool-cases (x == t)) [
                | inl q ↦ let eq : x ≡ t = eq_of_== x t q in rw (q, eq, r.live t, known) refl
                | inr q ↦ rw (q, r.live x, has-remove x t a.suspended, q) refl
              ];
              apart = λ x. elim (Bool-cases (x == t)) [
                | inl q ↦ let eq : x ≡ t = eq_of_== x t q in rw (q, eq, gone) refl
                | inr q ↦ rw (q, has-remove x t a.suspended, q) (r.apart x)
              ];
              distinct_running = (f, r.distinct_running);
              distinct_suspended = remove-Distinct t a.suspended r.distinct_suspended;
              no_main =
                  (rw pos r.no_main.0, has-remove 0 t a.suspended ∙ rw (pos, r.no_main.1) refl);
              total = omega (arith, r.total, shorter);
              same_last = r.same_last;
            })
    ]
  ]
]
  where
    here : {b : Bool} → (top a.running == t) ≡ b → (s.current == t) ≡ b
    here e = ap (λ c. c == t) r.current_top ∙ e

    waits : {b : Bool} → has t a.suspended ≡ b → has t s.yielded ≡ b
    waits e = ap (has t) r.same_yielded ∙ e

step-Refines :
    (s : Sched) (a : Stacks) (e : Event) → Refines s a → Matches (step s e) (stack_step a e)
unfolding step stack_step
step-Refines s a (creates valid page) r = create-Refines s a valid page r
step-Refines s a yields r = yield-Refines s a.running a.suspended a.last r
step-Refines s a (resumes t) r = resume-Refines s a t r
step-Refines s a finishes r = finish-Refines s a.running a.suspended a.last r
step-Refines s a (computes v) r = record {
  current_top = r.current_top;
  chain = r.chain;
  same_yielded = r.same_yielded;
  live = r.live;
  apart = r.apart;
  distinct_running = r.distinct_running;
  distinct_suspended = r.distinct_suspended;
  no_main = r.no_main;
  total = r.total;
  same_last = r.same_last;
}

abbrev pub stack_and_then : Option Stacks → (Stacks → Option Stacks) → Option Stacks
stack_and_then none f = none
stack_and_then (some a) f = f a

pub stack_steps : Option Stacks → List Event → Option Stacks
stack_steps a [] = a
stack_steps a (e ∷ es) = stack_steps (stack_and_then a (λ a'. stack_step a' e)) es

and_then-Matches :
    (s : Option Sched) (a : Option Stacks) (e : Event)
    → Matches s a
    → Matches (and_then s (λ s'. step s' e)) (stack_and_then a (λ a'. stack_step a' e))
and_then-Matches none none e m = tt
and_then-Matches (some s) (some a) e m = step-Refines s a e m
and_then-Matches none (some a) e m = elim m [ ]
and_then-Matches (some s) none e m = elim m [ ]

steps-Matches :
    (s : Option Sched) (a : Option Stacks) (es : List Event)
    → Matches s a
    → Matches (steps s es) (stack_steps a es)
unfolding steps stack_steps
steps-Matches s a [] m = m
steps-Matches s a (e ∷ es) m =
    steps-Matches (and_then s (λ s'. step s' e)) (stack_and_then a (λ a'. stack_step a' e)) es
      (and_then-Matches s a e m)

abbrev pub no_stacks : Stacks
no_stacks = record { running = []; suspended = []; last = 0 }

-- Every run of the scheduler from its start is a run of the stack of coroutines: the one crashes where
-- the other does, and else the running coroutines, from the current one along the origins down to the
-- main one, are the stack, the tables are the suspended ones and all of them, no coroutine
-- stands twice, and the total number is right (mod 2 ^ 64).
pub steps_refine :
    (eg : ℕ) (es : List Event)
    → Matches (steps (some (initial eg)) es) (stack_steps (some no_stacks) es)
steps_refine eg es = steps-Matches (some (initial eg)) (some no_stacks) es (initial-Refines eg)
