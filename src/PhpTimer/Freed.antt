-- ===== src/PhpTimer/Freed.antt =====
-- A function that deletes the timer that calls it.
use warrior_man.Prelude.{
  ℕ, ◌+◌, ◌%◌, ◌^◌, ◌≤◌, ◌≡◌, ◌≢◌, ◌⊎◌, inl, inr, arith, refl, sym, ap, subst, ◌∙◌, Bool, true,
  false, Option, none, some, List, [], ◌∷◌, Option-cases,
}
use warrior_man.PhpTimer.{
  Block, State, key, put, del_node, timer_free, persists, arm, failed, answered, state_of, add, del,
  Call, adds, deletes, call, calls, called, timer_add_callback, fire,
}
use warrior_man.PhpTimer.Sound.{put_self, put_ne}
use warrior_man.PhpTimer.Runs.{Reach, Reach-IsSound}

-- The id was given to a timer that is freed.
abbrev IsFreed : ℕ → State → Type 0
IsFreed id s = (id ≤ s.last_id) × (s.block id ≡ none)

abbrev StaysFreed : ℕ → Option State → Type 0
StaysFreed id r = (r ≡ none) ⊎ ((s' : State) × (r ≡ some s') × IsFreed id s')

timer_free-StaysFreed : (id : ℕ) (s : State) (k : ℕ) → IsFreed id s → StaysFreed id (timer_free s k)
unfolding timer_free
timer_free-StaysFreed id s k h = elim (Option-cases (s.block k)) [
  | inl e ↦ inl (rw (timer_free, e) refl)
  | inr (b, e) ↦
      let ne : id ≢ k = λ x. let y = ap s.block x in cc in
      inr (
        record s {
          pending = del_node s.pending b.timer;
          timers = put s.timers (key k) none;
          block = put s.block k none;
        },
        rw (timer_free, e) refl,
        (h.0, put_ne s.block k none id ne ∙ h.1),
      )
]

state_of-failed : (r : Option State) → state_of (failed r) ≡ r
state_of-failed none = refl
state_of-failed (some s) = refl

state_of-answered : (r : Option State) → state_of (answered r) ≡ r
state_of-answered none = refl
state_of-answered (some s) = refl

call-StaysFreed : (id : ℕ) (s : State) (c : Call) → IsFreed id s → StaysFreed id (call s c)
unfolding call add del
call-StaysFreed id s (adds true ticks fcc a b) h = inr (s, refl, h)
call-StaysFreed id s (adds false ticks fcc a b) h =
    let new : Block = record {
      cid = 0;
      ticks = ticks;
      persistent = persists a b;
      timer = none;
      fcc = fcc;
    } in
    let i = s.last_id + 1 in
    let ne : id ≢ i = λ x. absurd (omega (arith, h.0, x)) in
    let s₀ : State = record s { last_id = i; block = put s.block i (some new) } in
    let s' : State = record s₀ { timers = put s.timers (key i) (some i) } in
    elim (Option-cases (s.timers (key i))) [
      | inl free ↦ inr (
        arm s' i new,
        rw (call, add, free) refl,
        (
          omega (arith, h.0),
          put_ne (put s.block i (some new)) i (some (record new { timer = some s.next_node })) id ne
              ∙ put_ne s.block i (some new) id ne
              ∙ h.1,
        ),
      )
      | inr (j, there) ↦
          let here : call s (adds false ticks fcc a b) ≡ timer_free s₀ i =
            rw (call, add, there) (state_of-failed (timer_free s₀ i)) in
          subst (StaysFreed id) (sym here) (
            timer_free-StaysFreed id s₀ i
              (omega (arith, h.0), put_ne s.block i (some new) id ne ∙ h.1))
    ]
call-StaysFreed id s (deletes k) h = elim (Option-cases (s.timers (key k))) [
  | inl t ↦ inr (s, rw (call, del, t) refl, h)
  | inr (j, t) ↦
      let here : call s (deletes k) ≡ timer_free s j =
        rw (call, del, t) (state_of-answered (timer_free s j)) in
      subst (StaysFreed id) (sym here) (timer_free-StaysFreed id s j h)
]

calls-StaysFreed : (id : ℕ) (s : State) (cs : List Call) → IsFreed id s → StaysFreed id (calls s cs)
unfolding calls
calls-StaysFreed id s [] h = inr (s, refl, h)
calls-StaysFreed id s (c ∷ cs) h = elim (call-StaysFreed id s c h) [
  | inl e ↦ inl (rw (calls, e) refl)
  | inr (s', e, h') ↦ rw (calls, e) (calls-StaysFreed id s' cs h')
]

-- A due timer whose function deletes that timer first, whatever it does then: the callback goes on
-- with the freed block.
pub self_delete :
    (reloading : Bool) (cs : List Call) (s : State) (n id : ℕ)
    → Reach s
    → s.pending n ≡ some id
    → fire reloading (deletes id ∷ cs) s n ≡ none
unfolding fire timer_add_callback calls call del timer_free
self_delete reloading cs s n id r at =
    let (v, small) = Reach-IsSound r in
    let (t, _, (b, e, p)) = v.owned n id at in
    let k : id % 2 ^ 32 ≡ id = omega (arith, v.low id t, small) in
    let here = put_self s.block id (some (record b { timer = none })) in
    let s₂ : State = record s {
      pending = put s.pending n none;
      timers = put s.timers id none;
      block = put (put s.block id (some (record b { timer = none }))) id none;
    } in
    let freed : IsFreed id s₂ =
      ((v.low id t).1, put_self (put s.block id (some (record b { timer = none }))) id none) in
    elim (calls-StaysFreed id s₂ cs freed) [
      | inl q ↦
          rw (fire, at, timer_add_callback, e, calls, call, del, k, t, timer_free, here, k, q) refl
      | inr (s₃, q, (_, gone)) ↦
          rw
            (
              fire, at, timer_add_callback, e, calls, call, del, k, t, timer_free, here, k, q,
              called, gone,
            )
            refl
    ]
