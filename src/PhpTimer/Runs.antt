-- ===== src/PhpTimer/Runs.antt =====
-- Whole runs of the timers: as long as no function deletes the timer that calls it, no freed block is
-- touched; a function that does makes the callback touch its freed block.
use mathlib.Core.Path.{fun_ext}
use warrior_man.Prelude.{
  ℕ, ◌+◌, ◌%◌, ◌^◌, ◌<◌, ◌≤◌, length, ◌≡◌, inl, inr, arith, refl, sym, ap, subst, ◌∙◌, Bool, true,
  false, not, ◌||◌, Option, none, some, List, [], ◌∷◌, All, ◌==◌, Bool-cases, Option-cases,
  eq_of_==,
}
use warrior_man.PhpTimer.{
  Block, State, key, put, timer_free, Arg, persists, arm, add, del, Call, adds, deletes, call,
  calls, called, timer_add_callback, fire, Event, calls_from_php, fires, step, initial,
}
use warrior_man.PhpTimer.Sound.{IsSound, put_self, gone, gone-IsSound}
use warrior_man.PhpTimer.Changed.{
  gone_hot-IsSound, arm-IsSound, enter-IsSound, light-IsSound, write-IsSound,
}

put-put {ℓ} : {A : Type ℓ} (f : ℕ → A) (k : ℕ) (a b : A) → put (put f k a) k b ≡ put f k b
put-put f k a b = fun_ext λ j. elim (Bool-cases (j == k)) [ inl e ↦ rw e refl | inr e ↦ rw e refl ]

put-same {ℓ} : {A : Type ℓ} (f : ℕ → A) (k : ℕ) (a : A) → f k ≡ a → put f k a ≡ f
put-same f k a h = fun_ext λ j. elim (Bool-cases (j == k)) [
  | inl e ↦ rw e (sym h ∙ ap f (sym (eq_of_== j k e)))
  | inr e ↦ rw e refl
]

-- The call deletes no timer whose callback is under way.
abbrev Spares : (ℕ → Bool) → Call → Type 0
Spares hot (adds short ticks fcc a b) = Unit {0}
Spares hot (deletes id) = hot (key id) ≡ false

-- Outcome of an operation that keeps the timers sound, with the last id no higher than `most`.
abbrev Keeps : (ℕ → Bool) → ℕ → Option State → Type 0
Keeps hot most r = (s' : State) × (r ≡ some s') × IsSound hot s' × (s'.last_id ≤ most)

module _ (hot : ℕ → Bool) (s : State) (v : IsSound hot s) where
  add-Keeps :
      (short : Bool) (ticks fcc : ℕ) (a b : Arg)
      → s.last_id + 1 < 2 ^ 32
      → Keeps hot (s.last_id + 1) (call s (adds short ticks fcc a b))
  unfolding call add
  add-Keeps true ticks fcc a b small = (s, refl, v, omega arith)
  add-Keeps false ticks fcc a b small =
      let id = s.last_id + 1 in
      let k : id % 2 ^ 32 ≡ id = omega arith in
      let cool : hot id ≡ false = elim (Bool-cases (hot id)) [
        | inl w ↦ absurd (omega (arith, v.low id (v.lit id w)))
        | inr c ↦ c
      ] in
      let free : s.timers id ≡ none = elim (Option-cases (s.timers id)) [
        | inl e ↦ e
        | inr (i, e) ↦
            let same : id ≡ i = v.keyed id i e in
            absurd (omega (arith, v.low id (e ∙ ap some (sym same))))
      ] in
      let new : Block = record {
        cid = 0;
        ticks = ticks;
        persistent = persists a b;
        timer = none;
        fcc = fcc;
      } in
      let s' : State = record s {
        last_id = id;
        block = put s.block id (some new);
        timers = put s.timers id (some id);
      } in
      let back : put (put hot id true) id false ≡ hot =
        put-put hot id true false ∙ put-same hot id false cool in
      (
        arm s' id new,
        rw (k, free, k) refl,
        subst (λ f. IsSound f (arm s' id new)) back
            (arm-IsSound (put hot id true) s' (enter-IsSound hot s v id new refl refl) id new
              (put_self hot id true) (put_self s.timers id (some id))),
        omega arith,
      )

  del-Keeps :
      (id : ℕ)
      → hot (key id) ≡ false
      → s.last_id < 2 ^ 32
      → Keeps hot s.last_id (call s (deletes id))
  unfolding call del timer_free
  del-Keeps id cool small = elim (Option-cases (s.timers (key id))) [
    | inl t ↦ (s, rw (call, del, t) refl, v, omega arith)
    | inr (i, t) ↦
        let same : key id ≡ i = v.keyed (key id) i t in
        let here : s.timers i ≡ some i = ap s.timers (sym same) ∙ t in
        let k : i % 2 ^ 32 ≡ i = omega (arith, v.low i here, small) in
        let (n, (b, e, p), q) = v.armed i here (ap hot (sym same) ∙ cool) in
        (
          gone s i (some n),
          rw (call, del, t, timer_free, e, p, k) refl,
          gone-IsSound hot s i n v here (ap hot (sym same) ∙ cool) (b, e, p) q,
          omega arith,
        )
  ]

call-Keeps :
    (hot : ℕ → Bool) (s : State) (c : Call)
    → IsSound hot s
    → Spares hot c
    → s.last_id + 1 < 2 ^ 32
    → Keeps hot (s.last_id + 1) (call s c)
call-Keeps hot s (adds short ticks fcc a b) v h small = add-Keeps hot s v short ticks fcc a b small
call-Keeps hot s (deletes id) v h small =
    let (s', p, v', m) = del-Keeps hot s v id h (omega (arith, small)) in
    (s', p, v', omega (arith, m))

calls-Keeps :
    (hot : ℕ → Bool) (s : State) (cs : List Call)
    → IsSound hot s
    → All (Spares hot) cs
    → s.last_id + length cs < 2 ^ 32
    → Keeps hot (s.last_id + length cs) (calls s cs)
unfolding calls
calls-Keeps hot s [] v h small = (s, refl, v, omega arith)
calls-Keeps hot s (c ∷ cs) v h small =
    let (s', p, v', m) = call-Keeps hot s c v h.0 (omega (arith, small)) in
    let (s'', q, v'', m') = calls-Keeps hot s' cs v' h.1 (omega (arith, small, m)) in
    (s'', rw (calls, p) q, v'', omega (arith, m, m'))

abbrev pub cold : ℕ → Bool
cold id = false

-- The end of a callback.
called-Keeps :
    (reloading : Bool) (s : State) (id : ℕ)
    → IsSound (put cold id true) s
    → s.last_id < 2 ^ 32
    → Keeps cold s.last_id (called reloading s id)
unfolding timer_free
called-Keeps reloading s id v small =
    let hot = put cold id true in
    let warm = put_self cold id true in
    let t = v.lit id warm in
    let k : id % 2 ^ 32 ≡ id = omega (arith, v.low id t, small) in
    let (b, e) = v.kept id t in
    let idle = v.bare id b warm e in
    let b' : Block = record b { cid = s.next_cid } in
    let s' : State = record s { block = put s.block id (some b'); next_cid = s.next_cid + 1 } in
    let written = write-IsSound hot s v id b' (s.next_cid + 1) idle warm in
    let back : put hot id false ≡ cold = put-put cold id true false ∙ put-same cold id false refl in
    let here = put_self s.block id (some b') in
    elim (Bool-cases (not b.persistent || reloading)) [
      | inl r ↦ (
        gone s' id none,
        rw (called, e, r, timer_free, here, idle, k) refl,
        subst (λ f. IsSound f (gone s' id none)) back (gone_hot-IsSound hot s' written id warm t),
        omega arith,
      )
      | inr r ↦ (
        arm s' id b',
        rw (called, e, r) refl,
        subst (λ f. IsSound f (arm s' id b')) back (arm-IsSound hot s' written id b' warm t),
        omega arith,
      )
    ]

fire-none :
    (reloading : Bool) (cs : List Call) (s : State) (n : ℕ)
    → s.pending n ≡ none
    → fire reloading cs s n ≡ some s
unfolding fire
fire-none reloading cs s n e = rw (fire, e) refl

callback-Keeps :
    (reloading : Bool) (cs : List Call) (s : State) (n id : ℕ)
    → IsSound cold s
    → s.pending n ≡ some id
    → All (Spares (put cold id true)) cs
    → s.last_id + length cs < 2 ^ 32
    → Keeps cold (s.last_id + length cs) (fire reloading cs s n)
unfolding fire timer_add_callback
callback-Keeps reloading cs s n id v at h small =
    let (t, _, (b, e, p)) = v.owned n id at in
    let lit = light-IsSound cold s v id n (record b { timer = none }) refl at in
    let s₁ : State = record s {
      pending = put s.pending n none;
      block = put s.block id (some (record b { timer = none }));
    } in
    let (s₂, q, v₂, m₂) = calls-Keeps (put cold id true) s₁ cs lit h small in
    let (s₃, r, v₃, m₃) = called-Keeps reloading s₂ id v₂ (omega (arith, m₂, small)) in
    (s₃, rw (fire, at, timer_add_callback, e, q) r, v₃, omega (arith, m₂, m₃))

-- How many ids an event may use up.
abbrev pub ids_for : Event → ℕ
ids_for (calls_from_php c) = 1
ids_for (fires reloading cs n) = length cs

-- No function deletes the timer that calls it.
abbrev pub SparesItself : State → Event → Type 0
SparesItself s (calls_from_php c) = Unit {0}
SparesItself s (fires reloading cs n) =
    (id : ℕ) → s.pending n ≡ some id → All (Spares (put cold id true)) cs

-- Nor do the ids come to 2 ^ 32.
abbrev pub Polite : State → Event → Type 0
Polite s e = SparesItself s e × (s.last_id + ids_for e < 2 ^ 32)

pub data Reach : State → Type 0 where
  start : Reach initial
  next : {s s' : State} (e : Event) → Reach s → Polite s e → step s e ≡ some s' → Reach s'

step-Keeps :
    (s : State) (e : Event)
    → IsSound cold s
    → Polite s e
    → Keeps cold (s.last_id + ids_for e) (step s e)
unfolding step
step-Keeps s (calls_from_php (adds short ticks fcc a b)) v (_, small) =
    add-Keeps cold s v short ticks fcc a b small
step-Keeps s (calls_from_php (deletes id)) v (_, small) =
    let (s', p, v', m) = del-Keeps cold s v id refl (omega (arith, small)) in
    (s', p, v', omega (arith, m))
step-Keeps s (fires reloading cs n) v (h, small) = elim (Option-cases (s.pending n)) [
  | inl e ↦ (s, fire-none reloading cs s n e, v, omega arith)
  | inr (id, e) ↦ callback-Keeps reloading cs s n id v e (h id e) small
]

initial-IsSound : IsSound cold initial
initial-IsSound = record {
  kept = λ id h. cc;
  armed = λ id h c. cc;
  owned = λ n id h. cc;
  low = λ id h. cc;
  keyed = λ k i h. cc;
  lit = λ id h. cc;
  bare = λ id b h e. cc;
  fresh = λ n id h. cc;
}

pub Reach-IsSound : {s : State} → Reach s → IsSound cold s × (s.last_id < 2 ^ 32)
Reach-IsSound start = (initial-IsSound, omega arith)
Reach-IsSound (next {s} {s'} e r p q) =
    let (v₀, small₀) = Reach-IsSound r in
    let (s'', q', v, m) = step-Keeps s e v₀ p in
    let same : s'' ≡ s' = cc in
    subst (λ t. IsSound cold t × (t.last_id < 2 ^ 32)) same (v, omega (arith, m, p.1))

-- In a run of calls of `Timer::add` and `Timer::del` and of due timers, in which no function deletes
-- the timer that calls it, not even by an id that only has the same lowest 32 bits, and the ids stay below
-- 2 ^ 32: the next such event touches no freed block; afterwards each entry of the table is that of a timer
-- under its own id, for which the wheel holds a node; and a node of the wheel is that of a timer that stands
-- in the table.
pub polite_lem :
    (s : State) (e : Event)
    → Reach s
    → Polite s e
    → (s' : State) × (step s e ≡ some s')
      × ((k id : ℕ) → s'.timers k ≡ some id → (k ≡ id) × ((n : ℕ) × (s'.pending n ≡ some id)))
      × ((n id : ℕ) → s'.pending n ≡ some id → s'.timers id ≡ some id)
polite_lem s e r p =
    let (s', q, v, _) = step-Keeps s e (Reach-IsSound r).0 p in
    (
      s',
      q,
      λ k id t.
          let same = v.keyed k id t in
          let (n, _, at) = v.armed id (ap s'.timers (sym same) ∙ t) refl in (same, (n, at)),
      λ n id at. (v.owned n id at).0,
    )
