-- ===== src/Coroutine/Refine.antt =====
-- The scheduler's pointers and tables implement the stack.
use warrior_man.Prelude.{
  ℕ, ◌+◌, ◌%◌, ◌^◌, ◌≡◌, inl, inr, arith, refl, sym, ap, ◌∙◌, Bool, true, false, ◌&&◌, ◌||◌, Option,
  none, some, List, [], ◌∷◌, length, ◌==◌, Bool-cases, eq_of_==, ==_self,
}
use warrior_man.Coroutine.{
  Sched, has, remove, update, next_cid, name_of, create, yield, finish, initial,
}
use warrior_man.Coroutine.Stack.{
  Stacks, top, stack_create, stack_yield, stack_finish, Distinct, Chain, Chain-update, has-remove,
  remove-lacks,
}

-- The scheduler's state stands for this stack.
pub record Refines (s : Sched) (a : Stacks) : Type 0 where
  pub current_top : s.current ≡ top a.running
  pub chain : Chain s.origin a.running
  pub same_yielded : s.yielded ≡ a.suspended
  pub live : (t : ℕ) → has t s.coroutines ≡ (has t a.running || has t a.suspended)
  pub apart : (t : ℕ) → (has t a.running && has t a.suspended) ≡ false
  pub distinct_running : Distinct a.running
  pub distinct_suspended : Distinct a.suspended
  pub no_main : (has 0 a.running ≡ false) × (has 0 a.suspended ≡ false)
  pub total : s.total_num ≡ (length a.running + length a.suspended) % 2 ^ 64
  pub same_last : s.last_cid ≡ a.last

and_left : (p q : Bool) → (p && q) ≡ false → p ≡ true → q ≡ false
and_left p q h e = ground (arith, h, e)

pub and_right : (p q : Bool) → (p && q) ≡ false → q ≡ true → p ≡ false
and_right p q h e = ground (arith, h, e)

or_left : (p q : Bool) → (p || q) ≡ false → p ≡ false
or_left p q h = ground (arith, h)

or_right : (p q : Bool) → (p || q) ≡ false → q ≡ false
or_right p q h = ground (arith, h)

pub update_self : (f : ℕ → ℕ) (t v : ℕ) → update f t v t ≡ v
update_self f t v = rw (==_self t) refl

pub initial-Refines :
    (eg : ℕ) → Refines (initial eg) (record { running = []; suspended = []; last = 0 })
initial-Refines eg = record {
  current_top = refl;
  chain = tt;
  same_yielded = refl;
  live = λ t. refl;
  apart = λ t. refl;
  distinct_running = tt;
  distinct_suspended = tt;
  no_main = (refl, refl);
  total = omega arith;
  same_last = refl;
}

pub create-Refines :
    (s : Sched) (a : Stacks) (valid : Bool) (page : ℕ)
    → Refines s a
    → Refines (create s valid page).0 (stack_create a valid)
unfolding create
create-Refines s a false page r = r
create-Refines s a true page r =
    elim (Bool-cases
      (has (name_of (next_cid a.last)) a.running || has (name_of (next_cid a.last)) a.suspended)) [
        | inl e ↦
            let known : has (name_of (next_cid s.last_cid)) s.coroutines ≡ true =
              rw r.same_last (r.live _ ∙ e) in
            rw (known, e)
              (record {
                current_top = r.current_top;
                chain = r.chain;
                same_yielded = r.same_yielded;
                live = r.live;
                apart = r.apart;
                distinct_running = r.distinct_running;
                distinct_suspended = r.distinct_suspended;
                no_main = r.no_main;
                total = r.total;
                same_last = ap next_cid r.same_last;
              })
        | inr e ↦
            let t : ℕ = name_of (next_cid a.last) in
            let fresh : has (name_of (next_cid s.last_cid)) s.coroutines ≡ false =
              rw r.same_last (r.live _ ∙ e) in
            let f₁ : has t a.running ≡ false = or_left (has t a.running) (has t a.suspended) e in
            let f₂ : has t a.suspended ≡ false = or_right (has t a.running) (has t a.suspended) e in
            let pos : (0 == t) ≡ false = ground arith in
            rw (fresh, e, r.same_last)
              (record {
                current_top = refl;
                chain = (
                  update_self s.origin t s.current ∙ r.current_top,
                  Chain-update s.origin t s.current a.running f₁ r.chain,
                );
                same_yielded = r.same_yielded;
                live = λ x. ground (arith, r.live x);
                apart = λ x. elim (Bool-cases (x == t)) [
                  | inl q ↦ let eq : x ≡ t = eq_of_== x t q in rw (q, eq) f₂
                  | inr q ↦ rw q (r.apart x)
                ];
                distinct_running = (f₁, r.distinct_running);
                distinct_suspended = r.distinct_suspended;
                no_main = (rw pos r.no_main.0, r.no_main.1);
                total = omega (arith, r.total);
                same_last = refl;
              })
      ]

-- Both crash, or the one's state stands for the other's.
abbrev pub Matches : Option Sched → Option Stacks → Type 0
Matches none none = Unit
Matches (some s) (some a) = Refines s a
Matches _ _ = ⊥

abbrev stacks : List ℕ → List ℕ → ℕ → Stacks
stacks running suspended last = record { running = running; suspended = suspended; last = last }

top_nonzero : (c : ℕ) (cs : List ℕ) → has 0 (c ∷ cs) ≡ false → (c == 0) ≡ false
top_nonzero c cs h = ground (arith, h)

pub yield-Refines :
    (s : Sched) (running suspended : List ℕ) (last : ℕ)
    → Refines s (stacks running suspended last)
    → Matches (yield s) (stack_yield (stacks running suspended last) running)
unfolding yield
yield-Refines s [] suspended last r = rw r.current_top tt
yield-Refines s (c ∷ rs) suspended last r =
    let nz = top_nonzero c rs r.no_main.0 in
    let lacks : has c suspended ≡ false =
      and_left (has c (c ∷ rs)) (has c suspended) (r.apart c) (rw (==_self c) refl) in
    let z : (0 == c) ≡ false = ground (arith, nz) in
    rw (r.current_top, nz, r.same_yielded, lacks)
      (record {
        current_top = r.chain.0;
        chain = r.chain.1;
        same_yielded = refl;
        live = λ x. ground (arith, r.live x);
        apart = λ x. elim (Bool-cases (x == c)) [
          | inl q ↦ let eq : x ≡ c = eq_of_== x c q in rw (q, eq, r.distinct_running.0) refl
          | inr q ↦
              let h : ((false || has x rs) && has x suspended) ≡ false =
                ap (λ b. (b || has x rs) && has x suspended) (sym q) ∙ r.apart x in
              rw q h
        ];
        distinct_running = r.distinct_running.1;
        distinct_suspended = (lacks, r.distinct_suspended);
        no_main = (or_right (0 == c) (has 0 rs) r.no_main.0, rw z r.no_main.1);
        total = omega (arith, r.total);
        same_last = r.same_last;
      })

pub finish-Refines :
    (s : Sched) (running suspended : List ℕ) (last : ℕ)
    → Refines s (stacks running suspended last)
    → Matches (finish s) (stack_finish (stacks running suspended last) running)
unfolding finish
finish-Refines s [] suspended last r = rw r.current_top tt
finish-Refines s (c ∷ rs) suspended last r =
    let nz = top_nonzero c rs r.no_main.0 in
    let lacks : has c suspended ≡ false =
      and_left (has c (c ∷ rs)) (has c suspended) (r.apart c) (rw (==_self c) refl) in
    rw (r.current_top, nz)
      (record {
        current_top = r.chain.0;
        chain = r.chain.1;
        same_yielded = ap (remove c) r.same_yielded ∙ remove-lacks c suspended lacks;
        live = λ x. has-remove x c s.coroutines ∙ elim (Bool-cases (x == c)) [
          | inl q ↦ let eq : x ≡ c = eq_of_== x c q in rw (q, eq, r.distinct_running.0, lacks) refl
          | inr q ↦ rw (q, r.live x) (rw q refl)
        ];
        apart = λ x. let h = r.apart x in ground (arith, h);
        distinct_running = r.distinct_running.1;
        distinct_suspended = r.distinct_suspended;
        no_main = (or_right (0 == c) (has 0 rs) r.no_main.0, r.no_main.1);
        total = omega (arith, r.total);
        same_last = r.same_last;
      })
