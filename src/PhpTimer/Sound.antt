-- ===== src/PhpTimer/Sound.antt =====
-- What holds of the timers between two calls, and that the calls keep it.
use warrior_man.Prelude.{
  ℕ, ◌<◌, ◌≤◌, ◌≡◌, ◌≢◌, ◌⊎◌, inl, inr, arith, refl, sym, ap, ◌∙◌, Bool, true, false, Option, none,
  some, ◌==◌, ==_self, Bool-cases, ne_of_==, eq_of_==,
}
use warrior_man.PhpTimer.{Block, State, put, del_node}

-- The block of the timer is there, and it has the node.
abbrev pub Has : State → ℕ → ℕ → Type 0
Has s id n = (b : Block) × (s.block id ≡ some b) × (b.timer ≡ some n)

-- `hot` says of a timer that its callback is under way.
pub record IsSound (hot : ℕ → Bool) (s : State) : Type 0 where
  -- A timer of the table has a block, and unless it is hot it has a node in the wheel.
  pub kept : (id : ℕ) → s.timers id ≡ some id → (b : Block) × (s.block id ≡ some b)
  pub armed :
      (id : ℕ)
      → s.timers id ≡ some id
      → hot id ≡ false
      → (n : ℕ) × Has s id n × (s.pending n ≡ some id)
  -- A node of the wheel belongs to a timer of the table.
  pub owned :
      (n id : ℕ) → s.pending n ≡ some id → (s.timers id ≡ some id) × (hot id ≡ false) × Has s id n
  pub low : (id : ℕ) → s.timers id ≡ some id → (0 < id) × (id ≤ s.last_id)
  -- Each timer stands under its id.
  pub keyed : (k i : ℕ) → s.timers k ≡ some i → k ≡ i
  pub lit : (id : ℕ) → hot id ≡ true → s.timers id ≡ some id
  pub bare : (id : ℕ) (b : Block) → hot id ≡ true → s.block id ≡ some b → b.timer ≡ none
  pub fresh : (n id : ℕ) → s.pending n ≡ some id → n < s.next_node

module _ {ℓ} {A : Type ℓ} where
  pub put_self : (f : ℕ → A) (k : ℕ) (a : A) → put f k a k ≡ a
  put_self f k a = rw (==_self k) refl

  pub put_ne : (f : ℕ → A) (k : ℕ) (a : A) (j : ℕ) → j ≢ k → put f k a j ≡ f j
  put_ne f k a j h = let e : (j == k) ≡ false = ground arith in rw e refl

pub put-eq_true : (f : ℕ → Bool) (k j : ℕ) → put f k false j ≡ true → (j ≢ k) × (f j ≡ true)
put-eq_true f k j h = ground arith

pub put-eq_some :
    (f : ℕ → Option ℕ) (k j i : ℕ) → put f k none j ≡ some i → (j ≢ k) × (f j ≡ some i)
put-eq_some f k j i h = ground arith

pub put-cases :
    (f : ℕ → Option ℕ) (k a j i : ℕ)
    → put f k (some a) j ≡ some i
    → ((j ≡ k) × (i ≡ a)) ⊎ ((j ≢ k) × (f j ≡ some i))
put-cases f k a j i h = elim (Bool-cases (j == k)) [
  | inl e ↦ inl (eq_of_== j k e, ground arith)
  | inr e ↦ inr (ne_of_== j k e, ground arith)
]

pub put-cases_on :
    (f : ℕ → Bool) (k j : ℕ) → put f k true j ≡ true → (j ≡ k) ⊎ ((j ≢ k) × (f j ≡ true))
put-cases_on f k j h = elim (Bool-cases (j == k)) [
  | inl e ↦ inl (eq_of_== j k e)
  | inr e ↦ inr (ne_of_== j k e, ground arith)
]

-- The timer has the node in both states alike.
pub Has-other : (s s' : State) (id n : ℕ) → s'.block id ≡ s.block id → Has s id n → Has s' id n
Has-other s s' id n e (b, h, t) = (b, e ∙ h, t)

-- A timer that leaves: its block is freed, and the node that it had, if it had one, is deleted.
abbrev pub gone : State → ℕ → Option ℕ → State
gone s id node = record s {
  pending = del_node s.pending node;
  timers = put s.timers id none;
  block = put s.block id none;
}

pub gone-IsSound :
    (hot : ℕ → Bool) (s : State) (id n : ℕ)
    → IsSound hot s
    → s.timers id ≡ some id
    → hot id ≡ false
    → Has s id n
    → s.pending n ≡ some id
    → IsSound hot (gone s id (some n))
gone-IsSound hot s id n v t cool (b, e, p) q =
    let s' = gone s id (some n) in
    record {
      kept = λ i h.
          let (ne, t') = put-eq_some s.timers id i i h in
          let (b', e') = v.kept i t' in (b', put_ne s.block id none i ne ∙ e');
      armed = λ i h cold.
          let (ne, t') = put-eq_some s.timers id i i h in
          let (m, has, at) = v.armed i t' cold in
          let apart : m ≢ n = λ x. ne (ap (λ k. k) (cc (at, q, x))) in
          (
            m,
            Has-other s s' i m (put_ne s.block id none i ne) has,
            put_ne s.pending n none m apart ∙ at,
          );
      owned = λ m i h.
          let (ne, at) = put-eq_some s.pending n m i h in
          let (t', cold, (b', e', p')) = v.owned m i at in
          let apart : i ≢ id = λ x. ne (cc) in
          (
            put_ne s.timers id none i apart ∙ t',
            cold,
            Has-other s s' i m (put_ne s.block id none i apart) (b', e', p'),
          );
      low = λ i h. let (ne, t') = put-eq_some s.timers id i i h in v.low i t';
      keyed = λ k i h. let (_, t') = put-eq_some s.timers id k i h in v.keyed k i t';
      lit = λ i h. let apart : i ≢ id = λ x. cc in put_ne s.timers id none i apart ∙ v.lit i h;
      bare = λ i c w e.
          let apart : i ≢ id = λ x. cc in v.bare i c w (sym (put_ne s.block id none i apart) ∙ e);
      fresh = λ m i h. let (ne, at) = put-eq_some s.pending n m i h in v.fresh m i at;
    }
