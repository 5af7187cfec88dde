-- ===== src/PhpTimer/Changed.antt =====
-- What the parts of the operations on timers keep: a block that is freed, a node that is added, a timer that is
-- entered in the table or becomes hot, and a write to a block.
use warrior_man.Prelude.{
  ℕ, ◌+◌, ◌≡◌, ◌≢◌, inl, inr, arith, refl, sym, ap, ◌∙◌, Bool, true, false, none, some, ◌==◌,
  Bool-cases, ne_of_==, eq_of_==,
}
use warrior_man.PhpTimer.{Block, State, put, arm}
use warrior_man.PhpTimer.Sound.{
  IsSound, put_self, put_ne, put-eq_true, put-eq_some, put-cases, put-cases_on, Has-other, gone,
}

module _ (hot : ℕ → Bool) (s : State) (v : IsSound hot s) (id : ℕ) where
  -- A hot timer that leaves.
  pub gone_hot-IsSound :
      hot id ≡ true → s.timers id ≡ some id → IsSound (put hot id false) (gone s id none)
  gone_hot-IsSound warm t =
      let s' = gone s id none in
      record {
        kept = λ i h.
            let (ne, t') = put-eq_some s.timers id i i h in
            let (b', e') = v.kept i t' in (b', put_ne s.block id none i ne ∙ e');
        armed = λ i h c.
            let (ne, t') = put-eq_some s.timers id i i h in
            let (m, has, at) = v.armed i t' (sym (put_ne hot id false i ne) ∙ c) in
            (m, Has-other s s' i m (put_ne s.block id none i ne) has, at);
        owned = λ m i at.
            let (t', cold, has) = v.owned m i at in
            let apart : i ≢ id = λ x. cc in
            (
              put_ne s.timers id none i apart ∙ t',
              put_ne hot id false i apart ∙ cold,
              Has-other s s' i m (put_ne s.block id none i apart) has,
            );
        low = λ i h. let (ne, t') = put-eq_some s.timers id i i h in v.low i t';
        keyed = λ k i h. let (_, t') = put-eq_some s.timers id k i h in v.keyed k i t';
        lit =
            λ i h. let (ne, w) = put-eq_true hot id i h in put_ne s.timers id none i ne ∙ v.lit i w;
        bare = λ i c h e.
            let (ne, w) = put-eq_true hot id i h in
            v.bare i c w (sym (put_ne s.block id none i ne) ∙ e);
        fresh = v.fresh;
      }

  -- A hot timer gets a node, and is hot no more.
  pub arm-IsSound :
      (b : Block) → hot id ≡ true → s.timers id ≡ some id → IsSound (put hot id false) (arm s id b)
  arm-IsSound b warm t =
      let s' = arm s id b in
      let n = s.next_node in
      let b' : Block = record b { timer = some n } in
      record {
        kept = λ i h. elim (Bool-cases (i == id)) [
          | inl e ↦ (b', rw e refl)
          | inr e ↦ rw e (v.kept i h)
        ];
        armed = λ i h c. elim (Bool-cases (i == id)) [
          | inl e ↦ (
            n,
            (b', rw e refl, refl),
            put_self s.pending n (some id) ∙ ap some (sym (eq_of_== i id e)),
          )
          | inr e ↦
              let ne = ne_of_== i id e in
              let (m, has, at) = v.armed i h (sym (put_ne hot id false i ne) ∙ c) in
              let older : m ≢ n = λ x. absurd (omega (arith, v.fresh m i at, x)) in
              (
                m,
                Has-other s s' i m (put_ne s.block id (some b') i ne) has,
                put_ne s.pending n (some id) m older ∙ at,
              )
        ];
        owned = λ m i h. elim (put-cases s.pending n id m i h) [
          | inl (em, ei) ↦
              rw (em, ei) (t, put_self hot id false, (b', put_self s.block id (some b'), refl))
          | inr (ne, at) ↦
              let (t', cold, has) = v.owned m i at in
              let apart : i ≢ id = λ x. cc in
              (
                t',
                put_ne hot id false i apart ∙ cold,
                Has-other s s' i m (put_ne s.block id (some b') i apart) has,
              )
        ];
        low = v.low;
        keyed = v.keyed;
        lit = λ i h. let (_, w) = put-eq_true hot id i h in v.lit i w;
        bare = λ i c h e.
            let (ne, w) = put-eq_true hot id i h in
            v.bare i c w (sym (put_ne s.block id (some b') i ne) ∙ e);
        fresh = λ m i h. elim (put-cases s.pending n id m i h) [
          | inl (em, _) ↦ omega (arith, em)
          | inr (_, at) ↦ omega (arith, v.fresh m i at)
        ];
      }

  -- A timer enters the table under the next id.
  pub enter-IsSound :
      (b : Block)
      → b.timer ≡ none
      → id ≡ s.last_id + 1
      → IsSound (put hot id true) (record s {
        last_id = id;
        block = put s.block id (some b);
        timers = put s.timers id (some id);
      })
  enter-IsSound b idle new =
      let s' : State = record s {
        last_id = id;
        block = put s.block id (some b);
        timers = put s.timers id (some id);
      } in
      let older : (i : ℕ) → s.timers i ≡ some i → i ≢ id =
        λ i h x. absurd (omega (arith, v.low i h, x)) in
      record {
        kept = λ i h. elim (put-cases s.timers id id i i h) [
          | inl (e, _) ↦ (b, rw e (put_self s.block id (some b)))
          | inr (ne, t) ↦ let (b', e') = v.kept i t in (b', put_ne s.block id (some b) i ne ∙ e')
        ];
        armed = λ i h c. elim (put-cases s.timers id id i i h) [
          | inl (e, _) ↦ absurd (cc (put_self hot id true, e))
          | inr (ne, t) ↦
              let (m, has, at) = v.armed i t (sym (put_ne hot id true i ne) ∙ c) in
              (m, Has-other s s' i m (put_ne s.block id (some b) i ne) has, at)
        ];
        owned = λ m i at.
            let (t, cold, has) = v.owned m i at in
            let ne = older i t in
            (
              put_ne s.timers id (some id) i ne ∙ t,
              put_ne hot id true i ne ∙ cold,
              Has-other s s' i m (put_ne s.block id (some b) i ne) has,
            );
        low = λ i h. elim (put-cases s.timers id id i i h) [
          | inl (e, _) ↦ omega (arith, e, new)
          | inr (ne, t) ↦ omega (arith, v.low i t, new)
        ];
        keyed = λ k i h. elim (put-cases s.timers id id k i h) [
          | inl (ek, ei) ↦ ek ∙ sym ei
          | inr (_, t) ↦ v.keyed k i t
        ];
        lit = λ i h. elim (put-cases_on hot id i h) [
          | inl e ↦ rw e (put_self s.timers id (some id))
          | inr (ne, w) ↦ put_ne s.timers id (some id) i ne ∙ v.lit i w
        ];
        bare = λ i c h e. elim (put-cases_on hot id i h) [
          | inl x ↦
              let y = put_self s.block id (some b) in
              let z : some c ≡ some b = sym e ∙ ap s'.block x ∙ y in cc
          | inr (ne, w) ↦ v.bare i c w (sym (put_ne s.block id (some b) i ne) ∙ e)
        ];
        fresh = v.fresh;
      }

  -- A node is due: it leaves, and the timer's callback is under way.
  pub light-IsSound :
      (n : ℕ) (b : Block)
      → b.timer ≡ none
      → s.pending n ≡ some id
      → IsSound
          (put hot id true)
          (record s { pending = put s.pending n none; block = put s.block id (some b) })
  light-IsSound n b idle at =
      let s' : State = record s {
        pending = put s.pending n none;
        block = put s.block id (some b);
      } in
      let (_, _, (b₀, e₀, p₀)) = v.owned n id at in
      record {
        kept = λ i h. elim (Bool-cases (i == id)) [
          | inl e ↦ (b, rw e refl)
          | inr e ↦ rw e (v.kept i h)
        ];
        armed = λ i h c. elim (Bool-cases (i == id)) [
          | inl e ↦ absurd (cc (put_self hot id true, eq_of_== i id e))
          | inr e ↦
              let ne = ne_of_== i id e in
              let (m, has, there) = v.armed i h (sym (put_ne hot id true i ne) ∙ c) in
              let apart : m ≢ n = λ x. ne (cc (there, at, x)) in
              (
                m,
                Has-other s s' i m (put_ne s.block id (some b) i ne) has,
                put_ne s.pending n none m apart ∙ there,
              )
        ];
        owned = λ m i h.
            let (ne, there) = put-eq_some s.pending n m i h in
            let (t, cold, (b', e', p')) = v.owned m i there in
            let apart : i ≢ id = λ x. ne (cc) in
            (
              t,
              put_ne hot id true i apart ∙ cold,
              Has-other s s' i m (put_ne s.block id (some b) i apart) (b', e', p'),
            );
        low = v.low;
        keyed = v.keyed;
        lit = λ i h. elim (put-cases_on hot id i h) [
          | inl e ↦ rw e (v.owned n id at).0
          | inr (ne, w) ↦ v.lit i w
        ];
        bare = λ i c h e. elim (put-cases_on hot id i h) [
          | inl x ↦
              let y = put_self s.block id (some b) in
              let z : some c ≡ some b = sym e ∙ ap s'.block x ∙ y in cc
          | inr (ne, w) ↦ v.bare i c w (sym (put_ne s.block id (some b) i ne) ∙ e)
        ];
        fresh = λ m i h. let (_, there) = put-eq_some s.pending n m i h in v.fresh m i there;
      }

  -- A write to the block of a hot timer.
  pub write-IsSound :
      (b : Block) (c : ℕ)
      → b.timer ≡ none
      → hot id ≡ true
      → IsSound hot (record s { block = put s.block id (some b); next_cid = c })
  write-IsSound b c idle warm =
      let s' : State = record s { block = put s.block id (some b); next_cid = c } in
      record {
        kept = λ i h. elim (Bool-cases (i == id)) [
          | inl e ↦ (b, rw e refl)
          | inr e ↦ rw e (v.kept i h)
        ];
        armed = λ i h cold.
            let ne : i ≢ id = λ x. cc in
            let (m, has, at) = v.armed i h cold in
            (m, Has-other s s' i m (put_ne s.block id (some b) i ne) has, at);
        owned = λ m i at.
            let (t, cold, has) = v.owned m i at in
            let ne : i ≢ id = λ x. cc in
            (t, cold, Has-other s s' i m (put_ne s.block id (some b) i ne) has);
        low = v.low;
        keyed = v.keyed;
        lit = v.lit;
        bare = λ i c w e. elim (Bool-cases (i == id)) [
          | inl x ↦
              let y = put_self s.block id (some b) in
              let z : some c ≡ some b = sym e ∙ ap s'.block (eq_of_== i id x) ∙ y in cc
          | inr x ↦ v.bare i c w (sym (put_ne s.block id (some b) i (ne_of_== i id x)) ∙ e)
        ];
        fresh = v.fresh;
      }
