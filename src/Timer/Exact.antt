-- ===== src/Timer/Exact.antt =====
-- Callbacks run exactly at their expiry, whatever the callbacks add to the wheel and delete from it.
use warrior_man.Prelude.{
  ℕ, zero, suc, ◌+◌, ◌%◌, ◌^◌, ◌≤◌, ◌<◌, ◌≡◌, inl, inr, arith, refl, sym, ap, ◌∙◌, not, some, List,
  [], ◌∷◌, All, All-snoc, All-mono, All-keep, length, length-keep-le, Bool-cases, Option-cases,
  List-cases, ◌==◌,
}
use warrior_man.Timer.{
  Node, Head, first, Wheel, sub32, first_index, link, add, node_init, add_quick, advance, Call,
  adds, deletes, Run, is_linked, del, call, calls, count_down, run_callback, fire_node, fire,
  take_due, tick,
}
use warrior_man.Timer.Placed.{Placed}
use warrior_man.Timer.Aging.{age}
use warrior_man.Timer.Turning.{expire-eq, Placed-later}
use warrior_man.Timer.Valid.{
  IsValid, Standing, link-Standing, replace-All, advance-Standing, currtick-advance, age-lt,
}

pub currtick-add : (w : Wheel) (n : Node) (ticks : ℕ) → (add w n ticks).currtick ≡ w.currtick
unfolding add link
currtick-add w n ticks = refl

left-later : (c t : ℕ) → c < 2 ^ 32 → 0 < t → t < 2 ^ 32 → 0 < sub32 ((c + t) % 2 ^ 32) c
left-later c t hc h ht = omega arith

-- A node with a tick to go at least finds its place, and disturbs no other.
pub add-IsValid :
    (w : Wheel) (n : Node) (ticks : ℕ) → ticks < 2 ^ 32 → IsValid w → IsValid (add w n ticks)
unfolding add link
add-IsValid w n ticks ht v = record {
  tick_u32 = v.tick_u32;
  placed =
      link-Standing 4 1 w _ v.tick_u32 (omega arith)
        (left-later w.currtick _ v.tick_u32 (ground arith) (ground arith)) v.placed;
}

-- The ticks at which callbacks ran are those at which they were due.
abbrev pub IsExact : List (ℕ × Node) → Type 0
IsExact ran = All (λ p. p.1.expire ≡ p.0) ran

-- A run inside the tick `c`.
pub record Sound {S : Type 0} (c : ℕ) (m : Run S) : Type 0 where
  pub tick_now : m.wheel.currtick ≡ c
  pub valid : IsValid m.wheel
  pub due : All (λ n. n.expire ≡ c) m.firing
  pub exact : IsExact m.ran

module _ {S : Type 0} where
  del-Sound : (c : ℕ) (m : Run S) (addr : ℕ) → Sound c m → Sound c (del m (some addr)).0
  unfolding del
  del-Sound c m addr s = elim (Bool-cases (is_linked m addr)) [
    | inl e ↦ rw e (record {
      tick_now = s.tick_now;
      valid = record {
        tick_u32 = s.valid.tick_u32;
        placed = λ h. All-keep (Placed 4 1 m.wheel.currtick h) _ (m.wheel.vec h) (s.valid.placed h);
      };
      due = All-keep (λ n. n.expire ≡ c) _ m.firing s.due;
      exact = s.exact;
    })
    | inr e ↦ rw e s
  ]

  call-Sound : (c : ℕ) (m : Run S) (k : Call) → Sound c m → Sound c (call m k)
  unfolding call add_quick
  call-Sound c m (adds addr cb ud ticks) s = record {
    tick_now = rw (currtick-add m.wheel (node_init addr cb ud) (ticks % 2 ^ 32)) s.tick_now;
    valid = add-IsValid m.wheel (node_init addr cb ud) (ticks % 2 ^ 32) (omega arith) s.valid;
    due = s.due;
    exact = s.exact;
  }
  call-Sound c m (deletes addr) s = del-Sound c m addr s

  calls-Sound : (c : ℕ) (m : Run S) (ks : List Call) → Sound c m → Sound c (calls m ks)
  unfolding calls
  calls-Sound c m [] s = s
  calls-Sound c m (k ∷ ks) s = calls-Sound c (call m k) ks (call-Sound c m k s)

  call-firing-le : (m : Run S) (k : Call) → length (call m k).firing ≤ length m.firing
  unfolding call del
  call-firing-le m (adds addr cb ud ticks) = omega arith
  call-firing-le m (deletes addr) =
      ground (arith, length-keep-le (λ n. not (n.addr == addr)) m.firing)

  calls-firing-le : (m : Run S) (ks : List Call) → length (calls m ks).firing ≤ length m.firing
  unfolding calls
  calls-firing-le m [] = omega arith
  calls-firing-le m (k ∷ ks) = omega (arith, calls-firing-le (call m k) ks, call-firing-le m k)

pub take_due-Sound :
    {S : Type 0} (m : Run S)
    → IsValid m.wheel
    → IsExact m.ran
    → Sound (age m.wheel.currtick) (take_due m)
unfolding take_due
take_due-Sound m v x = record {
  tick_now = currtick-advance m.wheel;
  valid = record {
    tick_u32 = in_u32;
    placed =
        replace-All (Placed 4 0 w.currtick) (Placed 4 1 w.currtick) w.vec h [] standing
          (λ k n q. Placed-later w.currtick k n in_u32 q) tt;
  };
  due =
      All-mono (Placed 4 0 w.currtick h) _ (w.vec h)
        (λ n p. expire-eq w.currtick n in_u32 p ∙ currtick-advance m.wheel) (standing h);
  exact = x;
}
  where
    w : Wheel
    w = advance m.wheel

    h : Head
    h = first (first_index w.currtick)

    in_u32 : w.currtick < 2 ^ 32
    in_u32 = rw (currtick-advance m.wheel) (age-lt m.wheel.currtick)

    standing : Standing 4 0 w
    standing = advance-Standing m.wheel v

module _ {S : Type 0} (callback : Node → S → S × List Call) where
  run_callback-Sound :
      (c : ℕ) (n : Node) (m : Run S)
      → n.expire ≡ c
      → Sound c m
      → Sound c (run_callback callback n m)
  unfolding run_callback
  run_callback-Sound c n m e s = calls-Sound c _ (callback n m.rest).1 (record {
    tick_now = s.tick_now;
    valid = s.valid;
    due = s.due;
    exact =
        All-snoc (λ (p : ℕ × Node). p.1.expire ≡ p.0) m.ran (m.wheel.currtick, n) s.exact
          (e ∙ sym s.tick_now);
  })

  fire_node-Sound :
      (c : ℕ) (n : Node) (m : Run S) → n.expire ≡ c → Sound c m → Sound c (fire_node callback n m)
  unfolding fire_node
  fire_node-Sound c n m e s = elim (Option-cases n.callback) [
    | inl o ↦ rw (o, fire_node) counted
    | inr (f, o) ↦ rw (o, fire_node) (run_callback-Sound c n _ e counted)
  ]
    where
      counted : Sound c (record m { wheel = count_down m.wheel })
      counted = record {
        tick_now = s.tick_now;
        valid = record { tick_u32 = s.valid.tick_u32; placed = s.valid.placed };
        due = s.due;
        exact = s.exact;
      }

  fire_node-firing-le :
      (n : Node) (m : Run S) → length (fire_node callback n m).firing ≤ length m.firing
  unfolding fire_node run_callback
  fire_node-firing-le n m = elim (Option-cases n.callback) [
    | inl o ↦ rw (o, fire_node) (omega arith)
    | inr (f, o) ↦ rw (o, fire_node) (calls-firing-le _ (callback n m.rest).1)
  ]

  fire-Sound : (fuel c : ℕ) (m : Run S) → Sound c m → Sound c (fire callback fuel m)
  unfolding fire
  fire-Sound zero c m s = s
  fire-Sound (suc fuel) c m s = elim (List-cases m.firing) [
    | inl e ↦ rw (e, fire) s
    | inr (n, ns, e) ↦
        let due : All (λ n. n.expire ≡ c) (n ∷ ns) = rw e at s.due in
        rw (e, fire)
          (fire-Sound fuel c _ (
            fire_node-Sound c n _ due.0
              (record { tick_now = s.tick_now; valid = s.valid; due = due.1; exact = s.exact })))
  ]

  -- The fuel is enough: every node that was due has been taken.
  fire_empties :
      (fuel : ℕ) (m : Run S) → length m.firing ≤ fuel → (fire callback fuel m).firing ≡ []
  unfolding fire
  fire_empties zero m h = elim (List-cases m.firing) [
    | inl e ↦ e
    | inr (n, ns, e) ↦ absurd (omega (arith, ap length e))
  ]
  fire_empties (suc fuel) m h = elim (List-cases m.firing) [
    | inl e ↦ rw (e, fire) e
    | inr (n, ns, e) ↦
        rw (e, fire)
          (fire_empties fuel _
            (omega (arith, ap length e, fire_node-firing-le n (record m { firing = ns }))))
  ]

  -- A tick keeps the wheel valid and moves its counter by one; a callback that has run, in this tick
  -- or before, ran in the tick at which its node expired; and no node that was due is left over.
  pub tick-IsExact :
      (m : Run S)
      → IsValid m.wheel
      → IsExact m.ran
      → let m' = tick callback m in
        IsValid m'.wheel
        × (m'.wheel.currtick ≡ (m.wheel.currtick + 1) % 2 ^ 32)
        × IsExact m'.ran
        × (m'.firing ≡ [])
  unfolding tick age
  tick-IsExact m v x = (s.valid, s.tick_now, s.exact, fire_empties _ _ (omega arith))
    where
      s : Sound (age m.wheel.currtick) (tick callback m)
      s = fire-Sound _ _ _ (take_due-Sound m v x)
