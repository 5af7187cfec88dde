-- ===== src/Timer/Delay.antt =====
-- From adding a timer to its callback, and the gap that an idle loop leaves in the wheel's clock.
use warrior_man.Prelude.{
  ℕ, ◌+◌, ◌-◌, ◌/◌, ◌%◌, ◌^◌, ◌≤◌, ◌<◌, ◌≡◌, arith, refl, subst, ltb, if◌then◌else◌, true, some,
  List, In, All,
}
use warrior_man.Timer.{Node, Wheel, Call, Run, link, add, add_quick, node_init, poll}
use warrior_man.Timer.Placed.{left}
use warrior_man.Timer.Valid.{IsValid}
use warrior_man.Timer.Exact.{IsExact, add-IsValid}
use warrior_man.Timer.Linked.{Linked, link_self}
use warrior_man.Timer.OnTime.{Spares, run_ticks, on_time}
use warrior_man.Timer.Record.{run_ticks-keeps, run_ticks-add}
use warrior_man.Timer.Clock.{elapsed, at_time, leave, update_lem}

-- A delay of no ticks counts as one.
abbrev pub delay : ℕ → ℕ
delay ticks = if ltb 0 ticks then ticks else 1

-- The node that `add_quick` links.
abbrev pub timer_node : Wheel → ℕ → ℕ → ℕ → ℕ → Node
timer_node w addr f ud ticks = record {
  addr = addr;
  userdata = ud;
  callback = some f;
  expire = (w.currtick + delay ticks) % 2 ^ 32;
}

abbrev pub with_timer : {S : Type 0} → Run S → ℕ → ℕ → ℕ → ℕ → Run S
with_timer m addr f ud ticks = record m { wheel = add_quick m.wheel addr (some f) ud ticks }

delay_bounds : (ticks : ℕ) → ticks < 2 ^ 32 → (0 < delay ticks) × (delay ticks < 2 ^ 32)
delay_bounds ticks h = ground arith

left-timer : (c t : ℕ) → c < 2 ^ 32 → t < 2 ^ 32 → ((c + t) % 2 ^ 32 + 2 ^ 32 - c) % 2 ^ 32 ≡ t
left-timer c t hc ht = omega arith

pub add_quick-Linked :
    (w : Wheel) (addr f ud ticks : ℕ)
    → Linked (timer_node w addr f ud ticks) (add_quick w addr (some f) ud ticks)
unfolding add_quick add
add_quick-Linked w addr f ud ticks = link_self (timer_node w addr f ud ticks) w

left-add_quick :
    (w : Wheel) (addr f ud ticks : ℕ)
    → w.currtick < 2 ^ 32
    → ticks < 2 ^ 32
    → left (add_quick w addr (some f) ud ticks).currtick (timer_node w addr f ud ticks)
      ≡ delay ticks
unfolding add_quick add link
left-add_quick w addr f ud ticks hc ht =
    left-timer w.currtick (delay ticks) hc (delay_bounds ticks ht).1

pub add_quick-IsValid :
    (w : Wheel) (addr f ud ticks : ℕ)
    → ticks < 2 ^ 32
    → IsValid w
    → IsValid (add_quick w addr (some f) ud ticks)
unfolding add_quick
add_quick-IsValid w addr f ud ticks = add-IsValid w (node_init addr (some f) ud) ticks

add_quick-num :
    (w : Wheel) (addr f ud ticks : ℕ)
    → w.num ≡ 0
    → ltb 0 (add_quick w addr (some f) ud ticks).num ≡ true
unfolding add_quick add link
add_quick-num w addr f ud ticks h = let e : (w.num + 1) % 2 ^ 32 ≡ 1 = omega arith in rw e refl

module _ {S : Type 0} (callback : Node → S → S × List Call) (addr f ud ticks : ℕ)
    (spared : (k : Node) (s : S) → All (Spares addr) (callback k s).1) (u32 : ticks < 2 ^ 32) where
  -- On a valid wheel, a timer added with a delay of `ticks` ticks, and deleted by no callback, runs
  -- in the tick `currtick + ticks` (mod 2 ^ 32), or in the next tick for a delay of 0.
  pub add_on_time :
      (m : Run S)
      → IsValid m.wheel
      → IsExact m.ran
      → In
          ((m.wheel.currtick + delay ticks) % 2 ^ 32, timer_node m.wheel addr f ud ticks)
          (run_ticks callback (delay ticks) (with_timer m addr f ud ticks)).ran
  add_on_time m v x =
      subst (λ k. In (n.expire, n) (run_ticks callback k m').ran) same_left
        (on_time callback n refl spared m' (add_quick-IsValid m.wheel addr f ud ticks u32 v) x
          (add_quick-Linked m.wheel addr f ud ticks))
    where
      n : Node
      n = timer_node m.wheel addr f ud ticks

      m' : Run S
      m' = with_timer m addr f ud ticks

      same_left : left m'.wheel.currtick n ≡ delay ticks
      same_left = left-add_quick m.wheel addr f ud ticks v.tick_u32 u32

  -- The wheel's clock stands still while no timer is counted, so a delay that begins then is cut
  -- short: on a valid wheel that counts no timers, a timer of `ticks` ticks that is added at
  -- `mic_time` runs in the very next poll, also at `mic_time`, if at least `ticks` whole intervals
  -- have passed since the wheel was last updated (and `int diff` does not overflow).
  pub idle_early :
      (m : Run S) (fuel mic_time : ℕ)
      → IsValid m.wheel
      → IsExact m.ran
      → m.wheel.num ≡ 0
      → 0 < m.wheel.interval
      → m.wheel.interval < 2 ^ 16
      → m.wheel.lasttime < mic_time
      → mic_time < 2 ^ 64
      → elapsed m.wheel mic_time < 2 ^ 31
      → elapsed m.wheel mic_time < fuel
      → delay ticks ≤ elapsed m.wheel mic_time / m.wheel.interval
      → (r : Run S) × (poll callback fuel mic_time (with_timer m addr f ud ticks) ≡ some r)
        × In ((m.wheel.currtick + delay ticks) % 2 ^ 32, timer_node m.wheel addr f ud ticks) r.ran
  unfolding poll add_quick add link
  idle_early m fuel mic_time v x hn hi hw hl ht he hf hd = (
    leave (elapsed m.wheel mic_time % m.wheel.interval) (run_ticks callback rounds m₁),
    rw (add_quick-num m.wheel addr f ud ticks hn)
        (update_lem callback fuel mic_time m' hi hw hl ht he hf),
    subst (λ k. In e (run_ticks callback k m₁).ran) whole
        (rw run_ticks-add (run_ticks-keeps callback e _ _ in_time)),
  )
    where
      m' : Run S
      m' = with_timer m addr f ud ticks

      m₁ : Run S
      m₁ = at_time mic_time m'

      rounds : ℕ
      rounds = elapsed m.wheel mic_time / m.wheel.interval

      whole : delay ticks + (rounds - delay ticks) ≡ rounds
      whole = omega arith

      n : Node
      n = timer_node m.wheel addr f ud ticks

      e : ℕ × Node
      e = (n.expire, n)

      valid : IsValid m₁.wheel
      valid =
          let v' = add_quick-IsValid m.wheel addr f ud ticks u32 v in
          record { tick_u32 = v'.tick_u32; placed = v'.placed }

      in_time : In e (run_ticks callback (delay ticks) m₁).ran
      in_time =
          subst (λ k. In e (run_ticks callback k m₁).ran)
            (left-add_quick m.wheel addr f ud ticks v.tick_u32 u32)
            (on_time callback n refl spared m₁ valid x (add_quick-Linked m.wheel addr f ud ticks))
