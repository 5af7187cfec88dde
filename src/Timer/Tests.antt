-- ===== src/Timer/Tests.antt =====
-- Runs of the wheel on small inputs, and its theorems applied to them.
use warrior_man.Prelude.{
  ℕ, ◌+◌, ◌-◌, ◌%◌, ◌^◌, ◌/◌, ◌≡◌, arith, refl, true, some, List, [], ◌∷◌, All, In, ℕ_discrete,
  dec_lt,
}
use warrior_man.Timer.{
  Node, first, nth, init, head_for, upper_head, link, add, add_quick, link_all, cascade, turn_round,
  turn, advance, Call, adds, Run, has_addr, any_below, is_linked, call, calls, take_due,
  run_callback, fire_node, fire, tick, update,
}
use warrior_man.Timer.Placed.{left}
use warrior_man.Timer.Valid.{IsValid}
use warrior_man.Timer.Exact.{IsExact, tick-IsExact}
use warrior_man.Timer.OnTime.{Spares, run_ticks, on_time}
use warrior_man.Timer.Clock.{at_time, leave, update_lem}
use warrior_man.Timer.Delay.{timer_node, with_timer, add_quick-IsValid, add_quick-Linked}

-- The rest of the program counts the callbacks; each callback starts a timer at address 99.
abbrev again : Node → ℕ → ℕ × List Call
again n s = (s + 1, adds 99 (some 1) 0 2 ∷ [])

abbrev started : Run ℕ
started = record { wheel = init 1 1000; firing = []; rest = 0; ran = [] }

abbrev node_255 : Node
node_255 = record { addr = 7; userdata = 0; callback = some 1; expire = 255 }

abbrev held : Run ℕ
held = record started { wheel = link (init 1 1000) node_255 }

started-IsValid : IsValid started.wheel
unfolding init
started-IsValid = record { tick_u32 = omega arith; placed = λ h. tt {0} }

heads :
    (head_for 300 0 ≡ nth 0 1)
    × (head_for 300 299 ≡ first 44)
    × (head_for (2 ^ 31) 0 ≡ nth 3 32)
    × (head_for 4 (2 ^ 32 - 1) ≡ first 4)
unfolding head_for upper_head dec_lt
heads = (refl, refl, refl, refl)

tick-started : (tick again (with_timer started 5 1 0 1)).rest ≡ 1
unfolding init tick fire fire_node run_callback calls call add_quick add link head_for upper_head
    take_due advance turn turn_round cascade link_all dec_lt ℕ_discrete
tick-started = refl

held-is_linked : is_linked held 7 ≡ true
unfolding is_linked has_addr any_below link head_for upper_head dec_lt ℕ_discrete init
held-is_linked = refl

abbrev timed : Run ℕ
timed = with_timer started 5 1 0 3

timed-IsValid : IsValid timed.wheel
timed-IsValid = add_quick-IsValid started.wheel 5 1 0 3 (omega arith) started-IsValid

again-Spares : (n : Node) (s : ℕ) → All (Spares 5) (again n s).1
again-Spares n s = (tt, tt)

tick-IsExact_example :
    let m = tick again timed in
    IsValid m.wheel
    × (m.wheel.currtick ≡ (timed.wheel.currtick + 1) % 2 ^ 32)
    × IsExact m.ran
    × (m.firing ≡ [])
tick-IsExact_example = tick-IsExact again timed timed-IsValid tt

on_time_example :
    let n = timer_node started.wheel 5 1 0 3 in
    In (n.expire, n) (run_ticks again (left timed.wheel.currtick n) timed).ran
on_time_example =
    on_time again (timer_node started.wheel 5 1 0 3) refl again-Spares timed timed-IsValid tt
      (add_quick-Linked started.wheel 5 1 0 3)

-- 7 milliseconds after the last update, on an interval of 2 with 1 left over: 4 ticks.
abbrev late : Run ℕ
late = record started { wheel = record (init 2 1000) { remainder = 1 } }

update_lem_example :
    update again 9 1007 late ≡ some (leave (8 % 2) (run_ticks again (8 / 2) (at_time 1007 late)))
unfolding init
update_lem_example =
    update_lem again 9 1007 late (omega arith) (omega arith) (omega arith) (omega arith)
      (omega arith) (omega arith)

abbrev stopped : Run ℕ
stopped = record started { wheel = init 0 1000 }
