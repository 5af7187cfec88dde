-- ===== src/Timer/Clock.antt =====
-- `wmTimerWheel_update`: how many ticks a stretch of time makes.
use warrior_man.Prelude.{
  ℕ, zero, suc, ◌+◌, ◌-◌, ◌/◌, ◌%◌, ◌^◌, ◌≤◌, ◌<◌, ◌≡◌, inl, inr, arith, refl, ◌∙◌, leb, none, some,
  List, Bool-cases, ltb_of_lt, leb_of_le, lt_of_leb, le_of_leb,
}
use native.Mathlib.Nat.{mod-eq_of_lt, mod-lt}
use warrior_man.Timer.{Node, Wheel, Call, Run, tick, ticks, difference, update}
use warrior_man.Timer.OnTime.{run_ticks}

div_step : (w d : ℕ) → 0 < w → w ≤ d → d / w ≡ suc ((d - w) / w)
div_step w d hw h = grind arith

mod_step : (w d : ℕ) → 0 < w → w ≤ d → d % w ≡ (d - w) % w
mod_step w d hw h = grind arith

-- The milliseconds since the last update, with those left over then.
abbrev pub elapsed : Wheel → ℕ → ℕ
elapsed w currtime = currtime - w.lasttime + w.remainder

abbrev pub at_time : {S : Type 0} → ℕ → Run S → Run S
at_time currtime m = record m { wheel = record (m.wheel) { lasttime = currtime } }

abbrev pub leave : {S : Type 0} → ℕ → Run S → Run S
leave rest m = record m { wheel = record (m.wheel) { remainder = rest } }

div_below : (w d : ℕ) → d < w → d / w ≡ 0
div_below w d h = grind arith

module _ {S : Type 0} (callback : Node → S → S × List Call) where
  -- The loop makes as many ticks as the interval goes into the difference, given fuel above it.
  ticks_lem :
      (fuel diff intv : ℕ) (m : Run S)
      → 0 < intv
      → diff < fuel
      → ticks callback fuel diff intv m ≡ some (diff % intv, run_ticks callback (diff / intv) m)
  unfolding ticks run_ticks
  ticks_lem zero diff intv m hi h = elim h [ ]
  ticks_lem (suc fuel) diff intv m hi h = elim (Bool-cases (leb intv diff)) [
    | inl e ↦
        let le = le_of_leb intv diff e in
        rw (e, ticks)
          (ticks_lem fuel (diff - intv) intv (tick callback m) hi (omega arith)
            ∙ rw (div_step intv diff hi le, mod_step intv diff hi le, run_ticks))
    | inr e ↦
        let lt = lt_of_leb intv diff e in
        rw (e, ticks) (rw (div_below intv diff lt, mod-eq_of_lt lt, run_ticks))
  ]

  -- The loop never ends on an interval of 0.
  ticks_stuck : (fuel diff : ℕ) (m : Run S) → ticks callback fuel diff 0 m ≡ none
  unfolding ticks
  ticks_stuck zero diff m = refl
  ticks_stuck (suc fuel) diff m =
      rw (leb_of_le 0 diff (omega arith), ticks) (ticks_stuck fuel (diff - 0) (tick callback m))

  -- Let the time `currtime` be later than the last one, by so little that `int diff` does not
  -- overflow, and let the interval be positive. Then an update with fuel above the elapsed
  -- milliseconds succeeds: it makes as many ticks as there are whole intervals in the time elapsed
  -- and left over, notes the time, and leaves over the milliseconds that make no interval.
  pub update_lem :
      (fuel currtime : ℕ) (m : Run S)
      → 0 < m.wheel.interval
      → m.wheel.interval < 2 ^ 16
      → m.wheel.lasttime < currtime
      → currtime < 2 ^ 64
      → elapsed m.wheel currtime < 2 ^ 31
      → elapsed m.wheel currtime < fuel
      → update callback fuel currtime m
        ≡ some (
            leave (elapsed m.wheel currtime % m.wheel.interval) (
              run_ticks callback
                (elapsed m.wheel currtime / m.wheel.interval)
                (at_time currtime m)))
  unfolding update
  update_lem fuel currtime m hi hw hl ht he hf =
      let same_diff : difference m.wheel currtime ≡ elapsed m.wheel currtime = omega arith in
      let small : elapsed m.wheel currtime % m.wheel.interval % 2 ^ 16
          ≡ elapsed m.wheel currtime % m.wheel.interval =
        mod-eq_of_lt (omega (arith, mod-lt (elapsed m.wheel currtime) hi)) in
      rw
        (
          ltb_of_lt m.wheel.lasttime currtime hl,
          same_diff,
          ltb_of_lt (elapsed m.wheel currtime) (2 ^ 31) he,
          ticks_lem fuel (elapsed m.wheel currtime) m.wheel.interval (at_time currtime m) hi hf,
          small,
        )
        refl

  -- A wheel whose interval is 0 never comes back from an update by less than 2 ^ 31 milliseconds.
  pub update_stuck :
      (fuel currtime : ℕ) (m : Run S)
      → m.wheel.interval ≡ 0
      → m.wheel.lasttime < currtime
      → currtime < 2 ^ 64
      → elapsed m.wheel currtime < 2 ^ 31
      → update callback fuel currtime m ≡ none
  unfolding update
  update_stuck fuel currtime m hi hl ht he =
      let same_diff : difference m.wheel currtime ≡ elapsed m.wheel currtime = omega arith in
      rw
        (
          ltb_of_lt m.wheel.lasttime currtime hl,
          same_diff,
          ltb_of_lt (elapsed m.wheel currtime) (2 ^ 31) he,
          hi,
          ticks_stuck,
        )
        refl
