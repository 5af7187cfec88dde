-- ===== src/Channel/Fifo.antt =====
-- A channel gives out what it took in, in order, and never holds more than its capacity.
use warrior_man.Prelude.{
  ℕ, ◌^◌, ◌≤◌, ◌<◌, ◌≡◌, inl, inr, refl, false, Option, none, some, List, [], ◌∷◌, ◌++◌,
  Option-cases, get_elem?,
}
use warrior_man.Queue.Laws.{IsCounted}
use warrior_man.Channel.{
  Channel, World, Reply, pushed, popped, create, mark_awake, Event, starts_push, wakes_push, step,
}

-- A new channel in a program with no timers.
abbrev pub opened : (ℕ → ℕ) → ℕ → World
opened after_free capacity = record {
  channel = create after_free capacity;
  blocks = [];
  stray = false;
}

-- A run, with the data of the pushes that answered true and those that pops gave out, in order.
pub record Trace : Type 0 where
  pub world : World
  pub accepted : List ℕ
  pub delivered : List ℕ

abbrev pub taken : ℕ → Reply → List ℕ
taken datum (pushed co) = datum ∷ []
taken datum _ = []

abbrev pub given : Reply → List ℕ
given (popped datum co) = datum ∷ []
given _ = []

-- The datum that an event brings to the channel; a pop and a timer bring none.
abbrev pub brought : Event → ℕ
brought (starts_push co datum timed) = datum
brought (wakes_push datum wct) = datum
brought _ = 0

abbrev pub record_step : Trace → Event → Trace
record_step t e =
    let (w, r) = step t.world e in
    record {
      world = w;
      accepted = t.accepted ++ taken (brought e) r;
      delivered = t.delivered ++ given r;
    }

unfoldable pub run : Trace → List Event → Trace
run t [] = t
run t (e ∷ es) = run (record_step t e) es

abbrev pub start : (ℕ → ℕ) → ℕ → Trace
start after_free capacity = record {
  world = opened after_free capacity;
  accepted = [];
  delivered = [];
}

-- What holds between any two parts: the data are counted and within the capacity, which is a
-- `uint32_t`, and with what was given out they are what was taken in.
pub record Sound (capacity : ℕ) (ch : Channel) (accepted delivered : List ℕ) : Type 0 where
  pub same_capacity : ch.capacity ≡ capacity
  pub capacity_u32 : capacity < 2 ^ 32
  pub counted : IsCounted ch.data_queue
  pub within : ch.data_queue.num ≤ capacity
  pub in_order : accepted ≡ delivered ++ ch.data_queue.items

-- The outcome of a part that brings `datum`.
abbrev pub After : ℕ → List ℕ → List ℕ → ℕ → World × Reply → Type 0
After capacity accepted delivered datum out =
    Sound capacity out.0.channel (accepted ++ taken datum out.1) (delivered ++ given out.1)

pub channel-mark_awake : (w : World) (wct : Option ℕ) → (mark_awake w wct).channel ≡ w.channel
unfolding mark_awake
channel-mark_awake w none = refl
channel-mark_awake w (some i) = elim (Option-cases (get_elem? w.blocks i)) [
  | inl e ↦ rw (mark_awake, e) refl
  | inr (b, e) ↦ elim (Option-cases b) [
    | inl o ↦ rw (mark_awake, e, o) refl
    | inr (c, o) ↦ rw (mark_awake, e, o) refl
  ]
]
