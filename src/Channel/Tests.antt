-- ===== src/Channel/Tests.antt =====
-- A channel on small inputs, and its theorems applied to them.
use warrior_man.Prelude.{ℕ, ◌≡◌, refl, true, false, some, List, [], ◌∷◌, length}
use warrior_man.Queue.{Queue, push, pop}
use warrior_man.Channel.{
  World, parked, nothing, fired, create, wake_one, mark_awake, push_ends, push_starts, push_wakes,
  pop_ends, pop_starts, pop_wakes, sleep_timeout, Event, starts_push, wakes_push, starts_pop, step,
}
use warrior_man.Channel.Fifo.{opened, run, start}
use warrior_man.Channel.Timeout.{timeout_strays}

abbrev same : ℕ → ℕ
same d = d

-- Coroutine 1 pushes into a channel of one datum, coroutine 2 waits to push, and coroutine 3 pops.
abbrev script : List Event
script =
    starts_push 1 7 false ∷ starts_push 2 8 true ∷ starts_pop 3 false ∷ wakes_push 8 (some 0) ∷ []

run-script :
    ((run (start same 1) script).accepted ≡ 7 ∷ 8 ∷ [])
    × ((run (start same 1) script).delivered ≡ 7 ∷ [])
unfolding run step create push_starts push_wakes push_ends pop_starts pop_ends wake_one mark_awake
    push pop
run-script = (refl, refl)

abbrev of_items : List ℕ → Queue
of_items xs = record { num = length xs; items = xs; after_free = same }

-- Room for two data; coroutines 5 and 6 wait to pop.
abbrev hungry : World
hungry = record (opened same 2) {
  channel = record {
    capacity = 2;
    producer_queue = of_items [];
    consumer_queue = of_items (5 ∷ 6 ∷ []);
    data_queue = of_items [];
  };
}

-- Two data of two; coroutines 5 and 6 wait to push.
abbrev full : World
full = record (opened same 2) {
  channel = record {
    capacity = 2;
    producer_queue = of_items (5 ∷ 6 ∷ []);
    consumer_queue = of_items [];
    data_queue = of_items (7 ∷ 8 ∷ []);
  };
}

abbrev timing : World
timing = record full { blocks = some (record { co = 5; type = true }) ∷ [] }

abbrev quiet : World
quiet = record hungry { channel = record (hungry.channel) { consumer_queue = of_items [] } }

timeout_strays_example :
    let (w₁, r₁) = pop_starts quiet 4 true in
    let (w₂, r₂) = sleep_timeout w₁ 0 in
    let (w₃, r₃) = pop_wakes w₂ (some 0) in
    (r₁ ≡ parked (some 0)) × (r₂ ≡ fired (some 4)) × (r₃ ≡ nothing) × (w₃.stray ≡ true)
timeout_strays_example = timeout_strays quiet 4 refl
