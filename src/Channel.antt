-- ===== src/Channel.antt =====
-- The channel of src/coroutine/channel.c and include/channel.h.
--
-- A coroutine is its pointer, and a push or a pop is cut where its coroutine yields: `_starts` is the
-- part up to the yield or the end, `_wakes` the part after the yield. Both end with the coroutine that
-- the operation resumes last, if any: what that coroutine does comes before the operation's return, and
-- changes nothing of it. The blocks `WmChannelCoroutineType` that a timer and a waiting coroutine
-- share are a list of their own, where `none` is a freed block; `stray` says that a freed block was used.
mod Fifo
mod Waiting
mod Timeout
mod Tests
use warrior_man.Prelude.{
  ℕ, zero, suc, ◌+◌, ◌-◌, ◌%◌, ◌^◌, Bool, true, false, Option, none, some, List, [], ◌∷◌, ◌++◌,
  length, get_elem?, set, ltb, ◌==◌, if◌then◌else◌,
}
use warrior_man.Queue.{Queue, push, pop}
use warrior_man.Queue

-- `wmChannel`
pub record Channel : Type 0 where
  pub capacity : ℕ
  pub producer_queue : Queue
  pub consumer_queue : Queue
  pub data_queue : Queue

-- `WmChannelCoroutineType`
pub record Block : Type 0 where
  pub co : ℕ
  pub type : Bool

pub record World : Type 0 where
  pub channel : Channel
  pub blocks : List (Option Block)
  pub stray : Bool

-- How a part ends: in a yield, with the block that the timer was given; in the answer of a push; in
-- the datum of a pop, or in its NULL; or, for a timer, with the coroutine that it resumes. The last
-- argument is the coroutine resumed.
pub data Reply : Type 0 where
  parked : Option ℕ → Reply
  refused : Reply
  pushed : Option ℕ → Reply
  nothing : Reply
  popped : (datum : ℕ) → Option ℕ → Reply
  fired : Option ℕ → Reply

-- `wmChannel_create`, over an allocator that leaves `after_free` of what is freed.
pub create : (ℕ → ℕ) → ℕ → Channel
create after_free capacity = record {
  capacity = capacity;
  producer_queue = Queue.create after_free;
  consumer_queue = Queue.create after_free;
  data_queue = Queue.create after_free;
}

-- `while (queue->num > 0)`: the first coroutine but NULL. Each round takes one out of a counted queue,
-- so its count is fuel enough.
pub wake_one : ℕ → Queue → Queue × Option ℕ
wake_one zero q = (q, none)
wake_one (suc fuel) q =
    let (q', co) = pop q in
    let rest = wake_one fuel q' in
    if ltb 0 q.num then (if co == 0 then rest else (q', some co)) else (q, none)

-- The timer's block, if `timeout > 0`, and its index.
abbrev pub with_block : World → ℕ → Bool → World × Option ℕ
with_block w co timed =
    if timed
    then (
      record w { blocks = w.blocks ++ some (record { co = co; type = true }) ∷ [] },
      some (length w.blocks),
    )
    else (w, none)

-- `if (wct) { wct->type = false; }`
pub mark_awake : World → Option ℕ → World
mark_awake w none = w
mark_awake w (some i) = elim (get_elem? w.blocks i) [
  | some (some b) ↦ record w { blocks = set w.blocks i (some (record b { type = false })) }
  | _ ↦ record w { stray = true }
]

-- `wmChannel_push` from its second test on.
pub push_ends : World → ℕ → World × Reply
push_ends w datum =
    let ch = w.channel in
    let (consumers, co) = wake_one ch.consumer_queue.num ch.consumer_queue in
    let ch' = record ch { data_queue = push ch.data_queue datum; consumer_queue = consumers } in
    if ch.data_queue.num == ch.capacity
    then (w, refused)
    else (record w { channel = ch' }, pushed co)

-- `wmChannel_push`, up to the yield if there is one.
pub push_starts : World → (co datum : ℕ) → (timed : Bool) → World × Reply
push_starts w co datum timed =
    let (w', wct) = with_block w co timed in
    let ch = w'.channel in
    let ch' = record ch { producer_queue = push ch.producer_queue co } in
    if w.channel.data_queue.num == w.channel.capacity
    then (record w' { channel = ch' }, parked wct)
    else push_ends w datum

-- `wmChannel_push` after the yield; `wct` is its local variable.
pub push_wakes : World → ℕ → Option ℕ → World × Reply
push_wakes w datum wct = push_ends (mark_awake w wct) datum

-- `wmChannel_pop` from its second test on.
pub pop_ends : World → World × Reply
pop_ends w =
    let ch = w.channel in
    let (rest, datum) = pop ch.data_queue in
    let (producers, co) = wake_one ch.producer_queue.num ch.producer_queue in
    let ch' = record ch { data_queue = rest; producer_queue = producers } in
    if ch.data_queue.num == 0 then (w, nothing) else (record w { channel = ch' }, popped datum co)

-- `wmChannel_pop`, up to the yield if there is one.
pub pop_starts : World → (co : ℕ) → (timed : Bool) → World × Reply
pop_starts w co timed =
    let (w', wct) = with_block w co timed in
    let ch = w'.channel in
    let ch' = record ch { consumer_queue = push ch.consumer_queue co } in
    if w.channel.data_queue.num == 0 then (record w' { channel = ch' }, parked wct) else pop_ends w

-- `wmChannel_pop` after the yield.
pub pop_wakes : World → Option ℕ → World × Reply
pop_wakes w wct = pop_ends (mark_awake w wct)

-- `sleep_timeout`
pub sleep_timeout : World → ℕ → World × Reply
sleep_timeout w i = elim (get_elem? w.blocks i) [
  | some (some b) ↦
      (record w { blocks = set w.blocks i none }, fired (if b.type then some b.co else none))
  | _ ↦ (record w { stray = true }, fired none)
]

-- `wmChannel_clear`: `while (wmChannel_num(channel) > 0)`, with fuel for each datum.
pub drain : ℕ → Queue → Queue
drain zero q = q
drain (suc fuel) q = let rest = drain fuel (pop q).0 in if ltb 0 q.num then rest else q

pub clear : Channel → Channel
clear ch = record ch { data_queue = drain ch.data_queue.num ch.data_queue }

-- A part of an operation, or of a timer.
pub data Event : Type 0 where
  starts_push : (co datum : ℕ) → (timed : Bool) → Event
  wakes_push : (datum : ℕ) → (wct : Option ℕ) → Event
  starts_pop : (co : ℕ) → (timed : Bool) → Event
  wakes_pop : (wct : Option ℕ) → Event
  times_out : (wct : ℕ) → Event

pub step : World → Event → World × Reply
step w (starts_push co datum timed) = push_starts w co datum timed
step w (wakes_push datum wct) = push_wakes w datum wct
step w (starts_pop co timed) = pop_starts w co timed
step w (wakes_pop wct) = pop_wakes w wct
step w (times_out wct) = sleep_timeout w wct
