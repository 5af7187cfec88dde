-- ===== src/Timer.antt =====
-- The timing wheel of src/core/timer.c and include/timer.h.
--
-- A list head of the wheel is a `Head`, and `vec` gives the nodes linked behind each head, oldest
-- first: `wmList_add_back` appends and `wmList_splice` moves a whole list. A node's links are its
-- place in such a list. A callback belongs to the rest of the program: it is a parameter, which maps
-- the rest's state and gives the calls on the wheel that the callback makes, in order.
mod Placed
mod Aging
mod Turning
mod Valid
mod Exact
mod Linked
mod OnTime
mod Record
mod Clock
mod Clear
mod Delay
mod Tests
use warrior_man.Prelude.{
  ℕ, zero, suc, ◌+◌, ◌-◌, ◌*◌, ◌/◌, ◌%◌, ◌^◌, Bool, true, false, not, ◌||◌, Option, none, some,
  List, [], ◌∷◌, ◌++◌, length, keep, ltb, leb, ◌==◌, if◌then◌else◌,
}

abbrev pub tvr_bits : ℕ
tvr_bits = 8

abbrev pub tvr_size : ℕ
tvr_size = 2 ^ tvr_bits

abbrev pub tvn_bits : ℕ
tvn_bits = 6

abbrev pub tvn_size : ℕ
tvn_size = 2 ^ tvn_bits

-- `wmTimerWheel_Node`: its address, and its fields but the links and `id`, which the wheel never reads.
-- A callback of `none` is NULL.
pub record Node : Type 0 where
  pub addr : ℕ
  pub userdata : ℕ
  pub callback : Option ℕ
  pub expire : ℕ

-- The list heads: `tvroot.vec + i`, `tv[n].vec + i` and `so_long_node`.
pub data Head : Type 0 where
  first : ℕ → Head
  nth : ℕ → ℕ → Head
  so_long : Head

abbrev pub same : Head → Head → Bool
same (first i) (first j) = i == j
same (nth n i) (nth k j) = if n == k then i == j else false
same so_long so_long = true
same _ _ = false

-- `wmTimerWheel`
pub record Wheel : Type 0 where
  pub vec : Head → List Node
  pub lasttime : ℕ
  pub currtick : ℕ
  pub interval : ℕ
  pub remainder : ℕ
  pub num : ℕ

abbrev pub replace : (Head → List Node) → Head → List Node → Head → List Node
replace vec h ns k = if same h k then ns else vec k

pub init : ℕ → ℕ → Wheel
init interval currtime = record {
  vec = λ h. [];
  lasttime = currtime;
  currtick = 0;
  interval = interval % 2 ^ 16;
  remainder = 0;
  num = 0;
}

-- `v & TVR_MASK`
abbrev pub first_index : ℕ → ℕ
first_index v = v % tvr_size

-- `(v >> (TVR_BITS + n * TVN_BITS)) & TVN_MASK`
abbrev pub nth_index : ℕ → ℕ → ℕ
nth_index v n = v / 2 ^ (tvr_bits + n * tvn_bits) % tvn_size

-- The subtraction of two `uint32_t`.
abbrev pub sub32 : ℕ → ℕ → ℕ
sub32 a b = (a + 2 ^ 32 - b) % 2 ^ 32

-- The `for` over the four upper wheels, with the rounds left.
pub upper_head : ℕ → ℕ → ℕ → ℕ → Head
upper_head zero i expire idx = so_long
upper_head (suc k) i expire idx =
    let rest = upper_head k (i + 1) expire idx in
    if ltb idx (2 ^ (tvr_bits + (i + 1) * tvn_bits)) then nth i (nth_index expire i) else rest

-- The head behind which `_wmTimerWheel_add` links a node.
pub head_for : ℕ → ℕ → Head
unfolding upper_head
head_for expire currtick =
    let idx = sub32 expire currtick in
    if ltb idx tvr_size then first (first_index expire) else upper_head 4 0 expire idx

-- `_wmTimerWheel_add`
pub link : Wheel → Node → Wheel
link w n =
    let h = head_for n.expire w.currtick in record w { vec = replace w.vec h (w.vec h ++ n ∷ []) }

-- `wmTimerWheel_add`; `ticks` is a `uint32_t`.
pub add : Wheel → Node → ℕ → Wheel
add w n ticks =
    let expire = (w.currtick + (if ltb 0 ticks then ticks else 1)) % 2 ^ 32 in
    let w' = link w (record n { expire = expire }) in record w' { num = (w'.num + 1) % 2 ^ 32 }

-- `wmTimerWheel_node_init`
abbrev pub node_init : ℕ → Option ℕ → ℕ → Node
node_init addr cb ud = record { addr = addr; userdata = ud; callback = cb; expire = 0 }

-- `wmTimerWheel_add_quick`; `addr` is what `wm_malloc` gives.
unfoldable pub add_quick : Wheel → ℕ → Option ℕ → ℕ → ℕ → Wheel
add_quick w addr cb ud ticks = add w (node_init addr cb ud) ticks

link_all : Wheel → List Node → Wheel
link_all w [] = w
link_all w (n ∷ ns) = link_all (link w n) ns

-- `_timerwheel_cascade`
pub cascade : Wheel → Head → Wheel
cascade w h = link_all (record w { vec = replace w.vec h [] }) (w.vec h)

-- One round of the `do … while` of `_wmTimerWheelick`.
turn_round : ℕ → Wheel → Wheel
turn_round i w =
    let w' = cascade w (nth i (nth_index w.currtick i)) in if i == 3 then cascade w' so_long else w'

-- The `do … while`, with the rounds left.
turn : ℕ → ℕ → Wheel → Wheel
turn zero i w = w
turn (suc k) i w =
    let w' = turn_round i w in
    let rest = turn k (i + 1) w' in if nth_index w.currtick i == 0 then rest else w'

-- The first half of `_wmTimerWheelick`: count the tick, and move the upper wheels.
pub advance : Wheel → Wheel
advance w =
    let w' = record w { currtick = (w.currtick + 1) % 2 ^ 32 } in
    let turned = turn 4 0 w' in if first_index w'.currtick == 0 then turned else w'

-- The nodes with this address, unlinked. (An address stands in one list at most.)
abbrev pub unlink : ℕ → List Node → List Node
unlink addr = keep (λ n. not (n.addr == addr))

-- What a callback asks of the wheel.
pub data Call : Type 0 where
  adds : (addr : ℕ) → Option ℕ → (ud ticks : ℕ) → Call
  deletes : (addr : ℕ) → Call

-- A run of the wheel: `firing` is the local list `head` of `_wmTimerWheelick`, `rest` the state of
-- the program behind the callbacks, and `ran` records each callback with the tick that ran it.
pub record Run (S : Type 0) : Type 0 where
  pub wheel : Wheel
  pub firing : List Node
  pub rest : S
  pub ran : List (ℕ × Node)

pub has_addr : ℕ → List Node → Bool
has_addr addr [] = false
has_addr addr (n ∷ ns) = n.addr == addr || has_addr addr ns

-- Some of the first `n` list heads, `f 0` to `f (n - 1)`, has the node.
pub any_below : ℕ → (ℕ → Bool) → Bool
any_below zero p = false
any_below (suc n) p = p n || any_below n p

module _ {S : Type 0} where
  -- The node is in a list: `!wmList_is_empty(node)`.
  pub is_linked : Run S → ℕ → Bool
  unfolding has_addr any_below
  is_linked m addr =
      let vec = m.wheel.vec in
      any_below tvr_size (λ i. has_addr addr (vec (first i)))
      || any_below 4 (λ n. any_below tvn_size (λ i. has_addr addr (vec (nth n i))))
      || has_addr addr (vec so_long)
      || has_addr addr m.firing

  -- The node with this address out of every list.
  abbrev pub unlink_everywhere : Run S → ℕ → Run S
  unlink_everywhere m addr = record m {
    wheel = record (m.wheel) { vec = λ h. unlink addr (m.wheel.vec h) };
    firing = unlink addr m.firing;
  }

  -- `wmTimerWheel_del`, with its result; `none` is NULL. The wheel's counter stays as it is.
  pub del : Run S → Option ℕ → Run S × ℕ
  del m none = (m, 1)
  del m (some addr) = if is_linked m addr then (unlink_everywhere m addr, 1) else (m, 0)

  -- A call passes its ticks as a `uint32_t`.
  pub call : Run S → Call → Run S
  call m (adds addr cb ud ticks) = record m {
    wheel = add_quick m.wheel addr cb ud (ticks % 2 ^ 32);
  }
  call m (deletes addr) = (del m (some addr)).0

  pub calls : Run S → List Call → Run S
  calls m [] = m
  calls m (c ∷ cs) = calls (call m c) cs

-- `tw->num--`
abbrev pub count_down : Wheel → Wheel
count_down w = record w { num = (w.num + 2 ^ 32 - 1) % 2 ^ 32 }

-- The tick is counted, the upper wheels move, and the present slot of the first wheel is spliced out.
pub take_due : {S : Type 0} → Run S → Run S
take_due m =
    let w = advance m.wheel in
    let h = first (first_index w.currtick) in
    record m { wheel = record w { vec = replace w.vec h [] }; firing = w.vec h }

-- The two's complement pattern of `int diff` in `wmTimerWheel_update`.
abbrev pub difference : Wheel → ℕ → ℕ
difference w currtime = (currtime + 2 ^ 64 - w.lasttime + w.remainder) % 2 ^ 32

-- `tw->remainder = diff`, a `uint16_t`.
abbrev store_remainder : {S : Type 0} → Option (ℕ × Run S) → Option (Run S)
store_remainder none = none
store_remainder (some (diff, m)) =
    some (record m { wheel = record (m.wheel) { remainder = diff % 2 ^ 16 } })

module _ {S : Type 0} (callback : Node → S → S × List Call) where
  -- The callback of a node, with the calls that it makes.
  pub run_callback : Node → Run S → Run S
  run_callback n m =
      let (s, cs) = callback n m.rest in
      calls (record m { rest = s; ran = m.ran ++ (m.wheel.currtick, n) ∷ [] }) cs

  -- The body of the firing loop, at a node that is unlinked already.
  pub fire_node : Node → Run S → Run S
  fire_node n m =
      let m' = record m { wheel = count_down m.wheel } in
      elim n.callback [ none ↦ m' | some _ ↦ run_callback n m' ]

  -- `while (!wmList_is_empty(&head))`
  pub fire : ℕ → Run S → Run S
  fire zero m = m
  fire (suc fuel) m = elim m.firing [
    | [] ↦ m
    | n ∷ ns ↦ fire fuel (fire_node n (record m { firing = ns }))
  ]

  -- `_wmTimerWheelick`; a callback can only shorten `firing`, so its length is fuel enough.
  pub tick : Run S → Run S
  tick m = let m' = take_due m in fire (length m'.firing) m'

  -- `while (diff >= intv)`: the difference left and the run, or `none` where the fuel runs out.
  pub ticks : ℕ → ℕ → ℕ → Run S → Option (ℕ × Run S)
  ticks zero diff intv m = none
  ticks (suc fuel) diff intv m = elim (leb intv diff) [
    | true ↦ ticks fuel (diff - intv) intv (tick m)
    | false ↦ some (diff, m)
  ]

  -- `wmTimerWheel_update`. A negative `diff` is below every `intv`.
  pub update : ℕ → ℕ → Run S → Option (Run S)
  update fuel currtime m =
      let w = m.wheel in
      let diff = difference w currtime in
      let m₁ = record m { wheel = record w { lasttime = currtime } } in
      let run = if ltb diff (2 ^ 31) then ticks fuel diff w.interval m₁ else some (diff, m₁) in
      if ltb w.lasttime currtime then store_remainder run else some m

module _ {S : Type 0} (callback : Node → S → S × List Call) where
  -- The end of a round of `wmWorkerLoop_loop`: the clock is read only while timers are counted.
  pub poll : ℕ → ℕ → Run S → Option (Run S)
  poll fuel mic_time m = if ltb 0 m.wheel.num then update callback fuel mic_time m else some m

-- `for (i = k; i < k + n; ++i)` over the first wheel: each list is freed.
pub clear_first : ℕ → ℕ → Wheel → Wheel
clear_first zero k w = w
clear_first (suc n) k w = clear_first n (k + 1) (record w { vec = replace w.vec (first k) [] })

-- The second loop of `wmTimerWheel_clear`, which splices from `tw->tvroot.vec + j` as well.
pub clear_upper : ℕ → Wheel → Wheel
clear_upper zero w = w
clear_upper (suc n) w = clear_upper n (clear_first tvn_size 0 w)

-- `wmTimerWheel_clear`
pub clear : Wheel → Wheel
clear w =
    let w' = clear_upper 4 (clear_first tvr_size 0 w) in
    record w' { vec = replace w'.vec so_long []; num = 0 }
