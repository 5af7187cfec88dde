-- ===== src/Channel/Timeout.antt =====
-- The timer of a waiting coroutine, and what is left of a wait that timed out.
use warrior_man.Prelude.{
  ℕ, ◌<◌, ◌≡◌, ◌≢◌, inl, inr, arith, refl, sym, ap, subst, ◌∙◌, Bool, true, false, Option, none,
  some, List, [], ◌∷◌, ◌++◌, length, get_elem?, get_elem?-set_self, get_elem?-snoc,
  get_elem?-length, ltb, ltb_of_lt, ◌==◌, Bool-cases,
}
use warrior_man.Queue.{Queue, push, pop}
use warrior_man.Channel.{
  Channel, Block, World, parked, pushed, nothing, fired, mark_awake, push_ends, push_starts,
  push_wakes, pop_ends, pop_starts, pop_wakes, sleep_timeout, drain, clear,
}
use warrior_man.Channel.Fifo.{channel-mark_awake}
use warrior_man.Channel.Waiting.{
  Holds, Holds-num, pop-Holds, push-Holds, wake_first, push_ends_room,
}

blocks-push_ends :
    (w : World) (d : ℕ)
    → ((push_ends w d).0.blocks ≡ w.blocks) × ((push_ends w d).0.stray ≡ w.stray)
unfolding push_ends
blocks-push_ends w d = elim (Bool-cases (w.channel.data_queue.num == w.channel.capacity)) [
  | inl e ↦ rw e (refl, refl)
  | inr e ↦ rw e (refl, refl)
]

blocks-pop_ends :
    (w : World) → ((pop_ends w).0.blocks ≡ w.blocks) × ((pop_ends w).0.stray ≡ w.stray)
unfolding pop_ends
blocks-pop_ends w = elim (Bool-cases (w.channel.data_queue.num == 0)) [
  | inl e ↦ rw e (refl, refl)
  | inr e ↦ rw e (refl, refl)
]

-- A timer whose block says that its coroutine is awake.
silent :
    (w : World) (i : ℕ) (b : Block)
    → get_elem? w.blocks i ≡ some (some b)
    → b.type ≡ false
    → ((sleep_timeout w i).1 ≡ fired none) × ((sleep_timeout w i).0.stray ≡ w.stray)
unfolding sleep_timeout
silent w i b e f = rw (sleep_timeout, e, f) (refl, refl)

marked :
    (w : World) (i : ℕ) (b : Block)
    → get_elem? w.blocks i ≡ some (some b)
    → let w' = mark_awake w (some i) in
      (get_elem? w'.blocks i ≡ some (some (record b { type = false }))) × (w'.stray ≡ w.stray)
unfolding mark_awake
marked w i b e =
    rw (mark_awake, e)
      (
        get_elem?-set_self w.blocks i (some (record b { type = false }))
            (get_elem?-length w.blocks i (some b) e),
        refl,
      )

-- Once a waiting coroutine has run on, before its timer, the timer resumes nobody; and neither of
-- them touches a freed block.
pub timer_after_wake :
    (w : World) (d i : ℕ) (b : Block)
    → get_elem? w.blocks i ≡ some (some b)
    → let pushed_on = (push_wakes w d (some i)).0 in
      let popped_on = (pop_wakes w (some i)).0 in
      ((sleep_timeout pushed_on i).1 ≡ fired none)
      × ((sleep_timeout pushed_on i).0.stray ≡ w.stray)
      × ((sleep_timeout popped_on i).1 ≡ fired none)
      × ((sleep_timeout popped_on i).0.stray ≡ w.stray)
unfolding push_wakes pop_wakes
timer_after_wake w d i b e =
    let m = marked w i b e in
    let p = blocks-push_ends (mark_awake w (some i)) d in
    let q = blocks-pop_ends (mark_awake w (some i)) in
    let s =
      silent (push_wakes w d (some i)).0 i (record b { type = false })
        (ap (λ bs. get_elem? bs i) p.0 ∙ m.0) refl in
    let t =
      silent (pop_wakes w (some i)).0 i (record b { type = false })
        (ap (λ bs. get_elem? bs i) q.0 ∙ m.0) refl in
    (s.0, s.1 ∙ p.1 ∙ m.1, t.0, t.1 ∙ q.1 ∙ m.1)

-- The timer of a block that stands last in the list: it resumes the coroutine and frees the block.
fires_last :
    (w : World) (bs : List (Option Block)) (b : Block)
    → w.blocks ≡ bs ++ some b ∷ []
    → b.type ≡ true
    → let (w', r) = sleep_timeout w (length bs) in
      (r ≡ fired (some b.co))
      × (get_elem? w'.blocks (length bs) ≡ some none)
      × (w'.channel ≡ w.channel)
unfolding sleep_timeout
fires_last w bs b e t =
    let g : get_elem? w.blocks (length bs) ≡ some (some b) =
      ap (λ l. get_elem? l (length bs)) e ∙ get_elem?-snoc bs (some b) in
    rw (sleep_timeout, g, t)
      (
        refl,
        get_elem?-set_self w.blocks (length bs) none
            (get_elem?-length w.blocks (length bs) (some b) g),
        refl,
      )

strays :
    (w : World) (i : ℕ) → get_elem? w.blocks i ≡ some none → (mark_awake w (some i)).stray ≡ true
unfolding mark_awake
strays w i e = rw (mark_awake, e) refl

pop_ends_none : (w : World) → (w.channel.data_queue.num == 0) ≡ true → (pop_ends w).0 ≡ w
unfolding pop_ends
pop_ends_none w e = rw (pop_ends, e) refl

module _ (w : World) (co : ℕ) where
  -- The world in which the pop that timed out has come back.
  pub timed_out : World
  timed_out =
      let i = length w.blocks in
      let parked_in = (pop_starts w co true).0 in
      (pop_wakes (sleep_timeout parked_in i).0 (some i)).0

  -- A pop with a timeout on an empty channel waits; its timer resumes it, and then it answers NULL:
  -- but it has written into the block, which its timer has freed.
  pub timeout_strays :
      w.channel.data_queue.num ≡ 0
      → let i = length w.blocks in
        let (w₁, r₁) = pop_starts w co true in
        let (w₂, r₂) = sleep_timeout w₁ i in
        let (w₃, r₃) = pop_wakes w₂ (some i) in
        (r₁ ≡ parked (some i)) × (r₂ ≡ fired (some co)) × (r₃ ≡ nothing) × (w₃.stray ≡ true)
  unfolding pop_starts pop_wakes pop_ends
  timeout_strays e =
      let n : (w.channel.data_queue.num == 0) ≡ true = ground arith in
      rw n (
        let w₁ : World = record w {
          channel = record (w.channel) { consumer_queue = push w.channel.consumer_queue co };
          blocks = w.blocks ++ some (record { co = co; type = true }) ∷ [];
        } in
        let f = fires_last w₁ w.blocks (record { co = co; type = true }) refl refl in
        let w₂ : World = (sleep_timeout w₁ (length w.blocks)).0 in
        let same : (mark_awake w₂ (some (length w.blocks))).channel ≡ w₁.channel =
          channel-mark_awake w₂ (some (length w.blocks)) ∙ f.2 in
        let n' : ((mark_awake w₂ (some (length w.blocks))).channel.data_queue.num == 0) ≡ true =
          ap (λ (c : Channel). c.data_queue.num == 0) same ∙ n in
        (refl, f.0, rw n' refl, rw n' (strays w₂ (length w.blocks) f.1)))

  abbrev waits : World
  waits = record w {
    channel = record (w.channel) { consumer_queue = push w.channel.consumer_queue co };
    blocks = w.blocks ++ some (record { co = co; type = true }) ∷ [];
  }

  pop_starts-waits : (w.channel.data_queue.num == 0) ≡ true → (pop_starts w co true).0 ≡ waits
  unfolding pop_starts
  pop_starts-waits n = rw (pop_starts, n) refl

  channel-timed_out : w.channel.data_queue.num ≡ 0 → timed_out.channel ≡ waits.channel
  unfolding timed_out pop_wakes
  channel-timed_out e =
      let n : (w.channel.data_queue.num == 0) ≡ true = ground arith in
      let w₂ : World = (sleep_timeout waits (length w.blocks)).0 in
      let f = fires_last waits w.blocks (record { co = co; type = true }) refl refl in
      let same = channel-mark_awake w₂ (some (length w.blocks)) ∙ f.2 in
      let n' = ap (λ (c : Channel). c.data_queue.num == 0) same ∙ n in
      ap (λ u. (pop_wakes (sleep_timeout u (length w.blocks)).0 (some (length w.blocks))).0.channel)
        (pop_starts-waits n)
      ∙ ap (λ (u : World). u.channel) (pop_ends_none (mark_awake w₂ (some (length w.blocks))) n')
      ∙ same

  -- The coroutine of a pop that timed out stays in the queue of those that wait: the next push, by
  -- whomever, resumes it, though it waits no more.
  pub stale_waiter :
      (co' d : ℕ) (timed : Bool)
      → Holds w.channel.data_queue []
      → Holds w.channel.consumer_queue []
      → 0 < w.channel.capacity
      → co ≢ 0
      → (push_starts timed_out co' d timed).1 ≡ pushed (some co)
  unfolding push_starts
  stale_waiter co' d timed hd hc room ne =
      let n : w.channel.data_queue.num ≡ 0 = Holds-num w.channel.data_queue [] hd in
      let same = channel-timed_out n in
      let e : (timed_out.channel.data_queue.num == timed_out.channel.capacity) ≡ false =
        rw same (ground (arith, n)) in
      let waiting : Holds timed_out.channel.consumer_queue (co ∷ []) =
        rw same (push-Holds w.channel.consumer_queue co [] hc (omega arith)) in
      rw (e, push_ends_room timed_out d (rw same (omega arith)))
        (ap pushed (wake_first timed_out.channel.consumer_queue co [] waiting ne).0)

drain_lem : (xs : List ℕ) (q : Queue) → Holds q xs → Holds (drain (length xs) q) []
unfolding drain
drain_lem [] q h = h
drain_lem (x ∷ xs) q h =
    let l : ltb 0 q.num ≡ true = ltb_of_lt 0 q.num (omega (arith, Holds-num q (x ∷ xs) h)) in
    rw (drain, l) (drain_lem xs (pop q).0 (pop-Holds q x xs h).1)

-- Clearing a channel leaves it empty. A coroutine that waits to push, and is woken after that, as
-- `wmChannel_free` does, stores its datum in the channel and answers true.
pub clear_then_push :
    (w : World) (xs : List ℕ) (d : ℕ) (wct : Option ℕ)
    → Holds w.channel.data_queue xs
    → 0 < w.channel.capacity
    → let w₁ : World = record w { channel = clear w.channel } in
      let (w₂, r) = push_wakes w₁ d wct in
      Holds w₁.channel.data_queue []
      × ((woken : Option ℕ) × (r ≡ pushed woken))
      × Holds w₂.channel.data_queue (d ∷ [])
unfolding clear push_wakes
clear_then_push w xs d wct h room =
    let w₁ : World = record w { channel = clear w.channel } in
    let empty : Holds w₁.channel.data_queue [] =
      subst (λ k. Holds (drain k w.channel.data_queue) [])
        (sym (Holds-num w.channel.data_queue xs h)) (drain_lem xs w.channel.data_queue h) in
    let same = channel-mark_awake w₁ wct in
    let n : w₁.channel.data_queue.num ≡ 0 = Holds-num w₁.channel.data_queue [] empty in
    rw (push_ends_room (mark_awake w₁ wct) d (rw same (omega (arith, n, room))))
      (empty, (_, refl), rw same (push-Holds w₁.channel.data_queue d [] empty (omega arith)))
