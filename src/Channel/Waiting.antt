-- ===== src/Channel/Waiting.antt =====
-- Coroutines that wait on a channel: whom a push or a pop wakes, and what that one finds.
use warrior_man.Prelude.{
  ℕ, suc, ◌+◌, ◌^◌, ◌<◌, ◌≡◌, ◌≢◌, arith, refl, sym, ap, subst, ◌∙◌, Bool, true, false, Option,
  some, List, [], ◌∷◌, ◌++◌, length, ltb, ltb_of_lt, ◌==◌,
}
use warrior_man.Queue.{Queue, push, pop}
use warrior_man.Queue.Laws.{IsCounted, push-IsCounted, pop_lem}
use warrior_man.Channel.{
  World, pushed, popped, wake_one, mark_awake, push_ends, push_wakes, pop_ends, pop_starts,
}
use warrior_man.Channel.Fifo.{channel-mark_awake}

-- A queue that counts its items `xs`.
pub record Holds (q : Queue) (xs : List ℕ) : Type 0 where
  pub counted : IsCounted q
  pub same_items : q.items ≡ xs

pub Holds-num : (q : Queue) (xs : List ℕ) → Holds q xs → q.num ≡ length xs
Holds-num q xs h = h.counted.num-length ∙ ap length h.same_items

pub pop-Holds :
    (q : Queue) (x : ℕ) (xs : List ℕ) → Holds q (x ∷ xs) → ((pop q).1 ≡ x) × Holds (pop q).0 xs
pop-Holds q x xs h =
    let p = pop_lem q x xs h.counted h.same_items in
    (p.0, record { counted = p.3; same_items = p.1 })

pub push-Holds :
    (q : Queue) (x : ℕ) (xs : List ℕ)
    → Holds q xs
    → length xs + 1 < 2 ^ 32
    → Holds (push q x) (xs ++ x ∷ [])
unfolding push
push-Holds q x xs h small = record {
  counted = push-IsCounted q x h.counted (omega (arith, Holds-num q xs h));
  same_items = ap (λ t. t ++ x ∷ []) h.same_items;
}

wake_suc :
    (fuel : ℕ) (q : Queue) (c : ℕ) (cs : List ℕ)
    → Holds q (c ∷ cs)
    → c ≢ 0
    → let (q', co) = wake_one (suc fuel) q in (co ≡ some c) × Holds q' cs
unfolding wake_one
wake_suc fuel q c cs h ne =
    let l : ltb 0 q.num ≡ true = ltb_of_lt 0 q.num (omega (arith, Holds-num q (c ∷ cs) h)) in
    let p = pop-Holds q c cs h in
    let t : (c == 0) ≡ false = ground arith in rw (wake_one, l, p.0, t) (refl, p.1)

-- The coroutine that has waited longest is woken and leaves the queue.
pub wake_first :
    (q : Queue) (c : ℕ) (cs : List ℕ)
    → Holds q (c ∷ cs)
    → c ≢ 0
    → let (q', co) = wake_one q.num q in (co ≡ some c) × Holds q' cs
wake_first q c cs h ne =
    subst (λ k. ((wake_one k q).1 ≡ some c) × Holds (wake_one k q).0 cs)
      (sym (Holds-num q (c ∷ cs) h)) (wake_suc (length cs) q c cs h ne)

pub push_ends_room :
    (w : World) (d : ℕ)
    → w.channel.data_queue.num < w.channel.capacity
    → let ch = w.channel in
      let out = wake_one ch.consumer_queue.num ch.consumer_queue in
      push_ends w d ≡ (
        record w {
          channel = record ch { data_queue = push ch.data_queue d; consumer_queue = out.0 };
        },
        pushed out.1,
      )
unfolding push_ends
push_ends_room w d h =
    let e : (w.channel.data_queue.num == w.channel.capacity) ≡ false = ground arith in
    rw (push_ends, e) refl

pub pop_ends_some :
    (w : World) (x : ℕ) (xs : List ℕ)
    → Holds w.channel.data_queue (x ∷ xs)
    → let ch = w.channel in
      let out = wake_one ch.producer_queue.num ch.producer_queue in
      pop_ends w ≡ (
        record w {
          channel = record ch { data_queue = (pop ch.data_queue).0; producer_queue = out.0 };
        },
        popped x out.1,
      )
unfolding pop_ends
pop_ends_some w x xs h =
    let n = Holds-num w.channel.data_queue (x ∷ xs) h in
    let e : (w.channel.data_queue.num == 0) ≡ false = ground (arith, n) in
    rw (pop_ends, e, (pop-Holds w.channel.data_queue x xs h).0) refl

-- A pop from a full channel, on which a coroutine waits to push, gives the oldest datum and wakes the
-- coroutine that has waited longest; and that one, running on, finds room: its push answers true,
-- and its datum stands behind the others.
pub make_way :
    (w : World) (co d x p : ℕ) (xs ps : List ℕ) (timed : Bool) (wct : Option ℕ)
    → Holds w.channel.data_queue (x ∷ xs)
    → w.channel.data_queue.num ≡ w.channel.capacity
    → Holds w.channel.producer_queue (p ∷ ps)
    → p ≢ 0
    → let (w₁, r₁) = pop_starts w co timed in
      let (w₂, r₂) = push_wakes w₁ d wct in
      (r₁ ≡ popped x (some p))
      × ((woken : Option ℕ) × (r₂ ≡ pushed woken))
      × Holds w₂.channel.data_queue (xs ++ d ∷ [])
      × Holds w₂.channel.producer_queue ps
unfolding pop_starts push_wakes
make_way w co d x p xs ps timed wct hd full hp ne =
    let n : w.channel.data_queue.num ≡ suc (length xs) =
      Holds-num w.channel.data_queue (x ∷ xs) hd in
    let e : (w.channel.data_queue.num == 0) ≡ false = ground (arith, n) in
    let woken = wake_first w.channel.producer_queue p ps hp ne in
    let popped_lem = pop-Holds w.channel.data_queue x xs hd in
    let left : (pop w.channel.data_queue).0.num ≡ length xs =
      Holds-num (pop w.channel.data_queue).0 xs popped_lem.1 in
    rw (e, pop_ends_some w x xs hd)
      (let w₁ : World = record w {
        channel = record (w.channel) {
          data_queue = (pop w.channel.data_queue).0;
          producer_queue = (wake_one w.channel.producer_queue.num w.channel.producer_queue).0;
        };
      } in
        let same = channel-mark_awake w₁ wct in
        rw (push_ends_room (mark_awake w₁ wct) d (rw same (omega (arith, left, full, n)))) (
          ap (popped x) woken.0,
          (_, refl),
          rw same (
              push-Holds (pop w.channel.data_queue).0 d xs popped_lem.1
                (omega (arith, n, hd.counted.num_u32))),
          rw same woken.1,
        ))
