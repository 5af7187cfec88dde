-- ===== src/Socket/Progress.antt =====
-- That `wmSocket_send` comes back, where the kernel goes on taking bytes.
use warrior_man.Prelude.{
  ℕ, take, ◌+◌, ◌-◌, ◌%◌, ◌^◌, min, ◌≤◌, ◌<◌, ◌≡◌, refl, sym, ap, subst, ◌∙◌, arith, true, false,
  some, List, [], ◌∷◌, ◌++◌, length, All, inl, inr, Bool-cases, ◌==◌, ne_of_==,
}
use warrior_man.WmString.{Allocator, WmString}
use warrior_man.WmString.Room.{IsAllocator}
use warrior_man.Socket.{World, Answer, gives, fails, Wake, returns, count, writes_event, until_done}
use warrior_man.Socket.Wait.{
  event_wait, yields, others_act, timer_callback, done, again, Keeps, loop, loop_done, loop_repeats,
}
use warrior_man.Socket.Sending.{
  Writer, pending, with_buffer, Written, taken, send_part, send_taken, send_attempt, write_wait,
  left_writing, check_buffer_will_full, send,
}
use warrior_man.Socket.Kept.{event_wait-buffer}
use warrior_man.Socket.Delivered.{
  Delivered, Outcome, CanSend, KeepsBuffer, queue_of, first_round, first_round-IsSending,
  queue-small, left-sent, send-loop, send_lem, IsSending, send_attempt_lem, write_wait_lem,
}

-- The kernel takes a byte at least.
abbrev pub IsGiving : Answer ℕ → Type 0
IsGiving (gives n) = 0 < n
IsGiving (fails e) = ⊥

-- The socket is not closed in the wait.
abbrev pub IsGentle : Wake → Type 0
IsGentle k = k.closes ≡ false

-- The number of bytes in the buffer.
abbrev pub left : {all : List ℕ} {t : Writer} → IsSending all t → ℕ
left i = i.buffer.length - i.buffer.offset

event_wait-open :
    (me : ℕ) (w : World) (k : Wake)
    → IsGentle k
    → (event_wait me w writes_event k).0.socket.closed ≡ w.socket.closed
unfolding event_wait yields others_act timer_callback
event_wait-open me w k h = ground (arith, h)

-- A round in which the kernel takes `k` bytes of the buffer.
send_took :
    (t : Writer) (b : WmString) (n : ℕ) (rest : List (Answer ℕ))
    → t.world.socket.closed ≡ false
    → t.world.socket.write_buffer ≡ some b
    → t.answers ≡ gives n ∷ rest
    → send_attempt t ≡ send_part t rest b (min n (b.length - b.offset))
unfolding send_attempt send_taken taken until_done
send_took t b n rest c h a =
    let u : until_done t.answers ≡ some (gives n, rest) = ap until_done a in ground (arith, c, h, u)

-- The writer after a part that is not the last.
abbrev moved : Writer → List (Answer ℕ) → WmString → ℕ → Writer
moved t rest b k = record {
  world = with_buffer t.world (record b { offset = b.offset + k });
  answers = rest;
  sent = t.sent ++ take k (pending b);
  ret_num = (t.ret_num + k) % 2 ^ 32;
}

send_part-more :
    (t : Writer) (rest : List (Answer ℕ)) (b : WmString) (k : ℕ)
    → (b.offset + k == b.length) ≡ false
    → send_part t rest b k ≡ again (moved t rest b k)
unfolding send_part
send_part-more t rest b k h = rw (send_part, h) refl

send_part-last :
    (t : Writer) (rest : List (Answer ℕ)) (b : WmString) (k : ℕ)
    → (b.offset + k == b.length) ≡ true
    → (r : Written) × (send_part t rest b k ≡ done r) × ((n : ℕ) × (r.result ≡ returns (count n)))
unfolding send_part
send_part-last t rest b k h = rw (send_part, h) (_, refl, (_, refl))

left-of :
    {all : List ℕ} (t : Writer) (i : IsSending all t) (b : WmString)
    → t.world.socket.write_buffer ≡ some b
    → left i ≡ b.length - b.offset
left-of t i b h =
    let e : some i.buffer ≡ some b = sym i.has ∙ h in
    let e' : i.buffer ≡ b = cc in ap (λ c. c.length - c.offset) e'

-- An amount is returned.
abbrev IsBack : Written → Type 0
IsBack r = (n : ℕ) × (r.result ≡ returns (count n))

module _ (all : List ℕ) (small : length all < 2 ^ 31) (me : ℕ) where
  -- The loop comes to its end, if each answer takes a byte and there are answers and wakes enough.
  loop_ends :
      (ks : List Wake) (answers : List (Answer ℕ)) (t : Writer) (i : IsSending all t)
      → t.answers ≡ answers
      → t.world.socket.closed ≡ false
      → All IsGiving answers
      → left i < length answers
      → left i ≤ length ks
      → All IsGentle ks
      → IsBack (loop send_attempt (write_wait me) (left_writing me) t ks)
  unfolding Keeps write_wait
  loop_ends ks [] t i a c g la lk gk = absurd (omega arith)
  loop_ends ks (fails e ∷ rest) t i a c g la lk gk = absurd g.0
  loop_ends [] (gives n ∷ rest) t i a c g la lk gk =
      let k = min n (i.buffer.length - i.buffer.offset) in
      let e : (i.buffer.offset + k == i.buffer.length) ≡ true = ground (arith, lk, i.offset_fits) in
      let (r, h, b) = send_part-last t rest i.buffer k e in
      rw
        (loop_done send_attempt (write_wait me) (left_writing me) t r []
          (send_took t i.buffer n rest c i.has a ∙ h))
        b
  loop_ends (w ∷ ks) (gives n ∷ rest) t i a c g la lk gk =
      let k = min n (i.buffer.length - i.buffer.offset) in
      let s = send_took t i.buffer n rest c i.has a in
      elim (Bool-cases (i.buffer.offset + k == i.buffer.length)) [
        | inl e ↦
            let (r, h, b) = send_part-last t rest i.buffer k e in
            rw (loop_done send_attempt (write_wait me) (left_writing me) t r (w ∷ ks) (s ∙ h)) b
        | inr e ↦
            let t' = moved t rest i.buffer k in
            let t'' : Writer = record t' { world = (event_wait me t'.world writes_event w).0 } in
            let h : send_attempt t ≡ again t' = s ∙ send_part-more t rest i.buffer k e in
            let i' : IsSending all t' =
              subst (Keeps (IsSending all) (Delivered all)) h (send_attempt_lem all small t i) in
            let i'' : IsSending all t'' = write_wait_lem all small me t' w i' in
            let l =
              left-of t'' i'' (record i.buffer { offset = i.buffer.offset + k })
                (event_wait-buffer me t'.world writes_event w) in
            let ne = ne_of_== (i.buffer.offset + k) i.buffer.length e in
            rw (loop_repeats send_attempt (write_wait me) (left_writing me) t t'' t' w ks h refl) (
              loop_ends ks rest t'' i'' refl (event_wait-open me t'.world w gk.0 ∙ c) g.1
                (omega (arith, l, g.0, ne)) (omega (arith, l, g.0, ne)) gk.1)
      ]

module _ (heap : Allocator) (lawful : IsAllocator heap) (will_full : World → World) (me : ℕ)
    (keeps : KeepsBuffer will_full) (w : World) (bytes : List ℕ)
    (can : CanSend heap w.socket bytes) where
  check_full-open :
      ((w' : World) → (will_full w').socket.closed ≡ w'.socket.closed)
      → (w' : World) (b : WmString)
      → (check_buffer_will_full heap will_full me w' b).socket.closed ≡ w'.socket.closed
  unfolding check_buffer_will_full
  check_full-open h w' b = ground (arith, h w')

  -- A return with an amount, of an operation that delivers.
  returned :
      (r : Written)
      → Delivered (queue_of can) r
      → IsBack r
      → (r.result ≡ returns (count (length (queue_of can)))) × (r.sent ≡ queue_of can)
  returned r d (n, e) =
      let d' = subst (Outcome (queue_of can) r.world r.sent) e d in
      (e ∙ ap (λ k. returns (count k)) d'.1, d'.0)

  -- A send on a socket that can send the bytes, as `send_lem` has it, where each system call takes one byte at least,
  -- there are more calls and as many wakes as bytes at least, and neither a wait nor
  -- `onBufferWillFull` closes the socket: it returns the number of all the bytes, and the kernel has taken them, in order.
  pub send_returns :
      (answers : List (Answer ℕ)) (wakes : List Wake)
      → ((w' : World) → (will_full w').socket.closed ≡ w'.socket.closed)
      → All IsGiving answers
      → length (queue_of can) < length answers
      → length (queue_of can) ≤ length wakes
      → All IsGentle wakes
      → ((send heap will_full me w bytes answers wakes).result
          ≡ returns (count (length (queue_of can))))
        × ((send heap will_full me w bytes answers wakes).sent ≡ queue_of can)
  send_returns answers wakes ho g la lk gk =
      let i = first_round-IsSending heap lawful will_full me keeps w bytes can answers in
      let l = left-sent (first_round heap lawful will_full me keeps w bytes can answers) i in
      let back =
        loop_ends (queue_of can) (queue-small heap lawful will_full me keeps w bytes can) me wakes
          answers (first_round heap lawful will_full me keeps w bytes can answers) i refl
          (check_full-open ho (with_buffer w can.longer) can.longer ∙ can.open_) g
          (omega (arith, l, la)) (omega (arith, l, lk)) gk in
      let r =
        subst IsBack (sym (send-loop heap lawful will_full me keeps w bytes can answers wakes))
          back in
      returned (send heap will_full me w bytes answers wakes)
        (send_lem heap lawful will_full me keeps w bytes can answers wakes) r
