-- ===== src/Socket/Delivered.antt =====
-- What `wmSocket_send` delivers.
use warrior_man.Prelude.{
  ℕ, ◌+◌, ◌-◌, ◌%◌, ◌^◌, ◌≤◌, ◌<◌, ◌≡◌, refl, sym, ap, subst, ◌∙◌, arith, true, false, none, some,
  List, [], ◌++◌, length, take, drop, length-append, length-take, length-drop, append_assoc,
  append_nil, drop-drop, take_and_drop, drop_all, drop-append_le, inl, inr, Bool-cases,
  Option-cases, ◌==◌, eq_of_==,
}
use warrior_man.WmString.{Allocator, WmString, append_ptr}
use warrior_man.WmString.Room.{IsAllocator, IsValid, text}
use warrior_man.WmString.Offset.{Appended, append_ptr-Appended}
use warrior_man.Socket.{
  is_bound, Socket, World, Answer, gives, fails, Wake, Result, returns, waits, exits, Code, success,
  closed_code, error_code, count, writes_event, until_done,
}
use warrior_man.Socket.Wait.{Keeps, loop, loop_lem}
use warrior_man.Socket.Sending.{
  Writer, Written, with_buffer, Taken, took, gone, aborted, taken, pending, send_part, send_taken,
  send_attempt, write_wait, left_writing, prepared, buffer_is_full, check_buffer_will_full, send,
}
use warrior_man.Socket.Kept.{available, event_wait-buffer}

-- The bytes that were to be sent are those that the kernel has, and then those in the buffer.
abbrev pub Unsent : List ℕ → World → List ℕ → Type 0
Unsent all w sent = (b : WmString) × (w.socket.write_buffer ≡ some b) × (sent ++ pending b ≡ all)

-- How a send of `all` may end.
abbrev pub Outcome : List ℕ → World → List ℕ → Result Code → Type 0
Outcome all w sent (returns (count n)) =
    (sent ≡ all)
    × (n ≡ length all)
    × ((b : WmString) × (w.socket.write_buffer ≡ some b) × (pending b ≡ []))
Outcome all w sent (returns closed_code) = (w.socket.closed ≡ true) × Unsent all w sent
Outcome all w sent (returns error_code) = ⊥
Outcome all w sent (returns success) = ⊥
Outcome all w sent waits = Unsent all w sent
Outcome all w sent exits = Unsent all w sent

abbrev pub Delivered : List ℕ → Written → Type 0
Delivered all r = Outcome all r.world r.sent r.result

-- The invariant of the loop.
pub record IsSending (all : List ℕ) (t : Writer) : Type 0 where
  pub buffer : WmString
  pub has : t.world.socket.write_buffer ≡ some buffer
  pub offset_fits : buffer.offset ≤ buffer.length
  pub in_block : buffer.length ≤ length buffer.str
  pub whole : t.sent ++ pending buffer ≡ all
  pub counted : t.ret_num ≡ length t.sent

length-pending : (b : WmString) → b.length ≤ length b.str → length (pending b) ≡ b.length - b.offset
length-pending b h =
    omega (arith, length-drop b.offset (take b.length b.str), length-take b.length b.str)

-- What is sent and what is left make up the whole.
pub left-sent :
    {all : List ℕ} (t : Writer) (i : IsSending all t)
    → length t.sent + (i.buffer.length - i.buffer.offset) ≡ length all
left-sent t i = omega (
  arith,
  length-pending i.buffer i.in_block,
  length-append t.sent (pending i.buffer),
  ap length i.whole,
)

-- A part of what waits goes over to the kernel.
part_sent :
    (sent all : List ℕ) (b : WmString) (k : ℕ)
    → sent ++ pending b ≡ all
    → (sent ++ take k (pending b)) ++ drop (b.offset + k) (take b.length b.str) ≡ all
part_sent sent all b k h =
    append_assoc sent (take k (pending b)) (drop (b.offset + k) (take b.length b.str))
    ∙ ap (λ t. sent ++ t)
        (ap (λ t. take k (pending b) ++ t) (drop-drop b.offset k (take b.length b.str))
          ∙ take_and_drop k (pending b))
    ∙ h

taken-le : (offered : ℕ) (a : Answer ℕ) (k : ℕ) → taken offered a ≡ took k → k ≤ offered
unfolding taken
taken-le offered (gives n) k h = ground arith
taken-le offered (fails e) k h = ground arith

module _ (all : List ℕ) (small : length all < 2 ^ 31) where
  send_part_lem :
      (t : Writer) (rest : List (Answer ℕ)) (b : WmString) (k : ℕ)
      → t.world.socket.write_buffer ≡ some b
      → b.offset + k ≤ b.length
      → b.length ≤ length b.str
      → t.sent ++ pending b ≡ all
      → t.ret_num ≡ length t.sent
      → Keeps (IsSending all) (Delivered all) (send_part t rest b k)
  unfolding Keeps send_part
  send_part_lem t rest b k hb ho hl hw hc =
      let lp = length-pending b hl in
      let la = length-append t.sent (pending b) in
      let lt = ap length hw in
      let ls = length-append t.sent (take k (pending b)) in
      let lk = length-take k (pending b) in
      let counted : (t.ret_num + k) % 2 ^ 32 ≡ length (t.sent ++ take k (pending b)) =
        omega (arith, lp, la, lt, ls, lk) in
      let whole = part_sent t.sent all b k hw in
      elim (Bool-cases (b.offset + k == b.length)) [
        | inl e ↦
            let he = eq_of_== (b.offset + k) b.length e in
            let gone_all =
              drop_all (b.offset + k) (take b.length b.str)
                (omega (arith, length-take b.length b.str)) in
            let all_sent : t.sent ++ take k (pending b) ≡ all =
              sym (append_nil (t.sent ++ take k (pending b)))
              ∙ ap (λ r. (t.sent ++ take k (pending b)) ++ r) (sym gone_all)
              ∙ whole in
            rw (Keeps, send_part, e)
              (
                all_sent,
                counted ∙ ap length all_sent,
                (record b { offset = 0; length = 0 }, refl, refl),
              )
        | inr e ↦
            rw (Keeps, send_part, e)
              (record {
                buffer = record b { offset = b.offset + k };
                has = refl;
                offset_fits = ho;
                in_block = hl;
                whole = whole;
                counted = counted;
              })
      ]

  send_taken_lem :
      (t : Writer) (rest : List (Answer ℕ)) (i : IsSending all t) (x : Taken)
      → ((k : ℕ) → x ≡ took k → k ≤ i.buffer.length - i.buffer.offset)
      → Keeps (IsSending all) (Delivered all) (send_taken t rest i.buffer x)
  unfolding Keeps send_taken
  send_taken_lem t rest i aborted h = (i.buffer, i.has, i.whole)
  send_taken_lem t rest i (gone e) h = (refl, (i.buffer, i.has, i.whole))
  send_taken_lem t rest i (took k) h =
      send_part_lem t rest i.buffer k i.has (omega (arith, h k refl, i.offset_fits)) i.in_block
        i.whole i.counted

  pub send_attempt_lem :
      (t : Writer) → IsSending all t → Keeps (IsSending all) (Delivered all) (send_attempt t)
  unfolding Keeps send_attempt
  send_attempt_lem t i = elim (Bool-cases t.world.socket.closed) [
    | inl c ↦ rw (Keeps, send_attempt, c) (c, (i.buffer, i.has, i.whole))
    | inr c ↦ elim (Option-cases (until_done t.answers)) [
      | inl n ↦ rw (Keeps, send_attempt, c, i.has, n) (i.buffer, i.has, i.whole)
      | inr ((a, rest), n) ↦
          rw (send_attempt, c, i.has, n)
            (send_taken_lem t rest i (taken (i.buffer.length - i.buffer.offset) a)
              (taken-le (i.buffer.length - i.buffer.offset) a))
    ]
  ]

  pub write_wait_lem :
      (me : ℕ) (t : Writer) (k : Wake)
      → IsSending all t
      → Keeps (IsSending all) (Delivered all) (write_wait me t k)
  unfolding Keeps write_wait
  write_wait_lem me t k i = record {
    buffer = i.buffer;
    has = event_wait-buffer me t.world writes_event k ∙ i.has;
    offset_fits = i.offset_fits;
    in_block = i.in_block;
    whole = i.whole;
    counted = i.counted;
  }

  -- The loop of `wmSocket_send`.
  send_loop_lem :
      (me : ℕ) (t : Writer) (ks : List Wake)
      → IsSending all t
      → Delivered all (loop send_attempt (write_wait me) (left_writing me) t ks)
  unfolding left_writing
  send_loop_lem me t ks i =
      loop_lem (IsSending all) (IsSending all) (Delivered all) send_attempt (write_wait me)
        (left_writing me) send_attempt_lem (write_wait_lem me) (λ t' j. (j.buffer, j.has, j.whole))
        t ks i

-- The bytes of the buffer, and then those that are given.
abbrev pub queued : WmString → List ℕ → List ℕ
queued b bytes = pending b ++ bytes

pending-Appended :
    (b b' : WmString) (bytes : List ℕ)
    → IsValid b
    → b.offset ≤ b.length
    → Appended b b' bytes
    → pending b' ≡ queued b bytes
pending-Appended b b' bytes v h a =
    ap (λ n. drop n (text b')) a.same_offset
    ∙ ap (drop b.offset) a.longer
    ∙ drop-append_le b.offset (text b) bytes
        (omega (arith, length-take b.length b.str, v.block, v.fits))

-- The socket is open, no other coroutine writes to it, and its send buffer, valid as it is made ready,
-- is not full and takes the bytes, of which there are not too many.
pub record CanSend (heap : Allocator) (s : Socket) (bytes : List ℕ) : Type 0 where
  pub open_ : s.closed ≡ false
  pub no_writer : s.write_co ≡ none
  pub buffer : WmString
  pub longer : WmString
  pub made : prepared heap s ≡ some buffer
  pub valid : IsValid buffer
  pub offset_fits : buffer.offset ≤ buffer.length
  pub room : buffer_is_full s buffer ≡ false
  pub appended : append_ptr heap buffer bytes ≡ some (longer, true)
  pub small : buffer.length + length bytes < 2 ^ 31

-- `onBufferWillFull` leaves the buffer alone.
abbrev pub KeepsBuffer : (World → World) → Type 0
KeepsBuffer f = (w : World) → (f w).socket.write_buffer ≡ w.socket.write_buffer

-- All that is to be sent: what the buffer has, and then the bytes.
abbrev pub queue_of :
    {heap : Allocator} {s : Socket} {bytes : List ℕ} → CanSend heap s bytes → List ℕ
queue_of {bytes = bytes} c = queued c.buffer bytes

module _ (heap : Allocator) (lawful : IsAllocator heap) (will_full : World → World) (me : ℕ)
    (keeps : KeepsBuffer will_full) (w : World) (bytes : List ℕ)
    (can : CanSend heap w.socket bytes) where
  check_full-buffer :
      (w' : World) (b : WmString)
      → (check_buffer_will_full heap will_full me w' b).socket.write_buffer ≡ w'.socket.write_buffer
  unfolding check_buffer_will_full
  check_full-buffer w' b = ground (arith, keeps w')

  -- The loop of the send as it begins.
  abbrev pub first_round : List (Answer ℕ) → Writer
  first_round answers = record {
    world = check_buffer_will_full heap will_full me (with_buffer w can.longer) can.longer;
    answers = answers;
    sent = [];
    ret_num = 0;
  }

  pub send-loop :
      (answers : List (Answer ℕ)) (wakes : List Wake)
      → send heap will_full me w bytes answers wakes
        ≡ loop send_attempt (write_wait me) (left_writing me) (first_round answers) wakes
  unfolding send is_bound
  send-loop answers wakes =
      let a = available w writes_event can.open_ (rw (is_bound, can.no_writer) refl) in
      rw (send, a, can.made, can.room, can.appended) refl

  appended : Appended can.buffer can.longer bytes
  appended =
      append_ptr-Appended heap lawful can.buffer can.longer bytes can.valid
        (omega (arith, can.small)) can.appended

  length-queue : length (queue_of can) ≡ can.buffer.length - can.buffer.offset + length bytes
  length-queue = omega (
    arith,
    length-append (pending can.buffer) bytes,
    length-drop can.buffer.offset (text can.buffer),
    length-take can.buffer.length can.buffer.str,
    can.valid.block,
    can.valid.fits,
  )

  pub queue-small : length (queue_of can) < 2 ^ 31
  queue-small = omega (arith, length-queue, can.small)

  longer-length : can.longer.length ≡ can.buffer.length + length bytes
  longer-length = omega (
    arith,
    ap length appended.longer,
    length-append (text can.buffer) bytes,
    length-take can.buffer.length can.buffer.str,
    length-take can.longer.length can.longer.str,
    can.valid.block,
    can.valid.fits,
    appended.valid.fits,
    appended.valid.block,
  )

  pub first_round-IsSending :
      (answers : List (Answer ℕ)) → IsSending (queue_of can) (first_round answers)
  first_round-IsSending answers = record {
    buffer = can.longer;
    has = check_full-buffer (with_buffer w can.longer) can.longer;
    offset_fits = omega (arith, appended.same_offset, can.offset_fits, longer-length);
    in_block = omega (arith, appended.valid.block, appended.valid.fits);
    whole = pending-Appended can.buffer can.longer bytes can.valid can.offset_fits appended;
    counted = refl;
  }

  -- A send of bytes on a socket that can send them, with `onBufferWillFull` leaving the buffer alone:
  -- fewer than 2 ^ 31 together with those still in the valid buffer, on an open socket that no other
  -- coroutine writes to, with a buffer that is not full and the memory to append. Whatever the kernel
  -- answers and however often the coroutine waits: if an amount is returned, the kernel has taken all
  -- those bytes, once and in order, the amount is their number, and the buffer is empty. Otherwise
  -- `WM_SOCKET_CLOSE` is returned and the socket is closed, or the send is under way or the process has
  -- ended, and what the kernel has taken and what is in the buffer together are those bytes, in order.
  pub send_lem :
      (answers : List (Answer ℕ)) (wakes : List Wake)
      → Delivered (queue_of can) (send heap will_full me w bytes answers wakes)
  send_lem answers wakes = subst (Delivered (queue_of can)) (sym (send-loop answers wakes)) (
      send_loop_lem (queue_of can) queue-small me (first_round answers) wakes
        (first_round-IsSending answers))
