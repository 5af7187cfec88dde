-- ===== src/Socket/Tests.antt =====
-- Sockets on small inputs, and their theorems applied to them.
use warrior_man.Prelude.{◌≡◌, arith, refl, true, false, none, some, [], ◌∷◌}
use warrior_man.Loop.{no_events}
use warrior_man.WmString.{WmString, append_ptr, make_room, extend}
use warrior_man.WmString.Ample.{ample, ample-IsAllocator}
use warrior_man.Socket.{
  Socket, reads_event, World, tcp, gives, fails, eintr, eagain, no_error, Wake, returns, count,
}
use warrior_man.Socket.Wait.{event_wait, yields, others_act}
use warrior_man.Socket.Reading.{read}
use warrior_man.Socket.Sending.{send, write, prepared, buffer_is_full}
use warrior_man.Socket.Delivered.{Delivered, CanSend, send_lem}
use warrior_man.Socket.Progress.{send_returns}
use warrior_man.Socket.Released.{Ended, Tells, read_lem}
use warrior_man.Socket.Closed.{Parts, closes, no_more, unbinds, run, count_fd, left_of, closes_once}
use warrior_man.Socket.Connected.{write_restarts}

-- A buffer of 4 bytes with "x" to be sent.
abbrev waiting_x : WmString
waiting_x = record { length = 1; size = 4; offset = 0; str = 120 ∷ 0 ∷ 0 ∷ 0 ∷ 0 ∷ [] }

abbrev with_x : World
with_x = record {
  socket = record {
    fd = 5;
    write_buffer = some waiting_x;
    max_send_buffer_size = 100;
    events = no_events;
    closed = false;
    removed = false;
    err_code = no_error;
    read_co = none;
    write_co = none;
    loop_type = 0;
    transport = tcp;
    has_will_full = false;
    bound_host = none;
    bound_port = 0;
    shutdown_read = false;
    shutdown_write = false;
    read_timer = none;
    write_timer = none;
    remote_ip = none;
    remote_port = 0;
  };
  errno = no_error;
}

abbrev woken : Wake
woken = record { add_error = none; closes = false; expires = false }

abbrev xab : WmString
xab = record { length = 3; size = 4; offset = 0; str = 120 ∷ 97 ∷ 98 ∷ 0 ∷ 0 ∷ [] }

made_x : prepared ample with_x.socket ≡ some waiting_x
unfolding prepared
made_x = refl

room_x : buffer_is_full with_x.socket waiting_x ≡ false
unfolding buffer_is_full
room_x = refl

appended_x : append_ptr ample waiting_x (97 ∷ 98 ∷ []) ≡ some (xab, true)
unfolding append_ptr make_room extend
appended_x = refl

abbrev can_send_ab : CanSend ample with_x.socket (97 ∷ 98 ∷ [])
can_send_ab = record {
  open_ = refl;
  no_writer = refl;
  buffer = waiting_x;
  longer = xab;
  made = made_x;
  valid = record { block = refl; fits = omega arith };
  offset_fits = omega arith;
  room = room_x;
  appended = appended_x;
  small = omega arith;
}

-- The kernel takes a byte, is interrupted, takes nothing, and takes the rest.
send_lem_example : Delivered (120 ∷ 97 ∷ 98 ∷ []) (
    send ample
      (λ w. w)
      1
      with_x
      (97 ∷ 98 ∷ [])
      (gives 1 ∷ fails eintr ∷ fails eagain ∷ gives 2 ∷ [])
      (woken ∷ woken ∷ []))
send_lem_example =
    send_lem ample ample-IsAllocator (λ w. w) 1 (λ w. refl) with_x (97 ∷ 98 ∷ []) can_send_ab
      (gives 1 ∷ fails eintr ∷ fails eagain ∷ gives 2 ∷ []) (woken ∷ woken ∷ [])

send_returns_example :
    ((send ample
        (λ w. w)
        1
        with_x
        (97 ∷ 98 ∷ [])
        (gives 1 ∷ gives 1 ∷ gives 5 ∷ gives 1 ∷ [])
        (woken ∷ woken ∷ woken ∷ [])).result
      ≡ returns (count 3))
    × ((send ample
          (λ w. w)
          1
          with_x
          (97 ∷ 98 ∷ [])
          (gives 1 ∷ gives 1 ∷ gives 5 ∷ gives 1 ∷ [])
          (woken ∷ woken ∷ woken ∷ [])).sent
        ≡ 120 ∷ 97 ∷ 98 ∷ [])
send_returns_example =
    send_returns ample ample-IsAllocator (λ w. w) 1 (λ w. refl) with_x (97 ∷ 98 ∷ []) can_send_ab
      (gives 1 ∷ gives 1 ∷ gives 5 ∷ gives 1 ∷ []) (woken ∷ woken ∷ woken ∷ []) (λ w. refl)
      (omega arith) (omega arith) (omega arith) (refl, (refl, (refl, tt)))

read_lem_example :
    Ended 1 (Tells 1) (read 1 50 with_x (fails eagain ∷ gives (97 ∷ []) ∷ []) (woken ∷ []))
read_lem_example =
    read_lem 1 50 with_x (woken ∷ []) (record { no_reader = refl; no_timer = refl })
      (fails eagain ∷ gives (97 ∷ []) ∷ [])

-- Two bytes of "abc" are taken, and then "a" again.
write_restarts_example :
    let r = write 1 with_x (97 ∷ 98 ∷ 99 ∷ []) (gives 2 ∷ gives 1 ∷ []) (woken ∷ []) in
    (r.result ≡ returns (count 3)) × (r.sent ≡ 97 ∷ 98 ∷ 97 ∷ [])
unfolding event_wait yields others_act
write_restarts_example =
    write_restarts 1 with_x (97 ∷ 98 ∷ 99 ∷ []) 2 [] woken []
      (record { open_ = refl; no_reader = refl; no_writer = refl }) (omega arith) (omega arith) refl

-- A socket on which coroutine 4 waits to read: it closes the socket again when it is resumed.
abbrev read_by_4 : Socket
read_by_4 = record (with_x.socket) { read_co = some 4; events = record no_events { reads = true } }

abbrev closes_again : Parts
closes_again = unbinds reads_event (closes no_more no_more no_more)

closes_once_example :
    let (s', es) = run (closes closes_again no_more no_more) read_by_4 in
    (count_fd es ≡ 1) × (left_of s'.transport s'.removed ≡ 0)
closes_once_example = closes_once closes_again no_more no_more read_by_4
