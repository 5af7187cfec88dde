-- ===== src/Socket/Kept.antt =====
-- What the waits of a socket leave as it is.
use warrior_man.Prelude.{ℕ, ◌≡◌, arith, true, false, none, some}
use warrior_man.Socket.{is_available, is_bound, World, Wake, Event, reads_event, writes_event}
use warrior_man.Socket.Wait.{
  timer_callback, others_act, yields, event_wait, timer_used, wait_in_time,
}

-- A wait leaves the send buffer to the one who waits.
pub event_wait-buffer :
    (me : ℕ) (w : World) (e : Event) (k : Wake)
    → (event_wait me w e k).0.socket.write_buffer ≡ w.socket.write_buffer
unfolding event_wait yields others_act timer_callback
event_wait-buffer me w reads_event k = ground arith
event_wait-buffer me w writes_event k = ground arith

-- No coroutine is left bound after a wait, in time or not, if none was before.
pub wait_in_time-read_co :
    (me : ℕ) (w : World) (k : Wake)
    → w.socket.read_co ≡ none
    → (wait_in_time me w reads_event k).0.socket.read_co ≡ none
unfolding wait_in_time event_wait yields others_act timer_callback timer_used
wait_in_time-read_co me w k h = ground arith

-- An open socket with no coroutine bound for the event is available, and stays as it is.
pub available :
    (w : World) (e : Event)
    → w.socket.closed ≡ false
    → is_bound w.socket e ≡ false
    → is_available w e ≡ some (w, true)
unfolding is_available
available w e c b = ground (arith, b, c)
