-- ===== src/Connection/Ended.antt =====
-- `onClose` is started once in the life of a connection, whatever is called and in what order.
use warrior_man.Prelude.{ℕ, ◌+◌, ◌≡◌, Bool, true, false, List, [], ◌∷◌, ◌++◌}
use warrior_man.Socket.Closing
use warrior_man.Connection.Life.{
  Status, established, status_closed, Callback, on_error, on_close, on_buffer_full, Connection,
  Effect, socket_effect, resumes, starts, drops_id, drops_fd, releases, resume_with, destroy_with,
  fail_with, pause_recv, resume_recv,
}

-- What coroutines call on a connection, one call after the other. `closing`, `paused`, `resumed`, `told` and
-- `handler` are the calls of those coroutines that a call resumes or starts, which come within it.
pub data Calls : Type 0 where
  no_more : Calls
  destroys : (closing paused handler later : Calls) → Calls
  errs : (told closing paused handler later : Calls) → Calls
  pauses : (later : Calls) → Calls
  goes_on : (resumed later : Calls) → Calls

abbrev pub followed :
    Connection × List Effect → (Connection → Connection × List Effect) → Connection × List Effect
followed (c, es) later = let (c', fs) = later c in (c', es ++ fs)

unfoldable pub run : Calls → Connection → Connection × List Effect
run no_more c = (c, [])
run (destroys closing paused handler later) c =
    followed (destroy_with (run closing) (run paused) (run handler) c) (run later)
run (errs told closing paused handler later) c =
    followed (fail_with (run told) (run closing) (run paused) (run handler) c) (run later)
run (pauses later) c = run later (pause_recv c)
run (goes_on resumed later) c =
    followed (resume_with c.paused_coro (run resumed) (resume_recv c).0) (run later)

abbrev is_on_close : Callback → ℕ
is_on_close on_close = 1
is_on_close on_error = 0
is_on_close on_buffer_full = 0

-- How often `onClose` is started.
unfoldable pub count_on_close : List Effect → ℕ
count_on_close [] = 0
count_on_close (starts f ∷ es) = is_on_close f + count_on_close es
count_on_close (socket_effect e ∷ es) = count_on_close es
count_on_close (resumes co ∷ es) = count_on_close es
count_on_close (drops_id id ∷ es) = count_on_close es
count_on_close (drops_fd fd ∷ es) = count_on_close es
count_on_close (releases ∷ es) = count_on_close es

-- How often it is still to be started: once on an open connection that has it.
abbrev pub left_of : Status → Bool → ℕ
left_of established true = 1
left_of established false = 0
left_of status_closed has_on_close = 0

-- Starts of `onClose` are those that are then no longer due.
abbrev Conserves : Connection → Connection × List Effect → Type 0
Conserves c (c', es) =
    (count_on_close es + left_of c'.status c'.has_on_close ≡ left_of c.status c.has_on_close)
    × (c'.has_on_close ≡ c.has_on_close)

abbrev AllConserves : (Connection → Connection × List Effect) → Type 0
AllConserves f = (c : Connection) → Conserves c (f c)
