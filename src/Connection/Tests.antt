-- ===== src/Connection/Tests.antt =====
-- A protocol whose packets begin with their length, and the theorems on reading applied to it.
use warrior_man.Prelude.{
  ℕ, ◌≤◌, ◌≡◌, arith, refl, Bool, true, false, none, some, List, [], ◌∷◌, ◌++◌, length, leb,
  if◌then◌else◌,
}
use warrior_man.Loop.{no_events}
use warrior_man.WmString.{WmString}
use warrior_man.Socket.{Socket, tcp, no_error}
use warrior_man.Connection.Life.{Connection, established}
use warrior_man.Connection.Ended.{Calls, no_more, errs}
use warrior_man.Connection.Stream.{Reader, Turn, Next, gets, read, read_round}
use warrior_man.Connection.Common.{Plain, paused_turn, texts_lem, other_bytes}
use warrior_man.Connection.{Told, number, waits, cut, receive}

abbrev by_length : List ℕ → Told
by_length [] = number 0
by_length (b ∷ bs) = if leb b (length (b ∷ bs)) then number b else number 0

abbrev always : List (List ℕ) → Bool
always ps = true

receive_two :
    receive by_length always 9 (some []) (2 ∷ 7 ∷ 3 ∷ 8 ∷ 9 ∷ 4 ∷ [])
    ≡ some (
      record { packets = (2 ∷ 7 ∷ []) ∷ (3 ∷ 8 ∷ 9 ∷ []) ∷ []; rest = 4 ∷ []; end = waits },
      some (4 ∷ []),
    )
unfolding receive cut
receive_two = refl

abbrev fresh : Socket
fresh = record {
  fd = 5;
  write_buffer = none;
  max_send_buffer_size = 100;
  events = no_events;
  closed = false;
  removed = false;
  err_code = no_error;
  read_co = none;
  write_co = none;
  loop_type = 2;
  transport = tcp;
  has_will_full = true;
  bound_host = none;
  bound_port = 0;
  shutdown_read = false;
  shutdown_write = false;
  read_timer = none;
  write_timer = none;
  remote_ip = none;
  remote_port = 0;
}

-- A connection with "abc" in its read buffer.
abbrev abc : WmString
abc = record { length = 3; size = 3; offset = 0; str = 97 ∷ 98 ∷ 99 ∷ 0 ∷ [] }

abbrev of_abc : Connection
of_abc = record {
  id = 1;
  fd = 5;
  socket = fresh;
  status = established;
  transport = tcp;
  is_paused = false;
  paused_coro = none;
  has_on_error = true;
  has_on_close = true;
  has_on_buffer_full = false;
  read_packet_buffer = some abc;
}

-- A paused coroutine fails when it is resumed, within a destroy.
abbrev fails_within : Calls
fails_within = errs no_more no_more no_more no_more no_more

-- A coroutine that reads the connection into a common buffer of four bytes.
abbrev reader : Reader
reader = record {
  world = (of_abc, 0 ∷ 0 ∷ 0 ∷ 0 ∷ []);
  buffer = none;
  total_request = 0;
  messages = [];
  effects = [];
}

abbrev reads_text : List ℕ → Turn
reads_text bytes = record {
  running = true;
  first_wait = λ w. w;
  during = λ w. w;
  read = gets bytes;
  still_running = true;
  second_wait = λ w. w;
}

reads_text-Plain : (bytes : List ℕ) → length bytes ≤ 4 → Plain 4 (reads_text bytes) bytes
reads_text-Plain bytes h = record {
  runs = refl;
  runs_on = refl;
  stays_open = λ w o. o;
  stays_long = λ w. refl;
  reads = refl;
  room = h;
}

texts_lem_example :
    (r' : Reader) × (read 3 9 true none reader (reads_text (7 ∷ 8 ∷ []) ∷ reads_text (5 ∷ []) ∷ [])
      ≡ some (r', Next.goes_on))
    × (r'.messages ≡ [] ++ (7 ∷ 8 ∷ []) ∷ (5 ∷ []) ∷ [])
texts_lem_example =
    texts_lem 3 9 4 reader (reads_text (7 ∷ 8 ∷ []) ∷ reads_text (5 ∷ []) ∷ [])
      ((7 ∷ 8 ∷ []) ∷ (5 ∷ []) ∷ []) (refl, refl) refl
      (reads_text-Plain (7 ∷ 8 ∷ []) (omega arith), (reads_text-Plain (5 ∷ []) (omega arith), tt))

other_bytes_example :
    (r' : Reader) × (read_round 3 9 true none reader (paused_turn 3 9 (7 ∷ 8 ∷ []) (1 ∷ 2 ∷ []))
      ≡ some (r', Next.goes_on))
    × (r'.messages ≡ [] ++ (1 ∷ 2 ∷ []) ∷ [])
other_bytes_example =
    other_bytes 3 9 reader (7 ∷ 8 ∷ []) (1 ∷ 2 ∷ []) (refl, refl) refl (omega arith)
