-- ===== src/Socket/Closing.antt =====
-- How src/coroutine/socket.c makes, shuts and closes a socket: `wmSocket_create`, `wmSocket_pack`,
-- `wmSocket_shutdown`, `wmSocket_close` and `wmSocket_free`.
use warrior_man.Prelude.{
  ℕ, Bool, true, false, not, ◌&&◌, ◌||◌, Option, none, some, List, [], ◌∷◌, ◌++◌,
}
use warrior_man.Loop.{no_events, is_null}
use warrior_man.Socket.{
  no_error, enotconn, Transport, tcp, udp, no_transport, Socket, World, Answer, gives, fails,
  set_err,
}
use warrior_man.Socket.Wait.{mark_closed}

-- `wmSocket_pack`
unfoldable pub pack : ℕ → Transport → ℕ → Socket
pack fd transport loop_type = record {
  fd = fd;
  write_buffer = none;
  max_send_buffer_size = 0;
  events = no_events;
  closed = false;
  removed = false;
  err_code = no_error;
  read_co = none;
  write_co = none;
  loop_type = loop_type;
  transport = transport;
  has_will_full = false;
  bound_host = none;
  bound_port = 0;
  shutdown_read = false;
  shutdown_write = false;
  read_timer = none;
  write_timer = none;
  remote_ip = none;
  remote_port = 0;
}

-- `wmSocket_create`, with the answer of `socket`; NULL is `none`.
unfoldable pub create : Transport → ℕ → Answer ℕ → Option Socket
create no_transport loop_type a = none
create tcp loop_type (gives fd) = some (pack fd tcp loop_type)
create udp loop_type (gives fd) = some (pack fd udp loop_type)
create tcp loop_type (fails e) = none
create udp loop_type (fails e) = none

pub data How : Type 0 where
  shut_rd : How
  shut_wr : How
  shut_rdwr : How

abbrev pub shut : Socket → How → Socket
shut s shut_rd = record s { shutdown_read = true }
shut s shut_wr = record s { shutdown_write = true }
shut s shut_rdwr = record s { shutdown_read = true; shutdown_write = true }

abbrev pub is_shut : Socket → How → Bool
is_shut s shut_rd = s.shutdown_read
is_shut s shut_wr = s.shutdown_write
is_shut s shut_rdwr = false

-- `wmSocket_shutdown`. Its test `errno == ENOTCONN` comes after `set_err(socket, 0)` and never holds.
unfoldable pub shutdown : World → How → World × Bool
shutdown w how =
    let w' = set_err w no_error in
    let s = w'.socket in
    elim ((s.closed && s.shutdown_read && s.shutdown_write) || is_shut s how) [
      | true ↦ (set_err w' enotconn, false)
      | false ↦ (record w' { socket = shut s how }, true)
    ]

-- What a close does outside of the socket.
pub data Effect : Type 0 where
  loop_del : ℕ → Effect
  resumes : ℕ → Effect
  closes_fd : ℕ → Effect
  deletes_timer : ℕ → Effect

abbrev pub resume_of : Option ℕ → List Effect
resume_of none = []
resume_of (some co) = resumes co ∷ []

abbrev pub close_events : Socket → List Effect
close_events s = elim (is_null s.events) [
  | true ↦ []
  | false ↦ loop_del s.fd ∷ (resume_of s.read_co ++ resume_of s.write_co)
]

abbrev pub closing_fd : Transport → ℕ → Bool → List Effect
closing_fd tcp fd removed = elim removed [ true ↦ [] | false ↦ closes_fd fd ∷ [] ]
closing_fd udp fd removed = []
closing_fd no_transport fd removed = []

-- `!socket->removed && socket->transport == WM_SOCK_TCP`
abbrev pub is_tcp : Transport → Bool
is_tcp tcp = true
is_tcp udp = false
is_tcp no_transport = false

abbrev pub fd_is_left : Socket → Bool
fd_is_left s = not s.removed && is_tcp s.transport

abbrev pub fd_gone : Transport → Bool → Bool
fd_gone tcp removed = true
fd_gone udp removed = removed
fd_gone no_transport removed = removed

-- `wmSocket_close`, where the coroutines that it resumes leave the socket alone.
unfoldable pub close : Socket → Socket × List Effect
close s = (
  record (mark_closed s) { removed = fd_gone s.transport s.removed },
  close_events s ++ closing_fd s.transport s.fd s.removed,
)

-- What a coroutine does to the socket, and outside of it, from where it is resumed on.
abbrev pub Resumed : Type 0
Resumed = Socket → Socket × List Effect

-- `if (socket->read_co) { wmCoroutine_resume(socket->read_co); }`, and the same for the writer.
abbrev pub resume_if : Option ℕ → Resumed → Socket → Socket × List Effect
resume_if none run s = (s, [])
resume_if (some co) run s = let (s', es) = run s in (s', resumes co ∷ es)

-- The part of a close that is done for a socket with events.
abbrev pub leave_loop : Bool → Resumed → Resumed → Socket → Socket × List Effect
leave_loop true reader writer s = (s, [])
leave_loop false reader writer s =
    let (s₁, es) = resume_if s.read_co reader (record s { events = no_events }) in
    let (s₂, fs) = resume_if s₁.write_co writer s₁ in (s₂, loop_del s.fd ∷ (es ++ fs))

-- The end of a close.
abbrev pub close_fd : Socket × List Effect → Socket × List Effect
close_fd (s, es) = (
  record s {
    closed = elim (fd_is_left s) [ true ↦ true | false ↦ s.closed ];
    removed = fd_gone s.transport s.removed;
  },
  es ++ closing_fd s.transport s.fd s.removed,
)

-- `wmSocket_close`, with what the coroutines do that it resumes; none of them frees the socket.
unfoldable pub close_with : Resumed → Resumed → Resumed
close_with reader writer s =
    let s₀ = record s { closed = true } in close_fd (leave_loop (is_null s.events) reader writer s₀)

-- `wmSocket_free`: `wmSocket_close`, and the timers that are set are deleted.
abbrev pub timer_of : Option ℕ → List Effect
timer_of none = []
timer_of (some t) = deletes_timer t ∷ []

pub free : Socket → List Effect
free s = (close s).1 ++ (timer_of s.read_timer ++ timer_of s.write_timer)
