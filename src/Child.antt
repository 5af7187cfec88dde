-- ===== src/Child.antt =====
-- A worker process of src/worker.c, behind `fork`: it accepts connections, reloads and stops.
--
-- What the other coroutines do while one waits is a function on the worker. A loop takes one item of its
-- script a round, so it needs no fuel. `none` is a read through NULL. `call_closure_func` is a parameter,
-- with its answer.
mod Accepts
mod Stops
mod Tests
use warrior_man.Prelude.{
  ℕ, ◌+◌, Bool, true, false, not, ◌&&◌, ◌||◌, Option, none, some, List, [], ◌∷◌, ◌++◌, map, leb,
  ◌==◌, if◌then◌else◌,
}
use warrior_man.Socket.{Socket, Transport, tcp, udp, no_transport}
use warrior_man.Socket.Closing
use warrior_man.Connection.Life.{Connection, create, create_udp, close_connections}
use warrior_man.Connection.Life

-- `wmWorker_status`, as far as a child takes it.
pub data Status : Type 0 where
  starting : Status
  running : Status
  reloading : Status
  shutdown : Status

abbrev pub is_running : Status → Bool
is_running running = true
is_running starting = false
is_running reloading = false
is_running shutdown = false

pub data Callback : Type 0 where
  on_worker_start : Callback
  on_worker_reload : Callback
  on_worker_stop : Callback

pub data Effect : Type 0 where
  calls : Callback → Effect
  frees_socket : Closing.Effect → Effect
  closes : Life.Effect → Effect
  -- A coroutine for `onConnect`, or for `read`, of the connection with the id.
  connects : ℕ → Effect
  reads : ℕ → Effect
  -- A datagram given to the connection with the id.
  receives : ℕ → Effect
  stops_loop : Effect
  exits : Effect

-- Which callbacks the PHP object has; `bind_callback` sets them.
pub record Handlers : Type 0 where
  pub has_worker_start : Bool
  pub has_worker_reload : Bool
  pub has_worker_stop : Bool
  pub has_connect : Bool
  pub has_close : Bool
  pub has_buffer_full : Bool
  pub has_error : Bool

-- `wmWorker` with the tables of the process: `last_id` and `table` are those of the connections.
pub record Child : Type 0 where
  pub status : Status
  pub transport : Transport
  pub fd : ℕ
  pub socket : Option Socket
  pub reloadable : Bool
  pub stopping : Bool
  pub handlers : Handlers
  pub connections : List ℕ
  pub last_id : ℕ
  pub table : List Connection
  pub trace : List Effect

abbrev pub emit : Child → List Effect → Child
emit w es = record w { trace = w.trace ++ es }

-- `_unlisten`
abbrev pub unlisten_from : Option Socket → Child → Child
unlisten_from none w = w
unlisten_from (some s) w = record w {
  fd = 0;
  socket = none;
  trace = w.trace ++ map frees_socket (Closing.free s);
}

abbrev pub unlisten : Child → Child
unlisten w = unlisten_from w.socket w

-- A callback of the worker, if it has it, and whether the call has gone well.
abbrev pub call_if : Bool → Bool → Callback → Child → Child × Bool
call_if false ok f w = (w, true)
call_if true ok f w = (emit w (calls f ∷ []), ok)

-- `worker_stop`; `ok` is the answer of `onWorkerStop`.
abbrev pub close_all : Child × Bool → Child × Bool
close_all (w, false) = (w, false)
close_all (w, true) =
    let u = unlisten w in
    (record u { table = []; trace = u.trace ++ map closes (close_connections u.table) }, true)

unfoldable pub worker_stop : Bool → Child → Child × Bool
worker_stop ok w =
    close_all
      (call_if w.handlers.has_worker_stop ok on_worker_stop (record w { status = shutdown }))

-- `wmWorker_stopAll` in a child.
abbrev pub stop_unless : Bool → Bool → Child → Child
stop_unless true ok w = w
stop_unless false ok w = record (worker_stop ok w).0 { stopping = true }

unfoldable pub stop_all : Bool → Child → Child
stop_all ok w = emit (stop_unless w.stopping ok w) (stops_loop ∷ exits ∷ [])

-- A round of the loop of `reload` in a child: the number of coroutines that it finds, and what the others do
-- while it sleeps.
pub record Round : Type 0 where
  pub coro_num : ℕ
  pub during : Child → Child

-- The loop of `reload` in a child, round by round.
unfoldable pub drains : Bool → (reload_coro_num : ℕ) → Child → List Round → Child
drains ok n w [] = w
drains ok n w (r ∷ later) = elim (leb r.coro_num n) [
  | true ↦ stop_all ok w
  | false ↦ drains ok n (r.during w) later
]

-- `reload` in a child; `went` is the answer of `onWorkerReload`.
abbrev pub drain_if : Bool → (ok : Bool) → ℕ → List Round → Child → Child
drain_if false ok n rounds w = w
drain_if true ok n rounds w = drains ok n (unlisten (record w { status = reloading })) rounds

abbrev pub after_reload : (ok : Bool) → ℕ → List Round → Child × Bool → Child
after_reload ok n rounds (w, false) = w
after_reload ok n rounds (w, true) = drain_if w.reloadable ok n rounds w

unfoldable pub reload : (went ok : Bool) → (reload_coro_num : ℕ) → Child → List Round → Child
reload went ok n w rounds =
    after_reload ok n rounds (call_if w.handlers.has_worker_reload went on_worker_reload w)

-- What a wait for a connection brings: what the others do, and the answer of `wmSocket_accept`.
pub record Accept : Type 0 where
  pub during : Child → Child
  pub accepted : Option Socket

-- The callbacks that a connection takes over from its worker, and the limit of its socket.
abbrev pub equip : Handlers → ℕ → Connection → Connection
equip h limit c = record c {
  has_on_close = h.has_close;
  has_on_buffer_full = h.has_buffer_full;
  has_on_error = h.has_error;
  socket = record (c.socket) { max_send_buffer_size = limit };
}

-- The coroutines for a new connection.
abbrev pub coroutines_of : Bool → ℕ → List Effect
coroutines_of true id = connects id ∷ reads id ∷ []
coroutines_of false id = reads id ∷ []

-- The part of `acceptConnectionTcp` behind an accept that gave a socket; `size` is
-- `WM_MAX_SEND_BUFFER_SIZE`, and `limit` is `defaultMaxSendBufferSize`.
unfoldable pub take_connection : (size limit : ℕ) → Child → Socket → Child
take_connection size limit w s =
    let (c, (last, table)) = create size w.last_id w.table s in
    record w {
      connections = w.connections ++ c.id ∷ [];
      last_id = last;
      table = map (λ d. if d.id == c.id then equip w.handlers limit d else d) table;
      trace = w.trace ++ coroutines_of w.handlers.has_connect c.id;
    }

abbrev pub is_closed : Option Socket → Option Bool
is_closed none = none
is_closed (some s) = some s.closed

-- An accept without a socket: the loop goes on, or it breaks.
abbrev pub after_none : Child → Option (Child × Bool)
after_none w = elim (is_running w.status) [
  | false ↦ some (w, false)
  | true ↦ elim (is_closed w.socket) [ none ↦ none | some closed ↦ some (w, not closed) ]
]

abbrev pub accept_round : (size limit : ℕ) → Child → Accept → Option (Child × Bool)
accept_round size limit w a = elim a.accepted [
  | none ↦ after_none (a.during w)
  | some s ↦ some (take_connection size limit (a.during w) s, true)
]

-- `acceptConnectionTcp`
unfoldable pub accept_tcp : (size limit : ℕ) → Child → List Accept → Option Child
accept_tcp size limit w [] = some w
accept_tcp size limit w (a ∷ later) = elim (is_running w.status) [
  | false ↦ some w
  | true ↦ elim (accept_round size limit w a) [
    | none ↦ none
    | some (w', false) ↦ some w'
    | some (w', true) ↦ accept_tcp size limit w' later
  ]
]

-- A round of `acceptConnectionUdp`: a connection is made, and a datagram comes.
abbrev pub take_datagram : Child → (Child → Child) → Child
take_datagram w during =
    let (c, last) = create_udp w.last_id w.fd in
    emit (during (record w { last_id = last })) (receives c.id ∷ [])

-- `acceptConnectionUdp`, where `wmConnection_recvfrom` brings a datagram each round.
unfoldable pub accept_udp : Child → List (Child → Child) → Option Child
accept_udp w [] = elim (is_closed w.socket) [ none ↦ none | some closed ↦ some w ]
accept_udp w (during ∷ later) = elim (is_closed w.socket) [
  | none ↦ none
  | some true ↦ some w
  | some false ↦ accept_udp (take_datagram w during) later
]

-- `wmWorker_resumeAccept`; `went` is the answer of `onWorkerStart`.
unfoldable pub resume_accept : (went : Bool) → (size limit : ℕ) → Child → List Accept → Option Child
resume_accept went size limit w later =
    let (w', good) =
      call_if w.handlers.has_worker_start went on_worker_start (record w { status = running }) in
    elim good [
      | false ↦ some w'
      | true ↦ elim w'.transport [
        | tcp ↦ accept_tcp size limit w' later
        | udp ↦ accept_udp w' (map (λ a. a.during) later)
        | no_transport ↦ none
      ]
    ]
