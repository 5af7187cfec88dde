-- ===== src/Connection/Life.antt =====
-- The life of a connection in src/worker/connection.c: it is made, sends, pauses, fails and is closed.
--
-- The PHP callbacks run in coroutines of their own; here they are the effects `starts`. The protocol's
-- method `encode` is a parameter, which answers `none` for what is no string. The operations `_with` have what
-- the coroutines do to the connection that an operation resumes or starts, up to where they yield or end; in
-- the others these coroutines leave the connection alone.
use warrior_man.Prelude.{
  ℕ, ◌+◌, ◌-◌, ◌%◌, ◌^◌, Bool, true, false, not, Option, none, some, List, [], ◌∷◌, ◌++◌, map, keep,
  ltb, leb, ◌==◌, if◌then◌else◌,
}
use warrior_man.WmString.{Allocator, WmString, end_at}
use warrior_man.Socket.{
  Errno, other_error, Transport, tcp, udp, no_transport, Socket, Answer, Wake, Result, returns,
  waits, exits, success, closed_code, error_code, count,
}
use warrior_man.Socket.Closing.{close, pack}
use warrior_man.Socket.Closing
use warrior_man.Socket.Sending.{Written}
use warrior_man.Socket.Sending

pub data Status : Type 0 where
  established : Status
  status_closed : Status

pub data Callback : Type 0 where
  on_error : Callback
  on_close : Callback
  on_buffer_full : Callback

-- `wmConnection`; a callback is the test whether it is set.
pub record Connection : Type 0 where
  pub id : ℕ
  pub fd : ℕ
  pub socket : Socket
  pub status : Status
  pub transport : Transport
  pub is_paused : Bool
  pub paused_coro : Option ℕ
  pub has_on_error : Bool
  pub has_on_close : Bool
  pub has_on_buffer_full : Bool
  pub read_packet_buffer : Option WmString

pub data Effect : Type 0 where
  socket_effect : Closing.Effect → Effect
  resumes : ℕ → Effect
  starts : Callback → Effect
  drops_id : ℕ → Effect
  drops_fd : ℕ → Effect
  releases : Effect

-- `++wm_coroutine_socket_last_id`, put into an `int`, and 1 if that is negative; with the last number.
unfoldable pub next_id : ℕ → ℕ × ℕ
next_id last = let id = (last + 1) % 2 ^ 32 in if leb (2 ^ 31) id then (1, 1) else (id, last + 1)

-- `wmConnection_create`, with the last number and the table by descriptors; `size` is
-- `WM_MAX_SEND_BUFFER_SIZE`. A connection that has the descriptor already is dropped from the table.
unfoldable pub create : ℕ → ℕ → List Connection → Socket → Connection × (ℕ × List Connection)
create size last table s =
    let (id, last') = next_id last in
    let c : Connection = record {
      id = id;
      fd = s.fd;
      socket = record s { max_send_buffer_size = size; has_will_full = true };
      status = established;
      transport = s.transport;
      is_paused = false;
      paused_coro = none;
      has_on_error = false;
      has_on_close = false;
      has_on_buffer_full = false;
      read_packet_buffer = none;
    } in
    (c, (last', c ∷ keep (λ d. not (d.fd == s.fd)) table))

-- `wmConnection_create_udp`
unfoldable pub create_udp : ℕ → ℕ → Connection × ℕ
create_udp last fd =
    let (id, last') = next_id last in
    (
      record {
        id = id;
        fd = fd;
        socket = pack 0 udp 2;
        status = established;
        transport = udp;
        is_paused = false;
        paused_coro = none;
        has_on_error = false;
        has_on_close = false;
        has_on_buffer_full = false;
        read_packet_buffer = none;
      },
      last',
    )

abbrev pub resume_of : Option ℕ → List Effect
resume_of none = []
resume_of (some co) = resumes co ∷ []

abbrev pub callback_of : Bool → Callback → List Effect
callback_of false f = []
callback_of true f = starts f ∷ []

abbrev pub drop_of : Transport → ℕ → List Effect
drop_of tcp id = drops_id id ∷ []
drop_of udp id = []
drop_of no_transport id = []

-- `wmConnection_destroy`
unfoldable pub destroy : Connection → Connection × List Effect
destroy c =
    let (s, es) = close c.socket in
    elim c.status [
      | status_closed ↦ (c, [])
      | established ↦ (
        record c { status = status_closed; is_paused = false; socket = s },
        map socket_effect es
            ++ (resume_of c.paused_coro
                ++ (callback_of c.has_on_close on_close
                    ++ (drop_of c.transport c.id ++ (drops_fd c.fd ∷ releases ∷ [])))),
      )
    ]

-- `onError`
unfoldable pub fail : Connection → Connection × List Effect
fail c =
    let told = callback_of c.has_on_error on_error in
    let (c', es) = destroy c in elim c.socket.closed [ true ↦ (c', told ++ es) | false ↦ (c, told) ]

abbrev pub Resumed : Type 0
Resumed = Connection → Connection × List Effect

abbrev pub resume_with : Option ℕ → Resumed → Resumed
resume_with none run c = (c, [])
resume_with (some co) run c = let (c', es) = run c in (c', resumes co ∷ es)

abbrev pub start_with : Bool → Callback → Resumed → Resumed
start_with false f run c = (c, [])
start_with true f run c = let (c', es) = run c in (c', starts f ∷ es)

-- `wmConnection_destroy`: `closing` is done by the coroutines that the close of the socket resumes, `paused` by the
-- one that was paused, and `handler` by that of `onClose`.
abbrev pub destroying : Resumed → Resumed → Resumed → Status → Resumed
destroying closing paused handler status_closed c = (c, [])
destroying closing paused handler established c =
    let (s, es) = close c.socket in
    let (c₁, fs) = closing (record c { status = status_closed; is_paused = false; socket = s }) in
    let (c₂, gs) = resume_with c₁.paused_coro paused c₁ in
    let (c₃, hs) = start_with c₂.has_on_close on_close handler c₂ in
    (
      c₃,
      map socket_effect es
          ++ (fs
              ++ (gs ++ (hs ++ (drop_of c₃.transport c₃.id ++ (drops_fd c₃.fd ∷ releases ∷ []))))),
    )

unfoldable pub destroy_with : Resumed → Resumed → Resumed → Resumed
destroy_with closing paused handler c = destroying closing paused handler c.status c

-- `onError`, whose own handler is `told`.
abbrev pub end_failed : Bool → Resumed → Connection × List Effect → Connection × List Effect
end_failed false ends (c, es) = (c, es)
end_failed true ends (c, es) = let (c', fs) = ends c in (c', es ++ fs)

unfoldable pub fail_with : (told closing paused handler : Resumed) → Resumed
fail_with told closing paused handler c =
    let (c', es) = start_with c.has_on_error on_error told c in
    end_failed c'.socket.closed (destroy_with closing paused handler) (c', es)

-- `wmConnection_free`: the connection is no more.
unfoldable pub free : (closing paused handler : Resumed) → Connection → List Effect
free closing paused handler c =
    let (c', es) = destroy_with closing paused handler c in
    es ++ map socket_effect (Closing.free c'.socket)

-- `wmConnection_pauseRecv` and `wmConnection_resumeRecv`
unfoldable pub pause_recv : Connection → Connection
pause_recv c = record c { is_paused = true }

unfoldable pub resume_recv : Connection → Connection × List Effect
resume_recv c = (record c { is_paused = false }, resume_of c.paused_coro)

-- `bufferWillFull`
pub buffer_will_full : Connection → List Effect
buffer_will_full c = callback_of c.has_on_buffer_full on_buffer_full

-- `wmConnection_closeConnections`: each connection of the table is taken from it and destroyed.
pub close_connections : List Connection → List Effect
close_connections [] = []
close_connections (c ∷ cs) = (destroy c).1 ++ close_connections cs

-- `wmConnection_consumeRecvBuffer`; `none` is the end mark out of the block.
unfoldable pub consume_recv_buffer : Connection → ℕ → Option Connection
consume_recv_buffer c n = elim c.read_packet_buffer [
  | none ↦ some c
  | some b ↦ elim (ltb n (b.length - b.offset)) [
    | false ↦ some c
    | true ↦ elim (end_at b (b.length - n)) [
      | none ↦ none
      | some b' ↦ some (record c { read_packet_buffer = some b' })
    ]
  ]
]

-- How a send ends: the connection, the bytes that the kernel has taken, the answer, and the effects.
pub record Sent : Type 0 where
  pub connection : Connection
  pub sent : List ℕ
  pub result : Result Bool
  pub effects : List Effect

abbrev after_send : Connection → Written → Sent
after_send c w =
    let c' : Connection = record c { socket = w.world.socket } in
    elim w.result [
      | waits ↦ record { connection = c'; sent = w.sent; result = waits; effects = [] }
      | exits ↦ record { connection = c'; sent = w.sent; result = exits; effects = [] }
      | returns code ↦ elim code [
        | error_code ↦ record {
          connection = (fail c').0;
          sent = w.sent;
          result = returns false;
          effects = (fail c').1;
        }
        | closed_code ↦ record {
          connection = (destroy c').0;
          sent = w.sent;
          result = returns false;
          effects = (destroy c').1;
        }
        | success ↦ record { connection = c'; sent = w.sent; result = returns true; effects = [] }
        | count n ↦ record { connection = c'; sent = w.sent; result = returns true; effects = [] }
      ]
    ]

-- `wmConnection_send`; `encode` is the protocol's method if there is a protocol and `raw` is not asked
-- for, and `sendto` whether that call succeeds. `protocol_fail` is `WM_ERROR_PROTOCOL_FAIL`.
module _ (heap : Allocator) (me protocol_fail : ℕ) where
  pub send :
      Connection
      → Errno
      → Option (List ℕ → Option (List ℕ))
      → List ℕ
      → List (Answer ℕ)
      → List Wake
      → Bool
      → Sent
  send c errno encode bytes answers wakes sendto =
      let plain : Sent = record {
        connection = c;
        sent = [];
        result = returns false;
        effects = [];
      } in
      let on_socket : List ℕ → Sent = λ bs. after_send c (
        Sending.send heap (λ w. w) me (record { socket = c.socket; errno = errno }) bs answers
          wakes) in
      let (s, es) = close c.socket in
      let refused : Connection = record c {
        socket = record s { err_code = other_error protocol_fail };
      } in
      elim c.transport [
        | tcp ↦ elim c.status [
          | status_closed ↦ plain
          | established ↦ elim encode [
            | none ↦ on_socket bytes
            | some f ↦ elim (f bytes) [
              | some bs ↦ on_socket bs
              | none ↦ record {
                connection = (fail refused).0;
                sent = [];
                result = returns false;
                effects = map socket_effect es ++ (fail refused).1;
              }
            ]
          ]
        ]
        | udp ↦ record plain { sent = if sendto then bytes else []; result = returns sendto }
        | no_transport ↦ plain
      ]
