-- ===== src/Socket/Reading.antt =====
-- The operations of src/coroutine/socket.c that read: `wmSocket_accept`, `wmSocket_recvfrom`,
-- `wmSocket_recv`, `wmSocket_read` and `wmSocket_peek`.
use warrior_man.Prelude.{ℕ, Bool, true, false, Option, none, some, List, [], ◌∷◌, length}
use warrior_man.Socket.{
  Errno, no_error, session_closed, session_closed_by_client, Socket, World, Answer, gives, fails,
  Wake, Result, returns, waits, exits, Code, success, closed_code, error_code, count, reads_event,
  set_err, is_available, until_done,
}
use warrior_man.Socket.Wait.{
  timer_add, timer_del, asleep, Next, done, again, loop, is_eagain, wait_in_time,
}
use warrior_man.Socket.Closing.{pack}

-- The socket, `errno` and the answers to come.
pub record Reader (A : Type 0) : Type 0 where
  pub world : World
  pub answers : List (Answer A)

-- `timer_del(socket, WM_EVENT_READ)`, after `set_err`.
abbrev pub settle : World → Errno → World
settle w e = let w' = set_err w e in record w' { socket = timer_del w'.socket reads_event }

-- The failure of a system call: `timer_add`, and with `EAGAIN` a wait is worth it.
unfoldable pub on_failure :
    {A R : Type 0} → ℕ → R → World → Errno → List (Answer A) → Next (Reader A) (World × Result R)
on_failure ticks failed w e rest =
    let w' : World = record { socket = timer_add w.socket reads_event ticks; errno = e } in
    elim (is_eagain e) [
      | true ↦ again (record { world = w'; answers = rest })
      | false ↦ done (settle w' e, returns failed)
    ]

-- The wait, and its failure.
abbrev pub goes_on :
    {A R : Type 0} → R → List (Answer A) → World × Bool → Next (Reader A) (World × Result R)
goes_on failed rest (w, true) = again (record { world = w; answers = rest })
goes_on failed rest (w, false) = done (settle w w.errno, returns failed)

unfoldable pub on_wake :
    {A R : Type 0} → ℕ → R → Reader A → Wake → Next (Reader A) (World × Result R)
on_wake me failed r k = goes_on failed r.answers (wait_in_time me r.world reads_event k)

-- The loop of the three operations, from what each does with a closed socket and with an answer.
unfoldable pub attempt :
    {A R : Type 0}
    → ℕ
    → R
    → (World → World × Result R)
    → (World → A → World × Result R)
    → Reader A
    → Next (Reader A) (World × Result R)
attempt ticks failed on_closed on_answer r = elim r.world.socket.closed [
  | true ↦ done (on_closed r.world)
  | false ↦ elim (until_done r.answers) [
    | none ↦ done (r.world, waits)
    | some (gives x, rest) ↦ done (on_answer r.world x)
    | some (fails e, rest) ↦ on_failure ticks failed r.world e rest
  ]
]

unfoldable pub left_asleep : {A R : Type 0} → ℕ → Reader A → World × Result R
left_asleep me r = (asleep me r.world reads_event, waits)

-- The operations, in the coroutine `me` and with a time limit of `ticks`.
module _ (me ticks : ℕ) where
  unfoldable pub reading :
      {A R : Type 0}
      → R
      → R
      → (World → World × Result R)
      → (World → A → World × Result R)
      → World
      → List (Answer A)
      → List Wake
      → World × Result R
  reading refused failed on_closed on_answer w answers wakes = elim (is_available w reads_event) [
    | none ↦ (w, exits)
    | some (w', false) ↦ (w', returns refused)
    | some (w', true) ↦
        loop (attempt ticks failed on_closed on_answer) (on_wake me failed) (left_asleep me)
          (record { world = w'; answers = answers }) wakes
  ]

  -- `wmSocket_read`; the bytes are what `recv` puts into `buf`.
  unfoldable pub read_closed : World → World × Result (Code × List ℕ)
  read_closed w = (settle w session_closed, returns (closed_code, []))

  unfoldable pub read_answer : World → List ℕ → World × Result (Code × List ℕ)
  read_answer w [] =
      let w' : World = record w { socket = record w.socket { closed = true } } in
      (settle w' session_closed_by_client, returns (closed_code, []))
  read_answer w (b ∷ bs) = (
    record w { socket = timer_del w.socket reads_event },
    returns (count (length (b ∷ bs)), b ∷ bs),
  )

  unfoldable pub read : World → List (Answer (List ℕ)) → List Wake → World × Result (Code × List ℕ)
  read = reading (closed_code, []) (error_code, []) read_closed read_answer

  -- `wmSocket_accept`: the new socket is packed with the peer's descriptor, address and port; NULL is
  -- `none`.
  unfoldable pub accept_closed : World → World × Result (Option Socket)
  accept_closed w = (settle w session_closed, returns none)

  unfoldable pub accept_answer : ℕ → World → ℕ × (List ℕ × ℕ) → World × Result (Option Socket)
  accept_answer new_type w (connfd, (ip, port)) =
      let s = pack connfd w.socket.transport new_type in
      (settle w no_error, returns (some (record s { remote_ip = some ip; remote_port = port })))

  unfoldable pub accept :
      ℕ → World → List (Answer (ℕ × (List ℕ × ℕ))) → List Wake → World × Result (Option Socket)
  accept new_type = reading none none accept_closed (accept_answer new_type)

  -- `wmSocket_recvfrom`; the answer of the call has the sender's address and port.
  unfoldable pub recvfrom_closed : World → World × Result (Code × List ℕ)
  recvfrom_closed w = (settle w session_closed, returns (closed_code, []))

  unfoldable pub recvfrom_answer : World → List ℕ × (List ℕ × ℕ) → World × Result (Code × List ℕ)
  recvfrom_answer w (bytes, (ip, port)) =
      let w' : World = record w {
        socket = record w.socket { remote_ip = some ip; remote_port = port };
      } in
      (settle w' no_error, returns (count (length bytes), bytes))

  unfoldable pub recvfrom :
      World → List (Answer (List ℕ × (List ℕ × ℕ))) → List Wake → World × Result (Code × List ℕ)
  recvfrom = reading (closed_code, []) (error_code, []) recvfrom_closed recvfrom_answer

-- `wmSocket_recv`: the sender's address, which `recvfrom` puts in the memory of `udp_addr`, goes to `socket`. If
-- nothing has come, that memory is as `wm_malloc` gave it, and reads as `unset`.
abbrev pub sender : World × Result (Code × List ℕ) → Option (List ℕ) × ℕ → Option (List ℕ) × ℕ
sender (w, returns (count n, bytes)) unset = (w.socket.remote_ip, w.socket.remote_port)
sender (w, returns (closed_code, bytes)) unset = unset
sender (w, returns (error_code, bytes)) unset = unset
sender (w, returns (success, bytes)) unset = unset
sender (w, waits) unset = unset
sender (w, exits) unset = unset

unfoldable pub recv :
    ℕ
    → ℕ
    → World
    → Socket
    → List (Answer (List ℕ × (List ℕ × ℕ)))
    → List Wake
    → Option (List ℕ) × ℕ
    → (World × Result (Code × List ℕ)) × Socket
recv me ticks server s answers wakes unset =
    let r = recvfrom me ticks server answers wakes in
    let (ip, port) = sender r unset in (r, record s { remote_ip = ip; remote_port = port })

-- `wmSocket_peek`: the number of bytes, or -1 as `none`.
unfoldable pub peek : World → List (Answer (List ℕ)) → World × Result (Option (List ℕ))
peek w answers = elim (until_done answers) [
  | none ↦ (w, waits)
  | some (gives bytes, rest) ↦ (set_err w no_error, returns (some bytes))
  | some (fails e, rest) ↦ (set_err (record w { errno = e }) e, returns none)
]
