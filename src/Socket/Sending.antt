-- ===== src/Socket/Sending.antt =====
-- The operations of src/coroutine/socket.c that write: `wmSocket_send`, `wmSocket_write` and
-- `wmSocket_connect`.
use warrior_man.Prelude.{
  ℕ, ◌+◌, ◌-◌, ◌%◌, ◌^◌, min, Bool, true, false, Option, none, some, List, [], ◌++◌, length, take,
  drop, leb, ltb, if◌then◌else◌, ◌==◌,
}
use warrior_man.Loop.{without}
use warrior_man.WmString.{Allocator, WmString, new, append_ptr}
use warrior_man.Socket.{
  Errno, no_error, einprogress, session_closed, send_buffer_full, Socket, World, Answer, gives,
  fails, Wake, Result, returns, waits, exits, Code, success, closed_code, error_code, count,
  reads_event, writes_event, mask_of, set_err, check_error, is_available, until_done,
}
use warrior_man.Socket.Wait.{
  timer_add, timer_del, event_wait, asleep, Next, done, again, loop, wait_in_time,
}

-- A write under way: `sent` has the bytes that the kernel has taken, and `ret_num` is the sum.
pub record Writer : Type 0 where
  pub world : World
  pub answers : List (Answer ℕ)
  pub sent : List ℕ
  pub ret_num : ℕ

-- How a write ends: the socket, the bytes that the kernel has taken, and the result.
pub record Written : Type 0 where
  pub world : World
  pub sent : List ℕ
  pub result : Result Code

-- `socket->write_buffer->offset = …; socket->write_buffer->length = …`
abbrev pub with_buffer : World → WmString → World
with_buffer w b = record w { socket = record w.socket { write_buffer = some b } }

-- `wmWorkerLoop_remove(socket, WM_EVENT_WRITE)`
abbrev pub loop_remove : World → World
loop_remove w = record w {
  socket = record w.socket { events = without w.socket.events (mask_of writes_event) };
}

-- `send` failed: `closed` if `check_error` says so, else the loop goes on with 0 bytes.
abbrev pub lost : World → Errno → World
lost w e = let w' = set_err w e in record w' { socket = record w'.socket { closed = true } }

-- The number of bytes that one `send` of `offered` bytes has got rid of, or the end of the operation.
pub data Taken : Type 0 where
  took : ℕ → Taken
  gone : Errno → Taken
  aborted : Taken

unfoldable pub taken : ℕ → Answer ℕ → Taken
taken offered (gives k) = took (min k offered)
taken offered (fails e) = elim (check_error e) [
  | none ↦ aborted
  | some closed_code ↦ gone e
  | some success ↦ took 0
  | some error_code ↦ took 0
  | some (count n) ↦ took 0
]

-- The bytes of the buffer that wait to be sent.
abbrev pub pending : WmString → List ℕ
pending b = drop b.offset (take b.length b.str)

-- The kernel takes `k` bytes of the buffer `b`.
unfoldable pub send_part : Writer → List (Answer ℕ) → WmString → ℕ → Next Writer Written
send_part t rest b k =
    let sent = t.sent ++ take k (pending b) in
    let ret_num = (t.ret_num + k) % 2 ^ 32 in
    elim (b.offset + k == b.length) [
      | true ↦ done (record {
        world = with_buffer (loop_remove t.world) (record b { offset = 0; length = 0 });
        sent = sent;
        result = returns (count ret_num);
      })
      | false ↦ again (record {
        world = with_buffer t.world (record b { offset = b.offset + k });
        answers = rest;
        sent = sent;
        ret_num = ret_num;
      })
    ]

unfoldable pub send_taken : Writer → List (Answer ℕ) → WmString → Taken → Next Writer Written
send_taken t rest b aborted = done (record { world = t.world; sent = t.sent; result = exits })
send_taken t rest b (gone e) =
    done (record { world = lost t.world e; sent = t.sent; result = returns closed_code })
send_taken t rest b (took k) = send_part t rest b k

-- A round of `wmSocket_send` up to its wait. A buffer of NULL is a crash.
unfoldable pub send_attempt : Writer → Next Writer Written
send_attempt t = elim t.world.socket.closed [
  | true ↦ done (record {
    world = set_err (loop_remove t.world) session_closed;
    sent = t.sent;
    result = returns closed_code;
  })
  | false ↦ elim t.world.socket.write_buffer [
    | none ↦ done (record { world = t.world; sent = t.sent; result = exits })
    | some b ↦ elim (until_done t.answers) [
      | none ↦ done (record { world = t.world; sent = t.sent; result = waits })
      | some (a, rest) ↦ send_taken t rest b (taken (b.length - b.offset) a)
    ]
  ]
]

-- The wait, whose answer is not looked at.
unfoldable pub write_wait : ℕ → Writer → Wake → Next Writer Written
write_wait me t k = again (record t { world = (event_wait me t.world writes_event k).0 })

unfoldable pub left_writing : ℕ → Writer → Written
left_writing me t = record { world = asleep me t.world writes_event; sent = t.sent; result = waits }

-- `bufferIsFull`
unfoldable pub buffer_is_full : Socket → WmString → Bool
buffer_is_full s b = leb s.max_send_buffer_size (b.length - b.offset)

-- The buffer of a socket, made if there is none, and reset if all of it is sent; `none` is a crash.
unfoldable pub prepared : Allocator → Socket → Option WmString
prepared heap s =
    let reset : WmString → WmString =
      λ b. elim (b.offset == b.length) [ true ↦ record b { length = 0; offset = 0 } | false ↦ b ] in
    elim s.write_buffer [
      | some b ↦ some (reset b)
      | none ↦ elim (new heap 512) [
        | none ↦ none
        | some none ↦ none
        | some (some b) ↦ some (reset b)
      ]
    ]

-- The operations, in the coroutine `me`; `will_full` is `onBufferWillFull`.
module _ (heap : Allocator) (will_full : World → World) (me : ℕ) where
  -- `checkBufferWillFull`
  unfoldable pub check_buffer_will_full : World → WmString → World
  check_buffer_will_full w b = elim (buffer_is_full w.socket b) [
    | true ↦ elim w.socket.has_will_full [ true ↦ will_full w | false ↦ w ]
    | false ↦ w
  ]

  -- `wmSocket_send`. The answer of `wmString_append_ptr` is not looked at.
  unfoldable pub send : World → List ℕ → List (Answer ℕ) → List Wake → Written
  send w bytes answers wakes =
      let ends : World → Result Code → Written =
        λ w' r. record { world = w'; sent = []; result = r } in
      elim (is_available w writes_event) [
        | none ↦ ends w exits
        | some (w', false) ↦ ends w' (returns closed_code)
        | some (w', true) ↦ elim (prepared heap w'.socket) [
          | none ↦ ends w' exits
          | some b ↦ elim (buffer_is_full w'.socket b) [
            | true ↦ ends (set_err (with_buffer w' b) send_buffer_full) (returns error_code)
            | false ↦ elim (append_ptr heap b bytes) [
              | none ↦ ends w' exits
              | some (b', ok) ↦
                  loop send_attempt (write_wait me) (left_writing me)
                    (record {
                      world = check_buffer_will_full (with_buffer w' b') b';
                      answers = answers;
                      sent = [];
                      ret_num = 0;
                    })
                    wakes
            ]
          ]
        ]
      ]

-- An `int` compared with a `size_t`.
abbrev pub as_size : ℕ → ℕ
as_size n = if ltb n (2 ^ 31) then n else n + 2 ^ 64 - 2 ^ 32

-- A round of `wmSocket_write`. What is sent is `buf`, from its beginning.
-- A round of `wmSocket_write`. What is sent is `buf`, from its beginning.
unfoldable pub write_part : List ℕ → Writer → List (Answer ℕ) → ℕ → Next Writer Written
write_part bytes t rest k =
    let sent = t.sent ++ take k bytes in
    let ret_num = (t.ret_num + k) % 2 ^ 32 in
    elim (leb (length bytes) (as_size ret_num)) [
      | true ↦
          done
            (record { world = loop_remove t.world; sent = sent; result = returns (count ret_num) })
      | false ↦ again (record { world = t.world; answers = rest; sent = sent; ret_num = ret_num })
    ]

unfoldable pub write_attempt : List ℕ → Writer → Next Writer Written
write_attempt bytes t = elim t.world.socket.closed [
  | true ↦ done (record {
    world = set_err t.world session_closed;
    sent = t.sent;
    result = returns closed_code;
  })
  | false ↦ elim (until_done t.answers) [
    | none ↦ done (record { world = t.world; sent = t.sent; result = waits })
    | some (a, rest) ↦ elim (taken (length bytes - t.ret_num) a) [
      | aborted ↦ done (record { world = t.world; sent = t.sent; result = exits })
      | gone e ↦
          done (record { world = lost t.world e; sent = t.sent; result = returns closed_code })
      | took k ↦ write_part bytes t rest k
    ]
  ]
]

-- `wmSocket_write`
unfoldable pub write : ℕ → World → List ℕ → List (Answer ℕ) → List Wake → Written
write me w bytes answers wakes = elim (is_available w writes_event) [
  | none ↦ record { world = w; sent = []; result = exits }
  | some (w', false) ↦ record { world = w'; sent = []; result = returns closed_code }
  | some (w', true) ↦
      loop (write_attempt bytes) (write_wait me) (left_writing me)
        (record { world = w'; answers = answers; sent = []; ret_num = 0 }) wakes
]

unfoldable pub is_einprogress : Errno → Bool
is_einprogress einprogress = true
is_einprogress e = false

-- The end of `wmSocket_connect`; the answer is `retval` as a `bool`.
abbrev pub connected : World → List ℕ → ℕ → Bool → World × Result Bool
connected w host port retval =
    let s = record w.socket { bound_host = some host; bound_port = port } in
    let w' = set_err (record w { socket = s }) no_error in
    (record w' { socket = timer_del w'.socket writes_event }, returns retval)

-- `wmSocket_connect`, with the answer of `getsockopt`: it fails, or gives the error of the socket.
-- `connect` gives 0, and a failure makes `retval` -1.
unfoldable pub connect_waited :
    World → List ℕ → ℕ → Answer Errno → World × Bool → World × Result Bool
connect_waited w host port so_error (w', false) = (set_err w' w'.errno, returns false)
connect_waited w host port (fails e) (w', true) =
    let w'' = set_err w' w'.socket.err_code in
    (record w'' { socket = timer_del w''.socket writes_event }, returns false)
connect_waited w host port (gives no_error) (w', true) = connected w' host port true
connect_waited w host port (gives e) (w', true) =
    let w'' = set_err w' e in
    (record w'' { socket = timer_del w''.socket writes_event }, returns false)

unfoldable pub connect_failed :
    ℕ → World → List ℕ → ℕ → ℕ → Answer Errno → Option Wake → Errno → World × Result Bool
connect_failed me w host port ticks so_error wake e =
    let w₁ : World = record { socket = timer_add w.socket writes_event ticks; errno = e } in
    elim (is_einprogress e) [
      | false ↦ (set_err (record w { errno = e }) e, returns false)
      | true ↦ elim wake [
        | none ↦ (asleep me w₁ writes_event, waits)
        | some k ↦ connect_waited w host port so_error (wait_in_time me w₁ writes_event k)
      ]
    ]

unfoldable pub connect :
    ℕ → World → List ℕ → ℕ → ℕ → List (Answer ℕ) → Answer Errno → Option Wake → World × Result Bool
connect me w host port ticks answers so_error wake = elim (is_available w writes_event) [
  | none ↦ (w, exits)
  | some (w₁, false) ↦ (w₁, returns false)
  | some (w₁, true) ↦ elim (is_available w₁ reads_event) [
    | none ↦ (w₁, exits)
    | some (w₂, false) ↦ (w₂, returns false)
    | some (w₂, true) ↦ elim (until_done answers) [
      | none ↦ (w₂, waits)
      | some (gives x, rest) ↦ connected w₂ host port false
      | some (fails e, rest) ↦ connect_failed me w₂ host port ticks so_error wake e
    ]
  ]
]
