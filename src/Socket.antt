-- ===== src/Socket.antt =====
-- The sockets of src/coroutine/socket.c and include/wm_socket.h, as the coroutines use them.
--
-- What the kernel and the other coroutines do is a script: `answers` has what the system calls of an
-- operation answer, one after the other, and `wakes` what happens in each of its waits. A run that
-- comes to the end of a script is still under way there. `errno` is kept beside the socket. A pointer
-- to a timer is the number of its ticks, a coroutine is its number, and `errMsg`, which is the text of
-- `errCode`, and `owner` are left out, as are the warnings of the log.
pub mod Wait
pub mod Reading
pub mod Sending
pub mod Closing
mod Kept
mod Delivered
mod Progress
mod Released
mod Closed
mod Connected
mod Tests
use warrior_man.Prelude.{ℕ, Bool, true, false, Option, none, some, List, [], ◌∷◌, ◌||◌, ◌&&◌}
use warrior_man.Loop.{Mask, no_events, meets, join, without}
use warrior_man.WmString.{WmString}

-- The numbers of `errno`, and those of the program's own that are set in `errCode`.
pub data Errno : Type 0 where
  no_error : Errno
  eintr : Errno
  eagain : Errno
  einprogress : Errno
  efault : Errno
  ebadf : Errno
  econnreset : Errno
  epipe : Errno
  enotconn : Errno
  etimedout : Errno
  econnrefused : Errno
  enetdown : Errno
  enetunreach : Errno
  ehostdown : Errno
  ehostunreach : Errno
  session_closed : Errno
  session_closed_by_client : Errno
  send_buffer_full : Errno
  other_error : ℕ → Errno

pub data Transport : Type 0 where
  tcp : Transport
  udp : Transport
  no_transport : Transport

-- `wmSocket`; `none` is NULL. `bound_host` and `bound_port` are `connect_host` and `connect_port`.
pub record Socket : Type 0 where
  pub fd : ℕ
  pub write_buffer : Option WmString
  pub max_send_buffer_size : ℕ
  pub events : Mask
  pub closed : Bool
  pub removed : Bool
  pub err_code : Errno
  pub read_co : Option ℕ
  pub write_co : Option ℕ
  pub loop_type : ℕ
  pub transport : Transport
  pub has_will_full : Bool
  pub bound_host : Option (List ℕ)
  pub bound_port : ℕ
  pub shutdown_read : Bool
  pub shutdown_write : Bool
  pub read_timer : Option ℕ
  pub write_timer : Option ℕ
  pub remote_ip : Option (List ℕ)
  pub remote_port : ℕ

-- A socket and `errno`.
pub record World : Type 0 where
  pub socket : Socket
  pub errno : Errno

-- What a system call answers: a value that is not negative, or -1 and `errno`.
pub data Answer (A : Type 0) : Type 0 where
  gives : A → Answer A
  fails : Errno → Answer A

-- A wait: what `epoll_ctl` answers if it is asked, and whether the coroutine is woken by a close of the
-- socket or by the timer; else it is woken by an event.
pub record Wake : Type 0 where
  pub add_error : Option Errno
  pub closes : Bool
  pub expires : Bool

-- An operation has come back, waits, or has ended the process.
pub data Result (A : Type 0) : Type 0 where
  returns : A → Result A
  waits : Result A
  exits : Result A

-- What `wmSocket_read` and its like return.
pub data Code : Type 0 where
  success : Code
  closed_code : Code
  error_code : Code
  count : ℕ → Code

pub data Event : Type 0 where
  reads_event : Event
  writes_event : Event

abbrev pub mask_of : Event → Mask
mask_of reads_event = record { reads = true; writes = false; exclusive = false }
mask_of writes_event = record { reads = false; writes = true; exclusive = false }

-- `set_err`
abbrev pub set_err : World → Errno → World
set_err w e = record { socket = record w.socket { err_code = e }; errno = e }

-- `check_error`; `none` is the `abort`.
unfoldable pub check_error : Errno → Option Code
check_error efault = none
check_error ebadf = some closed_code
check_error econnreset = some closed_code
check_error epipe = some closed_code
check_error enotconn = some closed_code
check_error etimedout = some closed_code
check_error econnrefused = some closed_code
check_error enetdown = some closed_code
check_error enetunreach = some closed_code
check_error ehostdown = some closed_code
check_error ehostunreach = some closed_code
check_error eagain = some success
check_error no_error = some success
check_error e = some error_code

abbrev pub is_set {ℓ} : {A : Type ℓ} → Option A → Bool
is_set none = false
is_set (some x) = true

-- `get_bound_co`, as the test whether there is one.
unfoldable pub is_bound : Socket → Event → Bool
is_bound s reads_event = is_set s.read_co
is_bound s writes_event = is_set s.write_co

-- `is_available`; `none` is the `wmError` of `check_bound_co`, which ends the process.
unfoldable pub is_available : World → Event → Option (World × Bool)
is_available w e = elim (is_bound w.socket e) [
  | true ↦ none
  | false ↦ elim w.socket.closed [
    | true ↦ some (set_err w econnreset, false)
    | false ↦ some (w, true)
  ]
]

-- `do { … } while (ret < 0 && errno == EINTR)`: the answer that ends it, and those after it.
unfoldable pub until_done : {A : Type 0} → List (Answer A) → Option (Answer A × List (Answer A))
until_done [] = none
until_done (gives x ∷ rest) = some (gives x, rest)
until_done (fails eintr ∷ rest) = until_done rest
until_done (fails e ∷ rest) = some (fails e, rest)
