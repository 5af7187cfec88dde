-- ===== src/Signals.antt =====
-- src/worker/signal.c: a signal is a byte in a pipe, and a coroutine reads the pipe and calls the handlers.
--
-- Which handlers `wmSignal_add` has set is a parameter, of numbers that stand for functions, and which signals come while the coroutine waits is a script, with
-- what `wmSocket_read` answers. The loop takes one item of the script a round, so it needs no fuel.
mod Handled
mod Tests
use warrior_man.Prelude.{
  ℕ, ◌+◌, ◌%◌, ◌^◌, Bool, true, false, not, ◌&&◌, Option, none, some, List, [], ◌∷◌, ◌++◌, length,
  take, drop, ltb, if◌then◌else◌,
}

-- The pipe behind `signal_fd`, of bytes that are not read yet, with its room.
pub record Pipe : Type 0 where
  pub bytes : List ℕ
  pub room : ℕ

-- `sig_handler`: the lowest byte of the number is sent; a pipe that is full loses it.
unfoldable pub sig_handler : Pipe → ℕ → Pipe
sig_handler p signalno =
    if ltb (length p.bytes) p.room then record p { bytes = p.bytes ++ signalno % 256 ∷ [] } else p

unfoldable pub sig_handlers : Pipe → List ℕ → Pipe
sig_handlers p [] = p
sig_handlers p (n ∷ ns) = sig_handlers (sig_handler p n) ns

-- What `wmSocket_read` answers: it fails, with the test whether `errno` is ETIMEDOUT, or it gives some bytes.
pub data Read : Type 0 where
  fails : (timed_out : Bool) → Read
  gives : (count : ℕ) → Read

-- A wait for signals: those that come, and the answer.
pub record Wait : Type 0 where
  pub comes : List ℕ
  pub read : Read

-- The coroutine: `called` are the calls of handlers, each with its signal.
pub record Waiter : Type 0 where
  pub pipe : Pipe
  pub called : List (ℕ × ℕ)

abbrev pub arrived : Waiter → Wait → Waiter
arrived w e = record w { pipe = sig_handlers w.pipe e.comes }

module _ (signal_handler_array : ℕ → Option ℕ) where
  abbrev pub call_of : ℕ → List (ℕ × ℕ)
  call_of signal = elim (signal_handler_array signal) [ none ↦ [] | some fn ↦ (fn, signal) ∷ [] ]

  -- The `for` loop over the bytes that were read.
  unfoldable pub calls_of : List ℕ → List (ℕ × ℕ)
  calls_of [] = []
  calls_of (signal ∷ later) = call_of signal ++ calls_of later

  -- A round of the `while` of `wmSignal_wait`, with the answer whether the loop goes on.
  abbrev pub after_read : Waiter → Read → Waiter × Bool
  after_read w (fails timed_out) = (w, timed_out)
  after_read w (gives count) = (
    record w {
      pipe = record (w.pipe) { bytes = drop count w.pipe.bytes };
      called = w.called ++ calls_of (take count w.pipe.bytes);
    },
    true,
  )

  -- `wmSignal_wait`, with the answer whether it still waits.
  unfoldable pub signal_wait : Waiter → List Wait → Waiter × Bool
  signal_wait w [] = (w, true)
  signal_wait w (e ∷ later) =
      let (w', waits_on) = after_read (arrived w e) e.read in
      elim waits_on [ false ↦ (w', false) | true ↦ signal_wait w' later ]
