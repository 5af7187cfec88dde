-- ===== src/Lib.antt =====
-- WarriorMan, a PHP extension in C that runs Workerman servers on coroutines.
--
-- A master process forks workers (src/worker.c). Each worker runs an event loop (src/worker/loop.c)
-- over its sockets; the loop resumes the coroutines (src/coroutine/coroutine.c) that wait on a socket
-- (src/coroutine/socket.c), on a channel (src/coroutine/channel.c) or on a timer (src/core/timer.c), and
-- connections (src/worker/connection.c) cut packets out of what they read into growing strings
-- (src/core/wm_string.c). Queues and timers link their nodes into intrusive lists (include/list.h).
--
-- The files:
-- - Prelude: what the others share: Boolean tests, lists, arrays and slices over native numbers.
-- - Timer: the timing wheel of src/core/timer.c and include/timer.h, and the timer gate of
--   `wmWorkerLoop_loop` in src/worker/loop.c. `link`, `cascade`, `tick` are `_wmTimerWheel_add`,
--   `_timerwheel_cascade`, `_wmTimerWheelick`; `add`, `add_quick`, `del`, `update`, `clear` the functions
--   `wmTimerWheel_` of those names. Callbacks are a parameter, which may add and delete timers.
-- - Ring: include/list.h, the pointers of the intrusive lists; the operations are `wmList_` of those names.
-- - Queue: include/queue.h; `push`, `pop`, `clear` are `wmQueue_push` and so on.
-- - Channel: src/coroutine/channel.c. A push and a pop are cut where the coroutine yields, and every
--   order of the parts is a run; timers and coroutines share blocks, which can be freed.
-- - Coroutine: src/coroutine/coroutine.c, cut at the context switches: the tables, the chain of origins
--   and the saved PHP globals; Coroutine.Stack says what it is meant to be, a stack of coroutines.
--   Coroutine.Deferred has `wmCoroutine_defer` and the end of `main_func`, over the stack of Stack.
-- - Array: src/core/array.c; `set_item` is `wmArray_set`.
-- - Stack: include/stack.h; `wipe` is the loop of `wmStack_clear`.
-- - Loop: the events of sockets in src/worker/loop.c, and in Loop.Dispatch a round of `wmWorkerLoop_loop`; `add`, `remove`, `del` are `wmWorkerLoop_add` and so
--   on. The kernel's interest list is a parameter, with what the manual says of `epoll_ctl`.
-- - Socket: src/coroutine/socket.c, in the modules Wait (`event_wait` and the timers), Reading, Sending and
--   Closing; `read`, `send`, `close` are `wmSocket_read` and so on. The kernel and the other coroutines are
--   scripts of answers and wakes; a run whose script ends is still under way. A loop takes one wake a
--   round, so it needs no fuel.
-- - PhpTimer: src/php_timer.c; `timer_free`, `timer_add_callback` have their names, `add` and `del` are the
--   methods. Blocks of timers can be freed, and a function of PHP is a script of its calls.
-- - Command: `parseCommand` of src/worker.c, with the probes of the master as a parameter. The loop of five
--   probes runs on its rounds.
-- - Helper: `wm_itoa` of include/helper.h, on a buffer of bytes; twenty rounds are enough for 64 bits, and
--   the loop that turns the text round has one round more than the text has bytes.
-- - Master: the master process of src/worker.c; `on_exit` is a round of `monitorWorkers`, `fork_pool` the
--   loop of `forkWorkers` with `forkOneWorker`. The answers of `fork` are a script. Master.Address is
--   `parseSocketAddress`.
-- - Child: a worker process of src/worker.c; `accept_tcp`, `accept_udp` are `acceptConnectionTcp` and
--   `acceptConnectionUdp`, `reload` and `stop_all` the parts of `reload` and `wmWorker_stopAll` in a child. What
--   the kernel and the other coroutines do is a script.
-- - Signals: src/worker/signal.c; `sig_handler` has its name, `signal_wait` is `wmSignal_wait`, with the signals
--   that come and the answers of the reads as a script.
-- - File: src/core/file.c; `put_contents`, `get_contents` are `wm_file_put_contents`, `wm_file_get_contents`, with the
--   answers of the system as a script.
-- - Connection: the packets of `wmConnection_read` in src/worker/connection.c; Connection.Life has the
--   other operations, where `fail` is `onError`, and Connection.Stream the coroutine that reads.
-- - The operations `close_with` of Socket.Closing, and `destroy_with`, `fail_with` and `free` of Connection.Life,
--   take what the coroutines do that they resume or start; `close`, `destroy` and `fail` are the same code where
--   those leave the socket and the connection alone (Socket.Closed, Connection.Alone).
-- - WmString: src/core/wm_string.c, `wmString_append_int` in WmString.Number and
--   `wmString_replace` in WmString.Replace, over an allocator that is a parameter with the laws of malloc and
--   realloc; a copy out of bounds and a failed assertion are results of their own.
--
-- Machine integers are natural numbers with their wrap-around written out. `ticks` of `update` runs on
-- fuel, and fuel above the elapsed milliseconds is enough; `fire` runs on the number of nodes that are
-- due, which callbacks can only shorten; `wake_one` and `drain` run on the queue's count, and
-- `count_chars` and `replace_loop` on one round more than the number of bytes, and `grow` on one round more
-- than the pages that an array can have.
--
-- Not modelled: the context switch and the hash table (code of other projects), the bindings to PHP but
-- for the timers, the listening and the display of the master, the setting of signal handlers, logs and the
-- thin wrappers round system calls. The timing wheel and
-- the queue are stated over sequences of nodes; Ring has the pointers for them.
pub mod Prelude
pub mod Helper
pub mod Timer
pub mod Queue
pub mod Channel
pub mod Coroutine
pub mod Array
pub mod Loop
pub mod Stack
pub mod Connection
pub mod WmString
pub mod Socket
pub mod Child
pub mod Signals
pub mod File
pub mod Command
pub mod PhpTimer
pub mod Ring
pub mod Master
