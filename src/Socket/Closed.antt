-- ===== src/Socket/Closed.antt =====
-- Closing a socket, more than once, and what the event loop is told of it.
use warrior_man.Prelude.{
  ℕ, ◌+◌, ◌≡◌, arith, refl, ap, ◌∙◌, Bool, true, false, Option, none, some, List, [], ◌∷◌, ◌++◌,
  ==_self,
}
use warrior_man.Loop.{no_events, is_null, Loop, Control, Flags, put, event_decode, del}
use warrior_man.Loop.Registered.{IsEpoll, Synced}
use warrior_man.Socket.{Transport, tcp, udp, no_transport, Socket, Event, reads_event, writes_event}
use warrior_man.Socket.Wait.{bind_co, mark_closed}
use warrior_man.Socket.Closing.{
  Effect, loop_del, resumes, closes_fd, deletes_timer, closing_fd, fd_gone, resume_if, leave_loop,
  close_fd, close_with, close, close_events, fd_is_left,
}

-- A coroutine that leaves the socket alone.
abbrev idle : Socket → Socket × List Effect
idle s = (s, [])

leave_loop-idle :
    (reads writes exclusive : Bool) (r w : Option ℕ) (s : Socket)
    → let t = record s {
      events = record { reads = reads; writes = writes; exclusive = exclusive };
      read_co = r;
      write_co = w;
    } in
      leave_loop (is_null t.events) idle idle (record t { closed = true })
      ≡ (mark_closed t, close_events t)
leave_loop-idle false false false r w s = refl
leave_loop-idle true writes exclusive none none s = refl
leave_loop-idle true writes exclusive none (some b) s = refl
leave_loop-idle true writes exclusive (some a) none s = refl
leave_loop-idle true writes exclusive (some a) (some b) s = refl
leave_loop-idle false true exclusive none none s = refl
leave_loop-idle false true exclusive none (some b) s = refl
leave_loop-idle false true exclusive (some a) none s = refl
leave_loop-idle false true exclusive (some a) (some b) s = refl
leave_loop-idle false false true none none s = refl
leave_loop-idle false false true none (some b) s = refl
leave_loop-idle false false true (some a) none s = refl
leave_loop-idle false false true (some a) (some b) s = refl

close_fd-closed :
    (b : Bool) (s : Socket)
    → (
      record (mark_closed s) {
        closed = elim b [ true ↦ true | false ↦ true ];
        removed = fd_gone s.transport s.removed;
      },
      close_events s ++ closing_fd s.transport s.fd s.removed,
    )
      ≡ close s
unfolding close
close_fd-closed true s = refl
close_fd-closed false s = refl

-- `close` is `close_with` where the coroutines leave the socket alone.
close_with-idle : (s : Socket) → close_with idle idle s ≡ close s
unfolding close_with close
close_with-idle s =
    ap close_fd
      (leave_loop-idle s.events.reads s.events.writes s.events.exclusive s.read_co s.write_co s)
    ∙ close_fd-closed (fd_is_left (mark_closed s)) s

-- What coroutines do to a socket, one part after the other: they close it, where `reader` and `writer` are what
-- the coroutines do that the close resumes, or they clear `read_co` or `write_co`, as `event_wait` does.
pub data Parts : Type 0 where
  no_more : Parts
  closes : (reader writer later : Parts) → Parts
  unbinds : Event → (later : Parts) → Parts

unfoldable pub run : Parts → Socket → Socket × List Effect
run no_more s = (s, [])
run (unbinds e later) s = run later (bind_co s e none)
run (closes reader writer later) s =
    let (s', es) = close_with (run reader) (run writer) s in
    let (s'', fs) = run later s' in (s'', es ++ fs)

-- How often a descriptor is closed.
unfoldable pub count_fd : List Effect → ℕ
count_fd [] = 0
count_fd (closes_fd fd ∷ es) = 1 + count_fd es
count_fd (loop_del fd ∷ es) = count_fd es
count_fd (resumes co ∷ es) = count_fd es
count_fd (deletes_timer t ∷ es) = count_fd es

-- How many descriptors there are to close: that of a TCP socket that has not been removed.
abbrev pub left_of : Transport → Bool → ℕ
left_of tcp false = 1
left_of tcp true = 0
left_of udp removed = 0
left_of no_transport removed = 0

count_fd-append : (es fs : List Effect) → count_fd (es ++ fs) ≡ count_fd es + count_fd fs
unfolding count_fd
count_fd-append [] fs = omega arith
count_fd-append (closes_fd fd ∷ es) fs = omega (arith, count_fd-append es fs)
count_fd-append (loop_del fd ∷ es) fs = count_fd-append es fs
count_fd-append (resumes co ∷ es) fs = count_fd-append es fs
count_fd-append (deletes_timer t ∷ es) fs = count_fd-append es fs

-- The descriptors that are closed are those that are no longer there.
abbrev Conserves : Socket → Socket × List Effect → Type 0
Conserves s (s', es) = count_fd es + left_of s'.transport s'.removed ≡ left_of s.transport s.removed

closing_fd-count :
    (t : Transport) (fd : ℕ) (removed : Bool)
    → (count_fd (closing_fd t fd removed) + left_of t (fd_gone t removed) ≡ left_of t removed)
      × (left_of t (fd_gone t removed) ≡ 0)
unfolding count_fd
closing_fd-count tcp fd true = (refl, refl)
closing_fd-count tcp fd false = (refl, refl)
closing_fd-count udp fd removed = (refl, refl)
closing_fd-count no_transport fd removed = (refl, refl)

resume_if-Conserves :
    (o : Option ℕ) (f : Socket → Socket × List Effect) (s : Socket)
    → ((u : Socket) → Conserves u (f u))
    → Conserves s (resume_if o f s)
unfolding count_fd
resume_if-Conserves none f s h = omega arith
resume_if-Conserves (some co) f s h = h s

leave_loop-Conserves :
    (b : Bool) (reader writer : Socket → Socket × List Effect) (s : Socket)
    → ((u : Socket) → Conserves u (reader u))
    → ((u : Socket) → Conserves u (writer u))
    → Conserves s (leave_loop b reader writer s)
unfolding count_fd
leave_loop-Conserves true reader writer s h k = omega arith
leave_loop-Conserves false reader writer s h k =
    let s₀ = record s { events = no_events } in
    let (s₁, es) = resume_if s.read_co reader s₀ in
    let (s₂, fs) = resume_if s₁.write_co writer s₁ in
    let a = resume_if-Conserves s.read_co reader s₀ h in
    let b = resume_if-Conserves s₁.write_co writer s₁ k in
    omega (arith, a, b, count_fd-append es fs)

close_fd-Conserves :
    (s : Socket) (p : Socket × List Effect)
    → Conserves s p
    → Conserves s (close_fd p) × (left_of (close_fd p).0.transport (close_fd p).0.removed ≡ 0)
close_fd-Conserves s (s', es) h =
    let (a, b) = closing_fd-count s'.transport s'.fd s'.removed in
    let n = count_fd-append es (closing_fd s'.transport s'.fd s'.removed) in
    (omega (arith, a, n, h), b)

close_with-Conserves :
    (reader writer : Socket → Socket × List Effect) (s : Socket)
    → ((u : Socket) → Conserves u (reader u))
    → ((u : Socket) → Conserves u (writer u))
    → let r = close_with reader writer s in Conserves s r × (left_of r.0.transport r.0.removed ≡ 0)
unfolding close_with
close_with-Conserves reader writer s h k =
    let s₀ = record s { closed = true } in
    close_fd-Conserves s (leave_loop (is_null s.events) reader writer s₀)
      (leave_loop-Conserves (is_null s.events) reader writer s₀ h k)

run-Conserves : (t : Parts) (s : Socket) → Conserves s (run t s)
unfolding run count_fd
run-Conserves no_more s = omega arith
run-Conserves (unbinds reads_event later) s = run-Conserves later (bind_co s reads_event none)
run-Conserves (unbinds writes_event later) s = run-Conserves later (bind_co s writes_event none)
run-Conserves (closes reader writer later) s =
    let (s', es) = close_with (run reader) (run writer) s in
    let (s'', fs) = run later s' in
    let (a, _) =
      close_with-Conserves (run reader) (run writer) s (run-Conserves reader)
        (run-Conserves writer) in
    omega (arith, a, run-Conserves later s', count_fd-append es fs)

-- A socket that is closed, where the coroutines that the close resumes, and what comes later, clear `read_co` or
-- `write_co` and close the socket again, themselves resuming others, as often as they like and in any
-- order, but do not free it: its descriptor is closed exactly once if it is a TCP socket that has not been
-- removed, and not at all if it is another one, and no descriptor is left to close.
pub closes_once :
    (reader writer later : Parts) (s : Socket)
    → let (s', es) = run (closes reader writer later) s in
      (count_fd es ≡ left_of s.transport s.removed) × (left_of s'.transport s'.removed ≡ 0)
unfolding run
closes_once reader writer later s =
    let (s', es) = close_with (run reader) (run writer) s in
    let (s'', fs) = run later s' in
    let (a, z) =
      close_with-Conserves (run reader) (run writer) s (run-Conserves reader)
        (run-Conserves writer) in
    let b = run-Conserves later s' in
    (omega (arith, a, z, b, count_fd-append es fs), omega (arith, z, b))

-- How `wmSocket_close` has the loop forget a socket: it sets `events` to `WM_EVENT_NULL` and then calls
-- `wmWorkerLoop_del`.
pub loop_after_close : {K : Type 0} → (K → ℕ → Control → K × Bool) → Loop K → ℕ → Loop K
loop_after_close epoll_ctl l fd =
    (del epoll_ctl (record l { events = put l.events fd no_events }) fd).0

module _ {K : Type 0} (registered : K → ℕ → Option Flags) (epoll_ctl : K → ℕ → Control → K × Bool)
    (epoll : IsEpoll registered epoll_ctl) where
  -- A socket with events that is closed, while the kernel has of each socket what its events ask for: the
  -- socket has no events then, but the kernel is not told, and keeps its descriptor with those events.
  pub close_unwatched :
      (l : Loop K) (fd : ℕ)
      → Synced registered epoll_ctl epoll l
      → is_null (l.events fd) ≡ false
      → ((loop_after_close epoll_ctl l fd).events fd ≡ no_events)
        × (registered (loop_after_close epoll_ctl l fd).kernel fd
            ≡ some (event_decode (l.events fd)))
  unfolding loop_after_close del
  close_unwatched l fd s h =
      let e : put l.events fd no_events fd ≡ no_events = rw (==_self fd) refl in
      let d : del epoll_ctl (record l { events = put l.events fd no_events }) fd
          ≡ (record l { events = put l.events fd no_events }, true) =
        rw (del, ap is_null e) refl in
      rw (loop_after_close, d) (e, s fd ∙ rw h refl)
