-- ===== src/Socket/Wait.antt =====
-- How src/coroutine/socket.c waits: `event_wait`, the two timers and their callbacks, and a loop that
-- waits once a round.
use warrior_man.Prelude.{ℕ, Bool, true, false, Option, none, some, List, [], ◌∷◌, not, ◌≡◌, refl}
use warrior_man.Loop.{no_events, meets, join}
use warrior_man.Socket.{
  Errno, eagain, etimedout, Socket, World, Wake, Event, reads_event, writes_event, mask_of, set_err,
}

-- `timer_add`
unfoldable pub timer_add : Socket → Event → ℕ → Socket
timer_add s reads_event ticks = elim s.read_timer [
  | none ↦ record s { read_timer = some ticks }
  | some t ↦ s
]
timer_add s writes_event ticks = elim s.write_timer [
  | none ↦ record s { write_timer = some ticks }
  | some t ↦ s
]

-- `timer_del`
unfoldable pub timer_del : Socket → Event → Socket
timer_del s reads_event = record s { read_timer = none }
timer_del s writes_event = record s { write_timer = none }

-- `timer_used`: the callback sets the pointer to NULL.
unfoldable pub timer_used : World → Event → World × Bool
timer_used w reads_event = elim w.socket.read_timer [
  | none ↦ (record w { errno = etimedout }, true)
  | some t ↦ (w, false)
]
timer_used w writes_event = elim w.socket.write_timer [
  | none ↦ (record w { errno = etimedout }, true)
  | some t ↦ (w, false)
]

-- `timer_read_callback` and `timer_write_callback`, up to the handler that resumes the coroutine.
unfoldable pub timer_callback : World → Event → World
timer_callback w reads_event =
    let w' = set_err w etimedout in record w' { socket = record w'.socket { read_timer = none } }
timer_callback w writes_event = record w { socket = record w.socket { write_timer = none } }

-- What `wmSocket_close` has done to the fields of a socket when it resumes the socket's coroutines.
abbrev pub mark_closed : Socket → Socket
mark_closed s = record s { closed = true; events = no_events }

abbrev pub bind_co : Socket → Event → Option ℕ → Socket
bind_co s reads_event co = record s { read_co = co }
bind_co s writes_event co = record s { write_co = co }

-- What the others have done when the coroutine goes on.
unfoldable pub others_act : World → Event → Wake → World
others_act w e wake =
    let w₁ : World = elim wake.expires [ true ↦ timer_callback w e | false ↦ w ] in
    elim wake.closes [ true ↦ record w₁ { socket = mark_closed w₁.socket } | false ↦ w₁ ]

-- `event_wait` from the `yield` on.
unfoldable pub yields : ℕ → World → Event → Wake → World
yields me w e wake =
    let w₁ = others_act (record w { socket = bind_co w.socket e (some me) }) e wake in
    record w₁ { socket = bind_co w₁.socket e none }

-- `event_wait`, in the coroutine `me`. `wmWorkerLoop_add` sets the event before it asks `epoll_ctl`.
unfoldable pub event_wait : ℕ → World → Event → Wake → World × Bool
event_wait me w e wake =
    let w₁ : World = record w {
      socket = record w.socket { events = join w.socket.events (mask_of e) };
    } in
    elim (meets w.socket.events (mask_of e)) [
      | true ↦ (yields me w e wake, true)
      | false ↦ elim wake.add_error [
        | some err ↦ (record w₁ { errno = err }, false)
        | none ↦ (yields me w₁ e wake, true)
      ]
    ]

-- How a coroutine is left that waits: the event is asked for, and the coroutine is bound.
abbrev pub asleep : ℕ → World → Event → World
asleep me w e = record w {
  socket = bind_co (record w.socket { events = join w.socket.events (mask_of e) }) e (some me);
}

-- A round of a loop has ended the operation, or another one follows.
pub data Next (S R : Type 0) : Type 0 where
  done : R → Next S R
  again : S → Next S R

-- `while (!socket->closed) { … }`, whose rounds have one wait each: `attempt` is a round up to its wait,
-- and `after` the rest of it. With no wake to come, the operation is left where it waits.
unfoldable pub end_with : {S R : Type 0} → Next S R → (S → R) → R
end_with (done r) f = r
end_with (again s) f = f s

unfoldable pub loop :
    {S T R : Type 0} → (S → Next T R) → (T → Wake → Next S R) → (T → R) → S → List Wake → R
loop attempt after left s [] = end_with (attempt s) left
loop attempt after left s (k ∷ ks) =
    end_with (attempt s) (λ t. end_with (after t k) (λ s'. loop attempt after left s' ks))

pub loop_done :
    {S T R : Type 0} (attempt : S → Next T R) (after : T → Wake → Next S R) (left : T → R) (s : S)
    (r : R) (ks : List Wake)
    → attempt s ≡ done r
    → loop attempt after left s ks ≡ r
unfolding loop end_with
loop_done attempt after left s r [] h = rw (loop, h) refl
loop_done attempt after left s r (k ∷ ks) h = rw (loop, h) refl

pub loop_repeats :
    {S T R : Type 0} (attempt : S → Next T R) (after : T → Wake → Next S R) (left : T → R)
    (s s' : S) (t : T) (k : Wake) (ks : List Wake)
    → attempt s ≡ again t
    → after t k ≡ again s'
    → loop attempt after left s (k ∷ ks) ≡ loop attempt after left s' ks
unfolding loop end_with
loop_repeats attempt after left s s' t k ks h g = rw (loop, h, g) refl

-- What holds of a part of a round: an end is as it should be, and what goes on keeps the invariant.
unfoldable pub Keeps : {S R : Type 0} → (S → Type 0) → (R → Type 0) → Next S R → Type 0
Keeps I P (done r) = P r
Keeps I P (again s) = I s

pub end_with_lem :
    {S R : Type 0} (I : S → Type 0) (P : R → Type 0) (n : Next S R) (f : S → R)
    → Keeps I P n
    → ((s : S) → I s → P (f s))
    → P (end_with n f)
unfolding Keeps end_with
end_with_lem I P (done r) f h k = h
end_with_lem I P (again s) f h k = k s h

-- The rule of the loop.
pub loop_lem :
    {S T R : Type 0} (I : S → Type 0) (J : T → Type 0) (P : R → Type 0) (attempt : S → Next T R)
    (after : T → Wake → Next S R) (left : T → R)
    → ((s : S) → I s → Keeps J P (attempt s))
    → ((t : T) (k : Wake) → J t → Keeps I P (after t k))
    → ((t : T) → J t → P (left t))
    → (s : S) (ks : List Wake) → I s
    → P (loop attempt after left s ks)
unfolding loop
loop_lem I J P attempt after left ha hb hl s [] i = end_with_lem J P (attempt s) left (ha s i) hl
loop_lem I J P attempt after left ha hb hl s (k ∷ ks) i =
    end_with_lem J P (attempt s) (λ t. end_with (after t k) (λ s'. loop attempt after left s' ks))
      (ha s i)
      (λ t j.
        end_with_lem I P (after t k) (λ s'. loop attempt after left s' ks) (hb t k j)
          (λ s' i'. loop_lem I J P attempt after left ha hb hl s' ks i'))

unfoldable pub is_eagain : Errno → Bool
is_eagain eagain = true
is_eagain e = false

abbrev in_time : World × Bool → World × Bool
in_time (w, used) = (w, not used)

abbrev and_in_time : Event → World × Bool → World × Bool
and_in_time e (w, false) = (w, false)
and_in_time e (w, true) = in_time (timer_used w e)

-- `event_wait(socket, WM_EVENT_READ) && !timer_used(socket, WM_EVENT_READ)`
unfoldable pub wait_in_time : ℕ → World → Event → Wake → World × Bool
wait_in_time me w e k = and_in_time e (event_wait me w e k)
