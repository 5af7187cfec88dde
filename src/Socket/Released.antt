-- ===== src/Socket/Released.antt =====
-- What the reading operations of a socket leave behind: no timer, and no coroutine bound to it.
use warrior_man.Prelude.{
  ℕ, ◌≤◌, ◌≡◌, ◌⊎◌, refl, arith, Bool, true, false, Option, none, some, List, [], ◌∷◌, length, inl,
  inr, Bool-cases, Option-cases,
}
use warrior_man.Loop.{meets}
use warrior_man.Socket.{
  Errno, no_error, Socket, World, Answer, gives, fails, Wake, Result, returns, waits, exits, Code,
  success, closed_code, error_code, count, reads_event, mask_of, is_available, is_bound, until_done,
}
use warrior_man.Socket.Wait.{timer_add, timer_del, Keeps, loop_lem, is_eagain, wait_in_time}
use warrior_man.Socket.Reading.{
  Reader, settle, on_failure, goes_on, on_wake, attempt, left_asleep, reading, read, read_closed,
  read_answer, accept, accept_closed, accept_answer, recvfrom, recvfrom_closed, recvfrom_answer,
}
use warrior_man.Socket.Closing.{pack}
use warrior_man.Socket.Kept.{wait_in_time-read_co}

-- No coroutine reads from the socket, and no timer runs for it.
pub record IsIdle (s : Socket) : Type 0 where
  pub no_reader : s.read_co ≡ none
  pub no_timer : s.read_timer ≡ none

-- The coroutine `me` waits: it is bound, the loop watches for its event, and its timer runs.
pub record IsAsleep (me : ℕ) (s : Socket) : Type 0 where
  pub reader : s.read_co ≡ some me
  pub watched : meets s.events (mask_of reads_event) ≡ true
  pub timer : ℕ
  pub timed : s.read_timer ≡ some timer

-- How a reading operation may end; `Q` is what its return is to say.
abbrev pub Ended : {R : Type 0} → ℕ → (Socket → R → Type 0) → World × Result R → Type 0
Ended me Q (w, returns x) = IsIdle w.socket × Q w.socket x
Ended me Q (w, waits) = (w.socket.read_co ≡ none) ⊎ IsAsleep me w.socket
Ended me Q (w, exits) = ⊥

-- Before a wait the timer runs.
pub record IsWaiting {A : Type 0} (r : Reader A) : Type 0 where
  pub no_reader : r.world.socket.read_co ≡ none
  pub timer : ℕ
  pub timed : r.world.socket.read_timer ≡ some timer

timer_add-read :
    (s : Socket) (ticks : ℕ)
    → s.read_co ≡ none
    → ((timer_add s reads_event ticks).read_co ≡ none)
      × ((t : ℕ) × ((timer_add s reads_event ticks).read_timer ≡ some t))
unfolding timer_add
timer_add-read s ticks h = elim (Option-cases s.read_timer) [
  | inl e ↦ rw (timer_add, e) (h, (ticks, refl))
  | inr (t, e) ↦ rw (timer_add, e) (h, (t, e))
]

module _ {A R : Type 0} (me ticks : ℕ) (Q : Socket → R → Type 0) (failed : R)
    (on_closed : World → World × Result R) (on_answer : World → A → World × Result R)
    (closed_lem : (w : World)
      → w.socket.closed ≡ true
      → w.socket.read_co ≡ none
      → Ended me Q (on_closed w))
    (answer_lem : (w : World) (x : A)
      → w.socket.closed ≡ false
      → w.socket.read_co ≡ none
      → Ended me Q (on_answer w x))
    (failed_lem : (s : Socket) → Q s failed) where
  abbrev Unbound : Reader A → Type 0
  Unbound r = r.world.socket.read_co ≡ none

  settled :
      (w : World) (e : Errno) → w.socket.read_co ≡ none → Ended me Q (settle w e, returns failed)
  unfolding timer_del
  settled w e h = (record { no_reader = h; no_timer = refl }, failed_lem _)

  on_failure_lem :
      (w : World) (e : Errno) (rest : List (Answer A))
      → w.socket.read_co ≡ none
      → Keeps IsWaiting (Ended me Q) (on_failure ticks failed w e rest)
  unfolding Keeps on_failure
  on_failure_lem w e rest h =
      let (h', (t, ht)) = timer_add-read w.socket ticks h in
      elim (Bool-cases (is_eagain e)) [
        | inl x ↦ rw (Keeps, on_failure, x) (record { no_reader = h'; timer = t; timed = ht })
        | inr x ↦
            rw (Keeps, on_failure, x)
              (settled (record { socket = timer_add w.socket reads_event ticks; errno = e }) e h')
      ]

  attempt_lem :
      (r : Reader A)
      → Unbound r
      → Keeps IsWaiting (Ended me Q) (attempt ticks failed on_closed on_answer r)
  unfolding Keeps attempt
  attempt_lem r h = elim (Bool-cases r.world.socket.closed) [
    | inl c ↦ rw (Keeps, attempt, c) (closed_lem r.world c h)
    | inr c ↦ elim (Option-cases (until_done r.answers)) [
      | inl n ↦ rw (Keeps, attempt, c, n) (inl h)
      | inr ((gives x, rest), n) ↦ rw (Keeps, attempt, c, n) (answer_lem r.world x c h)
      | inr ((fails e, rest), n) ↦ rw (attempt, c, n) (on_failure_lem r.world e rest h)
    ]
  ]

  goes_on_lem :
      (rest : List (Answer A)) (x : World × Bool)
      → x.0.socket.read_co ≡ none
      → Keeps Unbound (Ended me Q) (goes_on failed rest x)
  unfolding Keeps
  goes_on_lem rest (w, true) h = h
  goes_on_lem rest (w, false) h = settled w w.errno h

  on_wake_lem :
      (r : Reader A) (k : Wake) → IsWaiting r → Keeps Unbound (Ended me Q) (on_wake me failed r k)
  unfolding on_wake
  on_wake_lem r k i =
      goes_on_lem r.answers (wait_in_time me r.world reads_event k)
        (wait_in_time-read_co me r.world k i.no_reader)

  left_asleep_lem : (r : Reader A) → IsWaiting r → Ended me Q (left_asleep me r)
  unfolding left_asleep
  left_asleep_lem r i =
      inr (record { reader = refl; watched = ground arith; timer = i.timer; timed = i.timed })

  -- The common part of the operations that read.
  pub reading_lem :
      (refused : R) (w : World) (answers : List (Answer A)) (wakes : List Wake)
      → IsIdle w.socket
      → ((s : Socket) → s.closed ≡ true → Q s refused)
      → Ended me Q (reading me ticks refused failed on_closed on_answer w answers wakes)
  unfolding reading is_available is_bound
  reading_lem refused w answers wakes i hr = elim (Bool-cases w.socket.closed) [
    | inl c ↦
        rw (reading, is_available, is_bound, i.no_reader, c)
          (record { no_reader = i.no_reader; no_timer = i.no_timer }, hr _ c)
    | inr c ↦
        rw (reading, is_available, is_bound, i.no_reader, c)
          (loop_lem Unbound IsWaiting (Ended me Q) (attempt ticks failed on_closed on_answer)
            (on_wake me failed) (left_asleep me) attempt_lem on_wake_lem left_asleep_lem _ wakes
            i.no_reader)
  ]

-- What `wmSocket_read` and `wmSocket_recvfrom` say when they return: an amount is the number of the bytes,
-- `least` or more, on an open socket; `WM_SOCKET_CLOSE` is said of a closed socket only, and with it or
-- with an error no bytes are given.
abbrev pub Tells : ℕ → Socket → Code × List ℕ → Type 0
Tells least s (count n, bytes) = (n ≡ length bytes) × (least ≤ n) × (s.closed ≡ false)
Tells least s (closed_code, bytes) = (s.closed ≡ true) × (bytes ≡ [])
Tells least s (error_code, bytes) = bytes ≡ []
Tells least s (success, bytes) = ⊥

module _ (me ticks : ℕ) (w : World) (wakes : List Wake) (idle : IsIdle w.socket) where
  read_answer_lem :
      (w' : World) (x : List ℕ)
      → w'.socket.closed ≡ false
      → w'.socket.read_co ≡ none
      → Ended me (Tells 1) (read_answer me ticks w' x)
  unfolding read_answer timer_del
  read_answer_lem w' [] c h = (record { no_reader = h; no_timer = refl }, (refl, refl))
  read_answer_lem w' (b ∷ bs) c h =
      (record { no_reader = h; no_timer = refl }, (refl, omega arith, c))

  -- A read on a socket that no coroutine reads from and that has no timer for reading, whatever the
  -- kernel answers and whatever the other coroutines do in the waits. If it returns, no coroutine is
  -- bound and no timer is left; an amount is positive and is the number of the bytes, on an open
  -- socket; `WM_SOCKET_CLOSE` is said of a closed socket only, and with it or an error no bytes are
  -- given. If it is under way, no coroutine is bound, or the coroutine is bound, the event is watched
  -- for, and the timer runs. The process does not end.
  pub read_lem :
      (answers : List (Answer (List ℕ))) → Ended me (Tells 1) (read me ticks w answers wakes)
  unfolding read read_closed timer_del
  read_lem answers =
      reading_lem me ticks (Tells 1) (error_code, []) (read_closed me ticks) (read_answer me ticks)
        (λ w' c h. (record { no_reader = h; no_timer = refl }, (c, refl))) read_answer_lem
        (λ s. refl) (closed_code, []) w answers wakes idle (λ s c. (c, refl))

  recvfrom_answer_lem :
      (w' : World) (x : List ℕ × (List ℕ × ℕ))
      → w'.socket.closed ≡ false
      → w'.socket.read_co ≡ none
      → Ended me (Tells 0) (recvfrom_answer me ticks w' x)
  unfolding recvfrom_answer timer_del
  recvfrom_answer_lem w' (bytes, (ip, port)) c h =
      (record { no_reader = h; no_timer = refl }, (refl, omega arith, c))

  -- `wmSocket_recvfrom` likewise, but for an amount of 0, which is no end.
  pub recvfrom_lem :
      (answers : List (Answer (List ℕ × (List ℕ × ℕ))))
      → Ended me (Tells 0) (recvfrom me ticks w answers wakes)
  unfolding recvfrom recvfrom_closed timer_del
  recvfrom_lem answers =
      reading_lem me ticks (Tells 0) (error_code, []) (recvfrom_closed me ticks)
        (recvfrom_answer me ticks)
        (λ w' c h. (record { no_reader = h; no_timer = refl }, (c, refl))) recvfrom_answer_lem
        (λ s. refl) (closed_code, []) w answers wakes idle (λ s c. (c, refl))

  -- What `wmSocket_accept` says: a socket is a new one, of the kind of the listening socket, which is
  -- open and has no error. Of NULL nothing is said.
  abbrev pub Accepts : ℕ → Socket → Option Socket → Type 0
  Accepts new_type s none = Unit {0}
  Accepts new_type s (some new) =
      (s.closed ≡ false)
      × (s.err_code ≡ no_error)
      × (new.transport ≡ s.transport)
      × (new.loop_type ≡ new_type)
      × IsIdle new

  accept_answer_lem :
      (new_type : ℕ) (w' : World) (x : ℕ × (List ℕ × ℕ))
      → w'.socket.closed ≡ false
      → w'.socket.read_co ≡ none
      → Ended me (Accepts new_type) (accept_answer me ticks new_type w' x)
  unfolding accept_answer timer_del pack
  accept_answer_lem new_type w' (fd, (ip, port)) c h = (
    record { no_reader = h; no_timer = refl },
    (c, refl, refl, refl, record { no_reader = refl; no_timer = refl }),
  )

  pub accept_lem :
      (new_type : ℕ) (answers : List (Answer (ℕ × (List ℕ × ℕ))))
      → Ended me (Accepts new_type) (accept me ticks new_type w answers wakes)
  unfolding accept accept_closed timer_del
  accept_lem new_type answers =
      reading_lem me ticks (Accepts new_type) none (accept_closed me ticks)
        (accept_answer me ticks new_type)
        (λ w' c h. (record { no_reader = h; no_timer = refl }, tt)) (accept_answer_lem new_type)
        (λ s. tt) none w answers wakes idle (λ s c. tt)
