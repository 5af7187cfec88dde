-- ===== src/Child/Tests.antt =====
-- A worker that listens, and the theorems on a child applied to it.
use warrior_man.Prelude.{ℕ, ◌+◌, ◌≡◌, arith, refl, true, false, some, List, [], ◌∷◌, ◌++◌}
use warrior_man.Socket.{Socket, Transport, tcp, udp}
use warrior_man.Socket.Closing.{pack}
use warrior_man.Child.{running, Handlers, Child, Accept, accept_tcp, reload, Round, stop_all}
use warrior_man.Child.Accepts.{LeavesAlone, Gives, ids_from, coroutines_for, accept_lem}
use warrior_man.Child.Stops.{Ended, others, reload_lem}

abbrev some_handlers : Handlers
some_handlers = record {
  has_worker_start = false;
  has_worker_reload = true;
  has_worker_stop = true;
  has_connect = true;
  has_close = true;
  has_buffer_full = false;
  has_error = false;
}

abbrev listening : Socket
listening = record (pack 5 udp 2) { closed = false }

abbrev worker_on : Transport → Child
worker_on t = record {
  status = running;
  transport = t;
  fd = 5;
  socket = some listening;
  reloadable = true;
  stopping = false;
  handlers = some_handlers;
  connections = [];
  last_id = 6;
  table = [];
  trace = [];
}

abbrev peer : ℕ → Socket
peer fd = pack fd tcp 2

abbrev two_accepts : List Accept
two_accepts =
    record { during = λ w. w; accepted = some (peer 8) }
    ∷ record { during = λ w. w; accepted = some (peer 9) }
    ∷ []

two_given : Gives two_accepts (peer 8 ∷ peer 9 ∷ [])
two_given =
    let alone : LeavesAlone (λ w. w) = record {
      status = λ w. refl;
      handlers = λ w. refl;
      connections = λ w. refl;
      last_id = λ w. refl;
      trace = λ w. refl;
    } in
    (alone, refl, (alone, refl, tt))

ids_example : ids_from 6 (peer 8 ∷ peer 9 ∷ []) ≡ 7 ∷ 8 ∷ []
ids_example = refl

accept_lem_example :
    (w' : Child) × (accept_tcp 100 50 (worker_on tcp) two_accepts ≡ some w')
    × (w'.connections ≡ [] ++ ids_from 6 (peer 8 ∷ peer 9 ∷ []))
    × (w'.trace ≡ [] ++ coroutines_for true (ids_from 6 (peer 8 ∷ peer 9 ∷ [])))
    × (w'.status ≡ running)
accept_lem_example =
    accept_lem 100 50 (worker_on tcp) two_accepts (peer 8 ∷ peer 9 ∷ []) refl two_given
      (omega arith)

-- A round in which another coroutine gives a connection its number.
abbrev round : ℕ → Round
round n = record { coro_num = n; during = λ w. record w { last_id = w.last_id + 1 } }

reload_lem_example :
    let waited = reload true true 2 (worker_on tcp) (round 5 ∷ round 4 ∷ []) in
    let whole =
      reload true true 2 (worker_on tcp) ((round 5 ∷ round 4 ∷ []) ++ round 2 ∷ round 1 ∷ []) in
    (waited ≡ others (round 5 ∷ round 4 ∷ []) (reload true true 2 (worker_on tcp) []))
    × (waited.stopping ≡ false)
    × (whole ≡ stop_all true waited)
    × Ended whole
reload_lem_example =
    reload_lem 2 (worker_on tcp) (round 5 ∷ round 4 ∷ []) (round 2) (round 1 ∷ []) refl refl refl
      ((omega arith, λ v. refl), ((omega arith, λ v. refl), tt)) (omega arith)
