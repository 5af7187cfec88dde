-- ===== src/Child/Stops.antt =====
-- How a child ends.
use warrior_man.Prelude.{
  ℕ, ◌<◌, ◌≤◌, ◌≡◌, arith, refl, sym, ap, ◌∙◌, Bool, true, false, Option, none, some, List, [], ◌∷◌,
  ◌++◌, append_nil, All, leb, subst, leb_of_le,
}
use warrior_man.Socket.{Socket, tcp}
use warrior_man.Connection.Life.{create_udp}
use warrior_man.Child.{
  Callback, call_if, on_worker_stop, close_all, unlisten_from, stop_unless, drain_if, after_reload,
  take_datagram, is_closed, reloading, shutdown, Effect, Round, stops_loop, exits, Child, emit,
  calls, on_worker_reload, unlisten, worker_stop, stop_all, drains, reload, accept_udp,
}

-- The trace ends with the end of the loop and of the process.
abbrev pub Ended : Child → Type 0
Ended w =
    (before : List Effect) × (w.trace ≡ before ++ stops_loop ∷ exits ∷ [])
    × (w.status ≡ shutdown)
    × (w.socket ≡ none)
    × (w.table ≡ [])

-- A call that goes well, or is not made, changes nothing but the trace.
module _ (b : Bool) (f : Callback) (w : Child) where
  abbrev Called : Type 0
  Called =
      (v : Child) × (call_if b true f w ≡ (v, true))
      × (v.status ≡ w.status)
      × (v.socket ≡ w.socket)
      × (v.stopping ≡ w.stopping)
      × (v.reloadable ≡ w.reloadable)

call_if_lem : (b : Bool) (f : Callback) (w : Child) → Called b f w
call_if_lem false f w = (w, refl, refl, refl, refl, refl)
call_if_lem true f w = (emit w (calls f ∷ []), refl, refl, refl, refl, refl)

-- The socket that listens is gone, and the rest stays.
unlisten_from_lem :
    (o : Option Socket) (w : Child)
    → w.socket ≡ o
    → ((unlisten_from o w).socket ≡ none)
      × ((unlisten_from o w).status ≡ w.status)
      × ((unlisten_from o w).stopping ≡ w.stopping)
unlisten_from_lem none w e = (e, refl, refl)
unlisten_from_lem (some s) w e = (refl, refl, refl)

worker_stop_lem :
    (w : Child)
    → let w' = (worker_stop true w).0 in
      (w'.status ≡ shutdown) × (w'.socket ≡ none) × (w'.table ≡ [])
unfolding worker_stop
worker_stop_lem w =
    let (v, e, st, _, _, _) =
      call_if_lem w.handlers.has_worker_stop on_worker_stop (record w { status = shutdown }) in
    let (so, su, _) = unlisten_from_lem v.socket v refl in
    let whole : worker_stop true w ≡ close_all (v, true) = ap close_all e in
    (
      ap (λ r. r.0.status) whole ∙ su ∙ st,
      ap (λ r. r.0.socket) whole ∙ so,
      ap (λ r. r.0.table) whole,
    )

stop_all-Ended : (w : Child) → w.stopping ≡ false → Ended (stop_all true w)
unfolding stop_all
stop_all-Ended w h =
    let (a, b, c) = worker_stop_lem w in
    let whole : stop_all true w ≡ emit (stop_unless false true w) (stops_loop ∷ exits ∷ []) =
      ap (λ b. emit (stop_unless b true w) (stops_loop ∷ exits ∷ [])) h in
    subst Ended (sym whole) ((worker_stop true w).0.trace, refl, a, b, c)

-- What the others do in some rounds, one after the other.
abbrev pub others : List Round → Child → Child
others [] w = w
others (r ∷ later) w = others later (r.during w)

-- More coroutines than `n` are found, and while they go on none of them stops the worker.
abbrev pub IsBusy : ℕ → Round → Type 0
IsBusy n r = (n < r.coro_num) × ((v : Child) → (r.during v).stopping ≡ v.stopping)

others-stopping :
    (n : ℕ) (rounds : List Round) (w : Child)
    → All (IsBusy n) rounds
    → (others rounds w).stopping ≡ w.stopping
others-stopping n [] w a = refl
others-stopping n (r ∷ rs) w a = others-stopping n rs (r.during w) a.1 ∙ a.0.1 w

drains-others :
    (ok : Bool) (n : ℕ) (w : Child) (busy later : List Round)
    → All (IsBusy n) busy
    → drains ok n w (busy ++ later) ≡ drains ok n (others busy w) later
unfolding drains
drains-others ok n w [] later a = refl
drains-others ok n w (r ∷ rs) later a =
    let more : n < r.coro_num = a.0.0 in
    let e : leb r.coro_num n ≡ false = ground (arith, more) in
    rw (drains, e) (drains-others ok n (r.during w) rs later a.1)

drains-stop :
    (n : ℕ) (w : Child) (r : Round) (later : List Round)
    → r.coro_num ≤ n
    → drains true n w (r ∷ later) ≡ stop_all true w
unfolding drains
drains-stop n w r later h = rw (drains, leb_of_le r.coro_num n h) refl

-- A reload of a worker that can be reloaded comes to the loop.
reload-drains :
    (n : ℕ) (w : Child) (rounds : List Round)
    → w.reloadable ≡ true
    → w.stopping ≡ false
    → (v : Child) × (v.stopping ≡ false)
      × ((more : List Round) → reload true true n w more ≡ drains true n v more)
unfolding reload
reload-drains n w rounds can fresh =
    let (v, e, _, _, sp, re) = call_if_lem w.handlers.has_worker_reload on_worker_reload w in
    let v' = record v { status = reloading } in
    let (_, _, su) = unlisten_from_lem v'.socket v' refl in
    (
      unlisten v',
      su ∙ sp ∙ fresh,
      λ more. ap (after_reload true n more) e ∙ ap (λ b. drain_if b true n more v) (re ∙ can),
    )

-- A TCP worker that can be reloaded and has not begun to stop, whose callbacks go well, and that finds more
-- coroutines than those of the framework for some rounds, in which the others do what they do but do not
-- stop it. For those rounds it waits: nothing is done to it but what the others do, and it does not begin to
-- stop. When it then finds no more coroutines than those of the framework, it stops as it is by then, and
-- ends, with its status shutdown, no socket that listens, and no connection.
pub reload_lem :
    (n : ℕ) (w : Child) (busy : List Round) (quiet : Round) (later : List Round)
    → w.transport ≡ tcp
    → w.reloadable ≡ true
    → w.stopping ≡ false
    → All (IsBusy n) busy
    → quiet.coro_num ≤ n
    → let waited = reload true true n w busy in
      let whole = reload true true n w (busy ++ quiet ∷ later) in
      (waited ≡ others busy (reload true true n w []))
      × (waited.stopping ≡ false)
      × (whole ≡ stop_all true waited)
      × Ended whole
unfolding drains
reload_lem n w busy quiet later t can fresh a h =
    let (v, fresh_too, go) = reload-drains n w busy can fresh in
    let waits : reload true true n w busy ≡ others busy v =
      go busy ∙ ap (drains true n v) (sym (append_nil busy)) ∙ drains-others true n v busy [] a in
    let open_still : (others busy v).stopping ≡ false = others-stopping n busy v a ∙ fresh_too in
    let stops : reload true true n w (busy ++ quiet ∷ later) ≡ stop_all true (others busy v) =
      go (busy ++ quiet ∷ later)
      ∙ drains-others true n v busy (quiet ∷ later) a
      ∙ drains-stop n (others busy v) quiet later h in
    (
      waits ∙ ap (others busy) (sym (go [])),
      ap (λ x. x.stopping) waits ∙ open_still,
      stops ∙ ap (stop_all true) (sym waits),
      subst Ended (sym stops) (stop_all-Ended (others busy v) open_still),
    )

accept_udp-open :
    (w : Child) (during : Child → Child) (later : List (Child → Child))
    → is_closed w.socket ≡ some false
    → accept_udp w (during ∷ later) ≡ accept_udp (take_datagram w during) later
unfolding accept_udp
accept_udp-open w during later e = rw (accept_udp, e) refl

accept_udp-null :
    (w : Child) (later : List (Child → Child)) → w.socket ≡ none → accept_udp w later ≡ none
unfolding accept_udp
accept_udp-null w [] e = rw (accept_udp, e) refl
accept_udp-null w (d ∷ later) e = rw (accept_udp, e) refl

-- A UDP worker that listens and can be reloaded: while it waits for a datagram it is told to reload, its
-- callback goes well, and some coroutines are still at work. The loop that accepts then reads through its
-- socket, which is NULL.
pub udp_reload :
    (n : ℕ) (ok : Bool) (w : Child) (s : Socket) (later : List (Child → Child))
    → w.socket ≡ some s
    → s.closed ≡ false
    → w.reloadable ≡ true
    → accept_udp w ((λ v. reload true ok n v []) ∷ later) ≡ none
unfolding accept_udp reload drains
udp_reload n ok w s later e open_socket can =
    let w' = record w { last_id = (create_udp w.last_id w.fd).1 } in
    let (v, c, _, _, _, re) = call_if_lem w.handlers.has_worker_reload on_worker_reload w' in
    let v' = record v { status = reloading } in
    let (so, _, _) = unlisten_from_lem v'.socket v' refl in
    let told : reload true ok n w' [] ≡ unlisten v' =
      ap (after_reload ok n []) c ∙ ap (λ b. drain_if b ok n [] v) (re ∙ can) in
    let gone : (take_datagram w (λ v. reload true ok n v [])).socket ≡ none =
      ap (λ x. x.socket) told ∙ so in
    let listens : is_closed w.socket ≡ some false = ap is_closed e ∙ ap some open_socket in
    accept_udp-open w (λ v. reload true ok n v []) later listens
    ∙ accept_udp-null (take_datagram w (λ v. reload true ok n v [])) later gone
