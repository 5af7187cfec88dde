-- ===== src/Master/Rolling.antt =====
-- A rolling reload of a worker, from the signal to its end.
use warrior_man.Prelude.{
  ℕ, zero, suc, ◌<◌, ◌≡◌, refl, sym, ap, subst, ◌∙◌, arith, true, false, some, List, [], ◌∷◌, ◌++◌,
  length, length-append, replicate, append_nil, append_assoc, All, ==_self,
}
use warrior_man.Master.{
  Status, running, reloading, Effect, forked, sends_usr1, sets_timer, in_reload, Master, child,
  fork_pools, fork_workers, reloadable_pids, tell_others, begin_reload, reload, reload_next,
  replace, visit, end_round, on_exit,
}
use warrior_man.Master.Slots.{has_pid}
use warrior_man.Master.Filled.{fork_pool_lem}
use warrior_man.Master.Searches.{
  Positive, clear_pid-append, has_pid-append, has_pid-zeros, fill-one, map-still, next_pid-none,
  next_pid-some, zeros-snoc,
}

-- The signal to the first of the processes that are left, the `i`-th of all.
abbrev pub signal_next : ℕ → List ℕ → List Effect
signal_next i [] = []
signal_next i (p ∷ left) = sends_usr1 p ∷ sets_timer (in_reload i) ∷ []

abbrev pub status_of : List ℕ → Status
status_of [] = running
status_of (p ∷ left) = reloading

-- The master of one worker, which can be reloaded, when `front` are new processes and `left` are still to
-- be replaced.
abbrev pub rolling : ℕ → List ℕ → List ℕ → List ℕ → List Effect → Master
rolling id front left tmp trace = record {
  status = status_of left;
  pools = record { worker_id = id; reloadable = true; pids = front ++ left } ∷ [];
  pids_to_reload = replicate (length front) 0 ++ left;
  pid_array_tmp = tmp;
  trace = trace;
}

module _ (id : ℕ) where
  -- `reload` on what is left.
  pub reload-left :
      (status : Status) (pids : List ℕ) (n : ℕ) (left tmp : List ℕ) (trace : List Effect)
      → begin_reload status ≡ reloading
      → All (λ p. has_pid p pids ≡ true) left
      → Positive left
      → reload (record {
        status = status;
        pools = record { worker_id = id; reloadable = true; pids = pids } ∷ [];
        pids_to_reload = replicate n 0 ++ left;
        pid_array_tmp = tmp;
        trace = trace;
      })
        ≡ record {
          status = status_of left;
          pools = record { worker_id = id; reloadable = true; pids = pids } ∷ [];
          pids_to_reload = replicate n 0 ++ left;
          pid_array_tmp = tmp;
          trace = trace ++ signal_next n left;
        }
  unfolding reload reloadable_pids tell_others
  reload-left status pids n [] tmp trace s a b =
      let e = map-still (pids ++ []) [] n tt in
      rw (reload, e, next_pid-none n, e, s, append_nil trace) refl
  reload-left status pids n (zero ∷ left) tmp trace s a b = absurd (omega (arith, b.0))
  reload-left status pids n (suc p ∷ left) tmp trace s a b =
      let here =
        subst (λ z. All (λ x. has_pid x z ≡ true) (suc p ∷ left)) (sym (append_nil pids)) a in
      let e = map-still (pids ++ []) (suc p ∷ left) n here in
      rw (reload, e, next_pid-some n p left, e, s, append_nil trace) refl

  -- The fork for a process that has ended.
  fork-one :
      (front left pid_tmp to_reload : List ℕ) (q : ℕ) (status : Status) (trace : List Effect)
      → Positive front
      → Positive left
      → 0 < q
      → fork_workers
          (record {
            status = status;
            pools = record { worker_id = id; reloadable = true; pids = front ++ 0 ∷ left } ∷ [];
            pids_to_reload = to_reload;
            pid_array_tmp = pid_tmp;
            trace = trace;
          })
          (child q ∷ [])
        ≡ some (
          record {
            status = status;
            pools = record { worker_id = id; reloadable = true; pids = front ++ q ∷ left } ∷ [];
            pids_to_reload = to_reload;
            pid_array_tmp = pid_tmp;
            trace = trace ++ forked id q ∷ [];
          },
          [],
        )
  unfolding fork_workers fork_pools
  fork-one front left pid_tmp to_reload q status trace a b h =
      let (e, f) = fill-one q front left a b in
      let k = fork_pool_lem id true (front ++ 0 ∷ left) trace (q ∷ []) (omega (arith, f)) (h, tt) in
      rw (fork_workers, fork_pools, k, e, f) refl

  -- The processes of the back are there.
  pub rest_there :
      (pids left : List ℕ) (skip : List ℕ)
      → pids ≡ skip ++ left
      → All (λ x. has_pid x pids ≡ true) left
  rest_there pids [] skip e = tt
  rest_there pids (p ∷ left) skip e = (
    rw e (has_pid-append p skip left),
    rest_there pids left (skip ++ p ∷ []) (e ∙ sym (append_assoc skip (p ∷ []) left)),
  )

  end_round-same : (m : Master) (left : List ℕ) → m.status ≡ status_of left → end_round m ≡ m
  unfolding end_round
  end_round-same m [] h = ground (arith, h)
  end_round-same m (p ∷ left) h = ground (arith, h)

  -- The end of the process that is to be replaced next.
  pub on_exit-rolling :
      (front left tmp : List ℕ) (p q : ℕ) (trace : List Effect)
      → Positive front
      → Positive (p ∷ left)
      → 0 < q
      → has_pid p front ≡ false
      → on_exit p (rolling id front (p ∷ left) tmp trace) (child q ∷ [])
        ≡ some (
          rolling id
              (front ++ q ∷ [])
              left
              tmp
              (trace ++ (forked id q ∷ signal_next (suc (length front)) left)),
          [],
        )
  unfolding on_exit visit replace reload_next end_round
  on_exit-rolling front left tmp p q trace a b h fresh =
      let cleared = clear_pid-append p front left fresh in
      let listed = has_pid-append p (replicate (length front) 0) left in
      let cleared' =
        clear_pid-append p (replicate (length front) 0) left (has_pid-zeros p (length front) b.0) in
      let forks =
        fork-one front left tmp (replicate (length front) 0 ++ p ∷ left) q reloading trace a b.1
          h in
      let next : List Effect = signal_next (suc (length front)) left in
      let longer : length (front ++ q ∷ []) ≡ suc (length front) =
        omega (arith, length-append front (q ∷ [])) in
      let reloaded =
        reload-left reloading (front ++ q ∷ left) (suc (length front)) left tmp
          (trace ++ forked id q ∷ []) refl
          (rest_there (front ++ q ∷ left) left (front ++ q ∷ [])
            (sym (append_assoc front (q ∷ []) left)))
          b.1 in
      let same : record {
        status = status_of left;
        pools = record { worker_id = id; reloadable = true; pids = front ++ q ∷ left } ∷ [];
        pids_to_reload = replicate (suc (length front)) 0 ++ left;
        pid_array_tmp = tmp;
        trace = (trace ++ forked id q ∷ []) ++ next;
      }
          ≡ rolling id (front ++ q ∷ []) left tmp (trace ++ (forked id q ∷ next)) =
        rw (append_assoc front (q ∷ []) left, longer, append_assoc trace (forked id q ∷ []) next)
          refl in
      rw
        (
          on_exit,
          visit,
          replace,
          ==_self id,
          cleared,
          forks,
          reload_next,
          listed,
          cleared',
          zeros-snoc (length front) left,
        )
        (ap (λ m. some (m, [])) (ap end_round reloaded ∙ end_round-same _ left refl ∙ same))
