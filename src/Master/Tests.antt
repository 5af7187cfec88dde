-- ===== src/Master/Tests.antt =====
-- The master on small inputs, and its theorems applied to them.
use warrior_man.Prelude.{
  ◌≡◌, arith, refl, true, Option, none, some, List, [], ◌∷◌, map, length, All,
}
use warrior_man.Master.{
  running, reloading, Pool, Effect, forked, sends_usr1, sets_timer, in_reload, Master, Fork, child,
  fork_pool, fork_pools, fork_workers, on_exit, visit, replace, reload_next, reload,
  reloadable_pids, tell_others, next_pid, end_round, signal_handler, sigusr1,
}
use warrior_man.Master.Slots.{find_pid, has_pid, clear_pid}
use warrior_man.Master.Filled.{free_slots, fill}
use warrior_man.Master.Workers.{IsFull, free_in, fill_pools, forks_of, fork_workers_lem}
use warrior_man.Master.Reload.{replacements, exit_each, rolling_reload}

-- Two workers, with a process missing in each.
abbrev two_pools : List Pool
two_pools =
    record { worker_id = 1; reloadable = true; pids = 10 ∷ 0 ∷ [] }
    ∷ record { worker_id = 2; reloadable = true; pids = 0 ∷ [] }
    ∷ []

abbrev two_workers : Master
two_workers = record {
  status = running;
  pools = two_pools;
  pids_to_reload = [];
  pid_array_tmp = [];
  trace = [];
}

fork_workers_lem_example :
    (fork_workers two_workers (child 11 ∷ child 12 ∷ child 13 ∷ [])
      ≡ some (
        record two_workers {
          pools =
              record { worker_id = 1; reloadable = true; pids = 10 ∷ 11 ∷ [] }
              ∷ record { worker_id = 2; reloadable = true; pids = 12 ∷ [] }
              ∷ [];
          trace = forked 1 11 ∷ forked 2 12 ∷ [];
        },
        child 13 ∷ [],
      ))
    × All IsFull (fill_pools two_pools (11 ∷ 12 ∷ 13 ∷ []))
    × (map (λ p. length p.pids) (fill_pools two_pools (11 ∷ 12 ∷ 13 ∷ [])) ≡ 2 ∷ 1 ∷ [])
unfolding free_in free_slots fill_pools fill forks_of
fork_workers_lem_example =
    fork_workers_lem two_workers (11 ∷ 12 ∷ 13 ∷ []) (omega arith) (omega arith)

-- The processes 10 and 11 become 20 and 21.
rolling_reload_example :
    (m : Master) × (exit_each ((10, 20) ∷ (11, 21) ∷ []) (
        signal_handler sigusr1 (record {
          status = running;
          pools = record { worker_id = 1; reloadable = true; pids = 10 ∷ 11 ∷ [] } ∷ [];
          pids_to_reload = [];
          pid_array_tmp = [];
          trace = [];
        }))
      ≡ some m)
    × (m.status ≡ running)
    × (m.pools ≡ record { worker_id = 1; reloadable = true; pids = 20 ∷ 21 ∷ [] } ∷ [])
    × (m.trace
        ≡ sends_usr1 10
          ∷ sets_timer (in_reload 0)
          ∷ forked 1 20
          ∷ sends_usr1 11
          ∷ sets_timer (in_reload 1)
          ∷ forked 1 21
          ∷ [])
unfolding has_pid replacements
rolling_reload_example =
    rolling_reload 1 ((10, 20) ∷ (11, 21) ∷ []) [] [] [] (omega arith) (omega arith)
      (refl, (refl, tt))

-- The end of a process of the second worker in a reload: the next process, 11, is told to reload before
-- a process is forked in the place of 12.
abbrev in_reload_two : Master
in_reload_two = record {
  status = reloading;
  pools =
      record { worker_id = 1; reloadable = true; pids = 11 ∷ [] }
      ∷ record { worker_id = 2; reloadable = true; pids = 12 ∷ [] }
      ∷ [];
  pids_to_reload = 12 ∷ 11 ∷ [];
  pid_array_tmp = [];
  trace = [];
}

abbrev trace_of : Option (Master × List Fork) → List Effect
trace_of none = []
trace_of (some (m, forks)) = m.trace

told_early :
    trace_of (on_exit 12 in_reload_two (child 22 ∷ []))
    ≡ sends_usr1 11 ∷ sets_timer (in_reload 1) ∷ forked 2 22 ∷ []
unfolding on_exit visit replace fork_workers fork_pools fork_pool find_pid reload_next has_pid
    clear_pid reload reloadable_pids tell_others next_pid end_round
told_early = refl
