-- ===== src/Master.antt =====
-- The master process of src/worker.c: the processes of the workers, their replacement, the rolling
-- reload and the stop.
--
-- A slot of a worker that has no process is 0. What the kernel does is a script: `forks` has the answers of
-- `fork`, of which the master is the parent. What the master does outside of its memory is the list
-- `trace`. `none` is the end of the process by `wmError`, or the end of the script. The two tables
-- `_workers` and `_worker_pids`, which have the same keys, are one list of pools.
pub mod Slots
mod Address
mod Filled
mod Workers
mod Searches
mod Rolling
mod Reload
mod Tests
use warrior_man.Prelude.{
  ℕ, zero, suc, Bool, true, false, Option, none, some, List, [], ◌∷◌, ◌++◌, map, keep, length, set,
  replicate, ltb, ◌==◌, if◌then◌else◌,
}
use warrior_man.Master.Slots.{find_pid, has_pid, clear_pid}

-- The statuses of `_status` that the master takes.
pub data Status : Type 0 where
  starting : Status
  running : Status
  reloading : Status
  shutdown : Status

-- A worker with the processes that it should have.
pub record Pool : Type 0 where
  pub worker_id : ℕ
  pub reloadable : Bool
  pub pids : List ℕ

-- What the timer for `_kill` points to: an item of `_pid_array_tmp` or of `_pidsToReload`.
pub data PidRef : Type 0 where
  in_tmp : ℕ → PidRef
  in_reload : ℕ → PidRef

pub data Effect : Type 0 where
  forked : (worker_id : ℕ) → (pid : ℕ) → Effect
  sends_int : ℕ → Effect
  sends_usr1 : ℕ → Effect
  sends_kill : ℕ → Effect
  sets_timer : PidRef → Effect
  exits : Effect

pub record Master : Type 0 where
  pub status : Status
  pub pools : List Pool
  pub pids_to_reload : List ℕ
  pub pid_array_tmp : List ℕ
  pub trace : List Effect

pub data Fork : Type 0 where
  child : ℕ → Fork
  fork_fails : Fork

-- `initWorkerPids`, for a worker with its number, its `reloadable` and its `count`.
unfoldable pub init_pool : ℕ → Bool → ℕ → Pool
init_pool id reloadable count = record {
  worker_id = id;
  reloadable = reloadable;
  pids = replicate (if ltb count 1 then 1 else count) 0;
}

-- The `while (1)` of `forkWorkers` for a worker, with `forkOneWorker`.
unfoldable pub fork_pool : Pool → List Effect → List Fork → Option (Pool × List Effect × List Fork)
fork_pool p trace [] = elim (find_pid 0 p.pids) [ none ↦ some (p, trace, []) | some key ↦ none ]
fork_pool p trace (f ∷ fs) = elim (find_pid 0 p.pids) [
  | none ↦ some (p, trace, f ∷ fs)
  | some key ↦ elim f [
    | fork_fails ↦ none
    | child pid ↦
        fork_pool (record p { pids = set p.pids key pid }) (trace ++ forked p.worker_id pid ∷ []) fs
  ]
]

-- `forkWorkers`
unfoldable pub fork_pools :
    List Pool → List Effect → List Fork → Option (List Pool × List Effect × List Fork)
fork_pools [] trace fs = some ([], trace, fs)
fork_pools (p ∷ ps) trace fs = elim (fork_pool p trace fs) [
  | none ↦ none
  | some (p', trace', fs') ↦ elim (fork_pools ps trace' fs') [
    | none ↦ none
    | some (ps', trace'', fs'') ↦ some (p' ∷ ps', trace'', fs'')
  ]
]

unfoldable pub fork_workers : Master → List Fork → Option (Master × List Fork)
fork_workers m fs = elim (fork_pools m.pools m.trace fs) [
  | none ↦ none
  | some (ps, trace, fs') ↦ some (record m { pools = ps; trace = trace }, fs')
]

-- `getAllWorkerPids`
unfoldable pub all_pids : List Pool → List ℕ
all_pids [] = []
all_pids (p ∷ ps) = keep (ltb 0) p.pids ++ all_pids ps

unfoldable pub get_all_worker_pids : Master → Master
get_all_worker_pids m = record m { pid_array_tmp = all_pids m.pools }

-- The processes of the workers that can be reloaded, and the signals to the others.
unfoldable pub reloadable_pids : List Pool → List ℕ
reloadable_pids [] = []
reloadable_pids (p ∷ ps) = (if p.reloadable then p.pids else []) ++ reloadable_pids ps

unfoldable pub tell_others : List Pool → List Effect
tell_others [] = []
tell_others (p ∷ ps) = (if p.reloadable then [] else map sends_usr1 p.pids) ++ tell_others ps

-- A process that is no longer there need not be reloaded.
abbrev pub still : List ℕ → ℕ → ℕ
still pids pid = if has_pid pid pids then pid else 0

-- The first item that is not 0, and its index.
unfoldable pub next_pid : List ℕ → Option (ℕ × ℕ)
next_pid [] = none
next_pid (zero ∷ ps) = elim (next_pid ps) [ none ↦ none | some (i, pid) ↦ some (suc i, pid) ]
next_pid (suc pid ∷ ps) = some (0, suc pid)

abbrev pub begin_reload : Status → Status
begin_reload starting = reloading
begin_reload running = reloading
begin_reload reloading = reloading
begin_reload shutdown = shutdown

abbrev pub end_reload : Status → Status
end_reload starting = running
end_reload running = running
end_reload reloading = running
end_reload shutdown = shutdown

-- `reload`, in the master.
unfoldable pub reload : Master → Master
reload m =
    let status = begin_reload m.status in
    let trace = m.trace ++ tell_others m.pools in
    let left = map (still (reloadable_pids m.pools)) m.pids_to_reload in
    elim (next_pid left) [
      | none ↦ record m { status = end_reload status; pids_to_reload = left; trace = trace }
      | some (i, pid) ↦ record m {
        status = status;
        pids_to_reload = left;
        trace = trace ++ (sends_usr1 pid ∷ sets_timer (in_reload i) ∷ []);
      }
    ]

-- The slot of the process that has ended becomes 0.
abbrev pub clear_in : ℕ → ℕ → Pool → Pool
clear_in id pid p = record p { pids = if p.worker_id == id then clear_pid pid p.pids else p.pids }

-- `if (*reload_pid == pid) { wmArray_set(_pidsToReload, i, &zero); reload(); break; }`
unfoldable pub reload_next : ℕ → Master → Master
reload_next pid m =
    let m' : Master = reload (record m { pids_to_reload = clear_pid pid m.pids_to_reload }) in
    if has_pid pid m.pids_to_reload then m' else m

abbrev pub then_reload : ℕ → Option (Master × List Fork) → Option (Master × List Fork)
then_reload pid none = none
then_reload pid (some (m, fs)) = some (reload_next pid m, fs)

-- `if (_status != WM_WORKER_STATUS_SHUTDOWN) { … }`
unfoldable pub replace : ℕ → Master → List Fork → Option (Master × List Fork)
replace pid m fs = elim m.status [
  | shutdown ↦ some (m, fs)
  | starting ↦ then_reload pid (fork_workers m fs)
  | running ↦ then_reload pid (fork_workers m fs)
  | reloading ↦ then_reload pid (fork_workers m fs)
]

-- The loop of `monitorWorkers` over the workers when the process `pid` has ended.
unfoldable pub visit : List ℕ → ℕ → Master → List Fork → Option (Master × List Fork)
visit [] pid m fs = some (m, fs)
visit (id ∷ ids) pid m fs =
    elim (replace pid (record m { pools = map (clear_in id pid) m.pools }) fs) [
      | none ↦ none
      | some (m', fs') ↦ visit ids pid m' fs'
    ]

-- What `monitorWorkers` does at the end of a round.
unfoldable pub end_round : Master → Master
end_round m =
    let m' = get_all_worker_pids m in
    let ended : Master = elim m'.pid_array_tmp [
      | [] ↦ record m' { trace = m'.trace ++ exits ∷ [] }
      | pid ∷ ps ↦ m'
    ] in
    elim m.status [ shutdown ↦ ended | starting ↦ m | running ↦ m | reloading ↦ m ]

-- A round of `monitorWorkers` in which `waitpid` tells the end of `pid`.
unfoldable pub on_exit : ℕ → Master → List Fork → Option (Master × List Fork)
on_exit pid m fs = elim (visit (map (λ p. p.worker_id) m.pools) pid m fs) [
  | none ↦ none
  | some (m', fs') ↦ some (end_round m', fs')
]

-- `wmWorker_stopAll`, in the master: the timers point into `_pid_array_tmp`.
unfoldable pub stop_each : ℕ → List ℕ → List Effect
stop_each i [] = []
stop_each i (pid ∷ ps) = sends_int pid ∷ sets_timer (in_tmp i) ∷ stop_each (suc i) ps

unfoldable pub stop_all : Master → Master
stop_all m =
    let m' = get_all_worker_pids m in
    record m' { status = shutdown; trace = m'.trace ++ stop_each 0 m'.pid_array_tmp }

pub data Signal : Type 0 where
  sigint : Signal
  sigusr1 : Signal
  sigusr2 : Signal

-- `signalHandler`; the report of the status, for SIGUSR2, is left out.
unfoldable pub signal_handler : Signal → Master → Master
signal_handler sigint m = stop_all m
signal_handler sigusr1 m =
    let m' = get_all_worker_pids m in reload (record m' { pids_to_reload = m'.pid_array_tmp })
signal_handler sigusr2 m = m

-- `_kill`, when its timer fires; what a pointer finds past the end of its array is not told.
unfoldable pub pid_at : ℕ → List ℕ → Option ℕ
pid_at i [] = none
pid_at zero (pid ∷ ps) = some pid
pid_at (suc i) (pid ∷ ps) = pid_at i ps

unfoldable pub kill_timer : PidRef → Master → Option Master
kill_timer r m =
    let found : Option ℕ = elim r [
      | in_tmp i ↦ pid_at i m.pid_array_tmp
      | in_reload i ↦ pid_at i m.pids_to_reload
    ] in
    elim found [
      | none ↦ none
      | some pid ↦
          some (if pid == 0 then m else record m { trace = m.trace ++ sends_kill pid ∷ [] })
    ]
