-- ===== src/Master/Workers.antt =====
-- `forkWorkers` for all workers.
use warrior_man.Prelude.{
  ℕ, zero, suc, ◌+◌, ◌≤◌, ◌<◌, ◌≡◌, refl, ap, arith, some, List, [], ◌∷◌, ◌++◌, map, length, take,
  drop, append_nil, append_assoc, All, length-drop, drop-drop,
}
use warrior_man.Master.{Pool, Effect, forked, child, Master, fork_pools, fork_workers}
use warrior_man.Master.Filled.{free_slots, fill, fork_pool_lem}

-- The free slots of all workers.
unfoldable pub free_in : List Pool → ℕ
free_in [] = 0
free_in (p ∷ ps) = free_slots p.pids + free_in ps

-- Each worker in turn has its free slots filled with the next of the new processes.
unfoldable pub fill_pools : List Pool → List ℕ → List Pool
fill_pools [] new = []
fill_pools (p ∷ ps) new =
    record p { pids = fill p.pids new } ∷ fill_pools ps (drop (free_slots p.pids) new)

All-drop : (n : ℕ) (new : List ℕ) → All (λ q. 0 < q) new → All (λ q. 0 < q) (drop n new)
All-drop zero new a = a
All-drop (suc n) [] a = a
All-drop (suc n) (q ∷ new) a = All-drop n new a.1

free_slots-fill :
    (ps new : List ℕ)
    → free_slots ps ≤ length new
    → All (λ q. 0 < q) new
    → (free_slots (fill ps new) ≡ 0) × (length (fill ps new) ≡ length ps)
unfolding free_slots fill
free_slots-fill [] new h a = (refl, refl)
free_slots-fill (zero ∷ ps) [] h a = absurd (omega arith)
free_slots-fill (zero ∷ ps) (zero ∷ new) h a = absurd (omega (arith, a.0))
free_slots-fill (zero ∷ ps) (suc q ∷ new) h a =
    let (e, f) = free_slots-fill ps new (omega arith) a.1 in (e, ap suc f)
free_slots-fill (suc p ∷ ps) new h a = let (e, f) = free_slots-fill ps new h a in (e, ap suc f)

-- The forks that this takes.
unfoldable pub forks_of : List Pool → List ℕ → List Effect
forks_of [] new = []
forks_of (p ∷ ps) new =
    map (forked p.worker_id) (take (free_slots p.pids) new)
    ++ forks_of ps (drop (free_slots p.pids) new)

fork_pools_lem :
    (ps : List Pool) (trace : List Effect) (new : List ℕ)
    → free_in ps ≤ length new
    → All (λ q. 0 < q) new
    → fork_pools ps trace (map child new)
      ≡ some (fill_pools ps new, trace ++ forks_of ps new, map child (drop (free_in ps) new))
unfolding fork_pools fill_pools free_in forks_of
fork_pools_lem [] trace new h a = rw (append_nil trace) refl
fork_pools_lem (p ∷ ps) trace new h a =
    let n = free_slots p.pids in
    let f =
      fork_pools_lem ps (trace ++ map (forked p.worker_id) (take n new)) (drop n new)
        (omega (arith, length-drop n new)) (All-drop n new a) in
    rw
      (
        fork_pools,
        fork_pool_lem p.worker_id p.reloadable p.pids trace new (omega arith) a,
        f,
        drop-drop n (free_in ps) new,
        append_assoc trace (map (forked p.worker_id) (take n new)) (forks_of ps (drop n new)),
      )
      refl

-- A worker with all its processes: as many as it should have, and none missing.
abbrev pub IsFull : Pool → Type 0
IsFull p = free_slots p.pids ≡ 0

pools_filled :
    (ps : List Pool) (new : List ℕ)
    → free_in ps ≤ length new
    → All (λ q. 0 < q) new
    → All IsFull (fill_pools ps new)
      × (map (λ p. length p.pids) (fill_pools ps new) ≡ map (λ p. length p.pids) ps)
unfolding free_in fill_pools
pools_filled [] new h a = (tt, refl)
pools_filled (p ∷ ps) new h a =
    let (e, f) = free_slots-fill p.pids new (omega arith) a in
    let (g, k) =
      pools_filled ps (drop (free_slots p.pids) new)
        (omega (arith, length-drop (free_slots p.pids) new)) (All-drop (free_slots p.pids) new a) in
    ((e, g), λ i. f i ∷ k i)

-- With new processes at least as many as free slots, each with a number above 0, `forkWorkers` comes back, and forks
-- one process for each free slot, worker by worker, in order, and no more: no slot is free then, the
-- processes that are there keep their slots, and each worker has as many slots as before.
pub fork_workers_lem :
    (m : Master) (new : List ℕ)
    → free_in m.pools ≤ length new
    → All (λ q. 0 < q) new
    → (fork_workers m (map child new)
        ≡ some (
          record m { pools = fill_pools m.pools new; trace = m.trace ++ forks_of m.pools new },
          map child (drop (free_in m.pools) new),
        ))
      × All IsFull (fill_pools m.pools new)
      × (map (λ p. length p.pids) (fill_pools m.pools new) ≡ map (λ p. length p.pids) m.pools)
unfolding fork_workers
fork_workers_lem m new h a =
    let (f, g) = pools_filled m.pools new h a in
    (rw (fork_workers, fork_pools_lem m.pools m.trace new h a) refl, f, g)
