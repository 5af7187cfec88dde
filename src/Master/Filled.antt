-- ===== src/Master/Filled.antt =====
-- `forkWorkers` fills the slots.
use warrior_man.Prelude.{
  ℕ, zero, suc, ◌≤◌, ◌<◌, ◌≡◌, refl, ap, ◌∙◌, arith, Bool, none, some, List, [], ◌∷◌, ◌++◌, map,
  length, take, drop, append_nil, append_assoc, set, All, Option-cases, inl, inr,
}
use warrior_man.Master.{Pool, Effect, forked, child, fork_pool}
use warrior_man.Master.Slots.{find_pid, one_more}

-- The slots that have no process.
unfoldable pub free_slots : List ℕ → ℕ
free_slots [] = 0
free_slots (zero ∷ ps) = suc (free_slots ps)
free_slots (suc p ∷ ps) = free_slots ps

-- Each slot that has no process gets the next of the new ones.
unfoldable pub fill : List ℕ → List ℕ → List ℕ
fill [] new = []
fill (zero ∷ ps) [] = zero ∷ ps
fill (zero ∷ ps) (q ∷ new) = q ∷ fill ps new
fill (suc p ∷ ps) new = suc p ∷ fill ps new

find_pid-taken : (p : ℕ) (ps : List ℕ) → find_pid 0 (suc p ∷ ps) ≡ one_more (find_pid 0 ps)
unfolding find_pid
find_pid-taken p ps = ground arith

full-fill : (ps new : List ℕ) → find_pid 0 ps ≡ none → (fill ps new ≡ ps) × (free_slots ps ≡ 0)
unfolding fill find_pid free_slots
full-fill [] new h = (refl, refl)
full-fill (zero ∷ ps) new h = absurd (ground (arith, h))
full-fill (suc p ∷ ps) new h = elim (Option-cases (find_pid 0 ps)) [
  | inl e ↦ let (f, g) = full-fill ps new e in (ap (λ t. suc p ∷ t) f, g)
  | inr (i, e) ↦ absurd (ground (arith, h, e, find_pid-taken p ps))
]

-- A step of the loop of `forkWorkers`.
fill-set :
    (ps : List ℕ) (key q : ℕ) (new : List ℕ)
    → find_pid 0 ps ≡ some key
    → (fill ps (suc q ∷ new) ≡ fill (set ps key (suc q)) new)
      × (free_slots ps ≡ suc (free_slots (set ps key (suc q))))
unfolding fill find_pid free_slots
fill-set [] key q new h = absurd (ground (arith, h))
fill-set (zero ∷ ps) zero q new h = (refl, refl)
fill-set (zero ∷ ps) (suc key) q new h = absurd (ground (arith, h))
fill-set (suc p ∷ ps) zero q new h = elim (Option-cases (find_pid 0 ps)) [
  | inl e ↦ absurd (ground (arith, h, e, find_pid-taken p ps))
  | inr (i, e) ↦ absurd (ground (arith, h, e, find_pid-taken p ps))
]
fill-set (suc p ∷ ps) (suc key) q new h =
    let e : find_pid 0 ps ≡ some key = elim (Option-cases (find_pid 0 ps)) [
      | inl e ↦ absurd (ground (arith, h, e, find_pid-taken p ps))
      | inr (i, e) ↦ ground (arith, h, e, find_pid-taken p ps)
    ] in
    let (f, g) = fill-set ps key q new e in (ap (λ t. suc p ∷ t) f, g)

abbrev pool_of : ℕ → Bool → List ℕ → Pool
pool_of id r pids = record { worker_id = id; reloadable = r; pids = pids }

-- With new processes enough, each free slot gets one, in order, and the others are not used.
pub fork_pool_lem :
    (id : ℕ) (r : Bool) (pids : List ℕ) (trace : List Effect) (new : List ℕ)
    → free_slots pids ≤ length new
    → All (λ q. 0 < q) new
    → fork_pool (pool_of id r pids) trace (map child new)
      ≡ some (
        pool_of id r (fill pids new),
        trace ++ map (forked id) (take (free_slots pids) new),
        map child (drop (free_slots pids) new),
      )
unfolding fork_pool
fork_pool_lem id r pids trace [] h a = elim (Option-cases (find_pid 0 pids)) [
  | inl e ↦ let (f, g) = full-fill pids [] e in rw (fork_pool, e, f, g, append_nil trace) refl
  | inr (key, e) ↦ absurd (omega (arith, (fill-set pids key 0 [] e).1))
]
fork_pool_lem id r pids trace (zero ∷ new) h a = absurd (omega (arith, a.0))
fork_pool_lem id r pids trace (suc q ∷ new) h a = elim (Option-cases (find_pid 0 pids)) [
  | inl e ↦
      let (f, g) = full-fill pids (suc q ∷ new) e in rw (fork_pool, e, f, g, append_nil trace) refl
  | inr (key, e) ↦
      let (f, g) = fill-set pids key q new e in
      let ih =
        fork_pool_lem id r (set pids key (suc q)) (trace ++ forked id (suc q) ∷ []) new
          (omega (arith, g)) a.1 in
      rw (fork_pool, e, f, g)
        (ih
          ∙ rw
              (append_assoc trace (forked id (suc q) ∷ [])
                (map (forked id) (take (free_slots (set pids key (suc q))) new)))
              refl)
]
