-- ===== src/Master/Reload.antt =====
-- A whole rolling reload: the signal, and then the end of each process in its turn.
use warrior_man.Prelude.{
  ℕ, suc, ◌<◌, ◌≡◌, refl, sym, ap, ◌∙◌, arith, true, false, Option, none, some, List, [], ◌∷◌, ◌++◌,
  keep, length, length-append, append_nil, append_assoc, All, All-snoc, All-mono, ltb, ltb_of_lt,
}
use warrior_man.Master.{
  running, Effect, forked, Master, Fork, child, get_all_worker_pids, all_pids, on_exit, sigusr1,
  signal_handler,
}
use warrior_man.Master.Slots.{has_pid}
use warrior_man.Master.Searches.{Positive}
use warrior_man.Master.Rolling.{signal_next, rolling, reload-left, rest_there, on_exit-rolling}

-- The processes that end, each with the one that is forked then.
abbrev pub olds : List (ℕ × ℕ) → List ℕ
olds [] = []
olds ((p, q) ∷ changes) = p ∷ olds changes

abbrev pub news : List (ℕ × ℕ) → List ℕ
news [] = []
news ((p, q) ∷ changes) = q ∷ news changes

abbrev pub exits_then : (Master → Option Master) → Option (Master × List Fork) → Option Master
exits_then next none = none
exits_then next (some (m, forks)) = next m

-- The processes end one after the other.
unfoldable pub exit_each : List (ℕ × ℕ) → Master → Option Master
exit_each [] m = some m
exit_each ((p, q) ∷ changes) m = exits_then (exit_each changes) (on_exit p m (child q ∷ []))

-- What the master does meanwhile: after each fork the next process is told, and none before.
unfoldable pub replacements : ℕ → ℕ → List (ℕ × ℕ) → List Effect
replacements id i [] = []
replacements id i ((p, q) ∷ changes) =
    forked id q ∷ (signal_next (suc i) (olds changes) ++ replacements id (suc i) changes)

-- No new process has the number of one of `left`.
abbrev pub IsFresh : List ℕ → List ℕ → Type 0
IsFresh left = All (λ q. has_pid q left ≡ false)

not_in : (p : ℕ) (left front : List ℕ) → IsFresh (p ∷ left) front → has_pid p front ≡ false
unfolding has_pid
not_in p left [] h = refl
not_in p left (q ∷ front) h = ground (arith, h.0, not_in p left front h.1)

IsFresh-tail : (p : ℕ) (left front : List ℕ) → IsFresh (p ∷ left) front → IsFresh left front
unfolding has_pid
IsFresh-tail p left front =
    All-mono (λ q. has_pid q (p ∷ left) ≡ false) (λ q. has_pid q left ≡ false) front
      (λ q h. ground (arith, h))

exit_each-rolling :
    (id : ℕ) (changes : List (ℕ × ℕ)) (front tmp : List ℕ) (trace : List Effect)
    → Positive front
    → Positive (olds changes)
    → Positive (news changes)
    → IsFresh (olds changes) front
    → IsFresh (olds changes) (news changes)
    → exit_each changes (rolling id front (olds changes) tmp trace)
      ≡ some (
          rolling id
            (front ++ news changes)
            []
            tmp
            (trace ++ replacements id (length front) changes))
unfolding exit_each replacements
exit_each-rolling id [] front tmp trace a b c d e =
    ap (λ f. some (rolling id f [] tmp trace)) (sym (append_nil front))
    ∙ ap (λ t. some (rolling id (front ++ []) [] tmp t)) (sym (append_nil trace))
exit_each-rolling id ((p, q) ∷ changes) front tmp trace a b c d e =
    let next : List Effect = signal_next (suc (length front)) (olds changes) in
    let rest : List Effect = replacements id (suc (length front)) changes in
    let step =
      on_exit-rolling id front (olds changes) tmp p q trace a b c.0
        (not_in p (olds changes) front d) in
    let ih =
      exit_each-rolling id changes (front ++ q ∷ []) tmp (trace ++ (forked id q ∷ next))
        (All-snoc (λ x. 0 < x) front q a c.0) b.1 c.1
        (All-snoc (λ x. has_pid x (olds changes) ≡ false) front q
          (IsFresh-tail p (olds changes) front d)
          (IsFresh-tail p (olds changes) (q ∷ []) (e.0, tt)).0)
        (IsFresh-tail p (olds changes) (news changes) e.1) in
    let longer : length (front ++ q ∷ []) ≡ suc (length front) =
      omega (arith, length-append front (q ∷ [])) in
    rw (exit_each, step)
      (ih
        ∙ ap
            (λ n. some (
              rolling id ((front ++ q ∷ []) ++ news changes) [] tmp
                ((trace ++ (forked id q ∷ next)) ++ replacements id n changes)))
            longer
        ∙ ap (λ f. some (rolling id f [] tmp ((trace ++ (forked id q ∷ next)) ++ rest)))
            (append_assoc front (q ∷ []) (news changes))
        ∙ ap (λ t. some (rolling id (front ++ (q ∷ news changes)) [] tmp t))
            (append_assoc trace (forked id q ∷ next) rest))

keep-Positive : (ps : List ℕ) → Positive ps → keep (ltb 0) ps ≡ ps
keep-Positive [] a = refl
keep-Positive (p ∷ ps) a = rw (ltb_of_lt 0 p a.0, keep-Positive ps a.1) refl

signal-rolling :
    (id : ℕ) (ps to_reload tmp : List ℕ) (trace : List Effect)
    → Positive ps
    → signal_handler sigusr1 (record {
      status = running;
      pools = record { worker_id = id; reloadable = true; pids = ps } ∷ [];
      pids_to_reload = to_reload;
      pid_array_tmp = tmp;
      trace = trace;
    })
      ≡ rolling id [] ps ps (trace ++ signal_next 0 ps)
unfolding signal_handler get_all_worker_pids all_pids
signal-rolling id ps to_reload tmp trace a =
    rw (signal_handler, get_all_worker_pids, all_pids, keep-Positive ps a, append_nil ps)
      (reload-left id running ps 0 ps ps trace refl (rest_there id ps ps [] refl) a)

-- A running master of one worker, which can be reloaded, gets the signal for a reload; then its
-- processes end one after the other, in the order of their slots, and for each a new one is forked,
-- whose number is none of the old ones. Then the master runs as before, each slot has its new process,
-- and no other; and in between the next process was told to reload only after the one before it was
-- replaced.
pub rolling_reload :
    (id : ℕ) (changes : List (ℕ × ℕ)) (to_reload tmp : List ℕ) (trace : List Effect)
    → Positive (olds changes)
    → Positive (news changes)
    → IsFresh (olds changes) (news changes)
    → (m : Master) × (exit_each changes (
          signal_handler sigusr1 (record {
            status = running;
            pools = record { worker_id = id; reloadable = true; pids = olds changes } ∷ [];
            pids_to_reload = to_reload;
            pid_array_tmp = tmp;
            trace = trace;
          }))
        ≡ some m)
      × (m.status ≡ running)
      × (m.pools ≡ record { worker_id = id; reloadable = true; pids = news changes } ∷ [])
      × (m.trace ≡ trace ++ (signal_next 0 (olds changes) ++ replacements id 0 changes))
rolling_reload id changes to_reload tmp trace b c e =
    let told : List Effect = signal_next 0 (olds changes) in
    (
      rolling id (news changes) [] (olds changes) ((trace ++ told) ++ replacements id 0 changes),
      ap (exit_each changes) (signal-rolling id (olds changes) to_reload tmp trace b)
          ∙ exit_each-rolling id changes [] (olds changes) (trace ++ told) tt b c tt e,
      refl,
      ap (λ ps. record { worker_id = id; reloadable = true; pids = ps } ∷ [])
          (append_nil (news changes)),
      append_assoc trace told (replacements id 0 changes),
    )
