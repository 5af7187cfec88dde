-- ===== src/Master/Slots.antt =====
-- The slots of a worker, as `getKey_by_pid` of src/worker.c and the loops of `monitorWorkers` search them.
use warrior_man.Prelude.{
  ℕ, suc, Bool, false, Option, none, some, List, [], ◌∷◌, ◌==◌, ◌||◌, if◌then◌else◌,
}

abbrev pub one_more : Option ℕ → Option ℕ
one_more none = none
one_more (some i) = some (suc i)

-- `getKey_by_pid`
unfoldable pub find_pid : ℕ → List ℕ → Option ℕ
find_pid pid [] = none
find_pid pid (p ∷ ps) = if pid == p then some 0 else one_more (find_pid pid ps)

unfoldable pub has_pid : ℕ → List ℕ → Bool
has_pid pid [] = false
has_pid pid (p ∷ ps) = p == pid || has_pid pid ps

-- The first slot with the process becomes 0.
unfoldable pub clear_pid : ℕ → List ℕ → List ℕ
clear_pid pid [] = []
clear_pid pid (p ∷ ps) = if p == pid then 0 ∷ ps else p ∷ clear_pid pid ps
