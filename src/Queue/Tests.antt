-- ===== src/Queue/Tests.antt =====
-- A queue on small inputs.
use warrior_man.Prelude.{ℕ, ◌≡◌, refl, [], ◌∷◌}
use warrior_man.Queue.{Queue, create, push, remove_all, clear}

abbrev same : ℕ → ℕ
same d = d

abbrev two : Queue
two = record { num = 2; items = 8 ∷ 9 ∷ []; after_free = same }

push_twice : push (push (create same) 8) 9 ≡ two
unfolding push
push_twice = refl

clear-two : clear two ≡ create same
unfolding clear remove_all
clear-two = refl
