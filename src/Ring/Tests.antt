-- ===== src/Ring/Tests.antt =====
-- Pointers on small inputs, and the theorems of lists applied to them.
use warrior_man.Prelude.{refl, [], ◌∷◌, ◌==◌, if◌then◌else◌}
use warrior_man.Ring.{Memory, init, splice}
use warrior_man.Ring.Chain.{mem, IsRing}
use warrior_man.Ring.Splice.{splice_lem}
use warrior_man.Ring.Refine.{
  puts_front, puts_back, takes_out, perform, sequence, leave_out, IsLegal, perform_lem, init-IsRing,
}

-- Pointers that are set to nothing yet.
abbrev blank : Memory
blank = record { next = λ x. 0; prev = λ x. 0 }

-- The head is 100.
perform_lem_example :
    IsRing
      (perform 100 (init blank 100) (puts_back 1 ∷ puts_back 2 ∷ puts_front 3 ∷ takes_out 1 ∷ []))
      100
      (3 ∷ 2 ∷ [])
unfolding mem sequence leave_out IsLegal
perform_lem_example =
    perform_lem 100 (init blank 100) []
      (puts_back 1 ∷ puts_back 2 ∷ puts_front 3 ∷ takes_out 1 ∷ []) (init-IsRing blank 100)
      (refl, (refl, (refl, (refl, tt))))

-- Two lists: 1 and 2 behind 100, and 3 behind 200.
abbrev two_lists : Memory
two_lists = record {
  next = λ x.
      if x == 100
      then 1
      else if x == 1
      then 2
      else if x == 2
      then 100
      else if x == 200
      then 3
      else 200;
  prev = λ x.
      if x == 100
      then 2
      else if x == 1
      then 100
      else if x == 2
      then 1
      else if x == 200
      then 3
      else 200;
}

first_list : IsRing two_lists 100 (1 ∷ 2 ∷ [])
unfolding mem
first_list = record {
  linked = (refl, refl, (refl, refl, (refl, refl)));
  distinct = (refl, (refl, (refl, tt)));
}

second_list : IsRing two_lists 200 (3 ∷ [])
unfolding mem
second_list = record { linked = (refl, refl, (refl, refl)); distinct = (refl, (refl, tt)) }

splice_lem_example :
    IsRing (splice two_lists 100 200) 100 []
    × IsRing (splice two_lists 100 200) 200 (1 ∷ 2 ∷ 3 ∷ [])
unfolding mem
splice_lem_example =
    splice_lem two_lists 100 200 (1 ∷ 2 ∷ []) (3 ∷ []) first_list second_list
      (refl, (refl, (refl, tt)))
