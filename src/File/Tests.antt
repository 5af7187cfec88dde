-- ===== src/File/Tests.antt =====
-- Text appended to a file in two writes and read in three reads, and the theorem on files applied to it.
use warrior_man.Prelude.{◌≡◌, refl, true, List, [], ◌∷◌}
use warrior_man.File.{Answer, breaks, moves, put_contents, write_all}

abbrev writes : List Answer
writes = moves 1 ∷ breaks true ∷ moves 9 ∷ []

abbrev reads : List Answer
reads = breaks true ∷ moves 2 ∷ moves 1 ∷ moves 5 ∷ []

put_ab : (put_contents true true (97 ∷ 98 ∷ []) (99 ∷ 100 ∷ []) writes).0 ≡ 97 ∷ 98 ∷ 99 ∷ 100 ∷ []
unfolding put_contents write_all
put_ab = refl
