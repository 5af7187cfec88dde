-- ===== src/File/Kept.antt =====
-- What is written to a file is what is read from it.
use warrior_man.Prelude.{
  ℕ, ◌+◌, ◌-◌, ◌<◌, ◌≤◌, ◌≡◌, arith, refl, Bool, true, Option, some, List, [], ◌∷◌, ◌++◌, length,
  take, drop, splice, length-splice, All, ltb, ltb_of_lt, if◌then◌else◌, min,
}
use warrior_man.WmString.{Allocator, WmString}
use warrior_man.WmString.Room.{text, copy_in_lem}
use warrior_man.File.{Answer, breaks, moves, Ended, under_way, returns, read_all, get_contents}
use warrior_man.File.Written.{Steady, length-piece}

-- What a whole read gives: a string with the bytes of the file as its text.
abbrev pub Got : List ℕ → Option (Ended (Option WmString)) → Type 0
Got file r = (s : WmString) × (r ≡ some (returns (some s))) × (text s ≡ file)

-- The file that a write of `content` is to leave.
abbrev pub behind : Bool → List ℕ → List ℕ → List ℕ
behind append old content = (if append then old else []) ++ content

-- The whole read of a file.
abbrev pub read_back : Allocator → List ℕ → List Answer → Option (Ended (Option WmString))
read_back heap file reads = get_contents heap (some (length file)) true file reads

-- A file that is shorter than its size was when the read began: the loop goes on for ever.
shrunk_lem :
    (filesize : ℕ) (file : List ℕ) (n : ℕ) (s : WmString) (script : List Answer)
    → All Steady script
    → n ≤ length file
    → length file < filesize
    → filesize ≤ length s.str
    → read_all filesize file n s script ≡ some under_way
unfolding read_all
shrunk_lem filesize file n s [] st h lt room =
    let e : ltb n filesize ≡ true = ltb_of_lt n filesize (omega (arith, h, lt)) in
    rw (read_all, e) refl
shrunk_lem filesize file n s (breaks interrupted ∷ later) (i, st) h lt room =
    let e : ltb n filesize ≡ true = ltb_of_lt n filesize (omega (arith, h, lt)) in
    rw (read_all, e, i) (shrunk_lem filesize file n s later st h lt room)
shrunk_lem filesize file n s (moves count ∷ later) (u, st) h lt room =
    let e : ltb n filesize ≡ true = ltb_of_lt n filesize (omega (arith, h, lt)) in
    let left = filesize - n in
    let piece = take count (take left (drop n file)) in
    let l : length piece ≡ min count (min left (length file - n)) =
      length-piece n count left file in
    let fits : n + length piece ≤ length s.str = omega (arith, l, h, lt, room) in
    rw (read_all, e, copy_in_lem s.str n piece fits)
      (shrunk_lem filesize file (n + length piece) (record s { str = splice s.str n piece }) later
        st (omega (arith, l, h)) lt (omega (arith, room, length-splice s.str n piece fits)))
