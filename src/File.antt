-- ===== src/File.antt =====
-- src/core/file.c: a file is read whole, and written whole.
--
-- A file is its bytes. What the system answers to the reads or the writes is a script. It never moves more
-- bytes than it is asked for. A loop takes one answer a round, so it needs no fuel. A result of `none` is a
-- copy past the end of a block. The closing of the descriptor is left out.
mod Written
mod Kept
mod Tests
use warrior_man.Prelude.{
  ℕ, ◌+◌, ◌-◌, ◌*◌, Bool, true, false, Option, none, some, List, [], ◌∷◌, ◌++◌, length, take, drop,
  ltb, ◌==◌, if◌then◌else◌,
}
use warrior_man.WmString.{Allocator, WmString, copy_in, new}

abbrev pub buffer_size_big : ℕ
buffer_size_big = 65536

-- `WM_MAX_FILE_CONTENT`
abbrev pub max_content : ℕ
max_content = 64 * 1024 * 1024

-- An answer of `pread` or `write`: it fails, with the test whether `errno` is EINTR, or it moves as many
-- bytes as there are, up to a number.
pub data Answer : Type 0 where
  breaks : (interrupted : Bool) → Answer
  moves : (count : ℕ) → Answer

-- How a function ends, if its script brings it to its end.
pub data Ended {ℓ} (A : Type ℓ) : Type ℓ where
  under_way : Ended A
  returns : A → Ended A

abbrev pub chunk_size : ℕ → ℕ
chunk_size left = if ltb buffer_size_big left then buffer_size_big else left

-- The loop of `wm_file_put_contents`, on what is written and the file.
unfoldable pub write_all : List ℕ → ℕ → List ℕ → List Answer → List ℕ × Ended Bool
write_all content written file [] =
    (file, if ltb written (length content) then under_way else returns true)
write_all content written file (breaks interrupted ∷ later) = elim (ltb written (length content)) [
  | false ↦ (file, returns true)
  | true ↦ elim interrupted [
    | true ↦ write_all content written file later
    | false ↦ (file, returns false)
  ]
]
write_all content written file (moves count ∷ later) = elim (ltb written (length content)) [
  | false ↦ (file, returns true)
  | true ↦
      let piece =
        take count (take (chunk_size (length content - written)) (drop written content)) in
      write_all content (written + length piece) (file ++ piece) later
]

-- `wm_file_put_contents`, with the file behind it; `opens` says that `open` goes well.
unfoldable pub put_contents :
    (append opens : Bool) → List ℕ → List ℕ → List Answer → List ℕ × Ended Bool
put_contents append opens old content script =
    if length content == 0
    then (old, returns false)
    else if ltb max_content (length content)
    then (old, returns false)
    else elim opens [
      | false ↦ (old, returns false)
      | true ↦ write_all content 0 (if append then old else []) script
    ]

-- The end of `wm_file_get_contents`.
abbrev pub with_length : WmString → ℕ → Ended (Option WmString)
with_length content readn = returns (some (record content { length = readn }))

-- The loop of `wm_file_get_contents`.
unfoldable pub read_all : ℕ → List ℕ → ℕ → WmString → List Answer → Option (Ended (Option WmString))
read_all filesize file readn content [] =
    some (if ltb readn filesize then under_way else with_length content readn)
read_all filesize file readn content (breaks interrupted ∷ later) = elim (ltb readn filesize) [
  | false ↦ some (with_length content readn)
  | true ↦ elim interrupted [
    | true ↦ read_all filesize file readn content later
    | false ↦ some (returns none)
  ]
]
read_all filesize file readn content (moves count ∷ later) = elim (ltb readn filesize) [
  | false ↦ some (with_length content readn)
  | true ↦
      let piece = take count (take (filesize - readn) (drop readn file)) in
      elim (copy_in content.str readn piece) [
        | none ↦ none
        | some block ↦
            read_all filesize file (readn + length piece) (record content { str = block }) later
      ]
]

-- The part of `wm_file_get_contents` behind `wmString_new`.
abbrev pub read_into :
    ℕ → List ℕ → List Answer → Option (Option WmString) → Option (Ended (Option WmString))
read_into filesize file script none = none
read_into filesize file script (some none) = some (returns none)
read_into filesize file script (some (some content)) = read_all filesize file 0 content script

-- `wm_file_get_contents`, where `size` is the answer of `wm_file_size`; NULL is an answer of `none`.
unfoldable pub get_contents :
    Allocator
    → (size : Option ℕ) → (opens : Bool) → List ℕ
    → List Answer
    → Option (Ended (Option WmString))
get_contents heap none opens file script = some (returns none)
get_contents heap (some filesize) opens file script =
    if filesize == 0
    then some (returns none)
    else if ltb max_content filesize
    then some (returns none)
    else elim opens [
      | false ↦ some (returns none)
      | true ↦ read_into filesize file script (new heap filesize)
    ]
