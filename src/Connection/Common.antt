-- ===== src/Connection/Common.antt =====
-- Reading without a protocol: what `onMessage` is given, and what the buffer that all connections share
-- does to it.
use warrior_man.Prelude.{
  ℕ, ◌+◌, ◌≤◌, ◌≡◌, arith, refl, sym, ap, ◌∙◌, Bool, true, false, none, some, List, [], ◌∷◌, ◌++◌,
  append_assoc, append_nil, length, take, splice, take-append_le, take-length, drop, length-splice,
}
use warrior_man.Connection.Life.{Connection}
use warrior_man.Connection.Stream.{
  World, is_established, after_read, checked, raw, check_read_status, gets, Turn, Reader, goes_on,
  world_of, read_round, read, give,
}

-- The connection is established and not paused.
abbrev pub IsOpen : World → Type 0
IsOpen w = (is_established w.0.status ≡ true) × (w.0.is_paused ≡ false)

-- A turn in which the worker runs, the others leave the connection open and the buffer in its size, and
-- the text `bytes` is read, which the buffer has room for.
pub record Plain (size : ℕ) (t : Turn) (bytes : List ℕ) : Type 0 where
  pub runs : t.running ≡ true
  pub runs_on : t.still_running ≡ true
  pub stays_open : (w : World) → IsOpen w → IsOpen (t.during w)
  pub stays_long : (w : World) → length (t.during w).1 ≡ length w.1
  pub reads : t.read ≡ gets bytes
  pub room : length bytes ≤ size

check_open :
    (me : ℕ) (running : Bool) (meanwhile : World → World) (w : World)
    → running ≡ true
    → IsOpen w
    → check_read_status me running meanwhile w ≡ (w, true)
unfolding check_read_status
check_open me running meanwhile w runs (o, p) = rw (check_read_status, runs, o, p) refl

module _ (me code : ℕ) where
  -- The reader after a text.
  abbrev pub told : Reader → Turn → List ℕ → Reader
  told r t bytes =
      let w = t.during r.world in give true (world_of r (w.0, splice w.1 0 bytes)) bytes

  round_lem :
      (size : ℕ) (r : Reader) (t : Turn) (bytes : List ℕ)
      → IsOpen r.world
      → length r.world.1 ≡ size
      → Plain size t bytes
      → read_round me code true none r t ≡ some (told r t bytes, goes_on)
  unfolding read_round
  round_lem size r t bytes o l p =
      let w = t.during r.world in
      let o' = p.stays_open r.world o in
      let first = check_open me t.running t.first_wait r.world p.runs o in
      let w' : World = (w.0, splice w.1 0 bytes) in
      let second = check_open me t.still_running t.second_wait w' p.runs_on o' in
      let text : take (length bytes) (splice w.1 0 bytes) ≡ bytes =
        take-append_le (length bytes) bytes (drop (0 + length bytes) w.1) (omega arith)
        ∙ take-length bytes in
      let r' = world_of r w' in
      let begun : read_round me code true none r t
          ≡ after_read me code true none t (world_of r w) t.read =
        rw (read_round, first) refl in
      begun
      ∙ ap (after_read me code true none t (world_of r w)) p.reads
      ∙ ap (λ c. some (raw me code true r' (length bytes) c)) second
      ∙ ap (λ x. some (give true r' x, goes_on)) text

  told_length :
      (size : ℕ) (r : Reader) (t : Turn) (bytes : List ℕ)
      → length r.world.1 ≡ size
      → Plain size t bytes
      → length (told r t bytes).world.1 ≡ size
  told_length size r t bytes l p =
      let w = t.during r.world in
      let long = p.stays_long r.world in
      length-splice w.1 0 bytes (omega (arith, long, l, p.room)) ∙ long ∙ l

  -- Turns, each with its text.
  abbrev pub AllPlain : ℕ → List Turn → List (List ℕ) → Type 0
  AllPlain size [] [] = Unit {0}
  AllPlain size [] (x ∷ xs) = ⊥
  AllPlain size (t ∷ ts) [] = ⊥
  AllPlain size (t ∷ ts) (x ∷ xs) = Plain size t x × AllPlain size ts xs

  -- A connection without a protocol that is open, and turns in which the worker runs, the others leave
  -- the connection open and the common buffer in its size, and a text of at most that size is read: the
  -- coroutine reads on, and `onMessage` has been given these texts, each whole, one by one and in order.
  pub texts_lem :
      (size : ℕ) (r : Reader) (ts : List Turn) (texts : List (List ℕ))
      → IsOpen r.world
      → length r.world.1 ≡ size
      → AllPlain size ts texts
      → (r' : Reader) × (read me code true none r ts ≡ some (r', goes_on))
        × (r'.messages ≡ r.messages ++ texts)
  unfolding read
  texts_lem size r [] [] o l a = (r, refl, sym (append_nil r.messages))
  texts_lem size r [] (x ∷ xs) o l a = elim a [ ]
  texts_lem size r (t ∷ ts) [] o l a = elim a [ ]
  texts_lem size r (t ∷ ts) (x ∷ xs) o l (p, a) =
      let step = round_lem size r t x o l p in
      let (r', q, m) =
        texts_lem size (told r t x) ts xs (p.stays_open r.world o) (told_length size r t x l p) a in
      (r', rw (read, step) q, m ∙ append_assoc r.messages (x ∷ []) xs)

  -- While this coroutine waits to read, its connection is paused; and while it is paused, another
  -- connection reads `other`, of as many bytes, and the pause ends.
  abbrev pub paused_turn : List ℕ → List ℕ → Turn
  paused_turn bytes other = record {
    running = true;
    first_wait = λ w. w;
    during = λ w. (record (w.0) { is_paused = true }, w.1);
    read = gets bytes;
    still_running = true;
    second_wait = λ w. (record (w.0) { is_paused = false }, splice w.1 0 other);
  }

  -- A connection without a protocol is paused while its coroutine waits for bytes, and another one reads
  -- as many bytes before the pause ends: `onMessage` is given the bytes of the other connection.
  pub other_bytes :
      (r : Reader) (bytes other : List ℕ)
      → IsOpen r.world
      → length other ≡ length bytes
      → length bytes ≤ length r.world.1
      → (r' : Reader) × (read_round me code true none r (paused_turn bytes other)
          ≡ some (r', goes_on))
        × (r'.messages ≡ r.messages ++ other ∷ [])
  unfolding read_round check_read_status
  other_bytes r bytes other o same room =
      let c = record (r.world.0) { is_paused = true } in
      let w₀ : World = (c, r.world.1) in
      let w' : World = (c, splice r.world.1 0 bytes) in
      let woken : Connection = record c { is_paused = false; paused_coro = none } in
      let r' = world_of r (woken, splice w'.1 0 other) in
      let text : take (length bytes) (splice w'.1 0 other) ≡ other =
        ap (λ n. take n (splice w'.1 0 other)) (sym same)
        ∙ take-append_le (length other) other (drop (0 + length other) w'.1) (omega arith)
        ∙ take-length other in
      let t = paused_turn bytes other in
      let second : check_read_status me true t.second_wait w'
          ≡ ((woken, splice w'.1 0 other), true) =
        rw (check_read_status, o.0) refl in
      let first = check_open me true t.first_wait r.world refl o in
      let begun : read_round me code true none r t
          ≡ after_read me code true none t (world_of r w₀) (gets bytes) =
        ap (checked me code true none t r) first in
      (
        give true r' other,
        begun
            ∙ ap (λ c. some (raw me code true (world_of r w') (length bytes) c)) second
            ∙ ap (λ x. some (give true r' x, goes_on)) text,
        refl,
      )
