-- ===== src/Socket/Connected.antt =====
-- What `wmSocket_write` and `wmSocket_connect` answer against what has happened.
use warrior_man.Prelude.{
  ℕ, ◌+◌, ◌-◌, ◌<◌, ◌≡◌, refl, ◌∙◌, arith, true, false, Option, none, some, List, [], ◌∷◌, ◌++◌,
  length, take, leb, leb_of_le, ltb, ltb_of_lt, ◌%◌, ◌^◌,
}
use warrior_man.Socket.{
  Errno, Socket, World, Answer, gives, Wake, returns, count, reads_event, writes_event,
  is_available, is_bound, until_done,
}
use warrior_man.Socket.Kept.{available}
use warrior_man.Socket.Wait.{loop_done, loop_repeats, again, event_wait, loop, end_with}
use warrior_man.Socket.Sending.{
  Writer, took, loop_remove, taken, write, write_attempt, write_part, write_wait, left_writing,
  connected, connect,
}

-- No coroutine reads from or writes to the socket, and it is open.
pub record IsFree (s : Socket) : Type 0 where
  pub open_ : s.closed ≡ false
  pub no_reader : s.read_co ≡ none
  pub no_writer : s.write_co ≡ none

writable : (w : World) → IsFree w.socket → is_available w writes_event ≡ some (w, true)
unfolding is_bound
writable w f = available w writes_event f.open_ (rw (is_bound, f.no_writer) refl)

readable : (w : World) → IsFree w.socket → is_available w reads_event ≡ some (w, true)
unfolding is_bound
readable w f = available w reads_event f.open_ (rw (is_bound, f.no_reader) refl)

-- A connect whose system call succeeds at once answers false, and so does one that waits and for which `getsockopt` then
-- tells an error; one that waits in time and has no error answers true.
pub connect_at_once :
    (me : ℕ) (w : World) (host : List ℕ) (port ticks x : ℕ) (rest : List (Answer ℕ))
    (so_error : Answer Errno) (wake : Option Wake)
    → IsFree w.socket
    → (connect me w host port ticks (gives x ∷ rest) so_error wake).1 ≡ returns false
unfolding connect until_done connected
connect_at_once me w host port ticks x rest so_error wake f =
    rw (connect, writable w f, readable w f) refl

-- A round of `wmSocket_write` on an open socket in which the kernel takes `k` bytes.
write_took :
    (bytes : List ℕ) (t : Writer) (a : Answer ℕ) (rest : List (Answer ℕ)) (k : ℕ)
    → t.world.socket.closed ≡ false
    → until_done t.answers ≡ some (a, rest)
    → taken (length bytes - t.ret_num) a ≡ took k
    → write_attempt bytes t ≡ write_part bytes t rest k
unfolding write_attempt
write_took bytes t a rest k c u h = ground (arith, c, u, h)

-- The rest is taken at once.
write_last :
    (me : ℕ) (bytes : List ℕ) (k : ℕ) (w : World) (rest : List (Answer ℕ)) (sent : List ℕ)
    (wakes : List Wake)
    → k < length bytes
    → length bytes < 2 ^ 31
    → w.socket.closed ≡ false
    → loop
        (write_attempt bytes)
        (write_wait me)
        (left_writing me)
        (record { world = w; answers = gives (length bytes - k) ∷ rest; sent = sent; ret_num = k })
        wakes
      ≡ record {
        world = loop_remove w;
        sent = sent ++ take (length bytes - k) bytes;
        result = returns (count (length bytes));
      }
unfolding until_done taken write_part
write_last me bytes k w rest sent wakes h small c =
    loop_done (write_attempt bytes) (write_wait me) (left_writing me) _ _ wakes (
      write_took bytes
        (record { world = w; answers = gives (length bytes - k) ∷ rest; sent = sent; ret_num = k })
        (gives (length bytes - k)) rest (length bytes - k) c refl (ground arith)
      ∙ rw
          (
            write_part,
            total,
            ltb_of_lt (length bytes) (2 ^ 31) small,
            leb_of_le (length bytes) (length bytes) (omega arith),
            total,
          )
          refl)
  where
    total : (k + (length bytes - k)) % 2 ^ 32 ≡ length bytes
    total = omega (arith, h, small)

-- The kernel takes `k` bytes of a write of more, of fewer than 2 ^ 31, and then the rest that is asked for, and
-- the socket stays open in between: the amount that is returned is the length, but what the kernel has are the first `k` bytes
-- and then the first bytes again.
pub write_restarts :
    (me : ℕ) (w : World) (bytes : List ℕ) (k : ℕ) (rest : List (Answer ℕ)) (wake : Wake)
    (wakes : List Wake)
    → IsFree w.socket
    → k < length bytes
    → length bytes < 2 ^ 31
    → (event_wait me w writes_event wake).0.socket.closed ≡ false
    → let r = write me w bytes (gives k ∷ gives (length bytes - k) ∷ rest) (wake ∷ wakes) in
      (r.result ≡ returns (count (length bytes)))
      × (r.sent ≡ take k bytes ++ take (length bytes - k) bytes)
unfolding write write_attempt write_part write_wait loop end_with until_done taken
write_restarts me w bytes k rest wake wakes f h small o =
    let z : (0 + k) % 2 ^ 32 ≡ k = omega (arith, h, small) in
    let int : ltb k (2 ^ 31) ≡ true = ltb_of_lt k (2 ^ 31) (omega (arith, h, small)) in
    let short : leb (length bytes) k ≡ false = ground arith in
    let w' = (event_wait me w writes_event wake).0 in
    let t : Writer = record {
      world = w;
      answers = gives k ∷ gives (length bytes - k) ∷ rest;
      sent = [];
      ret_num = 0;
    } in
    let t' : Writer = record {
      world = w;
      answers = gives (length bytes - k) ∷ rest;
      sent = take k bytes;
      ret_num = k;
    } in
    let first : write_attempt bytes t ≡ again t' =
      write_took bytes t (gives k) (gives (length bytes - k) ∷ rest) k f.open_ refl (ground arith)
      ∙ rw (write_part, z, int, short, z) refl in
    let whole =
      loop_repeats (write_attempt bytes) (write_wait me) (left_writing me) t
        (record t' { world = w' }) t' wake wakes first refl
      ∙ write_last me bytes k w' rest (take k bytes) wakes h small o in
    rw (write, writable w f, whole) (refl, refl)
