-- ===== src/Connection/Stream.antt =====
-- `wmConnection_read` and `wmConnection_recvfrom` of src/worker/connection.c, as the coroutine that reads a
-- connection runs them.
--
-- All connections read into one buffer, `_read_buffer_tmp`. What the other coroutines do while this one waits
-- is a function on the connection and that buffer; a `Turn` has those of one round of the loop, with the
-- answer of `wmSocket_read`. A loop takes one turn a round, so it needs no fuel.
use warrior_man.Prelude.{
  ℕ, ◌+◌, ◌%◌, ◌^◌, Bool, true, false, not, ◌||◌, Option, none, some, List, [], ◌∷◌, ◌++◌, length,
  take, splice, if◌then◌else◌,
}
use warrior_man.Socket.{other_error}
use warrior_man.Socket.Closing.{close}
use warrior_man.Connection.{Told, End, waits, too_long, protocol_fails, receive}
use warrior_man.Connection.Life.{
  Connection, Status, established, status_closed, Effect, destroy, fail,
}

abbrev pub World : Type 0
World = Connection × List ℕ

abbrev pub is_established : Status → Bool
is_established established = true
is_established status_closed = false

-- `check_read_status`; `me` is the coroutine, and `running` says that the worker is.
unfoldable pub check_read_status : ℕ → Bool → (World → World) → World → World × Bool
check_read_status me running meanwhile (c, tmp) =
    let (c', tmp') = meanwhile (record c { paused_coro = some me }, tmp) in
    if not running || not (is_established c.status)
    then ((c, tmp), false)
    else if c.is_paused
    then ((record c' { paused_coro = none }, tmp'), is_established c'.status)
    else ((c, tmp), true)

-- The answer of `wmSocket_read`.
pub data Read : Type 0 where
  read_fails : Read
  read_closes : Read
  gets : List ℕ → Read

pub record Turn : Type 0 where
  pub running : Bool
  pub first_wait : World → World
  pub during : World → World
  pub read : Read
  pub still_running : Bool
  pub second_wait : World → World

-- The coroutine: `messages` are the texts given to `onMessage`, and `buffer` is the unread part of
-- `read_packet_buffer`.
pub record Reader : Type 0 where
  pub world : World
  pub buffer : Option (List ℕ)
  pub total_request : ℕ
  pub messages : List (List ℕ)
  pub effects : List Effect

pub data Next : Type 0 where
  goes_on : Next
  ends : Next

abbrev pub world_of : Reader → World → Reader
world_of r w = record r { world = w }

-- The connection after an operation of Life.
abbrev pub after : Reader → Connection × List Effect → Reader
after r (c, es) = record r { world = (c, r.world.1); effects = r.effects ++ es }

abbrev pub give : Bool → Reader → List ℕ → Reader
give on_message r text = record r {
  total_request = (r.total_request + 1) % 2 ^ 64;
  messages = if on_message then r.messages ++ text ∷ [] else r.messages;
}

abbrev pub give_all : Bool → Reader → List (List ℕ) → Reader
give_all on_message r [] = r
give_all on_message r (p ∷ ps) = give_all on_message (give on_message r p) ps

-- The connection of a peer that does not keep the protocol; `code` is `WM_ERROR_PROTOCOL_FAIL`.
abbrev pub refused : ℕ → Connection → Connection
refused code c = record c { socket = record (close c.socket).0 { err_code = other_error code } }

module _ (me code : ℕ) (on_message : Bool) where
  -- How the loop that cuts packets ends the round. Only where it waits for more does a new buffer stay.
  abbrev pub end_cut : End → Reader → Option (List ℕ) → Reader × Next
  end_cut waits r buffer = (record r { buffer = buffer }, goes_on)
  end_cut too_long r buffer = (after r (destroy r.world.0), ends)
  end_cut protocol_fails r buffer = (after r (fail (refused code r.world.0)), ends)

  -- The end of a round without a protocol, where the answer of `check_read_status` is given.
  abbrev pub raw : Reader → ℕ → World × Bool → Reader × Next
  raw r n (w, false) = (world_of r w, ends)
  raw r n (w, true) = (give on_message (world_of r w) (take n w.1), goes_on)

  -- A protocol: the method `input`, whether the connection is still read when some packets have been given
  -- out, and `maxPackageSize`.
  abbrev pub with_protocol :
      (input : List ℕ → Told) (reading : List (List ℕ) → Bool) (max_package_size : ℕ)
      → Reader
      → List ℕ
      → Option (Reader × Next)
  with_protocol input reading max_package_size r bytes =
      elim (receive input reading max_package_size r.buffer bytes) [
        | none ↦ none
        | some (c, buffer) ↦ some (end_cut c.end (give_all on_message r c.packets) buffer)
      ]

  -- The bytes that a read has put into the common buffer, and what the loop does with them.
  abbrev pub got :
      Option (Reader → List ℕ → Option (Reader × Next))
      → Turn
      → Reader
      → List ℕ
      → Option (Reader × Next)
  got protocol t r bytes =
      let (c, tmp) = r.world in
      let r' = record r { world = (c, splice tmp 0 bytes) } in
      elim protocol [
        | some p ↦ p r' bytes
        | none ↦
            some
              (raw r' (length bytes) (check_read_status me t.still_running t.second_wait r'.world))
      ]

  abbrev pub after_read :
      Option (Reader → List ℕ → Option (Reader × Next))
      → Turn
      → Reader
      → Read
      → Option (Reader × Next)
  after_read protocol t r read_fails = some (after r (fail r.world.0), ends)
  after_read protocol t r read_closes = some (after r (destroy r.world.0), ends)
  after_read protocol t r (gets bytes) = got protocol t r bytes

  abbrev pub checked :
      Option (Reader → List ℕ → Option (Reader × Next))
      → Turn
      → Reader
      → World × Bool
      → Option (Reader × Next)
  checked protocol t r (w, false) = some (world_of r w, ends)
  checked protocol t r (w, true) = after_read protocol t (world_of r (t.during w)) t.read

  -- A round of `wmConnection_read`; `none` is a read past the end of a buffer.
  unfoldable pub read_round :
      Option (Reader → List ℕ → Option (Reader × Next)) → Reader → Turn → Option (Reader × Next)
  read_round protocol r t =
      checked protocol t r (check_read_status me t.running t.first_wait r.world)

  -- `wmConnection_read`, with the answer whether it has ended.
  unfoldable pub read :
      Option (Reader → List ℕ → Option (Reader × Next))
      → Reader
      → List Turn
      → Option (Reader × Next)
  read protocol r [] = some (r, goes_on)
  read protocol r (t ∷ ts) = elim (read_round protocol r t) [
    | none ↦ none
    | some (r', ends) ↦ some (r', ends)
    | some (r', goes_on) ↦ read protocol r' ts
  ]

  -- `wmConnection_recvfrom`, on the datagram that `wmSocket_recv` has put into the common buffer; `none` is
  -- an answer of -1 or -2, which goes on as the length of the text.
  unfoldable pub recvfrom : Reader → Option (List ℕ) → Option Reader
  recvfrom r none = if on_message then none else some (give false r [])
  recvfrom r (some bytes) =
      let (c, tmp) = r.world in
      let r' = record r { world = (c, splice tmp 0 bytes) } in
      some (give on_message r' (take (length bytes) r'.world.1))
