-- ===== src/Connection.antt =====
-- How src/worker/connection.c cuts packets out of what it reads, in `wmConnection_read`, for a worker
-- with a protocol.
--
-- The protocol's method `input` is a parameter: from the bytes that are there it tells the length of the
-- first packet, 0 for a packet that is not complete. `reading` is `check_read_status` when these packets have
-- been given to `onMessage`. `none` of an operation is a read outside the buffer, or a run that is not
-- followed further, where `input` shortens the buffer that is being cut.
pub mod Life
mod Alone
mod Ended
mod Consumed
mod Packets
mod Stream
mod Common
mod Tests
use warrior_man.Prelude.{
  ℕ, zero, suc, Bool, true, false, Option, none, some, List, [], ◌∷◌, ◌++◌, length, take, drop, ltb,
  ◌==◌, if◌then◌else◌,
}

-- What `input` tells: no number at all, a number below 0, or a number; or it calls `consumeRecvBuffer`.
pub data Told : Type 0 where
  no_number : Told
  below_zero : Told
  consumes : Told
  number : ℕ → Told

-- How the inner loop ends: it waits for more, or the packet is longer than `maxPackageSize`, or the
-- protocol is not kept.
pub data End : Type 0 where
  waits : End
  too_long : End
  protocol_fails : End

-- The packets given out, and the bytes that are left.
pub record Cut : Type 0 where
  pub packets : List (List ℕ)
  pub rest : List ℕ
  pub end : End

module _ (input : List ℕ → Told) (reading : List (List ℕ) → Bool) (max_package_size : ℕ) where
  -- The inner loop. A packet has one byte at least, so one round more than there are bytes is fuel
  -- enough.
  pub cut : ℕ → List (List ℕ) → List ℕ → Option Cut
  cut zero done rest = none
  cut (suc fuel) done [] = some (record { packets = done; rest = []; end = waits })
  cut (suc fuel) done (b ∷ bs) =
      let rest = b ∷ bs in
      let taken : Option Cut = elim (input rest) [
        | no_number ↦ some (record { packets = done; rest = rest; end = protocol_fails })
        | below_zero ↦ none
        | consumes ↦ none
        | number len ↦
            let next = cut fuel (done ++ take len rest ∷ []) (drop len rest) in
            if len == 0
            then some (record { packets = done; rest = rest; end = waits })
            else if ltb max_package_size len
            then some (record { packets = done; rest = rest; end = too_long })
            else if ltb (length rest) len
            then none
            else next
      ] in
      if reading done then taken else some (record { packets = done; rest = rest; end = waits })

  -- A round of `wmConnection_read`: the bytes read are put behind `read_packet_buffer`, or into a new
  -- buffer if that is NULL, and packets are cut. The buffer that is kept is what is left, but only if a
  -- packet was cut; else it is the old one, into which the bytes went if there was one.
  abbrev pub keep_buffer : Option (List ℕ) → Cut → Option (List ℕ)
  keep_buffer (some old) c = some c.rest
  keep_buffer none c = elim c.packets [ [] ↦ none | p ∷ ps ↦ some c.rest ]

  abbrev pub buffered : Option (List ℕ) → List ℕ
  buffered none = []
  buffered (some bs) = bs

  pub receive : Option (List ℕ) → List ℕ → Option (Cut × Option (List ℕ))
  receive buffer bytes =
      elim (cut (suc (length (buffered buffer ++ bytes))) [] (buffered buffer ++ bytes)) [
        | none ↦ none
        | some c ↦ some (c, keep_buffer buffer c)
      ]
