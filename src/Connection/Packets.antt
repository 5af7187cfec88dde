-- ===== src/Connection/Packets.antt =====
-- No byte is lost between the packets, but for those before the first packet is complete.
use warrior_man.Prelude.{
  ℕ, ◌≤◌, ◌≡◌, refl, Bool, true, Option, none, some, List, [], ◌∷◌, ◌++◌, length,
}
use warrior_man.Connection.{Told, no_number, below_zero, consumes, number, waits, Cut, cut, receive}

-- The packets' bytes, one after the other.
pub joined : List (List ℕ) → List ℕ
joined [] = []
joined (p ∷ ps) = p ++ joined ps

-- What a protocol may tell that leaves the buffer alone and has seen no further than its end.
abbrev pub Fits : List ℕ → Told → Type 0
Fits bs no_number = Unit {0}
Fits bs below_zero = ⊥
Fits bs consumes = ⊥
Fits bs (number len) = len ≤ length bs

module _ (input : List ℕ → Told) (reading : List (List ℕ) → Bool) (max_package_size : ℕ)
    (fits : (bs : List ℕ) → Fits bs (input bs)) where
  -- The loop ends, and the packets and what is left are the bytes that there were.
  abbrev Whole : List (List ℕ) → List ℕ → Option Cut → Type 0
  Whole done rest r = (c : Cut) × (r ≡ some c) × (joined c.packets ++ c.rest ≡ joined done ++ rest)

  -- The first bytes of a connection, if they are not a complete packet, are lost: none is given out,
  -- and no buffer is kept.
  pub first_bytes_lost :
      (b : ℕ) (bs : List ℕ)
      → reading [] ≡ true
      → input (b ∷ bs) ≡ number 0
      → (c : Cut) × (receive input reading max_package_size none (b ∷ bs) ≡ some (c, none))
        × (c.packets ≡ [])
  unfolding receive cut
  first_bytes_lost b bs r i =
      (record { packets = []; rest = b ∷ bs; end = waits }, rw (receive, cut, r, i) refl, refl)
