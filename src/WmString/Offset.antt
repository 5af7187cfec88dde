-- ===== src/WmString/Offset.antt =====
-- What appending leaves of a string: its offset, and with it what is still to be read from there.
use warrior_man.Prelude.{
  ℕ, ◌+◌, ◌*◌, ◌%◌, ◌^◌, ◌<◌, ◌≡◌, inl, inr, arith, subst, Bool, true, false, Option, some, List,
  ◌++◌, length, Option-cases,
}
use warrior_man.WmString.{Allocator, WmString, extend, make_room, append_ptr}
use warrior_man.WmString.Room.{IsAllocator, IsValid, text}
use warrior_man.WmString.Text.{Wrote, append_ptr_lem}

-- The string that an operation hands back has the offset `n`.
abbrev HasOffset : ℕ → Option (WmString × Bool) → Type 0
HasOffset n r = (s : WmString) (b : Bool) → r ≡ some (s, b) → s.offset ≡ n

module _ (heap : Allocator) where
  extend-offset : (s : WmString) (n : ℕ) → HasOffset s.offset (extend heap s n)
  unfolding extend
  extend-offset s n s' b h = ground arith

  make_room-offset : (s : WmString) (n : ℕ) → HasOffset s.offset (make_room heap s n)
  unfolding make_room
  make_room-offset s n s' b h = ground (arith, extend-offset s (n * 2 % 2 ^ 64) s' b)

  pub append_ptr-offset : (s : WmString) (src : List ℕ) → HasOffset s.offset (append_ptr heap s src)
  unfolding append_ptr
  append_ptr-offset s src s' b h =
      elim (Option-cases (make_room heap s ((s.length + length src) % 2 ^ 64))) [
        | inl e ↦ ground (arith, e)
        | inr ((t, false), e) ↦
            ground (arith, e, make_room-offset s ((s.length + length src) % 2 ^ 64) t false e)
        | inr ((t, true), e) ↦
            ground (arith, e, make_room-offset s ((s.length + length src) % 2 ^ 64) t true e)
      ]

-- What an append that succeeds makes of a valid string.
pub record Appended (s s' : WmString) (src : List ℕ) : Type 0 where
  pub valid : IsValid s'
  pub same_offset : s'.offset ≡ s.offset
  pub longer : text s' ≡ text s ++ src

pub append_ptr-Appended :
    (heap : Allocator) (lawful : IsAllocator heap) (s s' : WmString) (src : List ℕ)
    → IsValid s
    → s.length + length src < 2 ^ 62
    → append_ptr heap s src ≡ some (s', true)
    → Appended s s' src
unfolding Wrote
append_ptr-Appended heap lawful s s' src v small h =
    elim (append_ptr_lem heap lawful s src v small) [
      | inl (x, dry) ↦ ground (arith, x, h)
      | inr (t, x, vt, et) ↦
          let e : t ≡ s' = ground (arith, x, h) in
          subst (λ z. Appended s z src) e
            (record {
              valid = vt;
              same_offset = append_ptr-offset heap s src t true x;
              longer = et;
            })
    ]
