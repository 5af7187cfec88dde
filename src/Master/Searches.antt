-- ===== src/Master/Searches.antt =====
-- Searches in slots of which it is known what they hold.
use warrior_man.Prelude.{
  ℕ, zero, suc, ◌<◌, ◌≡◌, refl, ap, arith, true, false, none, some, List, [], ◌∷◌, ◌++◌, map,
  replicate, All, Bool-cases, inl, inr,
}
use warrior_man.Master.{next_pid, still}
use warrior_man.Master.Slots.{has_pid, clear_pid}
use warrior_man.Master.Filled.{free_slots, fill}

abbrev pub Positive : List ℕ → Type 0
Positive = All (λ p. 0 < p)

pub clear_pid-append :
    (p : ℕ) (front back : List ℕ)
    → has_pid p front ≡ false
    → clear_pid p (front ++ p ∷ back) ≡ front ++ 0 ∷ back
unfolding clear_pid has_pid
clear_pid-append p [] back h = ground arith
clear_pid-append p (x ∷ front) back h = ground (arith, h, clear_pid-append p front back)

pub has_pid-append : (p : ℕ) (front back : List ℕ) → has_pid p (front ++ p ∷ back) ≡ true
unfolding has_pid
has_pid-append p [] back = ground arith
has_pid-append p (x ∷ front) back = ground (arith, has_pid-append p front back)

pub has_pid-zeros : (p n : ℕ) → 0 < p → has_pid p (replicate n 0) ≡ false
unfolding has_pid
has_pid-zeros p zero h = refl
has_pid-zeros p (suc n) h = ground (arith, has_pid-zeros p n h)

pub has_pid-front :
    (p : ℕ) (front back : List ℕ) → has_pid p back ≡ true → has_pid p (front ++ back) ≡ true
unfolding has_pid
has_pid-front p [] back h = h
has_pid-front p (x ∷ front) back h = ground (arith, has_pid-front p front back h)

-- A full back, and a full front with one free slot behind it.
pub fill-full : (back : List ℕ) → Positive back → (fill back [] ≡ back) × (free_slots back ≡ 0)
unfolding fill free_slots
fill-full [] a = (refl, refl)
fill-full (zero ∷ back) a = absurd (omega (arith, a.0))
fill-full (suc p ∷ back) a = let (e, f) = fill-full back a.1 in (ap (λ t. suc p ∷ t) e, f)

pub fill-one :
    (q : ℕ) (front back : List ℕ)
    → Positive front
    → Positive back
    → (fill (front ++ 0 ∷ back) (q ∷ []) ≡ front ++ q ∷ back) × (free_slots (front ++ 0 ∷ back) ≡ 1)
unfolding fill free_slots
fill-one q [] back a b = let (e, f) = fill-full back b in (ap (λ t. q ∷ t) e, ap suc f)
fill-one q (zero ∷ front) back a b = absurd (omega (arith, a.0))
fill-one q (suc p ∷ front) back a b =
    let (e, f) = fill-one q front back a.1 b in (ap (λ t. suc p ∷ t) e, f)

still_0 : (pids : List ℕ) → still pids 0 ≡ 0
still_0 pids = elim (Bool-cases (has_pid 0 pids)) [ inl e ↦ rw e refl | inr e ↦ rw e refl ]

still_listed :
    (pids left : List ℕ) → All (λ p. has_pid p pids ≡ true) left → map (still pids) left ≡ left
still_listed pids [] a = refl
still_listed pids (p ∷ left) a = rw (a.0, still_listed pids left a.1) refl

-- The processes left are all there.
pub map-still :
    (pids left : List ℕ) (n : ℕ)
    → All (λ p. has_pid p pids ≡ true) left
    → map (still pids) (replicate n 0 ++ left) ≡ replicate n 0 ++ left
map-still pids left zero a = still_listed pids left a
map-still pids left (suc n) a = rw (still_0 pids, map-still pids left n a) refl

-- The first of them.
pub next_pid-none : (n : ℕ) → next_pid (replicate n 0 ++ []) ≡ none
unfolding next_pid
next_pid-none zero = refl
next_pid-none (suc n) = rw (next_pid, next_pid-none n) refl

pub next_pid-some :
    (n p : ℕ) (left : List ℕ) → next_pid (replicate n 0 ++ suc p ∷ left) ≡ some (n, suc p)
unfolding next_pid
next_pid-some zero p left = refl
next_pid-some (suc n) p left = rw (next_pid, next_pid-some n p left) refl

pub zeros-snoc : (n : ℕ) (left : List ℕ) → replicate n 0 ++ 0 ∷ left ≡ replicate (suc n) 0 ++ left
zeros-snoc zero left = refl
zeros-snoc (suc n) left = ap (λ t. 0 ∷ t) (zeros-snoc n left)
