-- ===== src/Coroutine/Stack.antt =====
-- What the scheduler promises: the running coroutines are a stack, each resumed by the one below it,
-- and the others are suspended.
use warrior_man.Prelude.{
  ℕ, suc, ◌≡◌, inl, inr, arith, refl, sym, ap, ◌∙◌, Bool, true, false, not, ◌&&◌, ◌||◌, Option,
  none, some, List, [], ◌∷◌, length, ◌==◌, if◌then◌else◌, Bool-cases, eq_of_==, ne_of_==,
}
use warrior_man.Coroutine.{
  Event, creates, yields, resumes, finishes, computes, has, remove, update, next_cid, name_of,
}

pub record Stacks : Type 0 where
  pub running : List ℕ
  pub suspended : List ℕ
  pub last : ℕ

-- The coroutine on top; 0 is the main one, below all others.
abbrev pub top : List ℕ → ℕ
top [] = 0
top (c ∷ cs) = c

abbrev pub stack_create : Stacks → Bool → Stacks
stack_create a valid =
    let cid = next_cid a.last in
    let t = name_of cid in
    if valid
    then (if has t a.running || has t a.suspended
        then record a { last = cid }
        else record a { last = cid; running = t ∷ a.running })
    else a

abbrev pub stack_yield : Stacks → List ℕ → Option Stacks
stack_yield a [] = none
stack_yield a (c ∷ rs) = some (record a { running = rs; suspended = c ∷ a.suspended })

abbrev pub stack_resume : Stacks → ℕ → Option Stacks
stack_resume a t =
    if top a.running == t
    then none
    else if has t a.running || has t a.suspended
    then some (
        if has t a.suspended
        then record a { running = t ∷ a.running; suspended = remove t a.suspended }
        else a)
    else none

abbrev pub stack_finish : Stacks → List ℕ → Option Stacks
stack_finish a [] = none
stack_finish a (c ∷ rs) = some (record a { running = rs })

unfoldable pub stack_step : Stacks → Event → Option Stacks
stack_step a (creates valid page) = some (stack_create a valid)
stack_step a yields = stack_yield a a.running
stack_step a (resumes t) = stack_resume a t
stack_step a finishes = stack_finish a a.running
stack_step a (computes v) = some a

-- No name twice.
abbrev pub Distinct : List ℕ → Type 0
Distinct [] = Unit
Distinct (c ∷ cs) = (has c cs ≡ false) × Distinct cs

-- Each coroutine's origin is the next one below, and the last one's is the main one.
abbrev pub Chain : (ℕ → ℕ) → List ℕ → Type 0
Chain o [] = Unit
Chain o (c ∷ cs) = (o c ≡ top cs) × Chain o cs

pub Chain-update :
    (o : ℕ → ℕ) (t v : ℕ) (cs : List ℕ) → has t cs ≡ false → Chain o cs → Chain (update o t v) cs
Chain-update o t v [] h c = tt
Chain-update o t v (x ∷ cs) h c = elim (Bool-cases (t == x)) [
  | inl e ↦ absurd (ground (arith, h, e))
  | inr e ↦
      let ne : (x == t) ≡ false = ground (arith, ne_of_== t x e) in
      let h' : has t cs ≡ false = ground (arith, h, e) in (rw ne c.0, Chain-update o t v cs h' c.1)
]

pub has-remove : (x t : ℕ) (cs : List ℕ) → has x (remove t cs) ≡ (not (x == t) && has x cs)
has-remove x t [] = ground arith
has-remove x t (c ∷ cs) = ground (arith, has-remove x t cs)

pub remove-lacks : (t : ℕ) (cs : List ℕ) → has t cs ≡ false → remove t cs ≡ cs
remove-lacks t [] h = refl
remove-lacks t (c ∷ cs) h = elim (Bool-cases (t == c)) [
  | inl e ↦ absurd (ground (arith, h, e))
  | inr e ↦
      let ne : (c == t) ≡ false = ground (arith, ne_of_== t c e) in
      let h' : has t cs ≡ false = ground (arith, h, e) in
      rw ne (ap (λ xs. c ∷ xs) (remove-lacks t cs h'))
]

pub remove-Distinct : (t : ℕ) (cs : List ℕ) → Distinct cs → Distinct (remove t cs)
remove-Distinct t [] d = tt
remove-Distinct t (c ∷ cs) d = elim (Bool-cases (c == t)) [
  | inl e ↦ rw e (remove-Distinct t cs d.1)
  | inr e ↦
      let h : has c (remove t cs) ≡ false = has-remove c t cs ∙ rw (d.0, e) refl in
      rw e (h, remove-Distinct t cs d.1)
]

pub length-remove :
    (t : ℕ) (cs : List ℕ) → Distinct cs → has t cs ≡ true → suc (length (remove t cs)) ≡ length cs
length-remove t [] d h = absurd (ground (arith, h))
length-remove t (c ∷ cs) d h = elim (Bool-cases (c == t)) [
  | inl e ↦
      let same = eq_of_== c t e in
      let gone : has t cs ≡ false = ap (λ k. has k cs) (sym same) ∙ d.0 in
      rw e (ap suc (ap length (remove-lacks t cs gone)))
  | inr e ↦
      let ne : (t == c) ≡ false = ground (arith, ne_of_== c t e) in
      let h' : has t cs ≡ true = ground (arith, h, ne) in rw e (ap suc (length-remove t cs d.1 h'))
]
