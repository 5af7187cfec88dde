-- ===== src/Ring/Chain.antt =====
-- What it means that pointers link a sequence of nodes, and what an assignment elsewhere leaves of that.
use warrior_man.Prelude.{
  ℕ, ◌≡◌, refl, sym, subst, All, eq_of_==, ◌∙◌, arith, Bool, true, false, ◌||◌, List, [], ◌∷◌, ◌++◌,
  ◌==◌, ==_self, Bool-cases, inl, inr,
}
use warrior_man.Ring.{Memory, put, set_next, set_prev}

unfoldable pub mem : ℕ → List ℕ → Bool
mem x [] = false
mem x (y ∷ ys) = x == y || mem x ys

-- No node twice.
abbrev pub Distinct : List ℕ → Type 0
Distinct [] = Unit {0}
Distinct (x ∷ xs) = (mem x xs ≡ false) × Distinct xs

-- The way from `a` by the nodes `xs` to `b`, by `next`, and back by `prev`.
abbrev pub Linked : Memory → ℕ → List ℕ → ℕ → Type 0
Linked m a [] b = (m.next a ≡ b) × (m.prev b ≡ a)
Linked m a (x ∷ xs) b = (m.next a ≡ x) × (m.prev x ≡ a) × Linked m x xs b

-- The list behind `head` has the nodes `xs`, in that order, and no node twice.
pub record IsRing (m : Memory) (head : ℕ) (xs : List ℕ) : Type 0 where
  pub linked : Linked m head xs head
  pub distinct : Distinct (head ∷ xs)

pub put_same : (f : ℕ → ℕ) (a v : ℕ) → put f a v a ≡ v
put_same f a v = rw (==_self a) refl

pub put_other : (f : ℕ → ℕ) (a v x : ℕ) → (x == a) ≡ false → put f a v x ≡ f x
put_other f a v x h = rw h refl

-- A node that is none of the list is not the one at its front, and is none of the rest.
pub mem-front :
    (k x : ℕ) (xs : List ℕ) → mem k (x ∷ xs) ≡ false → ((k == x) ≡ false) × (mem k xs ≡ false)
unfolding mem
mem-front k x xs h = ground (arith, h)

pub ne_flip : (a b : ℕ) → (a == b) ≡ false → (b == a) ≡ false
ne_flip a b h = ground (arith, h)

-- An assignment to the field of a node that the way does not use.
pub Linked-set_next :
    (m : Memory) (k v a : ℕ) (xs : List ℕ) (b : ℕ)
    → mem k (a ∷ xs) ≡ false
    → Linked m a xs b
    → Linked (set_next m k v) a xs b
unfolding mem
Linked-set_next m k v a [] b h l =
    (put_other m.next k v a (ne_flip k a (mem-front k a [] h).0) ∙ l.0, l.1)
Linked-set_next m k v a (x ∷ xs) b h l = (
  put_other m.next k v a (ne_flip k a (mem-front k a (x ∷ xs) h).0) ∙ l.0,
  l.1,
  Linked-set_next m k v x xs b (mem-front k a (x ∷ xs) h).1 l.2,
)

pub Linked-set_prev :
    (m : Memory) (k v a : ℕ) (xs : List ℕ) (b : ℕ)
    → mem k (b ∷ xs) ≡ false
    → Linked m a xs b
    → Linked (set_prev m k v) a xs b
unfolding mem
Linked-set_prev m k v a [] b h l =
    (l.0, put_other m.prev k v b (ne_flip k b (mem-front k b [] h).0) ∙ l.1)
Linked-set_prev m k v a (x ∷ xs) b h l =
    let g = mem-front k b (x ∷ xs) h in
    let f = mem-front k x xs g.1 in
    (
      l.0,
      put_other m.prev k v x (ne_flip k x f.0) ∙ l.1,
      Linked-set_prev m k v x xs b (ground (arith, g.0, f.1)) l.2,
    )

pub ne-mem : (a l : ℕ) (xs : List ℕ) → mem l xs ≡ true → mem a xs ≡ false → (a == l) ≡ false
unfolding mem
ne-mem a l [] h g = ground (arith, h)
ne-mem a l (x ∷ xs) h g = ground (arith, h, g, ne-mem a l xs)

-- The node before the end is on the way.
pub mem-prev :
    (m : Memory) (a : ℕ) (xs : List ℕ) (b : ℕ) → Linked m a xs b → mem (m.prev b) (a ∷ xs) ≡ true
unfolding mem
mem-prev m a [] b l = ground (arith, l.1)
mem-prev m a (x ∷ xs) b l = ground (arith, mem-prev m x xs b l.2)

pub mem-cons :
    (k x : ℕ) (xs : List ℕ) → (k == x) ≡ false → mem k xs ≡ false → mem k (x ∷ xs) ≡ false
unfolding mem
mem-cons k x xs h g = ground (arith, h, g)

pub mem-snoc :
    (k : ℕ) (xs : List ℕ) (x : ℕ)
    → mem k xs ≡ false
    → (k == x) ≡ false
    → mem k (xs ++ x ∷ []) ≡ false
unfolding mem
mem-snoc k [] x h g = ground (arith, g)
mem-snoc k (y ∷ ys) x h g = ground (arith, h, mem-snoc k ys x)

pub Distinct-snoc : (xs : List ℕ) (x : ℕ) → Distinct xs → mem x xs ≡ false → Distinct (xs ++ x ∷ [])
unfolding mem
Distinct-snoc [] x d h = (refl, tt)
Distinct-snoc (y ∷ ys) x d h =
    let f = mem-front x y ys h in
    (mem-snoc y ys x d.0 (ne_flip x y f.0), Distinct-snoc ys x d.1 f.1)

-- No node is in both.
abbrev pub IsApart : List ℕ → List ℕ → Type 0
IsApart xs ys = All (λ x. mem x ys ≡ false) xs

pub mem-apart : (k : ℕ) (xs ys : List ℕ) → mem k xs ≡ true → IsApart xs ys → mem k ys ≡ false
unfolding mem
mem-apart k [] ys h a = absurd (ground (arith, h))
mem-apart k (x ∷ xs) ys h a = elim (Bool-cases (k == x)) [
  | inl e ↦ subst (λ z. mem z ys ≡ false) (sym (eq_of_== k x e)) a.0
  | inr e ↦ mem-apart k xs ys (ground (arith, h, e)) a.1
]
