-- ===== src/Ring/Remove.antt =====
-- `wmList_remote` takes a node out of its list, `wmList_is_empty` tells an empty one, and `wmList_init` makes one.
use warrior_man.Prelude.{
  ℕ, ◌≡◌, refl, sym, ap, subst, ◌∙◌, arith, true, false, List, [], ◌∷◌, ◌++◌, ◌==◌,
}
use warrior_man.Ring.{Memory, put, set_next, set_prev, init, remote}
use warrior_man.Ring.Chain.{
  mem, Distinct, Linked, IsRing, put_same, put_other, mem-front, mem-cons, ne_flip, ne-mem,
  mem-prev, Linked-set_next, Linked-set_prev,
}

-- `node` taken out from between `p` and `n`.
abbrev pub without : Memory → ℕ → ℕ → ℕ → Memory
without m p n node = init (set_next (set_prev m n p) p n) node

pub remote-without :
    (m : Memory) (node : ℕ)
    → (node == m.next node) ≡ false
    → remote m node ≡ without m (m.prev node) (m.next node) node
unfolding remote
remote-without m node h =
    let e = put_other m.prev (m.next node) (m.prev node) node h in
    ap (λ k. init (set_next (set_prev m (m.next node) (m.prev node)) k (m.next node)) node) e

pub Linked-without :
    (m : Memory) (p n node s : ℕ) (xs : List ℕ) (e : ℕ)
    → mem node (s ∷ xs) ≡ false
    → mem node (e ∷ xs) ≡ false
    → mem p (s ∷ xs) ≡ false
    → mem n (e ∷ xs) ≡ false
    → Linked m s xs e
    → Linked (without m p n node) s xs e
Linked-without m p n node s xs e hs he hp hn l =
    let m₁ = set_prev m n p in
    let m₂ = set_next m₁ p n in
    Linked-set_next (set_prev m₂ node node) node node s xs e hs (
      Linked-set_prev m₂ node node s xs e he
        (Linked-set_next m₁ p n s xs e hp (Linked-set_prev m n p s xs e hn l)))

mem-middle :
    (k node : ℕ) (xs ys : List ℕ) → mem k (xs ++ node ∷ ys) ≡ false → mem k (xs ++ ys) ≡ false
unfolding mem
mem-middle k node [] ys h = (mem-front k node ys h).1
mem-middle k node (x ∷ xs) ys h =
    let f = mem-front k x (xs ++ node ∷ ys) h in
    mem-cons k x (xs ++ ys) f.0 (mem-middle k node xs ys f.1)

Distinct-middle : (node : ℕ) (xs ys : List ℕ) → Distinct (xs ++ node ∷ ys) → Distinct (xs ++ ys)
Distinct-middle node [] ys d = d.1
Distinct-middle node (x ∷ xs) ys d = (mem-middle x node xs ys d.0, Distinct-middle node xs ys d.1)

mem-here : (k node : ℕ) (xs ys : List ℕ) → mem k (xs ++ node ∷ ys) ≡ false → (k == node) ≡ false
unfolding mem
mem-here k node [] ys h = (mem-front k node ys h).0
mem-here k node (x ∷ xs) ys h = mem-here k node xs ys (mem-front k x (xs ++ node ∷ ys) h).1

mem-behind : (k node : ℕ) (xs ys : List ℕ) → mem k (xs ++ node ∷ ys) ≡ false → mem k ys ≡ false
unfolding mem
mem-behind k node [] ys h = (mem-front k node ys h).1
mem-behind k node (x ∷ xs) ys h = mem-behind k node xs ys (mem-front k x (xs ++ node ∷ ys) h).1

mem-before : (k node : ℕ) (xs ys : List ℕ) → mem k (xs ++ node ∷ ys) ≡ false → mem k xs ≡ false
unfolding mem
mem-before k node [] ys h = refl
mem-before k node (x ∷ xs) ys h =
    let f = mem-front k x (xs ++ node ∷ ys) h in mem-cons k x xs f.0 (mem-before k node xs ys f.1)

mem-own : (node : ℕ) (xs ys : List ℕ) → Distinct (xs ++ node ∷ ys) → mem node ys ≡ false
mem-own node [] ys d = d.0
mem-own node (x ∷ xs) ys d = mem-own node xs ys d.1

-- The way up to a node of it, and the node after that.
Linked-left :
    (m : Memory) (a : ℕ) (xs : List ℕ) (node : ℕ) (ys : List ℕ) (b : ℕ)
    → Linked m a (xs ++ node ∷ ys) b
    → Linked m a xs node
Linked-left m a [] node ys b l = (l.0, l.1)
Linked-left m a (x ∷ xs) node ys b l = (l.0, l.1, Linked-left m x xs node ys b l.2)

Linked-right :
    (m : Memory) (a : ℕ) (xs : List ℕ) (node : ℕ) (ys : List ℕ) (b : ℕ)
    → Linked m a (xs ++ node ∷ ys) b
    → Linked m node ys b
Linked-right m a [] node ys b l = l.2
Linked-right m a (x ∷ xs) node ys b l = Linked-right m x xs node ys b l.2

pub next-mem :
    (m : Memory) (a : ℕ) (ys : List ℕ) (b : ℕ) → Linked m a ys b → mem (m.next a) (b ∷ ys) ≡ true
unfolding mem
next-mem m a [] b l = ground (arith, l.0)
next-mem m a (y ∷ ys) b l = ground (arith, l.0)

-- The way without the node.
cut_out :
    (m : Memory) (a : ℕ) (xs : List ℕ) (node : ℕ) (ys : List ℕ) (b : ℕ)
    → Linked m a (xs ++ node ∷ ys) b
    → Distinct (a ∷ (xs ++ node ∷ ys))
    → mem b (xs ++ node ∷ ys) ≡ false
    → Linked (without m (m.prev node) (m.next node) node) a (xs ++ ys) b
cut_out m a [] node ys b l d h =
    subst (λ p. Linked (without m p (m.next node) node) a ys b) (sym l.1) (front ys l.2 d h)
  where
    an : (ys : List ℕ) → Distinct (a ∷ node ∷ ys) → (a == node) ≡ false
    an ys d = (mem-front a node ys d.0).0

    step :
        (n : ℕ)
        → (a == node) ≡ false
        → (n == node) ≡ false
        → ((without m a n node).next a ≡ n) × ((without m a n node).prev n ≡ a)
    step n h g = ground (arith, h, g)

    front :
        (ys : List ℕ)
        → Linked m node ys b
        → Distinct (a ∷ node ∷ ys)
        → mem b (node ∷ ys) ≡ false
        → Linked (without m a (m.next node) node) a ys b
    front [] l d h =
        subst (λ n. Linked (without m a n node) a [] b) (sym l.0)
          (step b (an [] d) (mem-front b node [] h).0)
    front (y ∷ ys) l d h =
        let nd = mem-front node y ys d.1.0 in
        let hb = mem-front b node (y ∷ ys) h in
        let hy = mem-front b y ys hb.1 in
        let k = step y (an (y ∷ ys) d) (ne_flip node y nd.0) in
        subst (λ n. Linked (without m a n node) a (y ∷ ys) b) (sym l.0)
          (
            k.0,
            k.1,
            Linked-without m a y node y ys b d.1.0 (mem-cons node b ys (ne_flip b node hb.0) nd.1)
                (mem-front a node (y ∷ ys) d.0).1 (mem-cons y b ys (ne_flip b y hy.0) d.1.1.0) l.2,
          )
cut_out m a (x ∷ xs) node ys b l d h =
    let hx = mem-front b x (xs ++ node ∷ ys) h in
    let before = mem-prev m x xs node (Linked-left m x xs node ys b l.2) in
    let behind = next-mem m node ys b (Linked-right m x xs node ys b l.2) in
    let xb = mem-cons x b ys (ne_flip b x hx.0) (mem-behind x node xs ys d.1.0) in
    let da = mem-front a x (xs ++ node ∷ ys) d.0 in
    let ap_ =
      ne-mem a (m.prev node) (x ∷ xs) before
        (mem-cons a x xs da.0 (mem-before a node xs ys da.1)) in
    let xn = ne-mem x (m.next node) (b ∷ ys) behind xb in
    (
      step_next ap_ (mem-here a node xs ys da.1) ∙ l.0,
      step_prev xn (mem-here x node xs ys d.1.0) ∙ l.1,
      cut_out m x xs node ys b l.2 d.1 hx.1,
    )
  where
    step_next :
        (a == m.prev node) ≡ false
        → (a == node) ≡ false
        → (without m (m.prev node) (m.next node) node).next a ≡ m.next a
    step_next h g = ground (arith, h, g)

    step_prev :
        (x == m.next node) ≡ false
        → (x == node) ≡ false
        → (without m (m.prev node) (m.next node) node).prev x ≡ m.prev x
    step_prev h g = ground (arith, h, g)

-- A node taken out of a list of which it is one: the list has the others, in their order, and the node is an
-- empty list of its own.
pub remote_lem :
    (m : Memory) (head : ℕ) (xs : List ℕ) (node : ℕ) (ys : List ℕ)
    → IsRing m head (xs ++ node ∷ ys)
    → IsRing (remote m node) head (xs ++ ys) × IsRing (remote m node) node []
unfolding mem
remote_lem m head xs node ys r =
    let behind = next-mem m node ys head (Linked-right m head xs node ys head r.linked) in
    let own =
      mem-cons node head ys (ne_flip head node (mem-here head node xs ys r.distinct.0))
        (mem-own node xs ys r.distinct.1) in
    let apart = ne-mem node (m.next node) (head ∷ ys) behind own in
    subst (λ m'. IsRing m' head (xs ++ ys) × IsRing m' node []) (sym (remote-without m node apart))
      (
        record {
          linked = cut_out m head xs node ys head r.linked r.distinct r.distinct.0;
          distinct = Distinct-middle node (head ∷ xs) ys r.distinct;
        },
        record {
          linked = (
            put_same (put m.next (m.prev node) (m.next node)) node node,
            put_same (put m.prev (m.next node) (m.prev node)) node node,
          );
          distinct = (refl, tt);
        },
      )
