-- ===== src/Ring/Insert.antt =====
-- `wmList_add_front` and `wmList_add_back`: a node put between two that follow one another.
use warrior_man.Prelude.{ℕ, ◌≡◌, sym, ap, subst, ◌∙◌, arith, false, List, [], ◌∷◌, ◌++◌, ◌==◌}
use warrior_man.Ring.{Memory, set_next, set_prev, add_front, add_back}
use warrior_man.Ring.Chain.{
  mem, Distinct, Linked, IsRing, put_same, put_other, mem-front, mem-cons, ne-mem, mem-prev,
  Distinct-snoc, ne_flip, Linked-set_next, Linked-set_prev,
}

-- `node` between `a` and `b`.
abbrev pub between : Memory → ℕ → ℕ → ℕ → Memory
between m a b node = set_next (set_prev (set_next (set_prev m node a) node b) b node) a node

add_front-between :
    (m : Memory) (head node : ℕ)
    → (node == head) ≡ false
    → add_front m head node ≡ between m head (m.next head) node
unfolding add_front
add_front-between m head node h =
    let e = put_other m.next node (m.next head) head (ne_flip node head h) in
    ap
      (λ k.
        set_next (set_prev (set_next (set_prev m node head) node (m.next head)) k node) head node)
      e

add_back-between :
    (m : Memory) (head node : ℕ) → add_back m head node ≡ between m (m.prev head) head node
unfolding add_back
add_back-between m head node =
    let e = put_same m.prev node (m.prev head) in
    ap
      (λ k.
        set_prev (set_next (set_next (set_prev m node (m.prev head)) node head) k node) head node)
      e

-- What the four assignments leave of a way that they do not touch.
pub Linked-between :
    (m : Memory) (a b node s : ℕ) (xs : List ℕ) (e : ℕ)
    → mem node (s ∷ xs) ≡ false
    → mem node (e ∷ xs) ≡ false
    → mem a (s ∷ xs) ≡ false
    → mem b (e ∷ xs) ≡ false
    → Linked m s xs e
    → Linked (between m a b node) s xs e
Linked-between m a b node s xs e hs he ha hb l =
    let m₁ = set_prev m node a in
    let m₂ = set_next m₁ node b in
    let m₃ = set_prev m₂ b node in
    Linked-set_next m₃ a node s xs e ha (
      Linked-set_prev m₂ b node s xs e hb
        (Linked-set_next m₁ node b s xs e hs (Linked-set_prev m node a s xs e he l)))

-- The new links.
links :
    (m : Memory) (a b node : ℕ)
    → (node == a) ≡ false
    → (node == b) ≡ false
    → ((between m a b node).next a ≡ node)
      × ((between m a b node).prev node ≡ a)
      × ((between m a b node).next node ≡ b)
      × ((between m a b node).prev b ≡ node)
links m a b node ha hb = ground (arith, ha, hb)

-- A node that is not in the list, put in front: the list has it first, and then the nodes that it had.
pub add_front_lem :
    (m : Memory) (head : ℕ) (xs : List ℕ) (node : ℕ)
    → IsRing m head xs
    → mem node (head ∷ xs) ≡ false
    → IsRing (add_front m head node) head (node ∷ xs)
add_front_lem m head xs node r h =
    let f = mem-front node head xs h in
    subst (λ m'. IsRing m' head (node ∷ xs)) (sym (add_front-between m head node f.0))
      (record {
        linked = front xs r.linked r.distinct h;
        distinct =
            (mem-cons head node xs (ne_flip node head f.0) r.distinct.0, (f.1, r.distinct.1));
      })
  where
    front :
        (xs : List ℕ)
        → Linked m head xs head
        → Distinct (head ∷ xs)
        → mem node (head ∷ xs) ≡ false
        → Linked (between m head (m.next head) node) head (node ∷ xs) head
    front [] l d h =
        let f = mem-front node head [] h in
        let k = links m head head node f.0 f.0 in
        subst (λ b. Linked (between m head b node) head (node ∷ []) head) (sym l.0)
          (k.0, k.1, (k.2, k.3))
    front (x ∷ xs) l d h =
        let f = mem-front node head (x ∷ xs) h in
        let g = mem-front node x xs f.1 in
        let k = links m head x node f.0 g.0 in
        let dx = mem-front head x xs d.0 in
        subst (λ b. Linked (between m head b node) head (node ∷ x ∷ xs) head) (sym l.0)
          (
            k.0,
            k.1,
            (
              k.2,
              k.3,
              Linked-between m head x node x xs head f.1 (mem-cons node head xs f.0 g.1) d.0
                  (mem-cons x head xs (ne_flip head x dx.0) d.1.0) l.2,
            ),
          )

-- A node put before the end of a way.
back :
    (m : Memory) (a : ℕ) (xs : List ℕ) (b node : ℕ)
    → Linked m a xs b
    → Distinct (a ∷ xs)
    → mem b xs ≡ false
    → mem node (a ∷ xs) ≡ false
    → (node == b) ≡ false
    → Linked (between m (m.prev b) b node) a (xs ++ node ∷ []) b
back m a [] b node l d hb hn hnb =
    let f = mem-front node a [] hn in
    let k = links m a b node f.0 hnb in
    subst (λ c. Linked (between m c b node) a (node ∷ []) b) (sym l.1) (k.0, k.1, (k.2, k.3))
back m a (x ∷ xs) b node l d hb hn hnb =
    let f = mem-front node a (x ∷ xs) hn in
    let g = mem-front node x xs f.1 in
    let hx = mem-front b x xs hb in
    let last = ne-mem a (m.prev b) (x ∷ xs) (mem-prev m x xs b l.2) d.0 in
    (
      step_next last (ne_flip node a f.0) ∙ l.0,
      step_prev (ne_flip node x g.0) (ne_flip b x hx.0) ∙ l.1,
      back m x xs b node l.2 d.1 hx.1 f.1 hnb,
    )
  where
    step_next :
        (a == m.prev b) ≡ false
        → (a == node) ≡ false
        → (between m (m.prev b) b node).next a ≡ m.next a
    step_next h g = ground (arith, h, g)

    step_prev :
        (x == node) ≡ false → (x == b) ≡ false → (between m (m.prev b) b node).prev x ≡ m.prev x
    step_prev h g = ground (arith, h, g)

-- A node that is not in the list, put at the back: the list has it last, behind the nodes that it had.
pub add_back_lem :
    (m : Memory) (head : ℕ) (xs : List ℕ) (node : ℕ)
    → IsRing m head xs
    → mem node (head ∷ xs) ≡ false
    → IsRing (add_back m head node) head (xs ++ node ∷ [])
add_back_lem m head xs node r h =
    let f = mem-front node head xs h in
    subst (λ m'. IsRing m' head (xs ++ node ∷ [])) (sym (add_back-between m head node))
      (record {
        linked = back m head xs head node r.linked r.distinct r.distinct.0 h f.0;
        distinct = Distinct-snoc (head ∷ xs) node r.distinct h;
      })
