-- ===== src/Ring/Refine.antt =====
-- A run of the list operations, against the sequence that it stands for.
use warrior_man.Prelude.{
  ℕ, ◌≡◌, refl, sym, ap, subst, ◌∙◌, arith, true, false, List, [], ◌∷◌, ◌++◌, ◌==◌, ==_self,
  eq_of_==, if◌then◌else◌, Bool-cases, inl, inr,
}
use warrior_man.Queue
use warrior_man.Ring.{Memory, init, add_front, add_back, remote, is_empty}
use warrior_man.Ring.Chain.{mem, IsRing, mem-front, put_same}
use warrior_man.Ring.Insert.{add_front_lem, add_back_lem}
use warrior_man.Ring.Remove.{remote_lem}

-- What is done to the list behind a head.
pub data Op : Type 0 where
  puts_front : ℕ → Op
  puts_back : ℕ → Op
  takes_out : ℕ → Op

unfoldable pub perform : ℕ → Memory → List Op → Memory
perform head m [] = m
perform head m (puts_front node ∷ ops) = perform head (add_front m head node) ops
perform head m (puts_back node ∷ ops) = perform head (add_back m head node) ops
perform head m (takes_out node ∷ ops) = perform head (remote m node) ops

-- The first of the nodes that is `node` is left out.
unfoldable pub leave_out : ℕ → List ℕ → List ℕ
leave_out node [] = []
leave_out node (x ∷ xs) = if node == x then xs else x ∷ leave_out node xs

-- The sequence.
unfoldable pub sequence : List ℕ → List Op → List ℕ
sequence xs [] = xs
sequence xs (puts_front node ∷ ops) = sequence (node ∷ xs) ops
sequence xs (puts_back node ∷ ops) = sequence (xs ++ node ∷ []) ops
sequence xs (takes_out node ∷ ops) = sequence (leave_out node xs) ops

-- A node is put only while it is in no place of the list, and taken out only while it is in one.
unfoldable pub IsLegal : ℕ → List ℕ → List Op → Type 0
IsLegal head xs [] = Unit
IsLegal head xs (puts_front node ∷ ops) =
    (mem node (head ∷ xs) ≡ false) × IsLegal head (node ∷ xs) ops
IsLegal head xs (puts_back node ∷ ops) =
    (mem node (head ∷ xs) ≡ false) × IsLegal head (xs ++ node ∷ []) ops
IsLegal head xs (takes_out node ∷ ops) = (mem node xs ≡ true) × IsLegal head (leave_out node xs) ops

split :
    (node : ℕ) (xs : List ℕ)
    → mem node xs ≡ true
    → (front : List ℕ) × ((back : List ℕ) × (xs ≡ front ++ node ∷ back)
        × (leave_out node xs ≡ front ++ back))
unfolding mem leave_out
split node [] h = absurd (ground (arith, h))
split node (x ∷ xs) h = elim (Bool-cases (node == x)) [
  | inl e ↦ ([], (xs, ap (λ z. z ∷ xs) (sym (eq_of_== node x e)), rw e refl))
  | inr e ↦
      let (front, (back, p, q)) = split node xs (ground (arith, h, e)) in
      (x ∷ front, (back, ap (λ t. x ∷ t) p, rw e (ap (λ t. x ∷ t) q)))
]

remote-leave_out :
    (m : Memory) (head : ℕ) (xs : List ℕ) (node : ℕ)
    → IsRing m head xs
    → mem node xs ≡ true
    → IsRing (remote m node) head (leave_out node xs)
remote-leave_out m head xs node r h =
    let (front, (back, p, q)) = split node xs h in
    subst (IsRing (remote m node) head) (sym q)
      (remote_lem m head front node back (subst (IsRing m head) p r)).0

-- Any run of insertions at the front and at the back and of removals, on a list that the pointers link,
-- in which a node is put only while it is not in the list and taken out only while it is: after it the pointers link, forth and
-- back, the sequence that comes of those operations, with no node twice.
pub perform_lem :
    (head : ℕ) (m : Memory) (xs : List ℕ) (ops : List Op)
    → IsRing m head xs
    → IsLegal head xs ops
    → IsRing (perform head m ops) head (sequence xs ops)
unfolding perform sequence IsLegal
perform_lem head m xs [] r l = r
perform_lem head m xs (puts_front node ∷ ops) r l =
    perform_lem head (add_front m head node) (node ∷ xs) ops (add_front_lem m head xs node r l.0)
      l.1
perform_lem head m xs (puts_back node ∷ ops) r l =
    perform_lem head (add_back m head node) (xs ++ node ∷ []) ops
      (add_back_lem m head xs node r l.0) l.1
perform_lem head m xs (takes_out node ∷ ops) r l =
    perform_lem head (remote m node) (leave_out node xs) ops (remote-leave_out m head xs node r l.0)
      l.1

-- `wmList_init` makes an empty list.
pub init-IsRing : (m : Memory) (head : ℕ) → IsRing (init m head) head []
unfolding mem
init-IsRing m head = record {
  linked = (put_same m.next head head, put_same m.prev head head);
  distinct = (refl, tt);
}

-- `wmList_is_empty` is the test on the sequence.
pub is_empty_lem :
    (m : Memory) (head : ℕ) (xs : List ℕ) → IsRing m head xs → is_empty m head ≡ Queue.is_empty xs
unfolding is_empty
is_empty_lem m head [] r = ap (λ n. head == n) r.linked.0 ∙ ==_self head
is_empty_lem m head (x ∷ xs) r =
    ap (λ n. head == n) r.linked.0 ∙ (mem-front head x xs r.distinct.0).0
