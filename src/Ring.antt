-- ===== src/Ring.antt =====
-- The intrusive lists of include/list.h, as pointers: what the timing wheel and the queues link their
-- nodes with.
--
-- A node is its address, and the memory is the two functions that give the fields `next` and `prev` of each. An
-- operation is its assignments, one after the other.
mod Chain
mod Insert
mod Remove
mod Splice
mod Refine
mod Tests
use warrior_man.Prelude.{ℕ, Bool, true, false, ◌==◌, if◌then◌else◌}

-- The fields of all nodes.
pub record Memory : Type 0 where
  pub next : ℕ → ℕ
  pub prev : ℕ → ℕ

abbrev pub put : (ℕ → ℕ) → ℕ → ℕ → ℕ → ℕ
put f a v x = if x == a then v else f x

-- `node->next = v` and `node->prev = v`
abbrev pub set_next : Memory → ℕ → ℕ → Memory
set_next m node v = record m { next = put m.next node v }

abbrev pub set_prev : Memory → ℕ → ℕ → Memory
set_prev m node v = record m { prev = put m.prev node v }

-- `wmList_init`
abbrev pub init : Memory → ℕ → Memory
init m head = set_next (set_prev m head head) head head

-- `wmList_add_front`
unfoldable pub add_front : Memory → ℕ → ℕ → Memory
add_front m head node =
    let m₁ = set_prev m node head in
    let m₂ = set_next m₁ node (m₁.next head) in
    let m₃ = set_prev m₂ (m₂.next head) node in set_next m₃ head node

-- `wmList_add_back`
unfoldable pub add_back : Memory → ℕ → ℕ → Memory
add_back m head node =
    let m₁ = set_prev m node (m.prev head) in
    let m₂ = set_next m₁ node head in
    let m₃ = set_next m₂ (m₂.prev node) node in set_prev m₃ head node

-- `wmList_is_empty`
unfoldable pub is_empty : Memory → ℕ → Bool
is_empty m head = head == m.next head

-- `wmList_remote`
unfoldable pub remote : Memory → ℕ → Memory
remote m node =
    let m₁ = set_prev m (m.next node) (m.prev node) in
    let m₂ = set_next m₁ (m₁.prev node) (m₁.next node) in init m₂ node

-- `wmList_splice`
unfoldable pub splice : Memory → ℕ → ℕ → Memory
splice m head1 head2 =
    let first = m.next head1 in
    let last = m.prev head1 in
    let at = m.next head2 in
    let m₁ = set_prev m first head2 in
    let m₂ = set_next m₁ head2 first in
    let m₃ = set_next m₂ last at in
    let m₄ = set_prev m₃ at last in if is_empty m head1 then m else init m₄ head1
