-- ===== src/Queue.antt =====
-- The queue of include/queue.h.
--
-- `items` gives the data of the nodes linked behind the head, oldest first: `wmList_add_back` appends,
-- and `head.next` is the first. A datum is a pointer, and 0 is NULL.
pub mod Laws
mod Tests
use warrior_man.Prelude.{
  ℕ, zero, suc, ◌+◌, ◌-◌, ◌%◌, ◌^◌, Bool, true, false, ◌||◌, List, [], ◌∷◌, ◌++◌, ◌==◌,
  if◌then◌else◌,
}

-- `wmQueue`, with the allocator behind it: `after_free d` is what stands in the place of the datum `d` of a node
-- once the node is freed.
pub record Queue : Type 0 where
  pub num : ℕ
  pub items : List ℕ
  pub after_free : ℕ → ℕ

-- `wmQueue_create`
abbrev pub create : (ℕ → ℕ) → Queue
create after_free = record { num = 0; items = []; after_free = after_free }

-- `wmList_is_empty(&queue->head)`
abbrev pub is_empty : List ℕ → Bool
is_empty [] = true
is_empty (x ∷ xs) = false

abbrev pub first_or_null : List ℕ → ℕ
first_or_null [] = 0
first_or_null (x ∷ xs) = x

abbrev pub tail : List ℕ → List ℕ
tail [] = []
tail (x ∷ xs) = xs

-- `wmQueue_push`
unfoldable pub push : Queue → ℕ → Queue
push q datum = record q { num = (q.num + 1) % 2 ^ 32; items = q.items ++ datum ∷ [] }

-- `wmQueue_pop`: the queue and the datum, or NULL from an empty queue. The node is freed before its datum is
-- read.
unfoldable pub pop : Queue → Queue × ℕ
pop q = if is_empty q.items || q.num == 0 then (q, 0) else (
  record q { num = (q.num + 2 ^ 32 - 1) % 2 ^ 32; items = tail q.items },
  q.after_free (first_or_null q.items),
)

-- `wmQueue_clear`: the `while` removes the first node until none is left.
pub remove_all : List ℕ → List ℕ
remove_all [] = []
remove_all (x ∷ xs) = remove_all xs

pub clear : Queue → Queue
clear q = if q.num == 0 then q else record q { num = 0; items = remove_all q.items }
