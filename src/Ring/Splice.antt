-- ===== src/Ring/Splice.antt =====
-- `wmList_splice` moves the nodes of one list to the front of another.
use warrior_man.Prelude.{
  ℕ, ◌≡◌, refl, sym, ap, subst, ◌∙◌, arith, true, false, List, [], ◌∷◌, ◌++◌, ◌==◌, ==_self,
}
use warrior_man.Ring.{Memory, set_next, set_prev, init, splice, is_empty}
use warrior_man.Ring.Chain.{
  mem, Distinct, Linked, IsRing, IsApart, mem-apart, mem-front, mem-cons, ne_flip, ne-mem, mem-prev,
  Linked-set_next, Linked-set_prev,
}
use warrior_man.Ring.Remove.{next-mem}

-- The nodes from `first` to `last` between `h2` and `at`, and the list behind `h1` emptied.
abbrev joined : Memory → ℕ → ℕ → ℕ → ℕ → ℕ → Memory
joined m first last at h1 h2 =
    init (set_prev (set_next (set_next (set_prev m first h2) h2 first) last at) at last) h1

Linked-joined :
    (m : Memory) (first last at h1 h2 s : ℕ) (xs : List ℕ) (e : ℕ)
    → mem h2 (s ∷ xs) ≡ false
    → mem last (s ∷ xs) ≡ false
    → mem h1 (s ∷ xs) ≡ false
    → mem first (e ∷ xs) ≡ false
    → mem at (e ∷ xs) ≡ false
    → mem h1 (e ∷ xs) ≡ false
    → Linked m s xs e
    → Linked (joined m first last at h1 h2) s xs e
Linked-joined m first last at h1 h2 s xs e n₁ n₂ n₃ p₁ p₂ p₃ l =
    let m₁ = set_prev m first h2 in
    let m₂ = set_next m₁ h2 first in
    let m₃ = set_next m₂ last at in
    let m₄ = set_prev m₃ at last in
    Linked-set_next (set_prev m₄ h1 h1) h1 h1 s xs e n₃ (
      Linked-set_prev m₄ h1 h1 s xs e p₃ (
        Linked-set_prev m₃ at last s xs e p₂ (
          Linked-set_next m₂ last at s xs e n₂
            (Linked-set_next m₁ h2 first s xs e n₁ (Linked-set_prev m first h2 s xs e p₁ l)))))

-- The fields of a node that is none of those assigned to, and of those that are.
next_other :
    (m : Memory) (first last at h1 h2 a : ℕ)
    → (a == h2) ≡ false
    → (a == last) ≡ false
    → (a == h1) ≡ false
    → (joined m first last at h1 h2).next a ≡ m.next a
next_other m first last at h1 h2 a x y z = ground (arith, x, y, z)

prev_other :
    (m : Memory) (first last at h1 h2 a : ℕ)
    → (a == first) ≡ false
    → (a == at) ≡ false
    → (a == h1) ≡ false
    → (joined m first last at h1 h2).prev a ≡ m.prev a
prev_other m first last at h1 h2 a x y z = ground (arith, x, y, z)

at_link :
    (m : Memory) (first last at h1 h2 : ℕ)
    → (last == h1) ≡ false
    → (at == h1) ≡ false
    → ((joined m first last at h1 h2).next last ≡ at)
      × ((joined m first last at h1 h2).prev at ≡ last)
at_link m first last at h1 h2 a b = ground (arith, a, b)

front_link :
    (m : Memory) (first last at h1 h2 : ℕ)
    → (h2 == last) ≡ false
    → (h2 == h1) ≡ false
    → (first == at) ≡ false
    → (first == h1) ≡ false
    → ((joined m first last at h1 h2).next h2 ≡ first)
      × ((joined m first last at h1 h2).prev first ≡ h2)
front_link m first last at h1 h2 a b c d = ground (arith, a, b, c, d)

-- The place where the moved nodes meet the others.
seam :
    (m : Memory) (first last h1 h2 : ℕ) (ys : List ℕ)
    → Linked m h2 ys h2
    → Distinct (h2 ∷ ys)
    → mem last (h2 ∷ ys) ≡ false
    → mem h1 (h2 ∷ ys) ≡ false
    → mem first (h2 ∷ ys) ≡ false
    → (last == h1) ≡ false
    → (first == h1) ≡ false
    → Linked (joined m first last (m.next h2) h1 h2) last ys h2
seam m first last h1 h2 [] l d hl h1n hf la fa =
    subst (λ at. Linked (joined m first last at h1 h2) last [] h2) (sym l.0)
      (at_link m first last h2 h1 h2 la (ne_flip h1 h2 (mem-front h1 h2 [] h1n).0))
seam m first last h1 h2 (y ∷ ys) l d hl h1n hf la fa =
    let f₁ = mem-front h1 h2 (y ∷ ys) h1n in
    let g₁ = mem-front h1 y ys f₁.1 in
    let ff = mem-front first h2 (y ∷ ys) hf in
    let gf = mem-front first y ys ff.1 in
    let dy = mem-front h2 y ys d.0 in
    let k = at_link m first last y h1 h2 la (ne_flip h1 y g₁.0) in
    subst (λ at. Linked (joined m first last at h1 h2) last (y ∷ ys) h2) (sym l.0)
      (
        k.0,
        k.1,
        Linked-joined m first last y h1 h2 y ys h2 d.0 (mem-front last h2 (y ∷ ys) hl).1 f₁.1
            (mem-cons first h2 ys ff.0 gf.1) (mem-cons y h2 ys (ne_flip h2 y dy.0) d.1.0)
            (mem-cons h1 h2 ys f₁.0 g₁.1) l.2,
      )

-- The way through the moved nodes and then the others.
way :
    (m : Memory) (first h1 h2 a : ℕ) (xs ys : List ℕ)
    → Linked m a xs h1
    → Linked m h2 ys h2
    → Distinct (a ∷ xs)
    → Distinct (h2 ∷ ys)
    → mem h1 (a ∷ xs) ≡ false
    → mem h1 (h2 ∷ ys) ≡ false
    → IsApart (a ∷ xs) (h2 ∷ ys)
    → mem first xs ≡ false
    → mem first (h2 ∷ ys) ≡ false
    → (first == h1) ≡ false
    → Linked (joined m first (m.prev h1) (m.next h2) h1 h2) a (xs ++ ys) h2
way m first h1 h2 a [] ys l k d e n₁ n₂ ap_ hf hf' fa =
    subst (λ last. Linked (joined m first last (m.next h2) h1 h2) a ys h2) (sym l.1)
      (seam m first a h1 h2 ys k e ap_.0 n₂ hf' (ne_flip h1 a (mem-front h1 a [] n₁).0) fa)
way m first h1 h2 a (x ∷ xs) ys l k d e n₁ n₂ ap_ hf hf' fa =
    let f₁ = mem-front h1 a (x ∷ xs) n₁ in
    let g₁ = mem-front h1 x xs f₁.1 in
    let fx = mem-front first x xs hf in
    (
      next_other m first (m.prev h1) (m.next h2) h1 h2 a (mem-front a h2 ys ap_.0).0
            (ne-mem a (m.prev h1) (x ∷ xs) (mem-prev m x xs h1 l.2) d.0) (ne_flip h1 a f₁.0)
          ∙ l.0,
      prev_other m first (m.prev h1) (m.next h2) h1 h2 x (ne_flip first x fx.0)
            (ne-mem x (m.next h2) (h2 ∷ ys) (next-mem m h2 ys h2 k) ap_.1.0) (ne_flip h1 x g₁.0)
          ∙ l.1,
      way m first h1 h2 x xs ys l.2 k d.1 e f₁.1 n₂ ap_.1 fx.1 hf' fa,
    )

mem-append :
    (k : ℕ) (xs ys : List ℕ) → mem k xs ≡ false → mem k ys ≡ false → mem k (xs ++ ys) ≡ false
unfolding mem
mem-append k [] ys h g = g
mem-append k (z ∷ zs) ys h g =
    let f = mem-front k z zs h in mem-cons k z (zs ++ ys) f.0 (mem-append k zs ys f.1 g)

Distinct-append : (xs ys : List ℕ) → Distinct xs → Distinct ys → IsApart xs ys → Distinct (xs ++ ys)
Distinct-append [] ys d e a = e
Distinct-append (x ∷ xs) ys d e a = (mem-append x xs ys d.0 a.0, Distinct-append xs ys d.1 e a.1)

IsApart-tail : (k : ℕ) (xs ys : List ℕ) → IsApart xs (k ∷ ys) → IsApart xs ys
IsApart-tail k [] ys a = tt
IsApart-tail k (x ∷ xs) ys a = ((mem-front x k ys a.0).1, IsApart-tail k xs ys a.1)

not_moved : (k : ℕ) (xs ys : List ℕ) → IsApart xs (k ∷ ys) → mem k xs ≡ false
unfolding mem
not_moved k [] ys a = refl
not_moved k (x ∷ xs) ys a =
    mem-cons k x xs (ne_flip x k (mem-front x k ys a.0).0) (not_moved k xs ys a.1)

emptied : (m : Memory) (first last at h1 h2 : ℕ) → Linked (joined m first last at h1 h2) h1 [] h1
emptied m first last at h1 h2 = ground (arith, ==_self h1)

splice_none : (m : Memory) (h1 h2 : ℕ) → (h1 == m.next h1) ≡ true → splice m h1 h2 ≡ m
unfolding splice is_empty
splice_none m h1 h2 e = rw (splice, is_empty, e) refl

splice_some :
    (m : Memory) (h1 h2 : ℕ)
    → (h1 == m.next h1) ≡ false
    → splice m h1 h2 ≡ joined m (m.next h1) (m.prev h1) (m.next h2) h1 h2
unfolding splice is_empty
splice_some m h1 h2 e = rw (splice, is_empty, e) refl

-- Two lists with no node in common, heads included: the second has the nodes of the first in front of its
-- own, each in their order, and the first is empty.
pub splice_lem :
    (m : Memory) (h1 h2 : ℕ) (xs ys : List ℕ)
    → IsRing m h1 xs
    → IsRing m h2 ys
    → IsApart (h1 ∷ xs) (h2 ∷ ys)
    → IsRing (splice m h1 h2) h1 [] × IsRing (splice m h1 h2) h2 (xs ++ ys)
unfolding mem
splice_lem m h1 h2 [] ys r s a =
    subst (λ m'. IsRing m' h1 [] × IsRing m' h2 ys)
      (sym (splice_none m h1 h2 (ap (λ n. h1 == n) r.linked.0 ∙ ==_self h1))) (r, s)
splice_lem m h1 h2 (x ∷ xs) ys r s a =
    let f = mem-front h1 x xs r.distinct.0 in
    let n = mem-front h1 h2 ys a.0 in
    let last_apart = mem-apart (m.prev h1) (x ∷ xs) (h2 ∷ ys) (mem-prev m x xs h1 r.linked.2) a.1 in
    let some_ : (h1 == m.next h1) ≡ false = ap (λ k. h1 == k) r.linked.0 ∙ f.0 in
    let k =
      front_link m x (m.prev h1) (m.next h2) h1 h2
        (ne_flip (m.prev h1) h2 (mem-front (m.prev h1) h2 ys last_apart).0) (ne_flip h1 h2 n.0)
        (ne-mem x (m.next h2) (h2 ∷ ys) (next-mem m h2 ys h2 s.linked) a.1.0) (ne_flip h1 x f.0) in
    let w =
      way m x h1 h2 x xs ys r.linked.2 s.linked r.distinct.1 s.distinct r.distinct.0 a.0 a.1
        r.distinct.1.0 a.1.0 (ne_flip h1 x f.0) in
    let m' = joined m x (m.prev h1) (m.next h2) h1 h2 in
    let both : IsRing m' h1 [] × IsRing m' h2 (x ∷ (xs ++ ys)) = (
      record { linked = emptied m x (m.prev h1) (m.next h2) h1 h2; distinct = (refl, tt) },
      record {
        linked = (k.0, k.1, w);
        distinct = (
          mem-append h2 (x ∷ xs) ys (not_moved h2 (x ∷ xs) ys a.1) s.distinct.0,
          Distinct-append (x ∷ xs) ys r.distinct.1 s.distinct.1 (IsApart-tail h2 (x ∷ xs) ys a.1),
        );
      },
    ) in
    subst (λ z. IsRing z h1 [] × IsRing z h2 (x ∷ (xs ++ ys)))
      (sym
        (splice_some m h1 h2 some_ ∙ ap (λ g. joined m g (m.prev h1) (m.next h2) h1 h2) r.linked.0))
      both
