-- ===== src/Child/Accepts.antt =====
-- What the coroutine that accepts connections does for each.
use warrior_man.Prelude.{
  ℕ, ◌+◌, ◌%◌, ◌^◌, ◌<◌, ◌≡◌, arith, refl, sym, ap, ◌∙◌, Bool, true, false, some, List, [], ◌∷◌,
  ◌++◌, append_assoc, append_nil, length, leb,
}
use warrior_man.Socket.{Socket}
use warrior_man.Connection.Life.{next_id, create}
use warrior_man.Child.{
  running, is_running, Effect, Child, Accept, coroutines_of, take_connection, accept_round,
  accept_tcp,
}

-- The ids behind `n`, as many as there are sockets.
abbrev pub ids_from : ℕ → List Socket → List ℕ
ids_from n [] = []
ids_from n (s ∷ ss) = (n + 1) ∷ ids_from (n + 1) ss

abbrev pub coroutines_for : Bool → List ℕ → List Effect
coroutines_for b [] = []
coroutines_for b (id ∷ ids) = coroutines_of b id ++ coroutines_for b ids

-- The others leave alone what an accept uses.
pub record LeavesAlone (during : Child → Child) : Type 0 where
  pub status : (w : Child) → (during w).status ≡ w.status
  pub handlers : (w : Child) → (during w).handlers.has_connect ≡ w.handlers.has_connect
  pub connections : (w : Child) → (during w).connections ≡ w.connections
  pub last_id : (w : Child) → (during w).last_id ≡ w.last_id
  pub trace : (w : Child) → (during w).trace ≡ w.trace

-- Each accept gives a socket.
abbrev pub Gives : List Accept → List Socket → Type 0
Gives [] [] = Unit {0}
Gives [] (s ∷ ss) = ⊥
Gives (a ∷ later) [] = ⊥
Gives (a ∷ later) (s ∷ ss) = LeavesAlone a.during × (a.accepted ≡ some s) × Gives later ss

module _ (size limit : ℕ) where
  take_connection-id :
      (w : Child) (s : Socket)
      → w.last_id + 1 < 2 ^ 31
      → let w' = take_connection size limit w s in
        (w'.last_id ≡ w.last_id + 1)
        × (w'.connections ≡ w.connections ++ (w.last_id + 1) ∷ [])
        × (w'.trace ≡ w.trace ++ coroutines_of w.handlers.has_connect (w.last_id + 1))
        × (w'.status ≡ w.status)
        × (w'.handlers.has_connect ≡ w.handlers.has_connect)
  unfolding take_connection create next_id
  take_connection-id w s h =
      let m : (w.last_id + 1) % 2 ^ 32 ≡ w.last_id + 1 = omega arith in
      let l : leb (2 ^ 31) (w.last_id + 1) ≡ false = ground (arith, h) in
      rw (m, l) (refl, refl, refl, refl, refl)

  accept_tcp-gives :
      (w : Child) (a : Accept) (later : List Accept) (s : Socket)
      → is_running w.status ≡ true
      → a.accepted ≡ some s
      → accept_tcp size limit w (a ∷ later)
        ≡ accept_tcp size limit (take_connection size limit (a.during w) s) later
  unfolding accept_tcp
  accept_tcp-gives w a later s r e = rw (accept_tcp, r, accept_round, e) refl

  -- A worker that runs, and accepts that all give a socket, while the others leave alone what an accept
  -- uses: the coroutine goes on, and the sockets get connections with the next ids, in order; for each
  -- there is a coroutine for `onConnect`, if the worker has it, and then one that reads. The ids stay
  -- below 2 ^ 31.
  pub accept_lem :
      (w : Child) (later : List Accept) (ss : List Socket)
      → w.status ≡ running
      → Gives later ss
      → w.last_id + length ss < 2 ^ 31
      → (w' : Child) × (accept_tcp size limit w later ≡ some w')
        × (w'.connections ≡ w.connections ++ ids_from w.last_id ss)
        × (w'.trace ≡ w.trace ++ coroutines_for w.handlers.has_connect (ids_from w.last_id ss))
        × (w'.status ≡ running)
  unfolding accept_tcp
  accept_lem w [] [] r g h = (w, refl, sym (append_nil w.connections), sym (append_nil w.trace), r)
  accept_lem w [] (s ∷ ss) r g h = elim g [ ]
  accept_lem w (a ∷ later) [] r g h = elim g [ ]
  accept_lem w (a ∷ later) (s ∷ ss) r (alone, e, g) h =
      let v = a.during w in
      let n : v.last_id ≡ w.last_id = alone.last_id w in
      let (l, c, t, st, hs) = take_connection-id v s (omega (arith, n, h)) in
      let w₁ = take_connection size limit v s in
      let running_on : w₁.status ≡ running = st ∙ alone.status w ∙ r in
      let (w', q, c', t', r') = accept_lem w₁ later ss running_on g (omega (arith, l, n, h)) in
      let begun : accept_tcp size limit w (a ∷ later) ≡ accept_tcp size limit w₁ later =
        accept_tcp-gives w a later s (ap is_running r) e in
      let hs' : w₁.handlers.has_connect ≡ w.handlers.has_connect = hs ∙ alone.handlers w in
      let l' : w₁.last_id ≡ w.last_id + 1 = l ∙ ap (λ k. k + 1) n in
      let id : v.last_id + 1 ≡ w.last_id + 1 = ap (λ k. k + 1) n in
      let b = w.handlers.has_connect in
      let first : v.trace ++ coroutines_of v.handlers.has_connect (v.last_id + 1)
          ≡ w.trace ++ coroutines_of b (w.last_id + 1) =
        ap (λ x. x ++ coroutines_of v.handlers.has_connect (v.last_id + 1)) (alone.trace w)
        ∙ ap (λ x. w.trace ++ coroutines_of x (v.last_id + 1)) (alone.handlers w)
        ∙ ap (λ k. w.trace ++ coroutines_of b k) id in
      (
        w',
        begun ∙ q,
        c'
            ∙ ap (λ t. t ++ ids_from w₁.last_id ss)
                (c ∙ ap (λ t. t ++ (v.last_id + 1) ∷ []) (alone.connections w))
            ∙ append_assoc w.connections ((v.last_id + 1) ∷ []) (ids_from w₁.last_id ss)
            ∙ ap (λ k. w.connections ++ k ∷ ids_from w₁.last_id ss) id
            ∙ ap (λ k. w.connections ++ (w.last_id + 1) ∷ ids_from k ss) l',
        t'
            ∙ ap (λ x. x ++ coroutines_for w₁.handlers.has_connect (ids_from w₁.last_id ss))
                (t ∙ first)
            ∙ append_assoc w.trace (coroutines_of b (w.last_id + 1))
                (coroutines_for w₁.handlers.has_connect (ids_from w₁.last_id ss))
            ∙ ap
                (λ x.
                  w.trace
                  ++ (coroutines_of b (w.last_id + 1) ++ coroutines_for x (ids_from w₁.last_id ss)))
                hs'
            ∙ ap
                (λ k.
                  w.trace ++ (coroutines_of b (w.last_id + 1) ++ coroutines_for b (ids_from k ss)))
                l',
        r',
      )
