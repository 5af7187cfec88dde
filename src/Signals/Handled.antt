-- ===== src/Signals/Handled.antt =====
-- Every signal is handled, in order.
use warrior_man.Prelude.{
  ℕ, ◌+◌, ◌%◌, ◌<◌, ◌≤◌, ◌≡◌, arith, refl, sym, ap, ◌∙◌, Bool, true, false, Option, List, [], ◌∷◌,
  ◌++◌, append_assoc, append_nil, length, length-append, length-drop, take, drop, take_and_drop,
  All, ltb_of_lt, if◌then◌else◌,
}
use warrior_man.Signals.{
  Pipe, sig_handler, sig_handlers, Read, fails, gives, Wait, Waiter, call_of, calls_of, after_read,
  arrived, signal_wait,
}

-- All signals of a script, in order.
abbrev pub signals_of : List Wait → List ℕ
signals_of [] = []
signals_of (e ∷ later) = e.comes ++ signals_of later

-- A read that gives bytes or runs out of time.
abbrev pub GoesOn : Read → Type 0
GoesOn (fails timed_out) = timed_out ≡ true
GoesOn (gives count) = Unit {0}

sig_handler-room :
    (p : Pipe) (n : ℕ)
    → n < 64
    → length p.bytes < p.room
    → sig_handler p n ≡ record p { bytes = p.bytes ++ n ∷ [] }
unfolding sig_handler
sig_handler-room p n small h =
    let m : n % 256 ≡ n = omega arith in
    ap (λ b. if b then record p { bytes = p.bytes ++ n % 256 ∷ [] } else p)
      (ltb_of_lt (length p.bytes) p.room h)
    ∙ ap (λ k. record p { bytes = p.bytes ++ k ∷ [] }) m

sig_handlers_lem :
    (p : Pipe) (ns : List ℕ)
    → All (λ n. n < 64) ns
    → length p.bytes + length ns ≤ p.room
    → sig_handlers p ns ≡ record p { bytes = p.bytes ++ ns }
unfolding sig_handlers
sig_handlers_lem p [] a h = ap (λ b. record p { bytes = b }) (sym (append_nil p.bytes))
sig_handlers_lem p (n ∷ ns) (small, a) h =
    let e : sig_handler p n ≡ record p { bytes = p.bytes ++ n ∷ [] } =
      sig_handler-room p n small (omega (arith, h)) in
    ap (λ q. sig_handlers q ns) e
    ∙ sig_handlers_lem (record p { bytes = p.bytes ++ n ∷ [] }) ns a
        (omega (arith, h, length-append p.bytes (n ∷ [])))
    ∙ ap (λ b. record p { bytes = b }) (append_assoc p.bytes (n ∷ []) ns)

All-parts : (P : ℕ → Type 0) (xs ys : List ℕ) → All P (xs ++ ys) → All P xs × All P ys
All-parts P [] ys h = (tt, h)
All-parts P (x ∷ xs) ys (p, h) = let (a, b) = All-parts P xs ys h in ((p, a), b)

module _ (handlers : ℕ → Option ℕ) where
  calls_of-append :
      (xs ys : List ℕ) → calls_of handlers (xs ++ ys) ≡ calls_of handlers xs ++ calls_of handlers ys
  unfolding calls_of
  calls_of-append [] ys = refl
  calls_of-append (x ∷ xs) ys =
      ap (λ t. call_of handlers x ++ t) (calls_of-append xs ys)
      ∙ sym (append_assoc (call_of handlers x) (calls_of handlers xs) (calls_of handlers ys))

  -- The calls that are made, and those that the unread bytes ask for.
  abbrev pub due : Waiter → List (ℕ × ℕ)
  due w = w.called ++ calls_of handlers w.pipe.bytes

  abbrev next : List Wait → Waiter × Bool → Waiter × Bool
  next later (w, waits_on) = elim waits_on [
    | false ↦ (w, false)
    | true ↦ signal_wait handlers w later
  ]

  -- A read moves calls from the pipe to those that are made.
  after_read_lem :
      (w : Waiter) (r : Read)
      → GoesOn r
      → (w' : Waiter) × (after_read handlers w r ≡ (w', true))
        × (due w' ≡ due w)
        × (length w'.pipe.bytes ≤ length w.pipe.bytes)
        × (w'.pipe.room ≡ w.pipe.room)
  after_read_lem w (fails timed_out) g = (w, ap (λ b. (w, b)) g, refl, omega arith, refl)
  after_read_lem w (gives count) g =
      let bytes = w.pipe.bytes in
      let called = calls_of handlers (take count bytes) in
      (
        record w {
          pipe = record (w.pipe) { bytes = drop count bytes };
          called = w.called ++ called;
        },
        refl,
        append_assoc w.called called (calls_of handlers (drop count bytes))
            ∙ ap (λ t. w.called ++ t)
                (sym (calls_of-append (take count bytes) (drop count bytes))
                  ∙ ap (calls_of handlers) (take_and_drop count bytes)),
        omega (arith, length-drop count bytes),
        refl,
      )

  -- Signals below 64, for all of which the pipe has room, and reads that give bytes or run out of time: the
  -- coroutine waits on, and the calls that it has made, and then those for the bytes that it has not
  -- read yet, are those that it owed before, and then one for each signal that has a handler, in the order
  -- in which the signals came.
  pub signals_lem :
      (w : Waiter) (script : List Wait)
      → All (λ e. GoesOn e.read) script
      → All (λ n. n < 64) (signals_of script)
      → length w.pipe.bytes + length (signals_of script) ≤ w.pipe.room
      → (w' : Waiter) × (signal_wait handlers w script ≡ (w', true))
        × (due w' ≡ due w ++ calls_of handlers (signals_of script))
  unfolding signal_wait calls_of
  signals_lem w [] g a h = (w, refl, sym (append_nil (due w)))
  signals_lem w (e ∷ later) (g, gs) a h =
      let (small, rest) = All-parts (λ n. n < 64) e.comes (signals_of later) a in
      let count = length-append e.comes (signals_of later) in
      let p = w.pipe in
      let come = sig_handlers_lem p e.comes small (omega (arith, h, count)) in
      let w₁ : Waiter = record w { pipe = record p { bytes = p.bytes ++ e.comes } } in
      let here : arrived w e ≡ w₁ = ap (λ q. record w { pipe = q }) come in
      let (w₂, q, same, short, room) = after_read_lem w₁ e.read g in
      let (w', r, d) =
        signals_lem w₂ later gs rest
          (omega (arith, h, count, short, room, length-append p.bytes e.comes)) in
      (
        w',
        ap (λ x. next later (after_read handlers x e.read)) here ∙ ap (next later) q ∙ r,
        d
            ∙ ap (λ t. t ++ calls_of handlers (signals_of later))
                (same
                  ∙ ap (λ t. w.called ++ t) (calls_of-append p.bytes e.comes)
                  ∙ sym (
                      append_assoc w.called (calls_of handlers p.bytes)
                        (calls_of handlers e.comes)))
            ∙ append_assoc (due w) (calls_of handlers e.comes)
                (calls_of handlers (signals_of later))
            ∙ ap (λ t. due w ++ t) (sym (calls_of-append e.comes (signals_of later))),
      )
