-- ===== src/Loop/Registered.antt =====
-- What the kernel is told of a socket's events, and where it keeps events that the socket has not.
use warrior_man.Prelude.{
  ℕ, ◌≡◌, ◌≢◌, inl, inr, arith, refl, sym, ap, ◌∙◌, Bool, true, false, Option, none, some, ◌==◌,
  if◌then◌else◌, Bool-cases, eq_of_==, ne_of_==, ==_self,
}
use warrior_man.Loop.{
  Mask, no_events, is_null, meets, join, without, Flags, event_decode, Control, ctl_add, ctl_mod,
  ctl_del, Loop, put, add, del, remove,
}

-- What the manual says of `epoll_ctl` with a valid descriptor and memory to spare; `registered` is the
-- interest list. A change of what is kept for a descriptor may not name `EPOLLEXCLUSIVE`, nor may what is kept.
pub record IsEpoll {K : Type 0} (registered : K → ℕ → Option Flags)
    (epoll_ctl : K → ℕ → Control → K × Bool) : Type 0 where
  pub adds :
      (k : K) (fd : ℕ) (f : Flags)
      → registered k fd ≡ none
      → (registered (epoll_ctl k fd (ctl_add f)).0 fd ≡ some f)
        × ((epoll_ctl k fd (ctl_add f)).1 ≡ true)
  pub adds_once :
      (k : K) (fd : ℕ) (f g : Flags)
      → registered k fd ≡ some g
      → epoll_ctl k fd (ctl_add f) ≡ (k, false)
  pub changes :
      (k : K) (fd : ℕ) (f g : Flags)
      → registered k fd ≡ some g
      → f.epollexclusive ≡ false
      → g.epollexclusive ≡ false
      → (registered (epoll_ctl k fd (ctl_mod f)).0 fd ≡ some f)
        × ((epoll_ctl k fd (ctl_mod f)).1 ≡ true)
  pub deletes :
      (k : K) (fd : ℕ) (g : Flags)
      → registered k fd ≡ some g
      → (registered (epoll_ctl k fd ctl_del).0 fd ≡ none) × ((epoll_ctl k fd ctl_del).1 ≡ true)
  pub others :
      (k : K) (fd fd' : ℕ) (c : Control)
      → fd' ≢ fd
      → registered (epoll_ctl k fd c).0 fd' ≡ registered k fd'

-- What the kernel should have of a mask.
abbrev pub wanted : Mask → Option Flags
wanted m = if is_null m then none else some (event_decode m)

module _ {K : Type 0} (registered : K → ℕ → Option Flags) (epoll_ctl : K → ℕ → Control → K × Bool)
    (epoll : IsEpoll registered epoll_ctl) where
  -- The kernel has of every socket what its events ask for.
  abbrev pub Synced : Loop K → Type 0
  Synced l = (fd : ℕ) → registered l.kernel fd ≡ wanted (l.events fd)

  -- The socket `fd` has got the mask `m`, and the kernel's call has done its part.
  put-Synced :
      (l : Loop K) (fd : ℕ) (m : Mask) (c : Control)
      → Synced l
      → registered (epoll_ctl l.kernel fd c).0 fd ≡ wanted m
      → Synced (record { events = put l.events fd m; kernel = (epoll_ctl l.kernel fd c).0 })
  put-Synced l fd m c s h x = elim (Bool-cases (x == fd)) [
    | inl e ↦ let same : x ≡ fd = eq_of_== x fd e in rw (e, same) h
    | inr e ↦ rw e (epoll.others l.kernel fd x c (ne_of_== x fd e) ∙ s x)
  ]

  join_not_null : (m e : Mask) → is_null e ≡ false → is_null (join m e) ≡ false
  join_not_null m e h = elim (Bool-cases e.reads) [
    | inl r ↦ elim (Bool-cases m.reads) [ inl p ↦ rw p refl | inr p ↦ rw (p, r) refl ]
    | inr r ↦ ground (arith, h, r)
  ]

  -- Events added to a socket of a loop whose kernel has what it should, where neither they nor the events of the
  -- socket have `WM_EVENT_EPOLLEXCLUSIVE`: it still has, the answer is true, and the socket has the events
  -- that it had and, if it had none of them, the new ones.
  pub add_event :
      (l : Loop K) (fd : ℕ) (event : Mask)
      → Synced l
      → is_null event ≡ false
      → (l.events fd).exclusive ≡ false
      → event.exclusive ≡ false
      → let (l', ok) = add epoll_ctl l fd event in
        (ok ≡ true)
        × Synced l'
        × (l'.events fd
            ≡ (if meets (l.events fd) event then l.events fd else join (l.events fd) event))
  unfolding add event_decode
  add_event l fd event s ne plain plain_too = elim (Bool-cases (meets (l.events fd) event)) [
    | inl e ↦ rw e (refl, s, refl)
    | inr e ↦
        let m : Mask = join (l.events fd) event in
        let n : is_null m ≡ false = join_not_null (l.events fd) event ne in
        let w : wanted m ≡ some (event_decode m) = rw n refl in
        elim (Bool-cases (is_null (l.events fd))) [
          | inl z ↦
              let a = epoll.adds l.kernel fd (event_decode m) (s fd ∙ rw z refl) in
              rw (e, z)
                (
                  a.1,
                  put-Synced l fd m (ctl_add (event_decode m)) s (a.0 ∙ sym w),
                  rw (==_self fd) refl,
                )
          | inr z ↦
              let a =
                epoll.changes l.kernel fd (event_decode m) (event_decode (l.events fd))
                  (s fd ∙ rw z refl) (rw (plain, plain_too) refl) plain in
              rw (e, z)
                (
                  a.1,
                  put-Synced l fd m (ctl_mod (event_decode m)) s (a.0 ∙ sym w),
                  rw (==_self fd) refl,
                )
        ]
  ]

  -- A socket taken out of a loop whose kernel has what it should: it still has, the answer is true, and
  -- the socket has no events.
  pub del_socket :
      (l : Loop K) (fd : ℕ)
      → Synced l
      → let (l', ok) = del epoll_ctl l fd in
        (ok ≡ true) × Synced l' × (is_null (l'.events fd) ≡ true)
  unfolding del
  del_socket l fd s = elim (Bool-cases (is_null (l.events fd))) [
    | inl z ↦ rw z (refl, s, z)
    | inr z ↦
        let d = epoll.deletes l.kernel fd (event_decode (l.events fd)) (s fd ∙ rw z refl) in
        rw z (d.1, put-Synced l fd no_events ctl_del s d.0, rw (==_self fd) refl)
  ]

  -- Events taken from a socket that keeps others and has not `WM_EVENT_EPOLLEXCLUSIVE`, of a loop whose kernel has what it should: it still
  -- has, the answer is true, and the socket has the other events.
  pub remove_some :
      (l : Loop K) (fd : ℕ) (event : Mask)
      → Synced l
      → meets (l.events fd) event ≡ true
      → is_null (without (l.events fd) event) ≡ false
      → (l.events fd).exclusive ≡ false
      → let (l', ok) = remove epoll_ctl l fd event in
        (ok ≡ true) × Synced l' × (l'.events fd ≡ without (l.events fd) event)
  unfolding remove event_decode
  remove_some l fd event s has left plain =
      let m : Mask = without (l.events fd) event in
      let z : is_null (l.events fd) ≡ false = not_null (l.events fd) event has in
      let a =
        epoll.changes l.kernel fd (event_decode m) (event_decode (l.events fd)) (s fd ∙ rw z refl)
          (rw plain refl) plain in
      let w : wanted m ≡ some (event_decode m) = rw left refl in
      rw (z, has, left)
        (a.1, put-Synced l fd m (ctl_mod (event_decode m)) s (a.0 ∙ sym w), rw (==_self fd) refl)
    where
      not_null : (m e : Mask) → meets m e ≡ true → is_null m ≡ false
      not_null m e h = ground (arith, h)

  meets_null : (m e : Mask) → is_null m ≡ true → meets m e ≡ false
  meets_null m e h = ground (arith, h)

  put_self : (f : ℕ → Mask) (fd : ℕ) (m : Mask) → put f fd m fd ≡ m
  put_self f fd m = rw (==_self fd) refl

  add_refused :
      (l : Loop K) (fd : ℕ) (later : Mask) (g : Flags)
      → is_null (l.events fd) ≡ true
      → registered l.kernel fd ≡ some g
      → (add epoll_ctl l fd later).1 ≡ false
  unfolding add
  add_refused l fd later g z r =
      rw
        (
          add,
          meets_null (l.events fd) later z,
          z,
          epoll.adds_once l.kernel fd (event_decode (join (l.events fd) later)) g r,
        )
        refl

  remove-del :
      (l : Loop K) (fd : ℕ) (event : Mask)
      → is_null (l.events fd) ≡ false
      → meets (l.events fd) event ≡ true
      → is_null (without (l.events fd) event) ≡ true
      → remove epoll_ctl l fd event
        ≡ (record l { events = put l.events fd (without (l.events fd) event) }, true)
  unfolding remove del
  remove-del l fd event z has last =
      let gone = ap is_null (put_self l.events fd (without (l.events fd) event)) ∙ last in
      rw (remove, z, has, last, del, gone) refl

  -- The last events taken from a socket: the answer is true and the socket has none, but the kernel is
  -- not told, and keeps the socket with the events that it had. Events added to it later are refused.
  pub remove_last :
      (l : Loop K) (fd : ℕ) (event later : Mask)
      → Synced l
      → meets (l.events fd) event ≡ true
      → is_null (without (l.events fd) event) ≡ true
      → let (l', ok) = remove epoll_ctl l fd event in
        (ok ≡ true)
        × (is_null (l'.events fd) ≡ true)
        × (registered l'.kernel fd ≡ some (event_decode (l.events fd)))
        × ((add epoll_ctl l' fd later).1 ≡ false)
  remove_last l fd event later s has last =
      let z : is_null (l.events fd) ≡ false = not_null (l.events fd) event has in
      let g : registered l.kernel fd ≡ some (event_decode (l.events fd)) = s fd ∙ rw z refl in
      let gone = ap is_null (put_self l.events fd (without (l.events fd) event)) ∙ last in
      let l' : Loop K = record l { events = put l.events fd (without (l.events fd) event) } in
      rw (remove-del l fd event z has last)
        (refl, gone, g, add_refused l' fd later (event_decode (l.events fd)) gone g)
    where
      not_null : (m e : Mask) → meets m e ≡ true → is_null m ≡ false
      not_null m e h = ground (arith, h)
