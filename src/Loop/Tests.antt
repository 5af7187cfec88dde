-- ===== src/Loop/Tests.antt =====
-- A small epoll, and the theorems on the loop applied to it.
use warrior_man.Prelude.{
  ℕ, ◌≡◌, ◌≢◌, arith, refl, Bool, true, false, Option, none, some, ◌==◌, ==_self, Option-cases, inl,
  inr,
}
use warrior_man.Loop.{
  Mask, no_events, is_null, join, Flags, event_decode, Control, ctl_add, ctl_mod, ctl_del, Loop,
  put, add, remove,
}
use warrior_man.Loop.Registered.{IsEpoll, Synced, add_event, remove_last}

abbrev Table : Type 0
Table = ℕ → Option Flags

abbrev on_missing : Table → ℕ → Option Flags → Table × Bool
on_missing k fd f = elim (k fd) [ none ↦ (put k fd f, true) | some g ↦ (k, false) ]

abbrev on_present : Table → ℕ → Option Flags → Table × Bool
on_present k fd f = elim (k fd) [ none ↦ (k, false) | some g ↦ (put k fd f, true) ]

abbrev control : Table → ℕ → Control → Table × Bool
control k fd (ctl_add f) = on_missing k fd (some f)
control k fd (ctl_mod f) = on_present k fd (some f)
control k fd ctl_del = on_present k fd none

abbrev lookup : Table → ℕ → Option Flags
lookup k fd = k fd

not_same : (fd fd' : ℕ) → fd' ≢ fd → (fd' == fd) ≡ false
not_same fd fd' h = ground arith

missing_others :
    (k : Table) (fd fd' : ℕ) (f : Option Flags) → fd' ≢ fd → (on_missing k fd f).0 fd' ≡ k fd'
missing_others k fd fd' f ne = elim (Option-cases (k fd)) [
  | inl e ↦ rw (on_missing, e, not_same fd fd' ne) refl
  | inr (g, e) ↦ rw (on_missing, e) refl
]

present_others :
    (k : Table) (fd fd' : ℕ) (f : Option Flags) → fd' ≢ fd → (on_present k fd f).0 fd' ≡ k fd'
present_others k fd fd' f ne = elim (Option-cases (k fd)) [
  | inl e ↦ rw (on_present, e) refl
  | inr (g, e) ↦ rw (on_present, e, not_same fd fd' ne) refl
]

missing_at :
    (k : Table) (fd : ℕ) (f : Option Flags)
    → k fd ≡ none
    → ((on_missing k fd f).0 fd ≡ f) × ((on_missing k fd f).1 ≡ true)
missing_at k fd f h = rw (on_missing, h, ==_self fd) (refl, refl)

missing_taken :
    (k : Table) (fd : ℕ) (f : Option Flags) (g : Flags)
    → k fd ≡ some g
    → on_missing k fd f ≡ (k, false)
missing_taken k fd f g h = rw (on_missing, h) refl

present_at :
    (k : Table) (fd : ℕ) (f : Option Flags) (g : Flags)
    → k fd ≡ some g
    → ((on_present k fd f).0 fd ≡ f) × ((on_present k fd f).1 ≡ true)
present_at k fd f g h = rw (on_present, h, ==_self fd) (refl, refl)

others : (k : Table) (fd fd' : ℕ) (c : Control) → fd' ≢ fd → (control k fd c).0 fd' ≡ k fd'
others k fd fd' (ctl_add f) = missing_others k fd fd' (some f)
others k fd fd' (ctl_mod f) = present_others k fd fd' (some f)
others k fd fd' ctl_del = present_others k fd fd' none

control-IsEpoll : IsEpoll lookup control
control-IsEpoll = record {
  adds = λ k fd f h. missing_at k fd (some f) h;
  adds_once = λ k fd f g h. missing_taken k fd (some f) g h;
  changes = λ k fd f g h p q. present_at k fd (some f) g h;
  deletes = λ k fd g h. present_at k fd none g h;
  others = others;
}

abbrev reading : Mask
reading = record no_events { reads = true }

abbrev writing : Mask
writing = record no_events { writes = true }

-- Each socket waits to read, and the kernel knows.
abbrev started : Loop Table
started = record { events = λ fd. reading; kernel = λ fd. some (event_decode reading) }

abbrev both : Loop Table
both = record {
  events = λ fd. join reading writing;
  kernel = λ fd. some (event_decode (join reading writing));
}

add_event_example :
    let (l, ok) = add control started 4 writing in
    (ok ≡ true) × Synced lookup control control-IsEpoll l × (l.events 4 ≡ join reading writing)
add_event_example =
    add_event lookup control control-IsEpoll started 4 writing (λ fd. refl) refl refl refl

remove_last_example :
    let (l, ok) = remove control started 4 reading in
    (ok ≡ true)
    × (is_null (l.events 4) ≡ true)
    × (l.kernel 4 ≡ some (event_decode reading))
    × ((add control l 4 reading).1 ≡ false)
remove_last_example =
    remove_last lookup control control-IsEpoll started 4 reading reading (λ fd. refl) refl refl
