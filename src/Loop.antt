-- ===== src/Loop.antt =====
-- The events of a socket in src/worker/loop.c: what it waits for, what epoll is told, and the handlers.
--
-- An event mask is what it has of the three bits `WM_EVENT_READ`, `WM_EVENT_WRITE` and
-- `WM_EVENT_EPOLLEXCLUSIVE`; with none it is `WM_EVENT_NULL`. The kernel's side of epoll, with
-- `epoll_ctl`, is a parameter.
pub mod Registered
mod Dispatch
mod Tests
use warrior_man.Prelude.{
  ℕ, Bool, true, false, not, ◌&&◌, ◌||◌, Option, none, some, List, [], ◌∷◌, keep, ◌==◌,
  if◌then◌else◌,
}

pub record Mask : Type 0 where
  pub reads : Bool
  pub writes : Bool
  pub exclusive : Bool

abbrev pub no_events : Mask
no_events = record { reads = false; writes = false; exclusive = false }

-- `m == WM_EVENT_NULL`
abbrev pub is_null : Mask → Bool
is_null m = not (m.reads || m.writes || m.exclusive)

-- `m & e`, as a test, `m | e` and `m & ~e`.
abbrev pub meets : Mask → Mask → Bool
meets m e = (m.reads && e.reads) || (m.writes && e.writes) || (m.exclusive && e.exclusive)

abbrev pub join : Mask → Mask → Mask
join m e = record {
  reads = m.reads || e.reads;
  writes = m.writes || e.writes;
  exclusive = m.exclusive || e.exclusive;
}

abbrev pub without : Mask → Mask → Mask
without m e = record {
  reads = m.reads && not e.reads;
  writes = m.writes && not e.writes;
  exclusive = m.exclusive && not e.exclusive;
}

-- What epoll understands: `EPOLLIN`, `EPOLLOUT`, `EPOLLEXCLUSIVE`.
pub record Flags : Type 0 where
  pub epollin : Bool
  pub epollout : Bool
  pub epollexclusive : Bool

-- `event_decode`, where `EPOLLEXCLUSIVE` is defined.
pub event_decode : Mask → Flags
event_decode m = record { epollin = m.reads; epollout = m.writes; epollexclusive = m.exclusive }

pub data Control : Type 0 where
  ctl_add : Flags → Control
  ctl_mod : Flags → Control
  ctl_del : Control

-- The sockets' `events`, by their descriptors, and the kernel's state.
pub record Loop (K : Type 0) : Type 0 where
  pub events : ℕ → Mask
  pub kernel : K

abbrev pub put {ℓ} : {A : Type ℓ} → (ℕ → A) → ℕ → A → ℕ → A
put f fd v x = if x == fd then v else f x

-- `epoll_ctl(epollfd, …, fd, …)`: the kernel's state and whether the call succeeds.
module _ {K : Type 0} (epoll_ctl : K → ℕ → Control → K × Bool) where
  -- `wmWorkerLoop_add`
  pub add : Loop K → ℕ → Mask → Loop K × Bool
  add l fd event =
      let m = join (l.events fd) event in
      let control =
        if is_null (l.events fd) then ctl_add (event_decode m) else ctl_mod (event_decode m) in
      let (kernel, ok) = epoll_ctl l.kernel fd control in
      if meets (l.events fd) event
      then (l, true)
      else (record { events = put l.events fd m; kernel = kernel }, ok)

  -- `wmWorkerLoop_del`
  unfoldable pub del : Loop K → ℕ → Loop K × Bool
  del l fd =
      let (kernel, ok) = epoll_ctl l.kernel fd ctl_del in
      if is_null (l.events fd)
      then (l, true)
      else (record { events = put l.events fd no_events; kernel = kernel }, ok)

  -- `wmWorkerLoop_remove`. When no event is left it calls `wmWorkerLoop_del`, which finds no event.
  pub remove : Loop K → ℕ → Mask → Loop K × Bool
  remove l fd event =
      let m = without (l.events fd) event in
      let l' : Loop K = record l { events = put l.events fd m } in
      let (kernel, ok) = epoll_ctl l.kernel fd (ctl_mod (event_decode m)) in
      let changed = if is_null m then del l' fd else (record l' { kernel = kernel }, ok) in
      if is_null (l.events fd)
      then (l, true)
      else if meets (l.events fd) event
      then changed
      else (l, true)

-- The two tables of handlers, by `loop_type`; `none` is NULL.
pub record Handlers : Type 0 where
  pub read_handler : ℕ → Option ℕ
  pub write_handler : ℕ → Option ℕ

pub data Kind : Type 0 where
  in_event : Kind
  out_event : Kind
  other_event : Kind

-- `wmWorkerLoop_set_handler`
pub set_handler : Handlers → Kind → ℕ → Option ℕ → Handlers × Bool
set_handler h in_event type fn = (record h { read_handler = put h.read_handler type fn }, true)
set_handler h out_event type fn = (record h { write_handler = put h.write_handler type fn }, true)
set_handler h other_event type fn = (h, false)

-- `wmWorkerLoop_get_handler`
pub get_handler : Handlers → Kind → ℕ → Option ℕ
get_handler h in_event type = h.read_handler type
get_handler h out_event type = h.write_handler type
get_handler h other_event type = none
