-- ===== src/Connection/Alone.antt =====
-- What `wmConnection_destroy` does where the coroutines that it resumes or starts leave the connection alone.
use warrior_man.Prelude.{ℕ, ◌≡◌, refl, Bool, true, false, Option, none, some, List, []}
use warrior_man.Connection.Life.{
  Status, established, status_closed, Connection, Effect, destroying, destroy_with, destroy,
}

-- A coroutine that leaves the connection alone.
abbrev idle : Connection → Connection × List Effect
idle c = (c, [])

destroying-idle :
    (st : Status) (p : Option ℕ) (b : Bool) (c : Connection)
    → let d = record c { status = st; paused_coro = p; has_on_close = b } in
      destroying idle idle idle st d ≡ destroy d
unfolding destroy
destroying-idle status_closed p b c = refl
destroying-idle established none false c = refl
destroying-idle established none true c = refl
destroying-idle established (some co) false c = refl
destroying-idle established (some co) true c = refl

-- `destroy` is `destroy_with` where the coroutines leave the connection alone.
destroy_with-idle : (c : Connection) → destroy_with idle idle idle c ≡ destroy c
unfolding destroy_with
destroy_with-idle c = destroying-idle c.status c.paused_coro c.has_on_close c
